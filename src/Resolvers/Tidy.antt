-- ===== src/Resolvers/Tidy.antt =====
-- Every resolver is tidy if those that it holds are.
pub mod Slices
pub mod Urls
pub mod Https
use sec_dns.Prelude.{
  ℤ, less_one, ℕ, zero, suc, List, [], ◌∷◌, Text, arith, Option, none, some, Bool, ◌==◌, ==_iff,
  refl, inl, inr, Option-cases, is_some,
}
use sec_dns.Dns.{Library, Msg, Rr, type_aaaa}
use sec_dns.Exec.{Error, Resolve, State, Outcome, ◌>>=◌}
use sec_dns.Exec.Tidy.Retyped.{HasType, head_question-bind-IsTidy, set_qtype-TidyAt}
use sec_dns.Exec.Tidy.{
  Tidy, IsTidy, TidyAt, tidy_rules, pure-IsTidy, if-TidyAt, bind-TidyAt, bind-IsTidy, if-IsTidy,
}
use sec_dns.Resolvers.{
  guard_depth, no_answer, not_exist, Address, address, append_answers, alias, try_each, sequence,
  filter_reply, filter_out_a, filter_out_aaaa, can_resolve_to_a, can_resolve_to_aaaa, hide,
  filter_if, filter_out_a_if_aaaa_presents, filter_out_aaaa_if_a_presents, synthesize, translate,
  Dns64, wants_synthesis, answer_aaaa, dns64, Network, NameServer, Client, Route, Dialled,
  connected, unreachable, dial_panicked, exchange, ask, client_of, route, name_server, request,
  request_all, race, concurrent, insert_at, arrange,
}

-- The calls of the network lead from the worlds of the predicate into its worlds.
pub record Preserves {C W : Type 0} (P : W → Type 0) (net : Network C W) : Type 0 where
  pub dial :
      (c : Client) (r : Route) (ip : List ℕ) (port : ℕ) (w : W) → P w → P (net.dial c r ip port w).1
  pub set_deadline : (c : C) (t : ℤ) (w : W) → P w → P (net.set_deadline c t w)
  pub write_msg : (c : C) (m : Msg) (w : W) → P w → P (net.write_msg c m w).1
  pub read_msg : (c : C) (w : W) → P w → P (net.read_msg c w).1
  pub close : (c : C) (w : W) → P w → P (net.close c w)

module _ {W : Type 0} {P : W → Type 0} where
  pub guard_depth-IsTidy :
      (body : Resolve W) (depth : ℤ) → IsTidy P (body depth) → IsTidy P (guard_depth body depth)
  unfolding guard_depth
  guard_depth-IsTidy body depth h = search tidy_rules

  append_answers-IsTidy : (m : Msg) (out : Outcome) → IsTidy P (append_answers {W = W} m out)
  unfolding append_answers ◌>>=◌
  append_answers-IsTidy m out = record { at = λ s. ground arith }

  filter_reply-IsTidy : (p : Rr → Bool) (out : Outcome) → IsTidy P (filter_reply {W = W} p out)
  unfolding filter_reply ◌>>=◌
  filter_reply-IsTidy p out = record { at = λ s. ground arith }

  synthesize-IsTidy : (prefix : List ℕ) (out : Outcome) → IsTidy P (synthesize prefix {W = W} out)
  unfolding synthesize ◌>>=◌
  synthesize-IsTidy prefix out = record { at = λ s. ground arith }

  ruleset rules = (
    tidy_rules, guard_depth-IsTidy, append_answers-IsTidy, filter_reply-IsTidy, synthesize-IsTidy,
  )

  module _ (dns : Library) where
    pub no_answer-IsTidy : (depth : ℤ) → IsTidy P (no_answer {W = W} dns depth)
    unfolding no_answer
    no_answer-IsTidy depth = search rules

    pub not_exist-IsTidy : (depth : ℤ) → IsTidy P (not_exist {W = W} dns depth)
    unfolding not_exist
    not_exist-IsTidy depth = search rules

    pub address-IsTidy : (addr : Address) (depth : ℤ) → IsTidy P (address {W = W} dns addr depth)
    unfolding address
    address-IsTidy addr depth = search rules

  module _ (dns : Library) (r : Resolve W) (depth : ℤ) (h : IsTidy P (r (less_one depth))) where
    pub alias-IsTidy : (target : Text) → IsTidy P (alias dns target r depth)
    unfolding alias
    alias-IsTidy target = search rules depth 12

    pub filter_out_a-IsTidy : IsTidy P (filter_out_a dns r depth)
    unfolding filter_out_a
    filter_out_a-IsTidy = search rules depth 9

    pub filter_out_aaaa-IsTidy : IsTidy P (filter_out_aaaa dns r depth)
    unfolding filter_out_aaaa
    filter_out_aaaa-IsTidy = search rules depth 9

  module _ (r : Resolve W) (depth : ℤ) (h : IsTidy P (r (less_one depth))) where
    pub can_resolve_to_a-IsTidy : IsTidy P (can_resolve_to_a r depth)
    unfolding can_resolve_to_a
    can_resolve_to_a-IsTidy =
        head_question-bind-IsTidy _ λ q s. set_qtype-TidyAt _ q.qtype _ _ h (λ out. pure-IsTidy _) s

    pub can_resolve_to_aaaa-IsTidy : IsTidy P (can_resolve_to_aaaa r depth)
    unfolding can_resolve_to_aaaa
    can_resolve_to_aaaa-IsTidy =
        head_question-bind-IsTidy _ λ q s. set_qtype-TidyAt _ q.qtype _ _ h (λ out. pure-IsTidy _) s

    filter_if-IsTidy :
        (dns : Library) (t : ℕ) (p : Rr → Bool) (e : Option Error) (b : Bool)
        → IsTidy P (filter_if dns t p r depth e b)
    unfolding filter_if hide
    filter_if-IsTidy dns t p (some e) b = search rules
    filter_if-IsTidy dns t p none b = search rules depth 9

    pub filter_out_a_if_aaaa_presents-IsTidy :
        (dns : Library) → IsTidy P (filter_out_a_if_aaaa_presents dns r depth)
    unfolding filter_out_a_if_aaaa_presents
    filter_out_a_if_aaaa_presents-IsTidy dns =
        search (rules, can_resolve_to_aaaa-IsTidy, filter_if-IsTidy)

    pub filter_out_aaaa_if_a_presents-IsTidy :
        (dns : Library) → IsTidy P (filter_out_aaaa_if_a_presents dns r depth)
    unfolding filter_out_aaaa_if_a_presents
    filter_out_aaaa_if_a_presents-IsTidy dns =
        search (rules, can_resolve_to_a-IsTidy, filter_if-IsTidy)

    translate-TidyAt :
        (prefix : List ℕ) (s : State W)
        → HasType type_aaaa s.query.question
        → TidyAt P (translate prefix r depth) s
    unfolding translate
    translate-TidyAt prefix s has =
        set_qtype-TidyAt _ type_aaaa _ (synthesize prefix) h (synthesize-IsTidy prefix) s has

  module _ (d : Dns64 W) (depth : ℤ) (h : IsTidy P (d.resolver (less_one depth))) where
    translated :
        (s : State W)
        → HasType type_aaaa s.query.question
        → TidyAt P (translate d.prefix d.resolver depth) s
    translated s has = translate-TidyAt d.resolver depth h d.prefix s has

    answer_aaaa-TidyAt :
        (s : State W) → HasType type_aaaa s.query.question → TidyAt P (answer_aaaa d depth) s
    unfolding answer_aaaa
    answer_aaaa-TidyAt s has =
        if-TidyAt _ d.ignore_existing_aaaa _ _ s (λ _. translated s has)
          λ _. bind-TidyAt (d.resolver (less_one depth)) _ s h λ out t e.
            if-TidyAt _ (wants_synthesis out) _ _ t (λ _. translated t (rw e has))
              λ _. (pure-IsTidy out).at t

    pub dns64-IsTidy : IsTidy P (dns64 d depth)
    unfolding dns64
    dns64-IsTidy = guard_depth-IsTidy _ depth (
        head_question-bind-IsTidy _ λ q s has.
          if-TidyAt _ (q.qtype == type_aaaa) _ _ s
            (λ e. answer_aaaa-TidyAt s (rw (← (==_iff q.qtype type_aaaa).0 e) has)) (λ _. h.at s))

  module _ {C : Type 0} (net : Network C W) (k : Preserves P net) (ns : NameServer) where
    exchange-Preserves : (c : C) (q : Msg) (w : W) → P w → P (exchange net c q w).1
    unfolding exchange
    exchange-Preserves c q w p = elim (Option-cases (net.write_msg c q w).0) [
      | inl e ↦ rw (exchange, e) (k.close c _ (k.read_msg c _ (k.write_msg c q w p)))
      | inr (x, e) ↦ rw (exchange, e) (k.close c _ (k.write_msg c q w p))
    ]

    ask-TidyAt :
        (d : Dialled C) (s : State W) (w : W)
        → P w
        → Tidy P s (ask net ns (d, w) s.query).0 (ask net ns (d, w) s.query).1
    ask-TidyAt (connected c) s w p =
        (refl, exchange-Preserves c s.query _ (k.set_deadline c ns.query_timeout w p))
    ask-TidyAt (unreachable e) s w p = (refl, p)
    ask-TidyAt dial_panicked s w p = tt

    pub name_server-IsTidy : (depth : ℤ) → IsTidy P (name_server net ns depth)
    unfolding name_server
    name_server-IsTidy depth = guard_depth-IsTidy _ depth (record {
      at = λ s p.
          ask-TidyAt _ s _
            (k.dial (client_of net ns) (route (client_of net ns)) ns.address ns.port s.world p);
    })
