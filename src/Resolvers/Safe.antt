-- ===== src/Resolvers/Safe.antt =====
-- internal/upstream/resolvers: calls without a panic, of the resolvers that are not in a module below.
pub mod Servers
pub mod Slices
pub mod Https
use sec_dns.Prelude.{
  is_negative, ℤ, less_one, text_eq, ℕ, ◌≤◌, List, [], ◌∷◌, Text, Option, none, some, Bool, true,
  false, ◌==◌, ◌≡◌, refl, is_some, length, if◌then◌else◌,
}
use sec_dns.Dns.{
  Library, Documented, Msg, Question, Rr, first_question, new_msg, type_cname, type_aaaa,
  rcode_name_error,
}
use sec_dns.Exec.{
  Error, Exec, Resolve, State, Outcome, ◌>>=◌, head_question, get_query, pure, fail, reply,
  loop_detected,
}
use sec_dns.Exec.Safe.{
  Asked, HasReply, GoodWith, Good, Any, IsSafe, pure-IsSafe, if-IsSafe, with_query-IsSafe,
  bind-IsSafe, get_query-IsSafe, head_question-IsSafe, set_qtype-IsSafe, fail-IsSafe, reply-IsSafe,
}
use sec_dns.Resolvers.{
  guard_depth, no_answer, not_exist, Address, address, append_answers, alias, is_address_type,
  filter_sections, filter_reply, filter_out_a, filter_out_aaaa, Found, can_resolve_to_a,
  can_resolve_to_aaaa, hide, filter_if, filter_out_a_if_aaaa_presents,
  filter_out_aaaa_if_a_presents, is_no_error_reply, convert_answers, synthesize, translate, Dns64,
  wants_synthesis, answer_aaaa, dns64,
}
use sec_dns.Resolvers.Synthesis.{convert_answers-AllConverted}

module _ (dns : Library) (doc : Documented dns) where
  set_reply-Asked : (m q : Msg) → Asked q.question → Asked (dns.set_reply m q).question
  set_reply-Asked m q asked = rw (doc.question-set_reply m q) (by q.question asked)
    where
      by : (qs : List Question) → Asked qs → Asked (first_question m qs)
      by [] h = absurd h
      by (x ∷ qs) h = tt

module _ {W : Type 0} where
  pub guard_depth-IsSafe :
      (body : Resolve W) (depth : ℤ)
      → IsSafe Good (body depth)
      → IsSafe Good (guard_depth body depth)
  unfolding guard_depth
  guard_depth-IsSafe body depth h =
      if-IsSafe (is_negative depth) (fail loop_detected) (body depth)
        (λ _. fail-IsSafe loop_detected) (λ _. h)

  -- What follows a call: an error is passed on, and a reply is at hand.
  pub by_reply :
      {A : Type 0} (Q : A → Type 0) (k : Option Error → Option Msg → Exec W A)
      → ((e : Error) (o : Option Msg) → IsSafe Q (k (some e) o))
      → ((m : Msg) → Asked m.question → IsSafe Q (k none (some m)))
      → (e : Option Error) (o : Option Msg) → GoodWith e o
      → IsSafe Q (k e o)
  by_reply Q k he hm (some e) o h = he e o
  by_reply Q k he hm none (some m) h = hm m h
  by_reply Q k he hm none none h = absurd h

  append_answers-IsSafe :
      (msg : Msg) (out : Outcome)
      → Asked msg.question
      → Good out
      → IsSafe Good (append_answers {W = W} msg out)
  unfolding append_answers
  append_answers-IsSafe msg out asked h =
      by_reply Good (λ e o. append_answers msg (record { msg = o; err = e })) (λ e o. fail-IsSafe e)
        (λ m has. reply-IsSafe _ asked) out.err out.msg h.good

  filter_reply-IsSafe :
      (p : Rr → Bool) (out : Outcome) → Good out → IsSafe Good (filter_reply {W = W} p out)
  unfolding filter_reply filter_sections
  filter_reply-IsSafe p out h =
      by_reply Good (λ e o. filter_reply p (record { msg = o; err = e })) (λ e o. fail-IsSafe e)
        (λ m has. reply-IsSafe _ has) out.err out.msg h.good

  module _ (dns : Library) (doc : Documented dns) where
    replied-IsSafe :
        IsSafe Good (get_query {W = W} >>= λ query. reply (dns.set_reply new_msg query))
    replied-IsSafe =
        bind-IsSafe _ _ _ get_query-IsSafe
          λ q asked. reply-IsSafe _ (set_reply-Asked dns doc new_msg q asked)

    pub no_answer-IsSafe : (depth : ℤ) → IsSafe Good (no_answer {W = W} dns depth)
    unfolding no_answer
    no_answer-IsSafe depth = guard_depth-IsSafe _ depth replied-IsSafe

    pub not_exist-IsSafe : (depth : ℤ) → IsSafe Good (not_exist {W = W} dns depth)
    unfolding not_exist
    not_exist-IsSafe depth = guard_depth-IsSafe _ depth (
        bind-IsSafe _ _ _ get_query-IsSafe λ q asked. reply-IsSafe _ (
          rw (doc.set_rcode_lem new_msg q rcode_name_error)
            (set_reply-Asked dns doc new_msg q asked)))

    pub address-IsSafe : (addr : Address) (depth : ℤ) → IsSafe Good (address {W = W} dns addr depth)
    unfolding address
    address-IsSafe addr depth = guard_depth-IsSafe _ depth (
        bind-IsSafe _ _ _ get_query-IsSafe λ query asked.
          bind-IsSafe _ _ _ head_question-IsSafe
            λ q any. reply-IsSafe _ (set_reply-Asked dns doc new_msg query asked))

    module _ (r : Resolve W) (depth : ℤ) (h : IsSafe Good (r (less_one depth))) where
      pub alias-IsSafe : (target : Text) → IsSafe Good (alias dns target r depth)
      unfolding alias
      alias-IsSafe target = guard_depth-IsSafe _ depth (
          bind-IsSafe _ _ _ head_question-IsSafe λ q any.
            bind-IsSafe _ _ _ get_query-IsSafe λ query asked.
              let has : Asked (dns.set_reply new_msg query).question =
                set_reply-Asked dns doc new_msg query asked in
              if-IsSafe (text_eq target q.name) _ _ (λ _. fail-IsSafe _)
                λ _.
                  if-IsSafe (is_address_type q.qtype) _ _
                    (λ _.
                      bind-IsSafe _ _ _ (with_query-IsSafe _ _ (asks target q.qtype) h)
                        λ out good. append_answers-IsSafe _ out has good)
                    (λ _.
                      if-IsSafe (q.qtype == type_cname) _ _ (λ _. reply-IsSafe _ has)
                        (λ _. reply-IsSafe _ has)))
        where
          asks : (z : Text) (t : ℕ) → Asked (dns.set_question new_msg z t).question
          asks z t = rw (doc.question-set_question new_msg z t) tt

      hide-IsSafe : (t : ℕ) (p : Rr → Bool) → IsSafe Good (hide dns t p r depth)
      unfolding hide
      hide-IsSafe t p = bind-IsSafe _ _ _ head_question-IsSafe λ q any.
          if-IsSafe (q.qtype == t) _ _ (λ _. replied-IsSafe)
            (λ _. bind-IsSafe _ _ _ h λ out good. filter_reply-IsSafe p out good)

      pub filter_out_a-IsSafe : IsSafe Good (filter_out_a dns r depth)
      unfolding filter_out_a hide
      filter_out_a-IsSafe = guard_depth-IsSafe _ depth (hide-IsSafe _ _)

      pub filter_out_aaaa-IsSafe : IsSafe Good (filter_out_aaaa dns r depth)
      unfolding filter_out_aaaa hide
      filter_out_aaaa-IsSafe = guard_depth-IsSafe _ depth (hide-IsSafe _ _)

      pub can_resolve_to_a-IsSafe : IsSafe Any (can_resolve_to_a r depth)
      unfolding can_resolve_to_a
      can_resolve_to_a-IsSafe = bind-IsSafe _ _ _ head_question-IsSafe λ q any.
          bind-IsSafe _ _ _ (set_qtype-IsSafe _) λ x any.
            bind-IsSafe _ _ _ h
              λ out good. bind-IsSafe _ _ _ (set_qtype-IsSafe _) λ x any. pure-IsSafe _ tt

      pub can_resolve_to_aaaa-IsSafe : IsSafe Any (can_resolve_to_aaaa r depth)
      unfolding can_resolve_to_aaaa
      can_resolve_to_aaaa-IsSafe = bind-IsSafe _ _ _ head_question-IsSafe λ q any.
          bind-IsSafe _ _ _ (set_qtype-IsSafe _) λ x any.
            bind-IsSafe _ _ _ h
              λ out good. bind-IsSafe _ _ _ (set_qtype-IsSafe _) λ x any. pure-IsSafe _ tt

      filter_if-IsSafe :
          (t : ℕ) (p : Rr → Bool) (e : Option Error) (b : Bool)
          → IsSafe Good (filter_if dns t p r depth e b)
      unfolding filter_if
      filter_if-IsSafe t p (some e) b = fail-IsSafe e
      filter_if-IsSafe t p none b = if-IsSafe b _ _ (λ _. hide-IsSafe t p) (λ _. h)

      pub filter_out_a_if_aaaa_presents-IsSafe :
          IsSafe Good (filter_out_a_if_aaaa_presents dns r depth)
      unfolding filter_out_a_if_aaaa_presents
      filter_out_a_if_aaaa_presents-IsSafe = guard_depth-IsSafe _ depth (
          bind-IsSafe _ _ _ can_resolve_to_aaaa-IsSafe
            λ f any. filter_if-IsSafe _ _ f.err f.present)

      pub filter_out_aaaa_if_a_presents-IsSafe :
          IsSafe Good (filter_out_aaaa_if_a_presents dns r depth)
      unfolding filter_out_aaaa_if_a_presents
      filter_out_aaaa_if_a_presents-IsSafe =
          guard_depth-IsSafe _ depth (
            bind-IsSafe _ _ _ can_resolve_to_a-IsSafe λ f any. filter_if-IsSafe _ _ f.err f.present)
