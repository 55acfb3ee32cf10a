-- ===== src/Resolvers/Safe/Servers.antt =====
-- dns64/types.go and nameserver/types.go: calls without a panic.
use sec_dns.Prelude.{
  ℤ, less_one, ℕ, ◌≤◌, List, [], ◌∷◌, none, some, ◌==◌, length, inl, inr, Option-cases,
}
use sec_dns.Dns.{Msg, Question, type_aaaa}
use sec_dns.Exec.{Resolve, State, Outcome, retype}
use sec_dns.Exec.Safe.{
  Asked, Good, Safe, IsSafe, pure-IsSafe, if-IsSafe, bind-IsSafe, head_question-IsSafe,
  set_qtype-IsSafe, fail-IsSafe, reply-IsSafe,
}
use sec_dns.Resolvers.{
  is_no_error_reply, retyped, with_question, tcp_addr, udp_addr, received, synthesize, translate,
  Dns64, wants_synthesis, answer_aaaa, dns64, Network, NameServer, Client, Route, Dialled,
  connected, unreachable, dial_panicked, Received, got, lost, no_addr, exchange, ask, client_of,
  route, name_server,
}
use sec_dns.Resolvers.Synthesis.{convert_answers-AllConverted}
use sec_dns.Resolvers.Safe.{guard_depth-IsSafe, by_reply}

module _ {W : Type 0} (prefix : List ℕ) (long : 12 ≤ length prefix) where
  retyped-IsSafe : (m : Msg) → Asked m.question → IsSafe Good (retyped prefix {W = W} m)
  retyped-IsSafe m asked =
      let (new, converts, all) = convert_answers-AllConverted prefix long m.answer in
      if-IsSafe (is_no_error_reply (some m)) _ _ (λ _. rw converts (reply-IsSafe _ asked))
        λ _. reply-IsSafe m asked

  with_question-IsSafe :
      (m : Msg) (qs : List Question) → Asked qs → IsSafe Good (with_question prefix {W = W} m qs)
  with_question-IsSafe m [] asked = absurd asked
  with_question-IsSafe m (q ∷ qs) asked =
      retyped-IsSafe (record m { question = retype type_aaaa (q ∷ qs) }) tt

  synthesize-IsSafe : (out : Outcome) → Good out → IsSafe Good (synthesize prefix {W = W} out)
  unfolding synthesize
  synthesize-IsSafe out h =
      by_reply Good (λ e o. synthesize prefix (record { msg = o; err = e })) (λ e o. fail-IsSafe e)
        (λ m asked. with_question-IsSafe m m.question asked) out.err out.msg h.good

  module _ (r : Resolve W) (depth : ℤ) (h : IsSafe Good (r (less_one depth))) where
    translate-IsSafe : IsSafe Good (translate prefix r depth)
    unfolding translate
    translate-IsSafe = bind-IsSafe _ _ _ (set_qtype-IsSafe _) λ x any.
        bind-IsSafe _ _ _ h
          λ out good. bind-IsSafe _ _ _ (set_qtype-IsSafe _) λ x any. synthesize-IsSafe out good

module _ {W : Type 0} (d : Dns64 W) (depth : ℤ) (long : 12 ≤ length d.prefix)
    (h : IsSafe Good (d.resolver (less_one depth))) where
  answer_aaaa-IsSafe : IsSafe Good (answer_aaaa d depth)
  unfolding answer_aaaa
  answer_aaaa-IsSafe =
      let translated = translate-IsSafe d.prefix long d.resolver depth h in
      if-IsSafe d.ignore_existing_aaaa _ _ (λ _. translated)
        λ _. bind-IsSafe _ _ _ h λ out good.
          if-IsSafe (wants_synthesis out) _ _ (λ _. translated) (λ _. pure-IsSafe out good)

  pub dns64-IsSafe : IsSafe Good (dns64 d depth)
  unfolding dns64
  dns64-IsSafe = guard_depth-IsSafe _ depth (
      bind-IsSafe _ _ _ head_question-IsSafe
        λ q any. if-IsSafe (q.qtype == type_aaaa) _ _ (λ _. answer_aaaa-IsSafe) (λ _. h))

-- The dial closures read the local address of a client with a proxy: it must be there.
abbrev pub CanDial : Client → Type 0
CanDial c = elim c.proxy [
  | none ↦ Unit
  | some p ↦ elim c.local_addr [ no_addr ↦ ⊥ | tcp_addr ip ↦ Unit | udp_addr ip ↦ Unit ]
]

abbrev pub Dials : {C : Type 0} → Dialled C → Type 0
Dials (connected c) = Unit
Dials (unreachable e) = Unit
Dials dial_panicked = ⊥

abbrev pub Echoes : Received → Type 0
Echoes (got m) = Asked m.question
Echoes (lost e) = Unit

-- What is expected of the network: a client whose local address is there is dialled without a
-- panic, and a server that replies copies the question (RFC 1035, 4.1.1 and RFC 9619).
pub record Reliable {C W : Type 0} (net : Network C W) : Type 0 where
  pub dials :
      (c : Client) (r : Route) (ip : List ℕ) (port : ℕ) (w : W)
      → CanDial c
      → Dials (net.dial c r ip port w).0
  pub echoes : (c : C) (w : W) → Echoes (net.read_msg c w).0

module _ {C W : Type 0} (net : Network C W) (k : Reliable net) (ns : NameServer) where
  received-Good : (x : Received) → Echoes x → Good (received net x)
  received-Good (got m) h = record { good = h }
  received-Good (lost e) h = record { good = tt }

  exchange-Good : (c : C) (q : Msg) (w : W) → Good (exchange net c q w).0
  unfolding exchange
  exchange-Good c q w = elim (Option-cases (net.write_msg c q w).0) [
    | inl e ↦ rw (exchange, e) (received-Good _ (k.echoes c _))
    | inr (x, e) ↦ rw (exchange, e) (record { good = tt })
  ]

  ask-Safe :
      (d : Dialled C) (w : W) (s : State W)
      → Dials d
      → Asked s.query.question
      → Safe Good (ask net ns (d, w) s.query).0 (ask net ns (d, w) s.query).1
  ask-Safe (connected c) w s h asked = (asked, exchange-Good c s.query _)
  ask-Safe (unreachable e) w s h asked = (asked, record { good = tt })
  ask-Safe dial_panicked w s h asked = h

  pub name_server-IsSafe :
      CanDial (client_of net ns) → (depth : ℤ) → IsSafe Good (name_server net ns depth)
  unfolding name_server
  name_server-IsSafe able depth = guard_depth-IsSafe _ depth (record {
    at = λ s asked.
        ask-Safe
          (net.dial (client_of net ns) (route (client_of net ns)) ns.address ns.port s.world).0 _ s
          (k.dials (client_of net ns) (route (client_of net ns)) ns.address ns.port s.world able)
          asked;
  })
