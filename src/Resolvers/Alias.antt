-- ===== src/Resolvers/Alias.antt =====
-- resolvers/alias/types.go: replies with a CNAME, and with what the alias resolves to.
use sec_dns.Prelude.{
  ℕ, none, some, Bool, ◌||◌, [], ◌∷◌, ◌++◌, Text, text_eq, ◌==◌, less_one, if◌then◌else◌,
}
use sec_dns.Dns.{cname, Msg, Library, new_msg, type_a, type_aaaa, type_cname}
use sec_dns.Exec.{
  Exec, Resolve, Outcome, ◌>>=◌, get_query, head_question, with_query, panic, fail, reply,
  alias_same_as_name,
}
use sec_dns.Resolvers.Guard.{guard_depth}
use sec_dns.Resolvers.Addresses.{header_of}

-- A, AAAA: the inner `switch qType`
abbrev pub is_address_type : ℕ → Bool
is_address_type qtype = qtype == type_a || qtype == type_aaaa

-- `msg.Answer = append(msg.Answer, r.Answer...)`; a nil `r` panics
unfoldable pub append_answers : {W : Type 0} → Msg → Outcome → Exec W Outcome
append_answers msg out = elim out.err [
  | some e ↦ fail e
  | none ↦ elim out.msg [
    | none ↦ panic
    | some r ↦ reply (record msg { answer = msg.answer ++ r.answer })
  ]
]

module _ {W : Type 0} (dns : Library) where
  unfoldable pub alias : Text → Resolve W → Resolve W
  alias target resolver = guard_depth λ depth. do
    q ← head_question
    query ← get_query
    let msg = dns.set_reply new_msg query
    let chained = record msg {
      answer = msg.answer ++ cname (header_of q.name type_cname) target ∷ [];
    }
    if text_eq target q.name
        then fail alias_same_as_name
        else if is_address_type q.qtype
        then (do
          out ← with_query (dns.set_question new_msg target q.qtype) (resolver (less_one depth))
          append_answers chained out)
        else if q.qtype == type_cname
        then reply chained
        else reply msg
