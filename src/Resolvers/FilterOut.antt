-- ===== src/Resolvers/FilterOut.antt =====
-- resolvers/filter/out/a and resolvers/filter/out/aaaa: replies without records of one type.
use sec_dns.Prelude.{none, some, Bool, not, ◌==◌, less_one, if◌then◌else◌}
use sec_dns.Dns.{Rr, Msg, is_a, is_aaaa, Library, new_msg, type_a, type_aaaa}
use sec_dns.Exec.{Exec, Resolve, Outcome, ◌>>=◌, get_query, head_question, panic, fail, reply}
use sec_dns.Common.{filter_resource_records}
use sec_dns.Resolvers.Guard.{guard_depth}

-- the three assignments through `common.FilterResourceRecords`
unfoldable pub filter_sections : (Rr → Bool) → Msg → Msg
unfolding filter_resource_records
filter_sections predicate m = record m {
  answer = filter_resource_records m.answer predicate;
  ns = filter_resource_records m.ns predicate;
  extra = filter_resource_records m.extra predicate;
}

abbrev pub not_a : Rr → Bool
not_a rr = not (is_a rr)

abbrev pub not_aaaa : Rr → Bool
not_aaaa rr = not (is_aaaa rr)

-- From the reply of the upstream resolver on; a nil reply without an error panics.
unfoldable pub filter_reply : {W : Type 0} → (Rr → Bool) → Outcome → Exec W Outcome
unfolding filter_sections
filter_reply predicate out = elim out.err [
  | some e ↦ fail e
  | none ↦ elim out.msg [ none ↦ panic | some m ↦ reply (filter_sections predicate m) ]
]

module _ {W : Type 0} (dns : Library) where
  unfoldable pub filter_out_a : Resolve W → Resolve W
  filter_out_a resolver = guard_depth λ depth. do
    q ← head_question
    if q.qtype == type_a
        then (do query ← get_query; reply (dns.set_reply new_msg query))
        else (do out ← resolver (less_one depth); filter_reply not_a out)

  unfoldable pub filter_out_aaaa : Resolve W → Resolve W
  filter_out_aaaa resolver = guard_depth λ depth. do
    q ← head_question
    if q.qtype == type_aaaa
        then (do query ← get_query; reply (dns.set_reply new_msg query))
        else (do out ← resolver (less_one depth); filter_reply not_aaaa out)
