-- ===== src/Resolvers/FilterIf.antt =====
-- resolvers/filter/out/aaaa/if/a/presents and resolvers/filter/out/a/if/aaaa/presents: records of
-- one family are filtered out if the name has records of the other.
use sec_dns.Prelude.{
  ℕ, Option, none, some, Bool, false, ◌&&◌, any, ◌==◌, ℤ, less_one, if◌then◌else◌,
}
use sec_dns.Dns.{Rr, Msg, is_a, is_aaaa, Library, new_msg, type_a, type_aaaa, rcode_success}
use sec_dns.Exec.{
  Error, Exec, Resolve, Outcome, ◌>>=◌, ◌>>◌, pure, get_query, head_question, set_qtype, fail,
  reply,
}
use sec_dns.Resolvers.Guard.{guard_depth}
use sec_dns.Resolvers.FilterOut.{filter_reply, not_a, not_aaaa}

unfoldable pub is_no_error_reply : Option Msg → Bool
is_no_error_reply none = false
is_no_error_reply (some m) = m.response && m.rcode == rcode_success

unfoldable pub has_a : Msg → Bool
has_a m = any is_a m.answer

unfoldable pub has_aaaa : Msg → Bool
has_aaaa m = any is_aaaa m.answer

-- `isNoErrorReply(reply) && has(reply)`
abbrev pub no_error_with : (Msg → Bool) → Option Msg → Bool
no_error_with has none = false
no_error_with has (some m) = is_no_error_reply (some m) && has m

-- What the two methods return: (bool, error).
pub record Found : Type 0 where
  pub present : Bool
  pub err : Option Error

abbrev pub found : (Msg → Bool) → Outcome → Found
found has out = elim out.err [
  | some e ↦ record { present = false; err = some e }
  | none ↦ record { present = no_error_with has out.msg; err = none }
]

module _ {W : Type 0} where
  unfoldable pub can_resolve_to_a : Resolve W → ℤ → Exec W Found
  unfolding is_no_error_reply has_a
  can_resolve_to_a resolver depth = do
    q ← head_question
    set_qtype type_a
    out ← resolver (less_one depth)
    set_qtype q.qtype
    pure (found has_a out)

  unfoldable pub can_resolve_to_aaaa : Resolve W → ℤ → Exec W Found
  unfolding is_no_error_reply has_aaaa
  can_resolve_to_aaaa resolver depth = do
    q ← head_question
    set_qtype type_aaaa
    out ← resolver (less_one depth)
    set_qtype q.qtype
    pure (found has_aaaa out)

module _ {W : Type 0} (dns : Library) where
  -- The `switch` after a positive look-up: `hidden` is the type whose records are filtered out.
  unfoldable pub hide : ℕ → (Rr → Bool) → Resolve W → ℤ → Exec W Outcome
  hide hidden predicate resolver depth = do
    q ← head_question
    if q.qtype == hidden
        then (do query ← get_query; reply (dns.set_reply new_msg query))
        else (do out ← resolver (less_one depth); filter_reply predicate out)

  -- From the result of the look-up on.
  unfoldable pub filter_if : ℕ → (Rr → Bool) → Resolve W → ℤ → Option Error → Bool → Exec W Outcome
  filter_if hidden predicate resolver depth (some e) present = fail e
  filter_if hidden predicate resolver depth none present =
      if present then hide hidden predicate resolver depth else resolver (less_one depth)

  unfoldable pub filter_out_aaaa_if_a_presents : Resolve W → Resolve W
  filter_out_aaaa_if_a_presents resolver = guard_depth λ depth. do
    f ← can_resolve_to_a resolver depth
    filter_if type_aaaa not_aaaa resolver depth f.err f.present

  unfoldable pub filter_out_a_if_aaaa_presents : Resolve W → Resolve W
  filter_out_a_if_aaaa_presents resolver = guard_depth λ depth. do
    f ← can_resolve_to_aaaa resolver depth
    filter_if type_a not_a resolver depth f.err f.present
