-- ===== src/Resolvers/Translation.antt =====
-- resolvers/dns64/types.go: AAAA records made of A records.
use sec_dns.Prelude.{
  ℕ, suc, Option, none, some, Bool, false, ◌&&◌, not, ◌||◌, List, [], ◌∷◌, ◌++◌, length, take, drop,
  ◌==◌, ltb, ℤ, less_one, is_some, if◌then◌else◌, text_eq,
}
use sec_dns.Dns.{Header, Rr, a, aaaa, Msg, Question, type_a, type_aaaa}
use sec_dns.Exec.{
  Exec, Resolve, Outcome, ◌>>=◌, ◌>>◌, head_question, set_qtype, retype, panic, fail, reply, pure,
}
use sec_dns.Resolvers.Guard.{guard_depth}
use sec_dns.Resolvers.FilterIf.{is_no_error_reply, has_aaaa}

-- Go's copy(dst, src)
abbrev pub copy : List ℕ → List ℕ → List ℕ
copy [] src = []
copy (d ∷ dst) [] = d ∷ dst
copy (d ∷ dst) (b ∷ src) = b ∷ copy dst src

abbrev pub zeros : ℕ → List ℕ
zeros n = elim n [ ℕ.zero ↦ [] | suc (m → ih) ↦ 0 ∷ ih ]

-- net.IP.To4: four bytes, or nil
abbrev pub to4 : List ℕ → List ℕ
to4 ip =
    if length ip == 4
    then ip
    else if length ip == 16 && text_eq (take 12 ip) (zeros 10 ++ 255 ∷ 255 ∷ [])
    then drop 12 ip
    else []

module _ (prefix : List ℕ) where
  -- `none` is the panic of `d.Prefix[0:12]` on a shorter prefix.
  unfoldable pub ipv4_to_ipv6 : List ℕ → Option (List ℕ)
  ipv4_to_ipv6 ipv4 =
      let ipv6 = copy (zeros 16) (take 12 prefix) in
      if ltb (length prefix) 12 then none else some (take 12 ipv6 ++ copy (drop 12 ipv6) (to4 ipv4))

  unfoldable pub a_to_aaaa : Header → List ℕ → Option Rr
  a_to_aaaa h ipv4 = elim (ipv4_to_ipv6 ipv4) [
    | none ↦ none
    | some ipv6 ↦ some (aaaa (record h { rrtype = type_aaaa }) ipv6)
  ]

  -- one round of the loop over `reply.Answer`
  unfoldable pub convert_record : Rr → Option Rr
  convert_record (a h ip) = a_to_aaaa h ip
  convert_record rr = some rr

  abbrev cons_converted : Option Rr → Option (List Rr) → Option (List Rr)
  cons_converted none rest = none
  cons_converted (some rr) none = none
  cons_converted (some rr) (some rs) = some (rr ∷ rs)

  unfoldable pub convert_answers : List Rr → Option (List Rr)
  convert_answers [] = some []
  convert_answers (rr ∷ rs) = cons_converted (convert_record rr) (convert_answers rs)

  -- From `reply.Question[0].Qtype = dns.TypeAAAA` on; a nil reply or one without a question panics.
  abbrev pub retyped : {W : Type 0} → Msg → Exec W Outcome
  retyped m =
      if is_no_error_reply (some m)
      then elim (convert_answers m.answer) [
        | none ↦ panic
        | some rs ↦ reply (record m { answer = rs })
      ]
      else reply m

  abbrev pub with_question : {W : Type 0} → Msg → List Question → Exec W Outcome
  with_question m [] = panic
  with_question m (q ∷ qs) = retyped (record m { question = retype type_aaaa (q ∷ qs) })

  unfoldable pub synthesize : {W : Type 0} → Outcome → Exec W Outcome
  unfolding is_no_error_reply convert_answers
  synthesize out = elim out.err [
    | some e ↦ fail e
    | none ↦ elim out.msg [ none ↦ panic | some m ↦ with_question m m.question ]
  ]

  -- the private method `dns64`
  unfoldable pub translate : {W : Type 0} → Resolve W → ℤ → Exec W Outcome
  translate resolver depth = do
    set_qtype type_a
    out ← resolver (less_one depth)
    set_qtype type_aaaa
    synthesize out

abbrev has_no_aaaa : Option Msg → Bool
has_no_aaaa none = false
has_no_aaaa (some m) = not (has_aaaa m)

-- `err != nil || !isNoErrorReply(reply) || !hasAAAA(reply)`
unfoldable pub wants_synthesis : Outcome → Bool
unfolding is_no_error_reply has_aaaa
wants_synthesis out = is_some out.err || (not (is_no_error_reply out.msg) || has_no_aaaa out.msg)

pub record Dns64 (W : Type 0) : Type 0 where
  pub resolver : Resolve W
  pub prefix : List ℕ
  pub ignore_existing_aaaa : Bool

-- The case of `dns.TypeAAAA`.
unfoldable pub answer_aaaa : {W : Type 0} → Dns64 W → Resolve W
answer_aaaa d depth = if d.ignore_existing_aaaa then translate d.prefix d.resolver depth else (do
  out ← d.resolver (less_one depth)
  if wants_synthesis out then translate d.prefix d.resolver depth else pure out)

unfoldable pub dns64 : {W : Type 0} → Dns64 W → Resolve W
dns64 d = guard_depth λ depth. do
  q ← head_question
  if q.qtype == type_aaaa then answer_aaaa d depth else d.resolver (less_one depth)
