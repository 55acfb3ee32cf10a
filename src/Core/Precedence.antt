-- ===== src/Core/Precedence.antt =====
-- Which resolver the instance asks, in which order.
use sec_dns.Prelude.{
  List, [], ◌∷◌, Text, Option, none, some, ◌≡◌, refl, ap, fun_ext, ℤ, less_one, lookup, join,
  is_some, if◌then◌else◌,
}
use sec_dns.Dns.{Msg}
use sec_dns.Exec.{Error, Exec, Resolve, Outcome, ◌>>=◌, pure, panic, fail}
use sec_dns.Core.{dot_byte, msg_or_err, ask_default, try_level, try_levels}
use sec_dns.Core.Suffixes.{suffixes}

module _ {W : Type 0} where
  -- The resolvers of the rules that there are for these names.
  abbrev pub rules_for : List (Text × Resolve W) → List Text → List (Resolve W)
  rules_for rules [] = []
  rules_for rules (n ∷ ns) = elim (lookup n rules) [
    | none ↦ rules_for rules ns
    | some r ↦ r ∷ rules_for rules ns
  ]

  -- The last resort: a default resolver gives its message or its error; without one it panics.
  abbrev pub at_last : Option (Resolve W) → ℤ → Exec W Outcome
  at_last none depth = panic
  at_last (some r) depth = do
    out ← r (less_one depth)
    elim out.err [ some e ↦ fail e | none ↦ pure (record { msg = out.msg; err = none }) ]

  ask_default-eq :
      (default : Option (Resolve W)) (depth : ℤ) → ask_default default depth ≡ at_last default depth
  unfolding ask_default
  ask_default-eq none depth = refl
  ask_default-eq (some r) depth =
      ap (λ (k : Outcome → Exec W Outcome). r (less_one depth) >>= k)
        (fun_ext (λ out. by out.msg out.err))
    where
      by :
          (m : Option Msg) (e : Option Error)
          → pure {W = W} (msg_or_err m e)
            ≡ elim e [ some x ↦ fail x | none ↦ pure (record { msg = m; err = none }) ]
      by m (some x) = refl
      by m none = refl

  -- The first of these that returns no error, and then the default resolver.
  abbrev pub first_of : List (Resolve W) → Option (Resolve W) → ℤ → Exec W Outcome
  first_of [] default depth = at_last default depth
  first_of (r ∷ rs) default depth = do
    out ← r (less_one depth)
    if is_some out.err
        then first_of rs default depth
        else pure (record { msg = out.msg; err = none })

  -- The loop over the labels, and what comes after it.
  pub try_levels-eq-first_of :
      (rules : List (Text × Resolve W)) (default : Option (Resolve W)) (depth : ℤ)
      (labels : List Text)
      → try_levels rules default depth labels
        ≡ first_of (rules_for rules (suffixes labels)) default depth
  unfolding try_levels try_level
  try_levels-eq-first_of rules default depth [] = ask_default-eq default depth
  try_levels-eq-first_of rules default depth (l ∷ []) = ask_default-eq default depth
  try_levels-eq-first_of rules default depth (l ∷ m ∷ ls) =
      rw (try_levels-eq-first_of rules default depth (m ∷ ls))
        (level (lookup (join dot_byte (l ∷ m ∷ ls)) rules))
    where
      level :
          (found : Option (Resolve W))
          → try_level found depth (first_of (rules_for rules (suffixes (m ∷ ls))) default depth)
            ≡ first_of
                (elim found [
                  | none ↦ rules_for rules (suffixes (m ∷ ls))
                  | some r ↦ r ∷ rules_for rules (suffixes (m ∷ ls))
                ])
                default
                depth
      level none = refl
      level (some r) = refl
