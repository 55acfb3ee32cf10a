-- ===== src/Core/Order.antt =====
-- internal/core/instance.go: what the method Resolve of the instance does for a query, as a whole.
use sec_dns.Prelude.{
  ℕ, ◌≡◌, refl, ap, fun_ext, ◌∙◌, List, ◌∷◌, ◌++◌, Text, Option, none, some, Bool, true, false, not,
  ℤ, pos, less_one, lookup, has_byte, length-split, split, if◌then◌else◌,
}
use sec_dns.Dns.{Msg, Question}
use sec_dns.Exec.{
  State, Error, Exec, Resolve, Outcome, ◌>>=◌, pure, fail, reply, invalid_domain_name,
}
use sec_dns.Common.{quote}
use sec_dns.Resolvers.{guard_depth}
use sec_dns.Core.{Instance, dot_byte, answered, try_exact, resolve_name, resolve_instance}
use sec_dns.Core.Precedence.{rules_for, first_of, try_levels-eq-first_of}
use sec_dns.Core.Suffixes.{names_for, suffixes-split}

if-not : {A : Type 0} (b : Bool) (x y : A) → (if not b then x else y) ≡ (if b then y else x)
if-not true x y = refl
if-not false x y = refl

module _ {W : Type 0} where
  -- The rule for the very name, if there is one and it gives a message without an error.
  abbrev pub exactly : Option (Resolve W) → ℤ → Exec W Outcome → Exec W Outcome
  exactly none depth rest = rest
  exactly (some r) depth rest = do
    out ← r (less_one depth)
    elim out.err [ some e ↦ rest | none ↦ elim out.msg [ none ↦ rest | some m ↦ reply m ] ]

  try_exact-eq :
      (o : Option (Resolve W)) (depth : ℤ) (rest : Exec W Outcome)
      → try_exact o depth rest ≡ exactly o depth rest
  unfolding try_exact
  try_exact-eq none depth rest = refl
  try_exact-eq (some r) depth rest =
      ap (λ (k : Outcome → Exec W Outcome). r (less_one depth) >>= k)
        (fun_ext (λ out. by out.msg out.err))
    where
      by :
          (m : Option Msg) (e : Option Error)
          → (if answered (record { msg = m; err = e })
              then pure (record { msg = m; err = none })
              else rest)
            ≡ elim e [ some x ↦ rest | none ↦ elim m [ none ↦ rest | some x ↦ reply x ] ]
      by m (some x) = refl
      by none none = refl
      by (some x) none = refl

  named-eq :
      (rules : List (Text × Resolve W)) (default : Option (Resolve W)) (depth : ℤ) (name : Text)
      → resolve_name rules default depth name ≡ (
          if has_byte dot_byte name
          then exactly
              (lookup (quote ++ (name ++ quote)) rules)
              depth
              (first_of (rules_for rules (names_for name)) default depth)
          else fail invalid_domain_name)
  unfolding resolve_name
  named-eq rules default depth name =
      rw
        (
          length-split dot_byte name,
          try_levels-eq-first_of rules default depth (split dot_byte name),
          suffixes-split name,
        )
        (if-not (has_byte dot_byte name) _ _
          ∙ ap
              (λ (m : Exec W Outcome).
                if has_byte dot_byte name then m else fail invalid_domain_name)
              (try_exact-eq _ depth _))

  -- What the instance does for the first question of a query, at a depth not below 0: a name
  -- without a dot is an error. Otherwise the rule for the name in quotes is asked; a message without
  -- an error is returned. Then the rules for the name itself and for what stands behind each of its
  -- dots but the last, the longest first: the first that returns no error is taken. Then the default
  -- resolver is asked, and its message or its error is returned.
  pub resolve_instance-eq-first_of :
      {L : Type 0} (i : Instance L W) (n : ℕ) (s : State W) (q : Question) (qs : List Question)
      → s.query.question ≡ q ∷ qs
      → resolve_instance i (pos n) s
        ≡ (if has_byte dot_byte q.name
              then exactly (lookup (quote ++ (q.name ++ quote)) i.name_resolver_map) (pos n) (
                  first_of
                    (rules_for i.name_resolver_map (names_for q.name))
                    i.default_resolver
                    (pos n))
              else fail invalid_domain_name)
            s
  unfolding resolve_instance guard_depth ◌>>=◌
  resolve_instance-eq-first_of i n s q qs e =
      let start : resolve_instance i (pos n) s
          ≡ resolve_name i.name_resolver_map i.default_resolver (pos n) q.name s =
        rw e refl in
      start
      ∙ ap (λ (m : Exec W Outcome). m s)
          (named-eq i.name_resolver_map i.default_resolver (pos n) q.name)
