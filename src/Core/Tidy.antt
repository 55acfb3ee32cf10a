-- ===== src/Core/Tidy.antt =====
-- The instance is tidy if the resolvers of its rules and its default resolver are.
use sec_dns.Prelude.{
  ℤ, less_one, List, [], ◌∷◌, ◌++◌, Text, Option, none, some, lookup, is_some, text_eq, ltb, split,
  Bool, true, false, if◌then◌else◌, length, join,
}
use sec_dns.Exec.{Exec, Resolve, Outcome}
use sec_dns.Exec.Tidy.{
  IsTidy, bind-IsTidy, if-IsTidy, pure-IsTidy, panic-IsTidy, head_question-IsTidy,
}
use sec_dns.Common.{quote}
use sec_dns.Resolvers.Tidy.{guard_depth-IsTidy}
use sec_dns.Core.{
  Instance, dot_byte, ask_default, try_level, try_levels, answered, try_exact, resolve_name,
  resolve_instance,
}

module _ {W : Type 0} (P : W → Type 0) where
  abbrev pub TidyRules : ℤ → List (Text × Resolve W) → Type 0
  TidyRules d [] = Unit
  TidyRules d ((name, r) ∷ rules) = IsTidy P (r d) × TidyRules d rules

  abbrev pub TidyOption : ℤ → Option (Resolve W) → Type 0
  TidyOption d none = Unit
  TidyOption d (some r) = IsTidy P (r d)

  TidyOption-if :
      (d : ℤ) (b : Bool) (r : Resolve W) (o : Option (Resolve W))
      → IsTidy P (r d)
      → TidyOption d o
      → TidyOption d (if b then some r else o)
  TidyOption-if d true r o h k = h
  TidyOption-if d false r o h k = k

  TidyOption-lookup :
      (d : ℤ) (name : Text) (rules : List (Text × Resolve W))
      → TidyRules d rules
      → TidyOption d (lookup name rules)
  unfolding lookup
  TidyOption-lookup d name [] h = tt
  TidyOption-lookup d name ((k, r) ∷ rules) h =
      TidyOption-if d (text_eq k name) r (lookup name rules) h.0
        (TidyOption-lookup d name rules h.1)

module _ {W : Type 0} {P : W → Type 0} where
  ask_default-IsTidy :
      (default : Option (Resolve W)) (depth : ℤ)
      → TidyOption P (less_one depth) default
      → IsTidy P (ask_default default depth)
  unfolding ask_default
  ask_default-IsTidy none depth h = panic-IsTidy
  ask_default-IsTidy (some r) depth h = bind-IsTidy _ _ h λ out. pure-IsTidy _

  module _ (rules : List (Text × Resolve W)) (default : Option (Resolve W)) (depth : ℤ) where
    module _ (h : TidyRules P (less_one depth) rules)
        (k : TidyOption P (less_one depth) default) where
      -- One round of the loop, for the rule found there.
      level-IsTidy :
          (found : Option (Resolve W)) (rest : Exec W Outcome)
          → TidyOption P (less_one depth) found
          → IsTidy P rest
          → IsTidy P (try_level found depth rest)
      unfolding try_level
      level-IsTidy none rest f g = g
      level-IsTidy (some r) rest f g =
          bind-IsTidy _ _ f λ out. if-IsTidy (is_some out.err) _ _ (λ _. g) (λ _. pure-IsTidy _)

      try_levels-IsTidy : (labels : List Text) → IsTidy P (try_levels rules default depth labels)
      unfolding try_levels
      try_levels-IsTidy [] = ask_default-IsTidy default depth k
      try_levels-IsTidy (l ∷ []) = ask_default-IsTidy default depth k
      try_levels-IsTidy (l ∷ m ∷ ls) =
          level-IsTidy _ _ (TidyOption-lookup P _ (join dot_byte (l ∷ m ∷ ls)) rules h)
            (try_levels-IsTidy (m ∷ ls))

      try_exact-IsTidy :
          (found : Option (Resolve W)) (rest : Exec W Outcome)
          → TidyOption P (less_one depth) found
          → IsTidy P rest
          → IsTidy P (try_exact found depth rest)
      unfolding try_exact
      try_exact-IsTidy none rest f g = g
      try_exact-IsTidy (some r) rest f g =
          bind-IsTidy _ _ f λ out. if-IsTidy (answered out) _ _ (λ _. pure-IsTidy _) (λ _. g)

      resolve_name-IsTidy : (name : Text) → IsTidy P (resolve_name rules default depth name)
      unfolding resolve_name
      resolve_name-IsTidy name =
          if-IsTidy (ltb (length (split dot_byte name)) 2) _ _ (λ _. pure-IsTidy _)
            λ _.
              try_exact-IsTidy _ _ (TidyOption-lookup P _ (quote ++ (name ++ quote)) rules h)
                (try_levels-IsTidy (split dot_byte name))

pub resolve_instance-IsTidy :
    {L W : Type 0} {P : W → Type 0} (i : Instance L W) (depth : ℤ)
    → TidyRules P (less_one depth) i.name_resolver_map
    → TidyOption P (less_one depth) i.default_resolver
    → IsTidy P (resolve_instance i depth)
unfolding resolve_instance
resolve_instance-IsTidy i depth h k = guard_depth-IsTidy _ depth (
    bind-IsTidy _ _ head_question-IsTidy
      λ q. resolve_name-IsTidy i.name_resolver_map i.default_resolver depth h k q.name)
