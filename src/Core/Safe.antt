-- ===== src/Core/Safe.antt =====
-- internal/core/instance.go: calls of Resolve without a panic.
use sec_dns.Prelude.{
  ℤ, less_one, List, [], ◌∷◌, ◌++◌, Text, Option, none, some, lookup, is_some, text_eq, ltb, split,
  Bool, true, false, not, ◌&&◌, ◌≡◌, if◌then◌else◌, length, join,
}
use sec_dns.Dns.{Msg}
use sec_dns.Exec.{Error, Exec, Resolve, Outcome}
use sec_dns.Exec.Safe.{
  GoodWith, Good, IsSafe, pure-IsSafe, if-IsSafe, bind-IsSafe, head_question-IsSafe, fail-IsSafe,
}
use sec_dns.Common.{quote}
use sec_dns.Resolvers.Safe.{guard_depth-IsSafe}
use sec_dns.Resolvers.Safe.Slices.{SafeElement}
use sec_dns.Core.{
  Instance, dot_byte, msg_or_err, ask_default, try_level, try_levels, answered, try_exact,
  resolve_name, resolve_instance,
}

msg_or_err-Good : (out : Outcome) → Good out → Good (msg_or_err out.msg out.err)
msg_or_err-Good out h = by out.err out.msg h.good
  where
    by : (e : Option Error) (m : Option Msg) → GoodWith e m → Good (msg_or_err m e)
    by (some e) m k = record { good = tt }
    by none m k = record { good = k }

-- A reply that is returned, if there was no error.
kept-Good :
    (out : Outcome)
    → Good out
    → is_some out.err ≡ false
    → Good (record { msg = out.msg; err = none })
kept-Good out h e = by out.err e h.good
  where
    by :
        (o : Option Error)
        → is_some o ≡ false
        → GoodWith o out.msg
        → Good (record { msg = out.msg; err = none })
    by (some x) e' k = absurd cc
    by none e' k = record { good = k }

-- And if it is not nil either.
answered-Good :
    (out : Outcome) → Good out → answered out ≡ true → Good (record { msg = out.msg; err = none })
answered-Good out h e = by out.err e h.good
  where
    by :
        (o : Option Error)
        → (not (is_some o) && is_some out.msg) ≡ true
        → GoodWith o out.msg
        → Good (record { msg = out.msg; err = none })
    by (some x) e' k = absurd cc
    by none e' k = record { good = k }

module _ {W : Type 0} where
  abbrev pub SafeRules : ℤ → List (Text × Resolve W) → Type 0
  SafeRules d [] = Unit
  SafeRules d ((name, r) ∷ rules) = IsSafe Good (r d) × SafeRules d rules

  SafeElement-if :
      (d : ℤ) (b : Bool) (r : Resolve W) (o : Option (Resolve W))
      → IsSafe Good (r d)
      → SafeElement d o
      → SafeElement d (if b then some r else o)
  SafeElement-if d true r o h k = h
  SafeElement-if d false r o h k = k

  SafeElement-lookup :
      (d : ℤ) (name : Text) (rules : List (Text × Resolve W))
      → SafeRules d rules
      → SafeElement d (lookup name rules)
  unfolding lookup
  SafeElement-lookup d name [] h = tt
  SafeElement-lookup d name ((k, r) ∷ rules) h =
      SafeElement-if d (text_eq k name) r (lookup name rules) h.0
        (SafeElement-lookup d name rules h.1)

  ask_default-IsSafe :
      (r : Resolve W) (depth : ℤ)
      → IsSafe Good (r (less_one depth))
      → IsSafe Good (ask_default (some r) depth)
  unfolding ask_default
  ask_default-IsSafe r depth h =
      bind-IsSafe _ _ _ h λ out good. pure-IsSafe _ (msg_or_err-Good out good)

  module _ (rules : List (Text × Resolve W)) (default : Resolve W) (depth : ℤ)
      (h : SafeRules (less_one depth) rules) (k : IsSafe Good (default (less_one depth))) where
    level-IsSafe :
        (found : Option (Resolve W)) (rest : Exec W Outcome)
        → SafeElement (less_one depth) found
        → IsSafe Good rest
        → IsSafe Good (try_level found depth rest)
    unfolding try_level
    level-IsSafe none rest f g = g
    level-IsSafe (some r) rest f g = bind-IsSafe _ _ _ f λ out good.
        if-IsSafe (is_some out.err) _ _ (λ _. g) (λ e. pure-IsSafe _ (kept-Good out good e))

    try_levels-IsSafe :
        (labels : List Text) → IsSafe Good (try_levels rules (some default) depth labels)
    unfolding try_levels
    try_levels-IsSafe [] = ask_default-IsSafe default depth k
    try_levels-IsSafe (l ∷ []) = ask_default-IsSafe default depth k
    try_levels-IsSafe (l ∷ m ∷ ls) =
        level-IsSafe _ _ (SafeElement-lookup _ (join dot_byte (l ∷ m ∷ ls)) rules h)
          (try_levels-IsSafe (m ∷ ls))

    try_exact-IsSafe :
        (found : Option (Resolve W)) (rest : Exec W Outcome)
        → SafeElement (less_one depth) found
        → IsSafe Good rest
        → IsSafe Good (try_exact found depth rest)
    unfolding try_exact
    try_exact-IsSafe none rest f g = g
    try_exact-IsSafe (some r) rest f g = bind-IsSafe _ _ _ f λ out good.
        if-IsSafe (answered out) _ _ (λ e. pure-IsSafe _ (answered-Good out good e)) (λ _. g)

    pub resolve_name-IsSafe :
        (name : Text) → IsSafe Good (resolve_name rules (some default) depth name)
    unfolding resolve_name
    resolve_name-IsSafe name =
        if-IsSafe (ltb (length (split dot_byte name)) 2) _ _ (λ _. fail-IsSafe _)
          λ _.
            try_exact-IsSafe _ _ (SafeElement-lookup _ (quote ++ (name ++ quote)) rules h)
              (try_levels-IsSafe (split dot_byte name))

pub resolve_instance-IsSafe :
    {L W : Type 0} (i : Instance L W) (default : Resolve W) (depth : ℤ)
    → i.default_resolver ≡ some default
    → SafeRules (less_one depth) i.name_resolver_map
    → IsSafe Good (default (less_one depth))
    → IsSafe Good (resolve_instance i depth)
unfolding resolve_instance
resolve_instance-IsSafe i default depth e h k = guard_depth-IsSafe _ depth (
    bind-IsSafe _ _ _ head_question-IsSafe
      λ q any. rw e (resolve_name-IsSafe i.name_resolver_map default depth h k q.name))
