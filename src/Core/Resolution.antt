-- ===== src/Core/Resolution.antt =====
-- The instance and its method `Resolve`.
use sec_dns.Prelude.{
  ℕ, Option, none, some, Bool, ◌&&◌, not, List, [], ◌∷◌, ◌++◌, Text, split, join, lookup, length,
  is_some, ltb, ℤ, pos, less_one, if◌then◌else◌,
}
use sec_dns.Dns.{Msg}
use sec_dns.Exec.{
  Error, Exec, Resolve, Outcome, ◌>>=◌, pure, head_question, panic, fail, invalid_domain_name,
}
use sec_dns.Common.{quote}
use sec_dns.Resolvers.{guard_depth}

-- `L` is the type of the listeners, which the instance starts and never looks into.
pub record Instance (L W : Type 0) : Type 0 where
  pub listeners : List (Option L)
  pub name_resolver_map : List (Text × Resolve W)
  pub default_resolver : Option (Resolve W)
  pub resolution_depth : ℤ

abbrev pub dot_byte : ℕ
dot_byte = b'.'

module _ {L W : Type 0} where
  -- NewInstance()
  abbrev pub new_instance : Instance L W
  new_instance = record {
    listeners = [];
    name_resolver_map = [];
    default_resolver = none;
    resolution_depth = pos 0;
  }

  unfoldable pub add_listener : Instance L W → List (Option L) → Instance L W
  add_listener i listeners = record i { listeners = i.listeners ++ listeners }

  unfoldable pub set_default_resolver : Instance L W → Option (Resolve W) → Instance L W
  set_default_resolver i none = i
  set_default_resolver i (some r) = record i { default_resolver = some r }

  unfoldable pub set_resolution_depth : Instance L W → ℤ → Instance L W
  set_resolution_depth i depth = record i { resolution_depth = depth }

-- `err == nil && msg != nil`
abbrev pub answered : Outcome → Bool
answered out = not (is_some out.err) && is_some out.msg

-- `if err != nil { return nil, err }; return msg, nil`
abbrev pub msg_or_err : Option Msg → Option Error → Outcome
msg_or_err msg (some e) = record { msg = none; err = some e }
msg_or_err msg none = record { msg = msg; err = none }

module _ {W : Type 0} where
  -- The last part of `Resolve`; calling a nil resolver panics.
  unfoldable pub ask_default : Option (Resolve W) → Resolve W
  ask_default none depth = panic
  ask_default (some r) depth = do out ← r (less_one depth); pure (msg_or_err out.msg out.err)

  -- One round of the loop over `level`, and what comes after it.
  unfoldable pub try_level : Option (Resolve W) → ℤ → Exec W Outcome → Exec W Outcome
  try_level none depth next = next
  try_level (some r) depth next = do
    out ← r (less_one depth)
    if is_some out.err then next else pure (record { msg = out.msg; err = none })

  -- The loop over `level`, by the labels from there on, and what stands behind the loop.
  unfoldable pub try_levels :
      List (Text × Resolve W) → Option (Resolve W) → ℤ → List Text → Exec W Outcome
  try_levels rules default depth [] = ask_default default depth
  try_levels rules default depth (l ∷ []) = ask_default default depth
  try_levels rules default depth (l ∷ m ∷ ls) =
      try_level (lookup (join dot_byte (l ∷ m ∷ ls)) rules) depth
        (try_levels rules default depth (m ∷ ls))

  -- The rule for the quoted name, before the loop.
  unfoldable pub try_exact : Option (Resolve W) → ℤ → Exec W Outcome → Exec W Outcome
  try_exact none depth next = next
  try_exact (some r) depth next = do
    out ← r (less_one depth)
    if answered out then pure (record { msg = out.msg; err = none }) else next

  -- `Resolve` for a name, from `labels := strings.Split(name, ".")` on
  unfoldable pub resolve_name :
      List (Text × Resolve W) → Option (Resolve W) → ℤ → Text → Exec W Outcome
  resolve_name rules default depth name =
      let labels = split dot_byte name in
      if ltb (length labels) 2
      then fail invalid_domain_name
      else try_exact (lookup (quote ++ (name ++ quote)) rules) depth
          (try_levels rules default depth labels)

unfoldable pub resolve_instance : {L W : Type 0} → Instance L W → Resolve W
resolve_instance i =
    guard_depth λ depth. do
      q ← head_question
      resolve_name i.name_resolver_map i.default_resolver depth q.name

-- GetResolver: the instance itself, if it has a default resolver
unfoldable pub get_resolver : {L W : Type 0} → Instance L W → Option (Resolve W)
get_resolver i = elim i.default_resolver [ none ↦ none | some r ↦ some (resolve_instance i) ]
