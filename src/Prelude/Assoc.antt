-- ===== src/Prelude/Assoc.antt =====
-- Go's `map[string]V` as an association list. The program never ranges over the maps that this
-- models, so the order of the entries is not seen.
use mathlib.Core.Path.{◌≡◌, refl}
use mathlib.Core.Option.{Option, none, some}
use mathlib.Core.List.{List, [], ◌∷◌}
use sec_dns.Prelude.Tests.{if◌then◌else◌}
use sec_dns.Prelude.Strings.{Text, text_eq}

module _ {ℓ} {V : Type ℓ} where
  -- m[key], with the second result of a Go lookup
  unfoldable pub lookup : Text → List (Text × V) → Option V
  lookup key [] = none
  lookup key ((k, v) ∷ m) = if text_eq k key then some v else lookup key m

  -- m[key] = v
  unfoldable pub insert : Text → V → List (Text × V) → List (Text × V)
  insert key v m = (key, v) ∷ m

  pub lookup-insert :
      (key j : Text) (v : V) (m : List (Text × V))
      → lookup j (insert key v m) ≡ (if text_eq key j then some v else lookup j m)
  unfolding lookup insert
  lookup-insert key j v m = refl
