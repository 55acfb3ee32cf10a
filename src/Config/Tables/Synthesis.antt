-- ===== src/Config/Tables/Synthesis.antt =====
-- The descriptor of internal/upstream/resolvers/dns64/types.go.
use sec_dns.Prelude.{ℕ, Option, none, some, Bool, false, List, [], ◌∷◌, Text, codes}
use sec_dns.Config.Values.{Value, Described, assigned}
use sec_dns.Config.Fields.{to_prefix, to_ignore_existing}
use sec_dns.Config.Descriptors.{GoDescriptor, kind_string, not_nil}

-- The struct DNS64: `X` are resolvers.
pub record Dns64Object (X : Type 0) : Type 0 where
  pub resolver : Option X
  pub prefix : List ℕ
  pub ignore_existing_aaaa : Bool

abbrev pub new_dns64 : {X : Type 0} → Dns64Object X
new_dns64 = record { resolver = none; prefix = []; ignore_existing_aaaa = false }

-- 64:ff9b::
abbrev pub well_known_prefix : List ℕ
well_known_prefix = 0 ∷ 0x64 ∷ 0xff ∷ 0x9b ∷ 0 ∷ 0 ∷ 0 ∷ 0 ∷ 0 ∷ 0 ∷ 0 ∷ 0 ∷ 0 ∷ 0 ∷ 0 ∷ 0 ∷ []

module _ {F V X : Type 0} (g : GoDescriptor V) (decoded : V → Value F V)
    (parse_ip : Text → Option (List ℕ)) (to_4 : List ℕ → Option (List ℕ))
    (describe_any : V → Described X) where
  unfoldable pub prefix_source : g.Source (List ℕ)
  unfolding to_prefix
  prefix_source = g.value_sources (
      g.object_at (codes "prefix" ∷ [])
        (g.convertible kind_string λ v. not_nil (to_prefix parse_ip to_4) (decoded v))
      ∷ g.default_value (some well_known_prefix)
      ∷ [])

  unfoldable pub ignore_source : g.Source Bool
  unfolding to_ignore_existing
  ignore_source = g.value_sources (
      g.object_at (codes "ignoreExistingAAAA" ∷ []) (
        g.assignable_kinds
          (g.bool ∷ g.convertible kind_string (λ v. to_ignore_existing (decoded v)) ∷ []))
      ∷ g.default_value (some false)
      ∷ [])

  unfoldable pub dns64_filler : g.Filler (Dns64Object X)
  unfolding assigned prefix_source ignore_source
  dns64_filler = g.fillers (
      g.object_filler (λ x d. record d { resolver = some x })
        (g.object_at (codes "resolver" ∷ []) (g.assignment (assigned describe_any)))
      ∷ g.object_filler (λ x d. record d { prefix = x }) prefix_source
      ∷ g.object_filler (λ x d. record d { ignore_existing_aaaa = x }) ignore_source
      ∷ [])
