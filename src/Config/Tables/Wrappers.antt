-- ===== src/Config/Tables/Wrappers.antt =====
-- The descriptors of the resolvers alias, filterOutA, filterOutAAAA, filterOutAIfAAAAPresents,
-- filterOutAAAAIfAPresents, noAnswer and notExist, in internal/upstream/resolvers.
use sec_dns.Prelude.{Option, none, some, [], ◌∷◌, Text}
use sec_dns.Dns.{Library}
use sec_dns.Config.Values.{Value, Described, assigned}
use sec_dns.Config.Fields.{to_alias}
use sec_dns.Config.Descriptors.{GoDescriptor, kind_string, not_nil}

-- The struct Alias: `X` are resolvers.
pub record AliasObject (X : Type 0) : Type 0 where
  pub alias : Text
  pub resolver : Option X

abbrev pub new_alias : {X : Type 0} → AliasObject X
new_alias = record { alias = []; resolver = none }

-- The structs of the four filters
pub record FilterObject (X : Type 0) : Type 0 where
  pub resolver : Option X

abbrev pub new_filter : {X : Type 0} → FilterObject X
new_filter = record { resolver = none }

module _ {F V X : Type 0} (g : GoDescriptor V) (decoded : V → Value F V) (dns : Library)
    (describe_any : V → Described X) (empty : V) where
  -- The resolver of an alias is the one that the empty name describes.
  unfoldable pub alias_filler : g.Filler (AliasObject X)
  unfolding to_alias assigned
  alias_filler = g.fillers (
      g.object_filler (λ x a. record a { alias = x })
        (g.object_at g.root (g.convertible kind_string λ v. not_nil (to_alias dns) (decoded v)))
      ∷ g.object_filler (λ x a. record a { resolver = some x })
          (g.object_at g.root (g.assignment λ v. assigned describe_any empty))
      ∷ [])

module _ {V X : Type 0} (g : GoDescriptor V) (describe_any : V → Described X) where
  unfoldable pub filter_out_a_filler : g.Filler (FilterObject X)
  unfolding assigned
  filter_out_a_filler =
      g.object_filler (λ x f. record f { resolver = some x })
        (g.object_at g.root (g.assignment (assigned describe_any)))

  unfoldable pub filter_out_aaaa_filler : g.Filler (FilterObject X)
  unfolding assigned
  filter_out_aaaa_filler =
      g.object_filler (λ x f. record f { resolver = some x })
        (g.object_at g.root (g.assignment (assigned describe_any)))

  unfoldable pub filter_out_a_if_filler : g.Filler (FilterObject X)
  unfolding assigned
  filter_out_a_if_filler =
      g.object_filler (λ x f. record f { resolver = some x })
        (g.object_at g.root (g.assignment (assigned describe_any)))

  unfoldable pub filter_out_aaaa_if_filler : g.Filler (FilterObject X)
  unfolding assigned
  filter_out_aaaa_if_filler =
      g.object_filler (λ x f. record f { resolver = some x })
        (g.object_at g.root (g.assignment (assigned describe_any)))

module _ {V X : Type 0} (g : GoDescriptor V) where
  -- The objects NoAnswer and NotExist, whatever the value is.
  unfoldable pub no_answer_filler : X → g.Filler (Option X)
  no_answer_filler object = g.object_filler (λ x old. some x) (g.default_value (some object))

  unfoldable pub not_exist_filler : X → g.Filler (Option X)
  not_exist_filler object = g.object_filler (λ x old. some x) (g.default_value (some object))
