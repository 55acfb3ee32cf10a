-- ===== src/Named/Types.antt =====
-- internal/config/named/resolver/types.go: the type of a named resolver, and the named resolvers that
-- the configuration mentions.
use sec_dns.Prelude.{Option, none, some, List, [], ◌∷◌, ◌++◌, Text}
use sec_dns.Named.{NameRegistry, NamedResolver, ready}

module _ {R : Type 0} where
  abbrev pub resolver_of : Option (NameRegistry R) → Option (NamedResolver R) → Option R
  unfolding ready
  resolver_of reg none = none
  resolver_of reg (some nr) = (ready reg nr).0.resolver

  -- The method Type, over that of the resolver; `none` is nil.
  unfoldable pub type_of_named :
      {T : Type 0} → (R → Option T) → Option (NameRegistry R) → Option (NamedResolver R) → Option T
  type_of_named type_of reg nr = elim (resolver_of reg nr) [ none ↦ none | some r ↦ type_of r ]

  -- The method TypeName
  unfoldable pub type_name_of_named :
      (R → Text) → Option (NameRegistry R) → Option (NamedResolver R) → Text
  type_name_of_named type_name reg nr = elim (resolver_of reg nr) [
    | none ↦ []
    | some r ↦ type_name r
  ]

  -- reportNamedResolver
  unfoldable pub report_named_resolver :
      Option (NamedResolver R) → List (NamedResolver R) → List (NamedResolver R)
  report_named_resolver none known = known
  report_named_resolver (some nr) known = known ++ nr ∷ []

-- The assignment of NameRegistry, by the function that SetNameRegistryAssignmentFunction sets.
unfoldable pub assign_name_registry : {V A : Type 0} → Option (V → Option A) → V → Option A
assign_name_registry none v = none
assign_name_registry (some f) v = f v
