-- ===== src/Config/Tables/Names.antt =====
-- The descriptors that describe any resolver, rule provider or server, in pkg/upstream/resolver/types.go,
-- pkg/rules/provider/types.go and pkg/listeners/server/types.go, and that of the resolvers by name, in
-- internal/config/named/resolver/types.go.
use sec_dns.Prelude.{Option, none, some, [], ◌∷◌, Text}
use sec_dns.Named.Types.{assign_name_registry}
use sec_dns.Config.Dispatch.{Reflection, Assignments, assign, assign_provider, assign_server}
use sec_dns.Config.Descriptors.{GoDescriptor}

-- An assignment function whose result is not nil.
abbrev pub there : {V R : Type 0} → (V → Option R) → V → Option (Option R)
there f v = elim (f v) [ none ↦ none | some r ↦ some (some r) ]

module _ {T K V R : Type 0} (g : GoDescriptor V) (reflection : Reflection T K V)
    (fs : Assignments T K V R) where
  unfoldable pub resolver_filler : g.Filler (Option R)
  unfolding assign
  resolver_filler =
      g.object_filler (λ x old. some x)
        (g.object_at g.root (g.assignment (there (assign reflection fs))))

  unfoldable pub provider_filler : g.Filler (Option R)
  unfolding assign_provider
  provider_filler =
      g.object_filler (λ x old. some x)
        (g.object_at g.root (g.assignment (there (assign_provider reflection fs))))

  unfoldable pub server_filler : g.Filler (Option R)
  unfolding assign_server
  server_filler =
      g.object_filler (λ x old. some x)
        (g.object_at g.root (g.assignment (there (assign_server reflection fs))))

-- The struct NamedResolver, before it has its resolver: `N` are registries.
pub record NamedObject (N : Type 0) : Type 0 where
  pub name : Text
  pub name_registry : Option N

-- `registries` is nameRegistryAssignmentFunction.
unfoldable pub named_resolver_filler :
    {V N : Type 0} (g : GoDescriptor V) (registries : Option (V → Option N))
    → g.Filler (NamedObject N)
unfolding assign_name_registry
named_resolver_filler g registries = g.fillers (
    g.object_filler (λ x nr. record nr { name = x }) (g.object_at g.root g.string)
    ∷ g.object_filler (λ x nr. record nr { name_registry = some x })
        (g.object_at g.root (g.assignment (there (assign_name_registry registries))))
    ∷ [])
