-- ===== src/Config/Tables/Rules.antt =====
-- The descriptors of internal/rules/providers: of rules, of the collection and of dnsmasq files. And
-- that of internal/config/typed, for values with the name of their type.
use sec_dns.Prelude.{Option, none, some, [], ◌∷◌, codes}
use sec_dns.Rules.{NameResolutionRule, Collection, DnsmasqConf}
use sec_dns.Config.Values.{Value, Described, assigned}
use sec_dns.Config.Fields.{to_collection_rules}
use sec_dns.Config.Dispatch.{TypedValue}
use sec_dns.Config.Descriptors.{GoDescriptor, kind_slice, not_nil}

module _ {F V X : Type 0} (g : GoDescriptor V) (decoded : V → Value F V)
    (describe_any : V → Described X) where
  unfoldable pub rule_filler : g.Filler (NameResolutionRule X)
  unfolding assigned
  rule_filler = g.fillers (
      g.object_filler (λ x r. record r { name = x }) (g.object_at (codes "name" ∷ []) g.string)
      ∷ g.object_filler (λ x r. record r { resolver = some x })
          (g.object_at (codes "resolver" ∷ []) (g.assignment (assigned describe_any)))
      ∷ [])

  -- With the rules that their descriptor accepts.
  unfoldable pub collection_filler :
      (V → Described (NameResolutionRule X)) → g.Filler (Collection X)
  unfolding to_collection_rules
  collection_filler describe_rule =
      g.object_filler (λ x c. record c { rules = x })
        (g.object_at g.root
          (g.convertible kind_slice λ v. not_nil (to_collection_rules describe_rule) (decoded v)))

  unfoldable pub dnsmasq_filler : g.Filler (DnsmasqConf X)
  unfolding assigned
  dnsmasq_filler = g.fillers (
      g.object_filler (λ x d. record d { file_path = x })
        (g.object_at (codes "filePath" ∷ []) g.string)
      ∷ g.object_filler (λ x d. record d { resolver = some x })
          (g.object_at (codes "resolver" ∷ []) (g.assignment (assigned describe_any)))
      ∷ [])

  -- A missing `config` is nil.
  unfoldable pub typed_filler : g.Filler (TypedValue (Option V))
  typed_filler = g.fillers (
      g.object_filler (λ x t. record t { type_name = x }) (g.object_at (codes "type" ∷ []) g.string)
      ∷ g.object_filler (λ x t. record t { value = some x })
          (g.value_sources (
            g.object_at (codes "config" ∷ []) (g.assignment λ v. some (some v))
            ∷ g.default_value none
            ∷ []))
      ∷ [])
