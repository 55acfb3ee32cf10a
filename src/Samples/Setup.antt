-- ===== src/Samples/Setup.antt =====
-- A registration and a configuration for the samples.
use sec_dns.Prelude.{ℕ, ◌≡◌, pos, List, [], ◌∷◌, codes, none, some, false, lookup}
use sec_dns.Exec.{Resolve, fail, loop_detected}
use sec_dns.Rules.{Provider}
use sec_dns.Named.{NamedResolver}
use sec_dns.Core.FirstRule.{or_else}
use sec_dns.Config.{Prototype, register, Described, Settings}
use sec_dns.Config.Registered.{lookup-register}

-- Descriptors with numbers for names.
abbrev doh_prototype : ℕ → Prototype
doh_prototype n = record { type_string = codes "*doh.DoH"; type_name = some (codes "doh") }

lookup-register_example :
    lookup (codes "doh") (register doh_prototype (some 2) ((codes "doh", 1) ∷ [])).1
    ≡ or_else (lookup (codes "doh") ((codes "doh", 1) ∷ [])) (some 2)
lookup-register_example = lookup-register doh_prototype 2 ((codes "doh", 1) ∷ []) (codes "doh")

abbrev lost_resolver : Resolve ℕ
lost_resolver depth = fail loop_detected

abbrev settings : Settings ℕ ℕ ℕ
settings = record {
  listeners = some 1 ∷ none ∷ [];
  resolvers = some (record { registry = none });
  rules = some 0 ∷ none ∷ [];
  default_resolver = some lost_resolver;
  resolution_depth = pos 64;
}

-- A provider without rules, which ends with its first call.
abbrev provide_nothing : Provider (Resolve ℕ) ℕ
provide_nothing n = record { received = []; errors = []; more = false; next = n }

abbrev describe_settings : ℕ → Described (Settings ℕ ℕ ℕ)
describe_settings n = record { value = some settings; successes = 1; failures = 0 }

abbrev known : List (NamedResolver (Resolve ℕ))
known = record { name = []; resolver = none } ∷ []
