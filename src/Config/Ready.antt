-- ===== src/Config/Ready.antt =====
-- internal/config/loader.go: what LoadConfig returns, for every configuration that could be read.
use sec_dns.Prelude.{ℕ, ◌<◌, ◌≡◌, List, [], ◌∷◌, Text, Option, none, some, length}
use sec_dns.Exec.{Error, Resolve, bad_config, missing_listeners, missing_default_resolver}
use sec_dns.Rules.{Provider}
use sec_dns.Core.{Instance, resolve_instance, accept}
use sec_dns.Named.{NameRegistry, NamedResolver, name_resolver, init_each}
use sec_dns.Config.{Settings, Loaded, loaded_as, refused_by}

-- After a registration, the error of it or of looking up the named resolvers.
abbrev pub error_of :
    {W : Type 0}
    → List (NamedResolver (Resolve W))
    → Option Error × Option (NameRegistry (Resolve W))
    → Option Error
error_of known (some e, reg) = some e
error_of known (none, reg) = (init_each reg known).err

module _ {W P : Type 0} (fuel : ℕ) (provide : Provider (Resolve W) P) where
  -- The rules that the providers leave, one after another; those that are nil are left out.
  abbrev pub rules_after :
      List (Option P) → List (Text × Resolve W) → Option (List (Text × Resolve W))
  rules_after [] rules = some rules
  rules_after (none ∷ ps) rules = rules_after ps rules
  rules_after (some p ∷ ps) rules = elim (accept fuel provide p (rules, [])) [
    | none ↦ none
    | some (rules', errors) ↦ rules_after ps rules'
  ]

  -- With this fuel each provider comes to its end.
  abbrev pub Ends : Type 0
  Ends =
      (p : P) (rules : List (Text × Resolve W))
      → (rules' : List (Text × Resolve W)) × (errors : List Error) × (accept fuel provide p
            (rules, [])
          ≡ some (rules', errors))

module _ {L W P : Type 0} (fuel : ℕ) (provide : Provider (Resolve W) P) where
  -- The instance that a configuration describes, with these rules and this default resolver.
  abbrev pub instance_for : Settings L W P → List (Text × Resolve W) → Resolve W → Instance L W
  instance_for config rules r = record {
    listeners = config.listeners;
    name_resolver_map = rules;
    default_resolver = some r;
    resolution_depth = config.resolution_depth;
  }

  module _ (known : List (NamedResolver (Resolve W))) where
    -- The instance is registered under the empty name, and the named resolvers are looked up: their
    -- error, if there is one.
    abbrev pub naming_error : NameRegistry (Resolve W) → Instance L W → Option Error
    naming_error reg i = error_of known (name_resolver (some reg) [] (some (resolve_instance i)))

    -- What LoadConfig makes of a configuration: an error if it has no resolvers, no listeners or no
    -- default resolver, or if the names cannot be registered or found; or else the instance with its
    -- listeners, the rules of its providers, its default resolver and its depth.
    pub data LoadsAs (config : Settings L W P) : Loaded (Instance L W) → Type 0 where
      without_resolvers : config.resolvers ≡ none → LoadsAs config (refused_by bad_config)
      without_listeners : config.listeners ≡ [] → LoadsAs config (refused_by missing_listeners)
      without_default :
          config.default_resolver ≡ none → LoadsAs config (refused_by missing_default_resolver)
      without_names :
          (reg : NameRegistry (Resolve W)) (r : Resolve W) (rules : List (Text × Resolve W))
          (e : Error)
          → config.resolvers ≡ some reg
          → config.default_resolver ≡ some r
          → rules_after fuel provide config.rules [] ≡ some rules
          → naming_error reg (instance_for config rules r) ≡ some e
          → LoadsAs config (refused_by e)
      as_instance :
          (reg : NameRegistry (Resolve W)) (r : Resolve W) (rules : List (Text × Resolve W))
          → 0 < length config.listeners
          → config.resolvers ≡ some reg
          → config.default_resolver ≡ some r
          → rules_after fuel provide config.rules [] ≡ some rules
          → naming_error reg (instance_for config rules r) ≡ none
          → LoadsAs config (loaded_as (instance_for config rules r))

    abbrev Loads : Settings L W P → Option (Loaded (Instance L W)) → Type 0
    Loads config o = (x : Loaded (Instance L W)) × (o ≡ some x) × LoadsAs config x
