-- ===== src/Config/Loading.antt =====
-- internal/config/loader.go: from the configuration file to the instance that serves it.
use sec_dns.Prelude.{ℕ, Option, none, some, List, [], ◌∷◌, Text, ℤ, if◌then◌else◌, length, ltb}
use sec_dns.Exec.{
  Error, Resolve, bad_config, unexpected_bad_config, missing_listeners, missing_default_resolver,
}
use sec_dns.Rules.{Provider}
use sec_dns.Core.{
  Instance, new_instance, add_listener, set_default_resolver, set_resolution_depth, get_resolver,
  accept_provider,
}
use sec_dns.Named.{NameRegistry, NamedResolver, name_resolver, init_each}
use sec_dns.Config.Values.{Described, accepted}

-- The struct Config: `P` are the states of providers.
pub record Settings (L W P : Type 0) : Type 0 where
  pub listeners : List (Option L)
  pub resolvers : Option (NameRegistry (Resolve W))
  pub rules : List (Option P)
  pub default_resolver : Option (Resolve W)
  pub resolution_depth : ℤ

-- A result or an error.
pub data Loaded (A : Type 0) : Type 0 where
  loaded_as : A → Loaded A
  refused_by : Error → Loaded A

module _ {L W P : Type 0} (fuel : ℕ) (provide : Provider (Resolve W) P) where
  abbrev pub continue_with :
      Option (Instance L W × List Error)
      → (Instance L W → Option (Instance L W))
      → Option (Instance L W)
  continue_with none next = none
  continue_with (some (i, errors)) next = next i

  -- The loop over the rules; `none` if the fuel ran out. The errors go to ErrOutputErrorHandler.
  unfoldable pub accept_each_provider : List (Option P) → Instance L W → Option (Instance L W)
  accept_each_provider [] i = some i
  accept_each_provider (p ∷ ps) i =
      continue_with (accept_provider fuel provide p i) (accept_each_provider ps)

  abbrev pub known_error : Option Error → Instance L W → Loaded (Instance L W)
  known_error none i = loaded_as i
  known_error (some e) i = refused_by e

  -- From the registration of the instance under the empty name on; `known` are the named resolvers
  -- that the configuration mentioned.
  abbrev pub named_up :
      List (NamedResolver (Resolve W))
      → Option Error × Option (NameRegistry (Resolve W))
      → Instance L W
      → Loaded (Instance L W)
  named_up known (some e, reg) i = refused_by e
  named_up known (none, reg) i = known_error (init_each reg known).err i

  abbrev pub finished :
      List (NamedResolver (Resolve W))
      → Option (NameRegistry (Resolve W))
      → Option (Resolve W)
      → Instance L W
      → Loaded (Instance L W)
  finished known reg none i = refused_by unexpected_bad_config
  finished known reg (some r) i = named_up known (name_resolver reg [] (some r)) i

  abbrev pub completed :
      List (NamedResolver (Resolve W))
      → Settings L W P
      → Option (Instance L W)
      → Option (Loaded (Instance L W))
  completed known config none = none
  completed known config (some i) =
      let i' =
        set_resolution_depth (set_default_resolver i config.default_resolver)
          config.resolution_depth in
      some (finished known config.resolvers (get_resolver i') i')

  -- From `instance := core.NewInstance()` on.
  unfoldable pub build :
      List (NamedResolver (Resolve W)) → Settings L W P → Option (Loaded (Instance L W))
  unfolding accept_each_provider get_resolver set_resolution_depth set_default_resolver add_listener
  build known config = completed known config (
      accept_each_provider config.rules
        (add_listener (add_listener new_instance config.listeners) []))

  -- The tests of the configuration.
  abbrev pub tested :
      List (NamedResolver (Resolve W)) → Settings L W P → Option (Loaded (Instance L W))
  tested known config = elim config.resolvers [
    | none ↦ some (refused_by bad_config)
    | some reg ↦
        let built = build known config in
        if ltb (length config.listeners) 1
        then some (refused_by missing_listeners)
        else elim config.default_resolver [
          | none ↦ some (refused_by missing_default_resolver)
          | some r ↦ built
        ]
  ]

  abbrev pub described :
      List (NamedResolver (Resolve W)) → Option (Settings L W P) → Option (Loaded (Instance L W))
  described known none = some (refused_by bad_config)
  described known (some config) = tested known config

  module _ {V : Type 0} (unmarshal : Text → Loaded V)
      (describe : V → Described (Settings L W P)) where
    abbrev pub decoded :
        List (NamedResolver (Resolve W)) → Loaded V → Option (Loaded (Instance L W))
    decoded known (refused_by e) = some (refused_by e)
    decoded known (loaded_as v) = described known (accepted describe v)

    -- By the result of ioutil.ReadAll. A nil `*Config` is a failed type assertion here: both are
    -- ErrBadConfig.
    unfoldable pub load_config :
        List (NamedResolver (Resolve W)) → Loaded Text → Option (Loaded (Instance L W))
    unfolding build
    load_config known (refused_by e) = some (refused_by e)
    load_config known (loaded_as raw) = decoded known (unmarshal raw)
