-- ===== src/System/Graph.antt =====
-- The configured resolvers as data, and their methods `Resolve`.
use sec_dns.Prelude.{
  ℕ, zero, suc, Option, none, some, Bool, true, false, List, [], ◌∷◌, Text, lookup, pos,
  if◌then◌else◌,
}
use sec_dns.Exec.{Resolve, stop, panic, fail, not_found}
use sec_dns.Resolvers.{
  no_answer, not_exist, Address, address, alias, sequence, filter_out_a, filter_out_aaaa,
  filter_out_a_if_aaaa_presents, filter_out_aaaa_if_a_presents, dns64, NameServer, name_server,
  concurrent, Doh, doh,
}
use sec_dns.Core.{resolve_instance}
use sec_dns.System.Memory.{World, Env, slot_at, net_of, web_of, schedule_of}

mutual
  -- A resolver of internal/upstream/resolvers, or the instance of internal/core.
  pub data Upstream : Type 0 where
    no_answer_of not_exist_of instance_of : Upstream
    address_of : Address → Upstream
    alias_of : Text → Ref → Upstream
    sequence_of concurrent_of : Refs → Upstream
    filter_a_of filter_aaaa_of filter_a_if_of filter_aaaa_if_of : Ref → Upstream
    dns64_of : List ℕ → Bool → Ref → Upstream
    name_server_of : NameServer → Upstream
    -- at an address, with its fields that do not change
    doh_of : ℕ → Doh → Ref → Upstream

  -- An interface value `resolver.Resolver`: nil, a resolver of its own, or a named resolver.
  pub data Ref : Type 0 where
    nil : Ref
    anonymous : Upstream → Ref
    named : Text → Ref

  pub data Refs : Type 0 where
    end : Refs
    ref : Ref → Refs → Refs

-- What the configuration came to: the registry of names, the rules and the default resolver of the
-- instance.
pub record Config : Type 0 where
  pub registry : List (Text × Upstream)
  pub rules : List (Text × Ref)
  pub default_resolver : Option Ref

module _ {W : Type 0} where
  -- An element of a slice of resolvers, nil or not.
  abbrev pub element : (Ref → Resolve W) → Ref → Option (Resolve W)
  element rec nil = none
  element rec (anonymous u) = some (rec (anonymous u))
  element rec (named n) = some (rec (named n))

  abbrev pub elements : (Ref → Resolve W) → Refs → List (Option (Resolve W))
  elements rec end = []
  elements rec (ref r rs) = element rec r ∷ elements rec rs

  abbrev pub bind_rules : (Ref → Resolve W) → List (Text × Ref) → List (Text × Resolve W)
  bind_rules rec [] = []
  bind_rules rec ((name, r) ∷ rules) = (name, rec r) ∷ bind_rules rec rules

  abbrev pub bind_default : (Ref → Resolve W) → Option Ref → Option (Resolve W)
  bind_default rec none = none
  bind_default rec (some r) = some (rec r)

module _ (cfg : Config) where
  -- `r.Type().Implements(nameserver.Type())`: the type of a named resolver is that of the resolver
  -- behind the name, and the type of the instance is nil.
  abbrev is_name_server : Upstream → Bool
  is_name_server (name_server_of ns) = true
  is_name_server (concurrent_of rs) = true
  is_name_server (doh_of k d r) = true
  is_name_server _ = false

  abbrev found_name_server : Option Upstream → Bool
  found_name_server none = false
  found_name_server (some u) = is_name_server u

  unfoldable pub is_name_server_ref : Ref → Bool
  is_name_server_ref nil = false
  is_name_server_ref (anonymous u) = is_name_server u
  is_name_server_ref (named n) = found_name_server (lookup n cfg.registry)

module _ {C V : Type 0} (env : Env C V) where
  module _ (cfg : Config) where
    -- The elements of a concurrent list: `none` where `request` finds no name server.
    abbrev pub name_servers : (Ref → Resolve (World V)) → Refs → List (Option (Resolve (World V)))
    name_servers rec end = []
    name_servers rec (ref r rs) =
        (if is_name_server_ref cfg r then element rec r else none) ∷ name_servers rec rs

    -- One method `Resolve`, over those of the resolvers that the resolver holds.
    unfoldable pub behave : (Ref → Resolve (World V)) → Upstream → Resolve (World V)
    unfolding is_name_server_ref
    behave rec no_answer_of = no_answer env.dns
    behave rec not_exist_of = not_exist env.dns
    behave rec instance_of = resolve_instance {L = Unit {0}} (record {
      listeners = [];
      name_resolver_map = bind_rules rec cfg.rules;
      default_resolver = bind_default rec cfg.default_resolver;
      resolution_depth = pos 0;
    })
    behave rec (address_of addr) = address env.dns addr
    behave rec (alias_of target r) = alias env.dns target (rec r)
    behave rec (sequence_of rs) = sequence (elements rec rs)
    behave rec (concurrent_of rs) = concurrent (schedule_of env.schedule) (name_servers rec rs)
    behave rec (filter_a_of r) = filter_out_a env.dns (rec r)
    behave rec (filter_aaaa_of r) = filter_out_aaaa env.dns (rec r)
    behave rec (filter_a_if_of r) = filter_out_a_if_aaaa_presents env.dns (rec r)
    behave rec (filter_aaaa_if_of r) = filter_out_aaaa_if_a_presents env.dns (rec r)
    behave rec (dns64_of prefix ignore r) =
        dns64 (record { resolver = rec r; prefix = prefix; ignore_existing_aaaa = ignore })
    behave rec (doh_of k d r) =
        doh (slot_at k) env.dns env.urls (web_of env.web) (schedule_of env.schedule) d (rec r)
    behave rec (name_server_of ns) = name_server (net_of env.net) ns

    unfoldable pub behind_name :
        (Ref → Resolve (World V)) → Text → Option Upstream → Resolve (World V)
    behind_name rec name none depth = fail (not_found name)
    behind_name rec name (some u) depth = behave rec u depth

    -- A call through an interface value: nil panics, a named resolver hands the depth on as it is.
    unfoldable pub enter : (Ref → Resolve (World V)) → Ref → Resolve (World V)
    enter rec nil depth = panic
    enter rec (anonymous u) depth = behave rec u depth
    enter rec (named name) depth = behind_name rec name (lookup name cfg.registry) depth

    unfoldable pub run : ℕ → Ref → Resolve (World V)
    run zero r depth = stop
    run (suc fuel) r depth = enter (run fuel) r depth
