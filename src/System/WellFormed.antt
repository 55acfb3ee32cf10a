-- ===== src/System/WellFormed.antt =====
-- Configurations in which every resolver has what its method `Resolve` reads, as the loading of a
-- configuration checks it.
use sec_dns.Prelude.{◌≤◌, List, [], ◌∷◌, Text, Option, none, some, length}
use sec_dns.Resolvers.{Network, client_of}
use sec_dns.Resolvers.Safe.Servers.{CanDial}
use sec_dns.System.{World, Upstream, Ref, Refs, Config}

abbrev pub HasUrl : Option Text → Type 0
HasUrl none = ⊥
HasUrl (some u) = Unit

module _ {C V : Type 0} (net : Network C (World V)) where
  abbrev mutual
    -- The resolvers that it holds are there, the prefix of dns64 is long enough, a name server has a
    -- local address if it has a proxy, and a DoH has a URL.
    pub WellFormed : Upstream → Type 0
    WellFormed Upstream.no_answer_of = Unit
    WellFormed Upstream.not_exist_of = Unit
    WellFormed Upstream.instance_of = Unit
    WellFormed (Upstream.address_of addr) = Unit
    WellFormed (Upstream.alias_of target r) = IsThere r
    WellFormed (Upstream.sequence_of rs) = AllFormed rs
    WellFormed (Upstream.concurrent_of rs) = AllFormed rs
    WellFormed (Upstream.filter_a_of r) = IsThere r
    WellFormed (Upstream.filter_aaaa_of r) = IsThere r
    WellFormed (Upstream.filter_a_if_of r) = IsThere r
    WellFormed (Upstream.filter_aaaa_if_of r) = IsThere r
    WellFormed (Upstream.dns64_of prefix ignore r) = (12 ≤ length prefix) × IsThere r
    WellFormed (Upstream.name_server_of ns) = CanDial (client_of net ns)
    WellFormed (Upstream.doh_of k d r) = HasUrl d.url × IsThere r

    -- An interface value that is not nil. A name is looked up when it is called.
    pub IsThere : Ref → Type 0
    IsThere Ref.nil = ⊥
    IsThere (Ref.anonymous u) = WellFormed u
    IsThere (Ref.named n) = Unit

    -- The elements of a slice, which may be nil.
    pub AllFormed : Refs → Type 0
    AllFormed Refs.end = Unit
    AllFormed (Refs.ref Ref.nil rs) = AllFormed rs
    AllFormed (Refs.ref (Ref.anonymous u) rs) = WellFormed u × AllFormed rs
    AllFormed (Refs.ref (Ref.named n) rs) = AllFormed rs

  abbrev pub AllRegistered : List (Text × Upstream) → Type 0
  AllRegistered [] = Unit
  AllRegistered ((n, u) ∷ us) = WellFormed u × AllRegistered us

  abbrev pub AllRules : List (Text × Ref) → Type 0
  AllRules [] = Unit
  AllRules ((n, r) ∷ rules) = IsThere r × AllRules rules

  abbrev pub HasDefault : Option Ref → Type 0
  HasDefault none = ⊥
  HasDefault (some r) = IsThere r

  pub record IsWellFormed (cfg : Config) : Type 0 where
    pub registered : AllRegistered cfg.registry
    pub rules_there : AllRules cfg.rules
    pub default_there : HasDefault cfg.default_resolver
