-- ===== src/System/Answered.antt =====
-- The handler of a query over a system that comes from values of the configuration.
use sec_dns.Prelude.{ℕ, ℤ, ◌+◌, ◌*◌, ◌≤◌, ◌≡◌, List, [], ◌∷◌, Text, Option, none, some}
use sec_dns.Dns.{Msg, Documented}
use sec_dns.Exec.{done}
use sec_dns.Resolvers.{Network}
use sec_dns.Resolvers.Safe.Servers.{Reliable}
use sec_dns.Resolvers.Safe.Https.{Answering}
use sec_dns.Core.{Handled, handle}
use sec_dns.Core.Answers.{Answers}
use sec_dns.Config.{GoDescriptor, Describes}
use sec_dns.Config.Tabled.{DescribesAll}
use sec_dns.System.{Upstream, Ref, Refs, Config, World, Env, run, net_of}
use sec_dns.System.Idle.{idle}
use sec_dns.System.Termination.{calls_from}
use sec_dns.System.WellFormed.{
  WellFormed, IsThere, AllFormed, AllRegistered, AllRules, HasDefault, IsWellFormed,
}
use sec_dns.System.Given.{Conversions, Given}
use sec_dns.System.Configured.{NotNil, Given-Fit}
use sec_dns.System.Replies.{handle-run_replies}

module _ {F V : Type 0} (g : GoDescriptor V) (c : Conversions F V) where
  abbrev mutual
    -- A resolver comes from a value of the configuration, and so does every resolver that it holds,
    -- and that these hold, if it is not nil. A name is looked up when it is called.
    pub IsGiven : Ref → Type 0
    IsGiven Ref.nil = Unit
    IsGiven (Ref.anonymous u) = Given g c u × HoldsGiven u
    IsGiven (Ref.named n) = Unit

    pub HoldsGiven : Upstream → Type 0
    HoldsGiven Upstream.no_answer_of = Unit
    HoldsGiven Upstream.not_exist_of = Unit
    HoldsGiven Upstream.instance_of = Unit
    HoldsGiven (Upstream.address_of addr) = Unit
    HoldsGiven (Upstream.alias_of target r) = IsGiven r
    HoldsGiven (Upstream.sequence_of rs) = EachGiven rs
    HoldsGiven (Upstream.concurrent_of rs) = EachGiven rs
    HoldsGiven (Upstream.filter_a_of r) = IsGiven r
    HoldsGiven (Upstream.filter_aaaa_of r) = IsGiven r
    HoldsGiven (Upstream.filter_a_if_of r) = IsGiven r
    HoldsGiven (Upstream.filter_aaaa_if_of r) = IsGiven r
    HoldsGiven (Upstream.dns64_of prefix ignore r) = IsGiven r
    HoldsGiven (Upstream.name_server_of ns) = Unit
    HoldsGiven (Upstream.doh_of k d r) = IsGiven r

    pub EachGiven : Refs → Type 0
    EachGiven Refs.end = Unit
    EachGiven (Refs.ref r rs) = IsGiven r × EachGiven rs

  abbrev pub AllGiven : List (Text × Upstream) → Type 0
  AllGiven [] = Unit
  AllGiven ((n, u) ∷ us) = IsGiven (Ref.anonymous u) × AllGiven us

  -- AcceptProvider keeps no resolver that is nil.
  abbrev pub RulesGiven : List (Text × Ref) → Type 0
  RulesGiven [] = Unit
  RulesGiven ((n, r) ∷ rules) = (NotNil r × IsGiven r) × RulesGiven rules

  -- And LoadConfig wants a default resolver.
  abbrev pub DefaultGiven : Option Ref → Type 0
  DefaultGiven none = ⊥
  DefaultGiven (some r) = NotNil r × IsGiven r

  -- The named resolvers, the rules and the default resolver.
  pub record IsConfigured (cfg : Config) : Type 0 where
    pub registered : AllGiven cfg.registry
    pub rules_given : RulesGiven cfg.rules
    pub default_given : DefaultGiven cfg.default_resolver

module _ {F V C W : Type 0} (net : Network C (World W)) {g : GoDescriptor V} (k : Describes g)
    (c : Conversions F V) (others : DescribesAll NotNil c.describe_any) where
  mutual
    Given-WellFormed : (u : Upstream) → Given g c u → HoldsGiven g c u → WellFormed net u
    Given-WellFormed Upstream.no_answer_of h held = tt
    Given-WellFormed Upstream.not_exist_of h held = tt
    Given-WellFormed Upstream.instance_of h held = tt
    Given-WellFormed (Upstream.address_of addr) h held = tt
    Given-WellFormed (Upstream.alias_of target r) h held =
        IsGiven-IsThere r (Given-Fit net k c others _ h) held
    Given-WellFormed (Upstream.sequence_of rs) h held = EachGiven-AllFormed rs held
    Given-WellFormed (Upstream.concurrent_of rs) h held = EachGiven-AllFormed rs held
    Given-WellFormed (Upstream.filter_a_of r) h held =
        IsGiven-IsThere r (Given-Fit net k c others _ h) held
    Given-WellFormed (Upstream.filter_aaaa_of r) h held =
        IsGiven-IsThere r (Given-Fit net k c others _ h) held
    Given-WellFormed (Upstream.filter_a_if_of r) h held =
        IsGiven-IsThere r (Given-Fit net k c others _ h) held
    Given-WellFormed (Upstream.filter_aaaa_if_of r) h held =
        IsGiven-IsThere r (Given-Fit net k c others _ h) held
    Given-WellFormed (Upstream.dns64_of prefix ignore r) h held =
        let fit = Given-Fit net k c others _ h in (fit.0, IsGiven-IsThere r fit.1 held)
    Given-WellFormed (Upstream.name_server_of ns) h held = Given-Fit net k c others _ h
    Given-WellFormed (Upstream.doh_of cell d r) h held =
        let fit = Given-Fit net k c others _ h in (fit.0, IsGiven-IsThere r fit.1 held)

    IsGiven-IsThere : (r : Ref) → NotNil r → IsGiven g c r → IsThere net r
    IsGiven-IsThere Ref.nil some_resolver h = absurd some_resolver
    IsGiven-IsThere (Ref.anonymous u) some_resolver h = Given-WellFormed u h.0 h.1
    IsGiven-IsThere (Ref.named n) some_resolver h = tt

    EachGiven-AllFormed : (rs : Refs) → EachGiven g c rs → AllFormed net rs
    EachGiven-AllFormed Refs.end h = tt
    EachGiven-AllFormed (Refs.ref Ref.nil rs) h = EachGiven-AllFormed rs h.1
    EachGiven-AllFormed (Refs.ref (Ref.anonymous u) rs) h =
        (Given-WellFormed u h.0.0 h.0.1, EachGiven-AllFormed rs h.1)
    EachGiven-AllFormed (Refs.ref (Ref.named n) rs) h = EachGiven-AllFormed rs h.1

  AllGiven-AllRegistered : (us : List (Text × Upstream)) → AllGiven g c us → AllRegistered net us
  AllGiven-AllRegistered [] h = tt
  AllGiven-AllRegistered ((n, u) ∷ us) h =
      (IsGiven-IsThere (Ref.anonymous u) tt h.0, AllGiven-AllRegistered us h.1)

  RulesGiven-AllRules : (rules : List (Text × Ref)) → RulesGiven g c rules → AllRules net rules
  RulesGiven-AllRules [] h = tt
  RulesGiven-AllRules ((n, r) ∷ rules) h =
      (IsGiven-IsThere r h.0.0 h.0.1, RulesGiven-AllRules rules h.1)

  DefaultGiven-HasDefault : (o : Option Ref) → DefaultGiven g c o → HasDefault net o
  DefaultGiven-HasDefault none h = h
  DefaultGiven-HasDefault (some r) h = IsGiven-IsThere r h.0 h.1

  pub IsConfigured-IsWellFormed : (cfg : Config) → IsConfigured g c cfg → IsWellFormed net cfg
  IsConfigured-IsWellFormed cfg h = record {
    registered = AllGiven-AllRegistered cfg.registry h.registered;
    rules_there = RulesGiven-AllRules cfg.rules h.rules_given;
    default_there = DefaultGiven-HasDefault cfg.default_resolver h.default_given;
  }

-- If all resolvers of a system but the instance come from values of the configuration, also those
-- that other resolvers hold, and its name servers have no proxy, the handler over the instance answers
-- every query: with the client error message if the check refuses it, or else with the message that
-- the instance returned, which has a question, or with the server error message if the instance
-- returned an error; the error is reported. There is fuel for the depth and for the `DoH` objects
-- that may have to make their client; the descriptor of all resolvers describes none that is nil; the
-- network and the servers keep to their protocols, so that their replies have a question; and the DNS
-- library and go-descriptor are as documented.
pub handle-configured_replies :
    {F V C W : Type 0} (env : Env C W) {g : GoDescriptor V} (k : Describes g) (c : Conversions F V)
    (cfg : Config) (client server : Msg → Msg) (fuel idles : ℕ) (depth : ℤ) (q : Msg) (w : World W)
    → DescribesAll NotNil c.describe_any
    → IsConfigured g c cfg
    → Documented env.dns
    → Reliable env.net
    → Answering env.web
    → calls_from depth + 66 * idles ≤ fuel
    → idle w.cells ≤ idles
    → (h : Handled) × (w' : World W) × (handle client server
          (run env cfg fuel (Ref.anonymous Upstream.instance_of))
          depth
          (some q)
          w
        ≡ (done h, w'))
      × Answers client server (run env cfg fuel (Ref.anonymous Upstream.instance_of)) depth q w h w'
handle-configured_replies env k c cfg client server fuel idles depth q w others configured doc
      reliable answering enough few =
    handle-run_replies env cfg doc reliable answering
      (IsConfigured-IsWellFormed (net_of env.net) k c others cfg configured) client server
      (Ref.anonymous Upstream.instance_of) tt fuel idles depth enough q w few
