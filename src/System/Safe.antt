-- ===== src/System/Safe.antt =====
-- All resolvers of a configuration together: calls without a panic.
use sec_dns.Prelude.{
  ℕ, zero, suc, ℤ, less_one, List, [], ◌∷◌, Text, Option, none, some, Bool, true, false, lookup,
  text_eq, ◌≡◌, refl, ap, All, if◌then◌else◌,
}
use sec_dns.Dns.{Documented}
use sec_dns.Exec.{Resolve, not_found}
use sec_dns.Exec.Safe.{Good, IsSafe, stop-IsSafe, fail-IsSafe}
use sec_dns.Resolvers.{Doh, Network, Web}
use sec_dns.Resolvers.Safe.{
  no_answer-IsSafe, not_exist-IsSafe, address-IsSafe, alias-IsSafe, filter_out_a-IsSafe,
  filter_out_aaaa-IsSafe, filter_out_a_if_aaaa_presents-IsSafe,
  filter_out_aaaa_if_a_presents-IsSafe,
}
use sec_dns.Resolvers.Safe.Servers.{Reliable, dns64-IsSafe, name_server-IsSafe}
use sec_dns.Resolvers.Safe.Slices.{SafeElement, sequence-IsSafe, concurrent-IsSafe}
use sec_dns.Resolvers.Safe.Https.{Answering, doh-IsSafe}
use sec_dns.Core.Safe.{SafeRules, resolve_instance-IsSafe}
use sec_dns.System.{
  World, Env, slot_at, net_of, web_of, schedule_of, Upstream, Ref, Refs, Config, behave, enter, run,
  behind_name, elements, bind_rules, bind_default, name_servers, is_name_server_ref,
}
use sec_dns.System.WellFormed.{
  HasUrl, WellFormed, IsThere, AllFormed, AllRegistered, AllRules, HasDefault, IsWellFormed,
}

net_of-Reliable : {C V : Type 0} {net : Network C V} → Reliable net → Reliable (net_of net)
net_of-Reliable k = record {
  dials = λ c r ip port w can. k.dials c r ip port w.outside can;
  echoes = λ c w. k.echoes c w.outside;
}

web_of-Answering : {V : Type 0} {web : Web V} → Answering web → Answering (web_of web)
web_of-Answering k = record { answers = λ c url wire w. k.answers c url wire w.outside }

module _ {C V : Type 0} (env : Env C V) (cfg : Config) (doc : Documented env.dns)
    (reliable : Reliable env.net) (answering : Answering env.web)
    (formed : IsWellFormed (net_of env.net) cfg) where
  abbrev There : Ref → Type 0
  There = IsThere (net_of env.net)

  module _ (rec : Ref → Resolve (World V))
      (h : (r : Ref) → There r → (d : ℤ) → IsSafe Good (rec r d)) where
    elements-SafeElement :
        (d : ℤ) (rs : Refs) → AllFormed (net_of env.net) rs → All (SafeElement d) (elements rec rs)
    elements-SafeElement d Refs.end all = tt
    elements-SafeElement d (Refs.ref Ref.nil rs) all = (tt, elements-SafeElement d rs all)
    elements-SafeElement d (Refs.ref (Ref.anonymous u) rs) all =
        (h (Ref.anonymous u) all.0 d, elements-SafeElement d rs all.1)
    elements-SafeElement d (Refs.ref (Ref.named n) rs) all =
        (h (Ref.named n) tt d, elements-SafeElement d rs all)

    only-SafeElement :
        (d : ℤ) (b : Bool) (o : Option (Resolve (World V)))
        → SafeElement d o
        → SafeElement d (if b then o else none)
    only-SafeElement d true o k = k
    only-SafeElement d false o k = tt

    name_servers-SafeElement :
        (d : ℤ) (rs : Refs)
        → AllFormed (net_of env.net) rs
        → All (SafeElement d) (name_servers env cfg rec rs)
    name_servers-SafeElement d Refs.end all = tt
    name_servers-SafeElement d (Refs.ref Ref.nil rs) all = (
      only-SafeElement d (is_name_server_ref cfg Ref.nil) none tt,
      name_servers-SafeElement d rs all,
    )
    name_servers-SafeElement d (Refs.ref (Ref.anonymous u) rs) all = (
      only-SafeElement d (is_name_server_ref cfg (Ref.anonymous u)) _ (h (Ref.anonymous u) all.0 d),
      name_servers-SafeElement d rs all.1,
    )
    name_servers-SafeElement d (Refs.ref (Ref.named n) rs) all = (
      only-SafeElement d (is_name_server_ref cfg (Ref.named n)) _ (h (Ref.named n) tt d),
      name_servers-SafeElement d rs all,
    )

    bind_rules-SafeRules :
        (d : ℤ) (rules : List (Text × Ref))
        → AllRules (net_of env.net) rules
        → SafeRules d (bind_rules rec rules)
    bind_rules-SafeRules d [] all = tt
    bind_rules-SafeRules d ((n, r) ∷ rules) all = (h r all.0 d, bind_rules-SafeRules d rules all.1)

    instance_of-IsSafe :
        (o : Option Ref) (depth : ℤ)
        → cfg.default_resolver ≡ o
        → HasDefault (net_of env.net) o
        → IsSafe Good (behave env cfg rec Upstream.instance_of depth)
    unfolding behave
    instance_of-IsSafe none depth e there = absurd there
    instance_of-IsSafe (some r) depth e there =
        resolve_instance-IsSafe _ (rec r) depth (ap (bind_default rec) e)
          (bind_rules-SafeRules (less_one depth) cfg.rules formed.rules_there)
          (h r there (less_one depth))

    doh_of-IsSafe :
        (k : ℕ) (d : Doh) (r : Ref) (url : Option Text) (depth : ℤ)
        → d.url ≡ url
        → HasUrl url
        → There r
        → IsSafe Good (behave env cfg rec (Upstream.doh_of k d r) depth)
    unfolding behave
    doh_of-IsSafe k d r none depth e has there = absurd has
    doh_of-IsSafe k d r (some u) depth e has there =
        doh-IsSafe (slot_at k) env.dns doc env.urls (web_of env.web) (web_of-Answering answering)
          (schedule_of env.schedule) d u e (rec r) (h r there) depth

    behave-IsSafe :
        (u : Upstream) (depth : ℤ)
        → WellFormed (net_of env.net) u
        → IsSafe Good (behave env cfg rec u depth)
    unfolding behave
    behave-IsSafe Upstream.no_answer_of depth well = no_answer-IsSafe env.dns doc depth
    behave-IsSafe Upstream.not_exist_of depth well = not_exist-IsSafe env.dns doc depth
    behave-IsSafe Upstream.instance_of depth well =
        instance_of-IsSafe cfg.default_resolver depth refl formed.default_there
    behave-IsSafe (Upstream.address_of addr) depth well = address-IsSafe env.dns doc addr depth
    behave-IsSafe (Upstream.alias_of target r) depth well =
        alias-IsSafe env.dns doc (rec r) depth (h r well _) target
    behave-IsSafe (Upstream.sequence_of rs) depth well =
        sequence-IsSafe depth _ (elements-SafeElement _ rs well)
    behave-IsSafe (Upstream.concurrent_of rs) depth well =
        concurrent-IsSafe depth (schedule_of env.schedule) _ (name_servers-SafeElement _ rs well)
    behave-IsSafe (Upstream.filter_a_of r) depth well =
        filter_out_a-IsSafe env.dns doc (rec r) depth (h r well _)
    behave-IsSafe (Upstream.filter_aaaa_of r) depth well =
        filter_out_aaaa-IsSafe env.dns doc (rec r) depth (h r well _)
    behave-IsSafe (Upstream.filter_a_if_of r) depth well =
        filter_out_a_if_aaaa_presents-IsSafe env.dns doc (rec r) depth (h r well _)
    behave-IsSafe (Upstream.filter_aaaa_if_of r) depth well =
        filter_out_aaaa_if_a_presents-IsSafe env.dns doc (rec r) depth (h r well _)
    behave-IsSafe (Upstream.dns64_of prefix ignore r) depth well =
        dns64-IsSafe _ depth well.0 (h r well.1 _)
    behave-IsSafe (Upstream.name_server_of ns) depth well =
        name_server-IsSafe (net_of env.net) (net_of-Reliable reliable) ns well depth
    behave-IsSafe (Upstream.doh_of k d r) depth well =
        doh_of-IsSafe k d r d.url depth refl well.0 well.1

    behind_name-IsSafe :
        (name : Text) (us : List (Text × Upstream)) (depth : ℤ)
        → AllRegistered (net_of env.net) us
        → IsSafe Good (behind_name env cfg rec name (lookup name us) depth)
    unfolding behind_name lookup
    behind_name-IsSafe name [] depth all = fail-IsSafe (not_found name)
    behind_name-IsSafe name ((n, u) ∷ us) depth all =
        by (text_eq n name) (behave-IsSafe u depth all.0) (behind_name-IsSafe name us depth all.1)
      where
        by :
            (b : Bool)
            → IsSafe Good (behave env cfg rec u depth)
            → IsSafe Good (behind_name env cfg rec name (lookup name us) depth)
            → IsSafe Good
                (behind_name env cfg rec name (if b then some u else lookup name us) depth)
        by true one others = one
        by false one others = others

    enter-IsSafe : (r : Ref) → There r → (depth : ℤ) → IsSafe Good (enter env cfg rec r depth)
    unfolding enter
    enter-IsSafe Ref.nil there depth = absurd there
    enter-IsSafe (Ref.anonymous u) there depth = behave-IsSafe u depth there
    enter-IsSafe (Ref.named name) there depth =
        behind_name-IsSafe name cfg.registry depth formed.registered

  -- At any depth and on any fuel: whether the call comes to an end is another question.
  pub run-IsSafe :
      (fuel : ℕ) (r : Ref) → There r → (depth : ℤ) → IsSafe Good (run env cfg fuel r depth)
  unfolding run
  run-IsSafe zero r there depth = stop-IsSafe
  run-IsSafe (suc fuel) r there depth =
      enter-IsSafe (run env cfg fuel) (run-IsSafe fuel) r there depth
