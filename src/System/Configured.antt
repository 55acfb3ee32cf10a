-- ===== src/System/Configured.antt =====
-- The resolvers that the descriptors of internal/upstream/resolvers give, and what they have of their
-- own for the calls of Resolve.
use sec_dns.Prelude.{◌≤◌, [], Option, none, some, ◌≡◌, refl, length}
use sec_dns.Resolvers.{NameServer, Network, init_client, proxy_of, client_of}
use sec_dns.Resolvers.Safe.Servers.{CanDial}
use sec_dns.Config.{
  accepted, GoDescriptor, Describes, no_answer_filler, not_exist_filler, new_name_server,
  name_server_filler,
}
use sec_dns.Config.Filled.{
  Fills, default_value-Gives, object_filler-Fills, described, kept-FillsEach, fillers-Fills,
  unseen-Fills,
}
use sec_dns.Config.Tabled.{
  Set, DescribesAll, described_dns64-There, described_doh-There, described_alias-There,
  described_filters-There,
}
use sec_dns.System.{World, Upstream, Ref}
use sec_dns.System.WellFormed.{HasUrl}
use sec_dns.System.Given.{
  Conversions, Given, the_instance, by_value, held_in, Gave, gave_name_server, gave_dns64, gave_doh,
  gave_alias, gave_filter_out_a, gave_filter_out_aaaa, gave_filter_out_a_if,
  gave_filter_out_aaaa_if, gave_address, gave_sequence, gave_name_servers, gave_no_answer,
  gave_not_exist, a_name_server,
}

abbrev pub NotNil : Ref → Type 0
NotNil Ref.nil = ⊥
NotNil (Ref.anonymous u) = Unit
NotNil (Ref.named n) = Unit

held_in-NotNil : (o : Option Ref) → Set NotNil o → NotNil (held_in o)
held_in-NotNil none h = h
held_in-NotNil (some r) h = h

-- What a resolver has for itself, whatever the resolvers that it holds are: one that is not nil, a
-- prefix that is long enough, a URL, a local address if there is a proxy.
abbrev pub Fit : {C W : Type 0} → Network C (World W) → Upstream → Type 0
Fit net Upstream.no_answer_of = Unit
Fit net Upstream.not_exist_of = Unit
Fit net Upstream.instance_of = Unit
Fit net (Upstream.address_of addr) = Unit
Fit net (Upstream.alias_of target r) = NotNil r
Fit net (Upstream.sequence_of rs) = Unit
Fit net (Upstream.concurrent_of rs) = Unit
Fit net (Upstream.filter_a_of r) = NotNil r
Fit net (Upstream.filter_aaaa_of r) = NotNil r
Fit net (Upstream.filter_a_if_of r) = NotNil r
Fit net (Upstream.filter_aaaa_if_of r) = NotNil r
Fit net (Upstream.dns64_of prefix ignore r) = (12 ≤ length prefix) × NotNil r
Fit net (Upstream.name_server_of ns) = CanDial (client_of net ns)
Fit net (Upstream.doh_of k d r) = HasUrl d.url × NotNil r

module _ {F V C W : Type 0} (net : Network C (World W)) {g : GoDescriptor V} (k : Describes g)
    (c : Conversions F V) (others : DescribesAll NotNil c.describe_any) where
  new_client :
      (v : V) (ns : NameServer)
      → accepted (g.describe new_name_server (a_name_server g c)) v ≡ some ns
      → ns.query_client ≡ none
  unfolding name_server_filler
  new_client v ns e =
      described k {Pre = λ ns. ns.query_client ≡ none} {Post = λ ns. ns.query_client ≡ none}
        new_name_server _ v ns
        (fillers-Fills k (
          kept-FillsEach k (λ ns. ns.query_client ≡ none) _
            (
              keeps (λ x ns h. h),
              (
                keeps (λ x ns h. h),
                (
                  keeps (λ x ns h. h),
                  (
                    keeps (λ x ns h. h),
                    (
                      keeps (λ x ns h. h),
                      (
                        keeps (λ x ns h. h),
                        (keeps (λ x ns h. h), (keeps (λ x ns h. h), (keeps (λ x ns h. h), tt))),
                      ),
                    ),
                  ),
                ),
              ),
            )))
        refl e
    where
      keeps :
          {A : Type 0} {set : A → NameServer → NameServer} {s : g.Source A}
          → ((a : A) (ns : NameServer) → ns.query_client ≡ none → (set a ns).query_client ≡ none)
          → Fills k
              (λ ns. ns.query_client ≡ none)
              (λ ns. ns.query_client ≡ none)
              (g.object_filler set s)
      keeps h = unseen-Fills k {P = λ ns. ns.query_client ≡ none} h

  without_proxy-CanDial :
      (ns : NameServer) → ns.query_client ≡ none → ns.socks5_proxy ≡ [] → CanDial (client_of net ns)
  unfolding init_client proxy_of
  without_proxy-CanDial ns new direct = rw (new, direct) tt

  default-Fit :
      (new : Upstream) (v : V) (u : Upstream)
      → Fit net new
      → accepted
          (g.describe none (g.object_filler (λ x old. some x) (g.default_value (some new))))
          v
        ≡ some (some u)
      → Fit net u
  default-Fit new v u h e =
      described k {Pre = λ o. Unit} {Post = Set (Fit net)} none _ v (some u)
        (object_filler-Fills k (Set (Fit net)) (default_value-Gives k (Set (Fit net)) (some new) h)
          (λ o h any. absurd h) λ x o h any. h)
        tt e

  -- A resolver that the configuration gives has what its method Resolve reads of its own, and the
  -- resolver that it holds is not nil. Of the name servers this is said for those without a proxy.
  Gave-Fit : (v : V) (u : Upstream) → Gave g c v u → Fit net u
  unfolding no_answer_filler not_exist_filler
  Gave-Fit v _ (gave_name_server ns e direct) = without_proxy-CanDial ns (new_client v ns e) direct
  Gave-Fit v _ (gave_dns64 d e) =
      let (set, long) =
        described_dns64-There k c.decoded NotNil c.describe_any others c.parse_ip c.to_4 v d e in
      (long, held_in-NotNil d.resolver set)
  Gave-Fit v _ (gave_doh cell d e) =
      let (has, set) =
        described_doh-There k c.decoded NotNil c.describe_any others c.parse_url c.parse_ip
          c.seconds c.parse_float c.empty v d e in
      (has, held_in-NotNil d.resolver set)
  Gave-Fit v _ (gave_alias a e) =
      held_in-NotNil a.resolver
        (described_alias-There k c.decoded NotNil c.describe_any others c.dns c.empty v a e)
  Gave-Fit v _ (gave_filter_out_a f e) =
      held_in-NotNil f.resolver
        ((described_filters-There k c.decoded NotNil c.describe_any others).0 v f e)
  Gave-Fit v _ (gave_filter_out_aaaa f e) =
      held_in-NotNil f.resolver
        ((described_filters-There k c.decoded NotNil c.describe_any others).1 v f e)
  Gave-Fit v _ (gave_filter_out_a_if f e) =
      held_in-NotNil f.resolver
        ((described_filters-There k c.decoded NotNil c.describe_any others).2 v f e)
  Gave-Fit v _ (gave_filter_out_aaaa_if f e) =
      held_in-NotNil f.resolver
        ((described_filters-There k c.decoded NotNil c.describe_any others).3 v f e)
  Gave-Fit v _ (gave_address addr new e) = tt
  Gave-Fit v _ (gave_sequence rs e) = tt
  Gave-Fit v _ (gave_name_servers rs e) = tt
  Gave-Fit v _ (gave_no_answer u e) = default-Fit Upstream.no_answer_of v u tt e
  Gave-Fit v _ (gave_not_exist u e) = default-Fit Upstream.not_exist_of v u tt e

  pub Given-Fit : (u : Upstream) → Given g c u → Fit net u
  Given-Fit _ the_instance = tt
  Given-Fit _ (by_value v u gave) = Gave-Fit v u gave
