-- ===== src/Config/Tabled.antt =====
-- The objects that the descriptors of dns64, doh, alias and the filters make.
use sec_dns.Prelude.{ℕ, ◌≤◌, ◌≡◌, Option, none, some, List, [], ◌∷◌, Text, length, arith, ℤ, codes}
use sec_dns.Dns.{Library}
use sec_dns.Config.{
  Value, Described, accepted, assigned, to_prefix, to_url, not_nil, GoDescriptor, Describes,
  kind_string, Dns64Object, new_dns64, well_known_prefix, prefix_source, dns64_filler, DohObject,
  new_doh, set_doh, url_resolver_source, doh_filler, AliasObject, new_alias, alias_filler,
  FilterObject, new_filter, filter_out_a_filler, filter_out_aaaa_filler, filter_out_a_if_filler,
  filter_out_aaaa_if_filler,
}
use sec_dns.Config.Converted.{to_prefix_long}
use sec_dns.Config.Filled.{
  Takes, Gives, Fills, not_nil-Takes, assignment-Takes, object_at-Gives, default_value-Gives,
  value_sources-Gives, object_filler-Fills, described, nil-FillsEach, cons-FillsEach,
  kept-FillsEach, fillers-Fills, unseen-Fills,
}
use sec_dns.System.WellFormed.{HasUrl}

module _ {X : Type 0} (Q : X → Type 0) where
  -- A field that is not nil, with `Q`.
  abbrev pub Set : Option X → Type 0
  Set none = ⊥
  Set (some x) = Q x

  -- What is expected of the descriptor of all resolvers: what it describes is not nil, and has `Q`.
  pub record DescribesAll {V : Type 0} (describe_any : V → Described X) : Type 0 where
    pub all : (v : V) (o : Option X) → assigned describe_any v ≡ some o → Set o

abbrev Long : Option (List ℕ) → Type 0
Long none = ⊥
Long (some p) = 12 ≤ length p

module _ {F V X : Type 0} {g : GoDescriptor V} (k : Describes g) (decoded : V → Value F V)
    (Q : X → Type 0) (describe_any : V → Described X) (others : DescribesAll Q describe_any) where
  assigned-Takes : Takes k (Set Q) (g.assignment (assigned describe_any))
  assigned-Takes = assignment-Takes k (Set Q) (assigned describe_any) others.all

  empty-Takes : (empty : V) → Takes k (Set Q) (g.assignment λ v. assigned describe_any empty)
  empty-Takes empty =
      assignment-Takes k (Set Q) (λ v. assigned describe_any empty) λ v o e. others.all empty o e

  module _ (parse_ip : Text → Option (List ℕ)) (to_4 : List ℕ → Option (List ℕ)) where
    prefix_source-Gives : Gives k Long (prefix_source g decoded parse_ip to_4 describe_any)
    unfolding prefix_source
    prefix_source-Gives = value_sources-Gives k Long _ (
      object_at-Gives k Long _ _ (
          not_nil-Takes k Long kind_string (to_prefix parse_ip to_4) decoded
            (to_prefix_long parse_ip to_4)),
      (default_value-Gives k Long (some well_known_prefix) (omega arith), tt),
    )

    -- A dns64 that the configuration gives has a resolver and a prefix that is long enough.
    abbrev pub Dns64There : Dns64Object X → Type 0
    Dns64There d = Set Q d.resolver × (12 ≤ length d.prefix)

    pub described_dns64-There :
        (v : V) (d : Dns64Object X)
        → accepted (g.describe new_dns64 (dns64_filler g decoded parse_ip to_4 describe_any)) v
          ≡ some d
        → Set Q d.resolver × (12 ≤ length d.prefix)
    unfolding dns64_filler
    described_dns64-There v d e =
        described k new_dns64 _ v d
          (fillers-Fills k (
            cons-FillsEach k resolver_Fills (
              cons-FillsEach k
                (object_filler-Fills k Long prefix_source-Gives (λ d h set. absurd h)
                  λ p d long set. (set, long))
                (kept-FillsEach k Dns64There _ (unseen-Fills k (λ b d there. there), tt)))))
          tt e
      where
        resolver_Fills :
            Fills k
              (λ d. Unit)
              (λ (d : Dns64Object X). Set Q d.resolver)
              (g.object_filler
                (λ x d. record d { resolver = some x })
                (g.object_at (codes "resolver" ∷ []) (g.assignment (assigned describe_any))))
        resolver_Fills =
            object_filler-Fills k (Set Q) (object_at-Gives k (Set Q) _ _ assigned-Takes)
              (λ d h any. absurd h) λ x d h any. h

  module _ (parse_url : Text → Option Text) (parse_ip : Text → Option (List ℕ)) (seconds : F → ℤ)
      (parse_float : Text → Option F) (empty : V) where
    url_resolver-Gives :
        Gives k
          (Set Q)
          (url_resolver_source g decoded parse_url parse_ip seconds parse_float describe_any empty)
    unfolding url_resolver_source
    url_resolver-Gives = value_sources-Gives k (Set Q) _ (
      object_at-Gives k (Set Q) _ _ assigned-Takes,
      (object_at-Gives k (Set Q) _ _ (empty-Takes empty), tt),
    )

    -- A DoH that the configuration gives has a URL and a resolver for its host.
    pub described_doh-There :
        (v : V) (d : DohObject X)
        → accepted
            (g.describe new_doh
              (doh_filler g decoded parse_url parse_ip seconds parse_float describe_any empty))
            v
          ≡ some d
        → HasUrl d.settings.url × Set Q d.resolver
    unfolding doh_filler
    described_doh-There v d e =
        described k new_doh _ v d
          (fillers-Fills k (
            cons-FillsEach k url_Fills (
              cons-FillsEach k (unseen-Fills k λ t d has. has) (
                cons-FillsEach k (unseen-Fills k λ n d has. has) (
                  cons-FillsEach k (unseen-Fills k λ n d has. has) (
                    cons-FillsEach k
                      (object_filler-Fills k (Set Q) url_resolver-Gives (λ d h has. absurd h)
                        λ x d there has. (has, there))
                      (kept-FillsEach k (λ d. HasUrl d.settings.url × Set Q d.resolver) _
                        (
                          unseen-Fills k (λ n d there. there),
                          (
                            unseen-Fills k (λ n d there. there),
                            (unseen-Fills k (λ n d there. there), tt),
                          ),
                        ))))))))
          tt e
      where
        url_Fills :
            Fills k
              (λ d. Unit)
              (λ (d : DohObject X). HasUrl d.settings.url)
              (g.object_filler (set_doh λ x d. record d { url = some x }) (
                g.object_at
                  (codes "url" ∷ [])
                  (g.convertible kind_string λ v. not_nil (to_url parse_url) (decoded v))))
        url_Fills =
            object_filler-Fills k HasUrl
              (object_at-Gives k HasUrl _ _
                (not_nil-Takes k HasUrl kind_string (to_url parse_url) decoded λ u x same. tt))
              (λ d h any. absurd h) λ x d h any. tt

  -- An alias that the configuration gives has a resolver.
  pub described_alias-There :
      (dns : Library) (empty v : V) (a : AliasObject X)
      → accepted (g.describe new_alias (alias_filler g decoded dns describe_any empty)) v ≡ some a
      → Set Q a.resolver
  unfolding alias_filler
  described_alias-There dns empty v a e =
      described k new_alias _ v a
        (fillers-Fills k (
          cons-FillsEach k (unseen-Fills k {P = λ a. Unit} λ n a any. tt) (
            cons-FillsEach k
              (object_filler-Fills k (Set Q) (object_at-Gives k (Set Q) _ _ (empty-Takes empty))
                (λ a h any. absurd h) λ x a h any. h)
              (nil-FillsEach k λ (a : AliasObject X). Set Q a.resolver))))
        tt e

  resolver_filler-There :
      (v : V) (f : FilterObject X)
      → accepted
          (g.describe new_filter (
            g.object_filler
              (λ x f. record f { resolver = some x })
              (g.object_at g.root (g.assignment (assigned describe_any)))))
          v
        ≡ some f
      → Set Q f.resolver
  resolver_filler-There v f e =
      described k {Pre = λ f. Unit} {Post = λ f. Set Q f.resolver} new_filter _ v f
        (object_filler-Fills k (Set Q) (object_at-Gives k (Set Q) _ _ assigned-Takes)
          (λ f h any. absurd h) λ x f h any. h)
        tt e

  -- And so have the filters.
  abbrev FilterThere : g.Filler (FilterObject X) → Type 0
  FilterThere filler =
      (v : V) (f : FilterObject X)
      → accepted (g.describe new_filter filler) v ≡ some f
      → Set Q f.resolver

  pub described_filters-There :
      FilterThere (filter_out_a_filler g describe_any)
      × FilterThere (filter_out_aaaa_filler g describe_any)
      × FilterThere (filter_out_a_if_filler g describe_any)
      × FilterThere (filter_out_aaaa_if_filler g describe_any)
  unfolding filter_out_a_filler filter_out_aaaa_filler filter_out_a_if_filler
      filter_out_aaaa_if_filler
  described_filters-There =
      (resolver_filler-There, resolver_filler-There, resolver_filler-There, resolver_filler-There)
