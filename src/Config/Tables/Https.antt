-- ===== src/Config/Tables/Https.antt =====
-- The descriptor of internal/upstream/resolvers/doh/types.go.
use sec_dns.Prelude.{ℕ, ℤ, pos, Option, none, some, List, [], ◌∷◌, Text, codes}
use sec_dns.Resolvers.{Doh}
use sec_dns.Config.Values.{Value, Described, assigned}
use sec_dns.Config.Fields.{to_url, to_doh_timeout, to_send_through}
use sec_dns.Config.Descriptors.{
  GoDescriptor, kind_string, kind_float64, not_nil, if_text, if_number,
}

-- The struct DoH, without what its methods keep in it: `X` are resolvers.
pub record DohObject (X : Type 0) : Type 0 where
  pub settings : Doh
  pub resolver : Option X

abbrev pub new_doh : {X : Type 0} → DohObject X
new_doh = record {
  settings = record {
    url = none;
    query_timeout = pos 0;
    tls_server_name = [];
    send_through = [];
    socks5_proxy = [];
    socks5_username = [];
    socks5_password = [];
  };
  resolver = none;
}

abbrev pub set_doh : {A X : Type 0} → (A → Doh → Doh) → A → DohObject X → DohObject X
set_doh set x d = record d { settings = set x d.settings }

-- `describe_any` is Describe of resolver.Descriptor(), `empty` the string "" as a value.
module _ {F V X : Type 0} (g : GoDescriptor V) (decoded : V → Value F V)
    (parse_url : Text → Option Text) (parse_ip : Text → Option (List ℕ)) (seconds : F → ℤ)
    (parse_float : Text → Option F) (describe_any : V → Described X) (empty : V) where
  unfoldable pub doh_timeout_source : g.Source ℤ
  unfolding to_doh_timeout
  doh_timeout_source = g.value_sources (
      g.object_at (codes "queryTimeout" ∷ []) (
        g.assignable_kinds (
          g.convertible kind_float64
            (λ v. not_nil (if_number (to_doh_timeout seconds parse_float)) (decoded v))
          ∷ g.convertible kind_string
              (λ v. not_nil (if_text (to_doh_timeout seconds parse_float)) (decoded v))
          ∷ []))
      ∷ g.default_value (some (pos 2_000_000_000))
      ∷ [])

  -- The resolver at `urlResolver`, or the one that the empty name describes.
  unfoldable pub url_resolver_source : g.Source X
  unfolding assigned
  url_resolver_source = g.value_sources (
      g.object_at (codes "urlResolver" ∷ []) (g.assignment (assigned describe_any))
      ∷ g.object_at [] (g.assignment λ v. assigned describe_any empty)
      ∷ [])

  abbrev pub doh_text : Text → g.Source Text
  doh_text key = g.value_sources (g.object_at (key ∷ []) g.string ∷ g.default_value (some []) ∷ [])

  unfoldable pub doh_filler : g.Filler (DohObject X)
  unfolding to_url to_send_through doh_timeout_source url_resolver_source
  doh_filler = g.fillers (
      g.object_filler (set_doh λ x d. record d { url = some x }) (
        g.object_at (codes "url" ∷ [])
          (g.convertible kind_string λ v. not_nil (to_url parse_url) (decoded v)))
      ∷ g.object_filler (set_doh λ x d. record d { query_timeout = x }) doh_timeout_source
      ∷ g.object_filler (set_doh λ x d. record d { tls_server_name = x })
          (doh_text (codes "tlsServerName"))
      ∷ g.object_filler (set_doh λ x d. record d { send_through = x }) (
          g.value_sources (
            g.object_at (codes "sendThrough" ∷ [])
              (g.convertible kind_string λ v. not_nil (to_send_through parse_ip) (decoded v))
            ∷ g.default_value none
            ∷ []))
      ∷ g.object_filler (λ x d. record d { resolver = some x }) url_resolver_source
      ∷ g.object_filler (set_doh λ x d. record d { socks5_proxy = x })
          (doh_text (codes "socks5Proxy"))
      ∷ g.object_filler (set_doh λ x d. record d { socks5_username = x })
          (doh_text (codes "socks5Username"))
      ∷ g.object_filler (set_doh λ x d. record d { socks5_password = x })
          (doh_text (codes "socks5Password"))
      ∷ [])
