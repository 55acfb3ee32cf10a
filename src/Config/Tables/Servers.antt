-- ===== src/Config/Tables/Servers.antt =====
-- The descriptors of internal/upstream/resolvers/nameserver/types.go and of
-- internal/listeners/servers/dns/server/types.go.
use sec_dns.Prelude.{ℕ, ℤ, pos, Option, none, some, List, [], ◌∷◌, Text, codes}
use sec_dns.Resolvers.{NameServer}
use sec_dns.Listeners.{DnsServer}
use sec_dns.Config.Values.{Value, to_port}
use sec_dns.Config.Fields.{to_ip, to_query_timeout, to_listen, to_listen_port}
use sec_dns.Config.Descriptors.{
  GoDescriptor, kind_string, kind_float64, not_nil, if_text, if_number,
}

-- new(NameServer) and new(DNSServer): zero values
abbrev pub new_name_server : NameServer
new_name_server = record {
  address = [];
  port = 0;
  protocol = [];
  query_timeout = pos 0;
  tls_server_name = [];
  send_through = [];
  socks5_proxy = [];
  socks5_username = [];
  socks5_password = [];
  query_client = none;
}

abbrev pub new_dns_server : DnsServer
new_dns_server = record { listen = []; port = 0; protocol = [] }

-- Go's `2 * time.Second`, in nanoseconds
abbrev pub two_seconds : ℤ
two_seconds = pos 2_000_000_000

module _ {F V : Type 0} (g : GoDescriptor V) (decoded : V → Value F V)
    (parse_ip : Text → Option (List ℕ)) (truncate seconds : F → ℤ) (atoi : Text → Option ℤ)
    (parse_float : Text → Option F) where
  unfoldable pub ip_kind : g.Kind (List ℕ)
  unfolding to_ip
  ip_kind = g.convertible kind_string λ v. not_nil (to_ip parse_ip) (decoded v)

  unfoldable pub port_source : g.Source ℕ
  unfolding to_port
  port_source = g.value_sources (
      g.object_at (codes "port" ∷ []) (
        g.assignable_kinds (
          g.convertible kind_float64 (λ v. not_nil (if_number (to_port truncate atoi)) (decoded v))
          ∷ g.convertible kind_string (λ v. not_nil (if_text (to_port truncate atoi)) (decoded v))
          ∷ []))
      ∷ g.default_value (some 53)
      ∷ [])

  unfoldable pub timeout_source : g.Source ℤ
  unfolding to_query_timeout
  timeout_source = g.value_sources (
      g.object_at (codes "queryTimeout" ∷ []) (
        g.assignable_kinds (
          g.convertible kind_float64
            (λ v. not_nil (if_number (to_query_timeout seconds parse_float)) (decoded v))
          ∷ g.convertible kind_string
              (λ v. not_nil (if_text (to_query_timeout seconds parse_float)) (decoded v))
          ∷ []))
      ∷ g.default_value (some two_seconds)
      ∷ [])

  -- A string at a key, or a default.
  abbrev pub text_or : Text → Text → g.Source Text
  text_or key default =
      g.value_sources (g.object_at (key ∷ []) g.string ∷ g.default_value (some default) ∷ [])

  unfoldable pub name_server_filler : g.Filler NameServer
  unfolding ip_kind port_source timeout_source
  name_server_filler = g.fillers (
      g.object_filler (λ x ns. record ns { address = x })
        (g.object_at (codes "address" ∷ []) ip_kind)
      ∷ g.object_filler (λ x ns. record ns { port = x }) port_source
      ∷ g.object_filler (λ x ns. record ns { protocol = x })
          (text_or (codes "protocol") (codes "udp"))
      ∷ g.object_filler (λ x ns. record ns { query_timeout = x }) timeout_source
      ∷ g.object_filler (λ x ns. record ns { tls_server_name = x })
          (text_or (codes "tlsServerName") [])
      ∷ g.object_filler (λ x ns. record ns { send_through = x })
          (g.value_sources
            (g.object_at (codes "sendThrough" ∷ []) ip_kind ∷ g.default_value none ∷ []))
      ∷ g.object_filler (λ x ns. record ns { socks5_proxy = x }) (text_or (codes "socks5Proxy") [])
      ∷ g.object_filler (λ x ns. record ns { socks5_username = x })
          (text_or (codes "socks5Username") [])
      ∷ g.object_filler (λ x ns. record ns { socks5_password = x })
          (text_or (codes "socks5Password") [])
      ∷ [])

  unfoldable pub dns_server_port : g.Source ℕ
  unfolding to_listen_port
  dns_server_port = g.value_sources (
      g.object_at (codes "port" ∷ []) (
        g.assignable_kinds (
          g.convertible kind_float64
            (λ v. not_nil (if_number (to_listen_port truncate atoi)) (decoded v))
          ∷ g.convertible kind_string
              (λ v. not_nil (if_text (to_listen_port truncate atoi)) (decoded v))
          ∷ []))
      ∷ g.default_value (some 53)
      ∷ [])

  unfoldable pub dns_server_filler : g.Filler DnsServer
  unfolding dns_server_port to_listen
  dns_server_filler = g.fillers (
      g.object_filler (λ x d. record d { listen = x })
        (g.object_at (codes "listen" ∷ [])
          (g.convertible kind_string λ v. not_nil (to_listen parse_ip) (decoded v)))
      ∷ g.object_filler (λ x d. record d { port = x }) dns_server_port
      ∷ g.object_filler (λ x d. record d { protocol = x })
          (text_or (codes "protocol") (codes "udp"))
      ∷ [])
