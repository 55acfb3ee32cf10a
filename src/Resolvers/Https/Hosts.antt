-- ===== src/Resolvers/Https/Hosts.antt =====
-- resolvers/doh/types.go: the settings, the client, and serverName, resolveURL and initClient.
use sec_dns.Prelude.{
  Option, none, some, Bool, ◌&&◌, ℕ, List, [], ◌∷◌, ◌++◌, Text, text_eq, ℤ, if◌then◌else◌,
}
use sec_dns.Dns.{Rr, a, Library, new_msg, type_a}
use sec_dns.Exec.{Exec, Resolve, Outcome, ◌>>=◌, pure, panic, with_query}
use sec_dns.Common.{is_domain_name, ensure_fqdn}

-- What the resolver calls of net and net/url. A `*url.URL` is here the text that it was parsed
-- from; `with_host` is the copy with another field `Host`.
pub record Urls : Type 0 where
  pub hostname : Text → Text
  pub port_of : Text → Text
  pub to_string : Text → Text
  pub with_host : Text → Text → Text
  -- net.ParseIP(s) != nil, ip.String(), net.JoinHostPort(host, port)
  pub is_ip : Text → Bool
  pub ip_string : List ℕ → Text
  pub join_host_port : Text → Text → Text

-- `url.URL` with the scheme socks5, `none` for a nil `User`.
pub record SocksUrl : Type 0 where
  pub host : Text
  pub user : Option (Text × Text)

-- The private type `client`, with the fields of `http.Client` that are set.
pub record QueryClient : Type 0 where
  pub proxy : Option SocksUrl
  pub local_ip : List ℕ
  pub timeout : ℤ
  pub server_name : Text
  pub resolved_urls : List Text

-- The settings of a `DoH`, without its resolver.
pub record Doh : Type 0 where
  pub url : Option Text
  pub query_timeout : ℤ
  pub tls_server_name : Text
  pub send_through : List ℕ
  pub socks5_proxy : Text
  pub socks5_username : Text
  pub socks5_password : Text

-- The fields of a `DoH` that change.
pub record DohState : Type 0 where
  pub query_client : Option QueryClient
  pub initializing : Bool

module _ (dns : Library) (urls : Urls) (d : Doh) where
  unfoldable pub server_name_of : Text
  server_name_of =
      if text_eq d.tls_server_name []
      then elim d.url [ none ↦ [] | some u ↦ urls.hostname u ]
      else d.tls_server_name

  -- the proxy of `initClient`
  abbrev pub socks_url : Option SocksUrl
  socks_url =
      if text_eq d.socks5_proxy []
      then none
      else some (record {
        host = d.socks5_proxy;
        user =
            if text_eq d.socks5_username [] && text_eq d.socks5_password []
            then none
            else some (d.socks5_username, d.socks5_password);
      })

  -- The client that `initClient` stores, with the URLs that `resolveURL` found.
  unfoldable pub make_client : List Text → QueryClient
  unfolding server_name_of
  make_client resolved = record {
    proxy = socks_url;
    local_ip = d.send_through;
    timeout = d.query_timeout;
    server_name = server_name_of;
    resolved_urls = resolved;
  }

  -- The URL with an address of the host in its place.
  unfoldable pub url_at : Text → List ℕ → Text
  url_at u ip = urls.to_string (
      urls.with_host u (
        if text_eq (urls.port_of u) []
        then urls.ip_string ip
        else urls.join_host_port (urls.ip_string ip) (urls.port_of u)))

  -- The loop over `reply.Answer`.
  unfoldable pub address_urls : Text → List Rr → List Text
  unfolding url_at
  address_urls u [] = []
  address_urls u (a h ip ∷ rs) = url_at u ip ∷ address_urls u rs
  address_urls u (_ ∷ rs) = address_urls u rs

  -- The URL itself, if its host is an IP address.
  unfoldable pub literal_urls : Text → List Text
  literal_urls u = if urls.is_ip (urls.hostname u) then urls.to_string u ∷ [] else []

  -- From the reply of the resolver on; a nil reply without an error panics.
  unfoldable pub found_urls : {W : Type 0} → Text → Outcome → Exec W (List Text)
  unfolding address_urls literal_urls
  found_urls u out = elim out.err [
    | some e ↦ pure (literal_urls u)
    | none ↦ elim out.msg [
      | none ↦ panic
      | some m ↦ pure (literal_urls u ++ address_urls u m.answer)
    ]
  ]

  unfoldable pub resolve_host : {W : Type 0} → Text → Resolve W → ℤ → Exec W (List Text)
  unfolding is_domain_name ensure_fqdn
  resolve_host u resolver depth =
      if is_domain_name dns (urls.hostname u)
      then (do
        out ←
            with_query (dns.set_question new_msg (ensure_fqdn dns (urls.hostname u)) type_a)
              (resolver depth)
        found_urls u out)
      else pure (literal_urls u)

  -- resolveURL
  unfoldable pub resolve_url : {W : Type 0} → Resolve W → ℤ → Exec W (List Text)
  resolve_url resolver depth = elim d.url [
    | none ↦ pure []
    | some u ↦ resolve_host u resolver depth
  ]
