-- ===== src/Resolvers/NameServers.antt =====
-- resolvers/nameserver/types.go: a query to a DNS server over UDP, TCP or TLS, straight or through
-- a SOCKS5 proxy.
use sec_dns.Prelude.{
  ℕ, suc, ◌+◌, ◌*◌, ◌/◌, Option, none, some, Bool, ◌&&◌, List, [], Text, codes, text_eq, has_prefix,
  has_suffix, trim_suffix, ltb, ℤ, pos, negsuc, minus, plus_one, if◌then◌else◌,
}
use sec_dns.Dns.{Msg}
use sec_dns.Exec.{Error, Exit, done, panicked, State, Resolve, Outcome}
use sec_dns.Resolvers.Guard.{guard_depth}

-- The settings of `socks5.Client`.
pub record Proxy : Type 0 where
  pub server : Text
  pub user_name : Text
  pub password : Text

-- `net.Addr` with the IP of `SendThrough`, by the dynamic type; the interface value nil.
pub data LocalAddr : Type 0 where
  tcp_addr udp_addr : List ℕ → LocalAddr
  no_addr : LocalAddr

-- The private type `client`: `proxy` tells which closures `dialFunc` and `dialTLSFunc` are.
pub record Client : Type 0 where
  pub net : Text
  pub server_name : Text
  pub local_addr : LocalAddr
  pub timeout : ℤ
  pub proxy : Option Proxy

pub record NameServer : Type 0 where
  pub address : List ℕ
  pub port : ℕ
  pub protocol : Text
  pub query_timeout : ℤ
  pub tls_server_name : Text
  pub send_through : List ℕ
  pub socks5_proxy : Text
  pub socks5_username : Text
  pub socks5_password : Text
  pub query_client : Option Client

abbrev tls_suffix : Text
tls_suffix = codes "-tls"

unfoldable pub local_addr_of : Text → List ℕ → LocalAddr
local_addr_of protocol ip =
    let network = trim_suffix protocol tls_suffix in
    if text_eq network (codes "tcp")
    then tcp_addr ip
    else if text_eq network (codes "udp")
    then udp_addr ip
    else no_addr

unfoldable pub proxy_of : NameServer → Option Proxy
proxy_of ns =
    if text_eq ns.socks5_proxy []
    then none
    else some (record {
      server = ns.socks5_proxy;
      user_name = ns.socks5_username;
      password = ns.socks5_password;
    })

-- initClient: the client that it stores
unfoldable pub init_client : NameServer → Client
unfolding local_addr_of proxy_of
init_client ns = record {
  net = ns.protocol;
  server_name = ns.tls_server_name;
  local_addr = local_addr_of ns.protocol ns.send_through;
  timeout = ns.query_timeout;
  proxy = proxy_of ns;
}

-- How `Dial` reaches a server: over TLS or not, and in which network.
pub record Route : Type 0 where
  pub use_tls : Bool
  pub network : Text

unfoldable pub route : Client → Route
route c =
    let network = if text_eq c.net [] then codes "udp" else c.net in
    let use_tls = has_prefix network (codes "tcp") && has_suffix network tls_suffix in
    record {
      use_tls = use_tls;
      network = if use_tls then trim_suffix network tls_suffix else network;
    }

pub data Dialled (C : Type 0) : Type 0 where
  connected : C → Dialled C
  unreachable : Error → Dialled C
  dial_panicked : Dialled C

pub data Received : Type 0 where
  got : Msg → Received
  lost : Error → Received

-- Connections of type `C` in the world `W`: the calls of net, crypto/tls, socks5 and dns.Conn.
-- `dial` stands for `dialFunc` and `dialTLSFunc` of the client.
pub record Network (C W : Type 0) : Type 0 where
  pub dial : Client → Route → List ℕ → ℕ → W → Dialled C × W
  pub set_deadline : C → ℤ → W → W
  pub write_msg : C → Msg → W → Option Error × W
  pub read_msg : C → W → Received × W
  pub close : C → W → W

module _ {C W : Type 0} (net : Network C W) where
  -- From `connection.ReadMsg()` on.
  abbrev pub received : Received → Outcome
  received (got m) = record { msg = some m; err = none }
  received (lost e) = record { msg = none; err = some e }

  -- From `connection.WriteMsg(query)` on; the deferred `Close` comes last.
  unfoldable pub exchange : C → Msg → W → Outcome × W
  exchange c query w =
      let (e, w₁) = net.write_msg c query w in
      elim e [
        | some e ↦ (record { msg = none; err = some e }, net.close c w₁)
        | none ↦ let (r, w₂) = net.read_msg c w₁ in (received r, net.close c w₂)
      ]

  -- The client of a server: `initClient` is called only where there is none.
  abbrev pub client_of : NameServer → Client
  client_of ns = elim ns.query_client [ some c ↦ c | none ↦ init_client ns ]

  -- `ns` after a call of `Resolve` that passed the test of the depth
  unfoldable pub prepared : NameServer → NameServer
  unfolding init_client
  prepared ns = record ns { query_client = some (client_of ns) }

  -- From `ns.queryClient.Dial` on.
  abbrev pub ask : NameServer → Dialled C × W → Msg → Exit Outcome × State W
  ask ns (connected c, w) query =
      let (out, w') = exchange c query (net.set_deadline c ns.query_timeout w) in
      (done out, record { query = query; world = w' })
  ask ns (unreachable e, w) query =
      (done (record { msg = none; err = some e }), record { query = query; world = w })
  ask ns (dial_panicked, w) query = (panicked, record { query = query; world = w })

  unfoldable pub name_server : NameServer → Resolve W
  unfolding init_client route exchange
  name_server ns = guard_depth λ depth s.
      ask ns (net.dial (client_of ns) (route (client_of ns)) ns.address ns.port s.world) s.query

-- time.Second, in nanoseconds
abbrev pub second : ℕ
second = 1_000_000_000

-- socks5Timeout: `/` on `time.Duration` rounds towards zero.
unfoldable pub socks5_timeout : ℤ → ℤ
socks5_timeout (pos t) = let d = t / second in if ltb (d * second) t then pos (d + 1) else pos d
socks5_timeout (negsuc t) =
    let d = suc t / second in if ltb (suc t) (d * second) then plus_one (minus d) else minus d
