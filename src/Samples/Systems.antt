-- ===== src/Samples/Systems.antt =====
-- Configurations for the samples.
use sec_dns.Prelude.{ℕ, ◌+◌, ◌≢◌, pos, [], ◌∷◌, ◌++◌, codes, none, some, false, arith}
use sec_dns.Dns.{plain_library}
use sec_dns.Exec.{stopped}
use sec_dns.Exec.Tidy.{IsTidy}
use sec_dns.Common.{client_error_message_handler, server_error_message_handler}
use sec_dns.Resolvers.{Urls, Web, Doh, packed, body, got}
use sec_dns.Core.{handle}
use sec_dns.System.{Upstream, Ref, Config, Env, World, run}
use sec_dns.System.Idle.{Within}
use sec_dns.System.Serving.{handle-run_ends}
use sec_dns.System.Termination.{run-IsTidy}
use sec_dns.Samples.Networks.{query_for, both_records, counting}

-- URLs are host names, and no host name is an IP address.
abbrev pub plain_urls : Urls
plain_urls = record {
  hostname = λ u. u;
  port_of = λ u. [];
  to_string = λ u. u;
  with_host = λ u host. host;
  is_ip = λ s. false;
  ip_string = λ ip. ip;
  join_host_port = λ host port. host ++ port;
}

-- Every request is answered with both records; the world counts the requests.
abbrev pub answering : Web ℕ
answering = record {
  pack = λ m. packed [];
  new_request = λ url. none;
  post = λ c url wire w. (body [], w + 1);
  unpack = λ bytes. got both_records;
}

abbrev pub doh_settings : Doh
doh_settings = record {
  url = some (codes "dns.example");
  query_timeout = pos 2_000_000_000;
  tls_server_name = [];
  send_through = [];
  socks5_proxy = [];
  socks5_username = [];
  socks5_password = [];
}

abbrev pub env : Env (Unit {0}) ℕ
env = record {
  dns = plain_library;
  urls = plain_urls;
  net = counting;
  web = answering;
  schedule = λ w. [];
}

-- The default resolver sends its queries over HTTPS, and has the instance look up its host.
abbrev pub circular : Config
circular = record {
  registry =
      (codes "doh", Upstream.doh_of 0 doh_settings (Ref.anonymous Upstream.instance_of)) ∷ [];
  rules = [];
  default_resolver = some (Ref.named (codes "doh"));
}

abbrev pub at_start : World ℕ
at_start = record { cells = record { query_client = none; initializing = false } ∷ []; outside = 0 }

run-IsTidy_example :
    IsTidy
      (Within 1 (false ∷ []))
      (run env circular 132 (Ref.anonymous Upstream.instance_of) (pos 64))
run-IsTidy_example =
    run-IsTidy env circular 132 1 (false ∷ []) (pos 64) (Ref.anonymous Upstream.instance_of)
      (omega arith)

handle-run_ends_example :
    (handle
      (client_error_message_handler plain_library)
      (server_error_message_handler plain_library)
      (run env circular 132 (Ref.anonymous Upstream.instance_of))
      (pos 64)
      (some (query_for (codes "example.") 1))
      at_start).0
    ≢ stopped
handle-run_ends_example =
    handle-run_ends env circular (client_error_message_handler plain_library)
      (server_error_message_handler plain_library) 132 1 (pos 64)
      (Ref.anonymous Upstream.instance_of) (some (query_for (codes "example.") 1)) at_start
      (omega arith) (omega arith)
