-- ===== src/Samples/Started.antt =====
-- Values of a configuration, registrations, levels of the logger, and a listener.
use sec_dns.Prelude.{
  lookup, map, All, ℕ, ◌≡◌, ◌≢◌, refl, pos, negsuc, [], ◌∷◌, ◌++◌, none, some, false, Text, codes,
  arith,
}
use sec_dns.Dns.{plain_library}
use sec_dns.Exec.{stopped}
use sec_dns.Common.{client_error_message_handler, server_error_message_handler}
use sec_dns.Core.{handle}
use sec_dns.Listeners.{DnsServer, Sockets, serve}
use sec_dns.Logger.{Levels, initial_loggers, log_level}
use sec_dns.Logger.Consistent.{timestamps, to_level, apply_each, log_level-initial_loggers}
use sec_dns.Resolvers.{arrange}
use sec_dns.Config.{Prototype, Registrations, register_each, resolver_names}
use sec_dns.Config.Featured.{register_each-resolver_names}
use sec_dns.System.{Upstream, Ref, run, sockets_of}
use sec_dns.System.Serving.{serve-run_ends}
use sec_dns.Samples.Networks.{query_for}
use sec_dns.Samples.Systems.{env, circular, at_start}

-- Two queries come in, and then the server ends without an error.
abbrev pub two_queries : Sockets ℕ
two_queries = record {
  ip_string = λ ip. ip;
  itoa = λ n. n ∷ [];
  join_host_port = λ host port. host ++ port;
  listen_and_serve = λ address network w. record {
    queries = query_for (codes "a.") 1 ∷ query_for (codes "b.") 28 ∷ [];
    ended_by = none;
  };
  write_msg = λ m w. (none, w);
}

abbrev pub local_listener : DnsServer
local_listener = record { listen = 127 ∷ 0 ∷ 0 ∷ 1 ∷ []; port = 53; protocol = codes "udp" }

serve-run_ends_example :
    (serve
      (sockets_of two_queries)
      (some (
        handle
          (client_error_message_handler plain_library)
          (server_error_message_handler plain_library)
          (run env circular 132 (Ref.anonymous Upstream.instance_of))
          (pos 64)))
      local_listener
      at_start).0
    ≢ stopped
serve-run_ends_example =
    serve-run_ends env circular (client_error_message_handler plain_library)
      (server_error_message_handler plain_library) 132 1 (pos 64)
      (Ref.anonymous Upstream.instance_of) two_queries local_listener at_start (omega arith)
      (omega arith)

-- Descriptors are the names of their types.
abbrev named_prototype : Text → Prototype
named_prototype n = record { type_string = n; type_name = some n }

abbrev second_first : Registrations Text
second_first = register_each named_prototype (map (λ n. n) (arrange (1 ∷ 3 ∷ []) resolver_names)) []

register_each-resolver_names_example :
    (second_first.errors ≡ []) × All (λ n. lookup n second_first.registered ≡ some n) resolver_names
register_each-resolver_names_example =
    register_each-resolver_names named_prototype (λ n. n) (λ n. refl) (1 ∷ 3 ∷ [])

abbrev zerolog_levels : Levels
zerolog_levels = record {
  debug = pos 0;
  info = pos 1;
  warn = pos 2;
  error = pos 3;
  fatal = pos 4;
  panic = pos 5;
  no_level = pos 6;
  disabled = pos 7;
  trace = negsuc 0;
}

log_level-initial_loggers_example :
    log_level
      (apply_each (to_level (pos 5) ∷ timestamps false ∷ []) (initial_loggers zerolog_levels))
    ≡ pos 5
log_level-initial_loggers_example =
    log_level-initial_loggers zerolog_levels (to_level (pos 5) ∷ timestamps false ∷ [])
