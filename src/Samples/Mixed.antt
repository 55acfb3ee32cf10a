-- ===== src/Samples/Mixed.antt =====
-- A configuration in which all kinds of calls between resolvers occur.
use sec_dns.Prelude.{List, ◌≡◌, ℕ, pos, [], ◌∷◌, codes, ◌++◌, refl, none, some, false, arith}
use sec_dns.Dns.{plain_library, plain_library-Documented}
use sec_dns.Exec.{Error, done}
use sec_dns.Common.{client_error_message_handler, server_error_message_handler}
use sec_dns.Resolvers.{client_of, init_client}
use sec_dns.Resolvers.Safe.Servers.{Reliable, CanDial}
use sec_dns.Resolvers.Safe.Https.{Answering}
use sec_dns.Core.{Handled, handle}
use sec_dns.Listeners.{Arrivals, serve}
use sec_dns.System.{Upstream, Ref, Refs, Config, World, run, net_of, sockets_of}
use sec_dns.System.WellFormed.{IsWellFormed}
use sec_dns.Core.Answers.{Answers}
use sec_dns.System.Replies.{Served, handle-run_replies, serve-run_returns}
use sec_dns.Samples.Networks.{query_for, counting, local_server}
use sec_dns.Samples.Systems.{env, doh_settings, at_start}
use sec_dns.Samples.Started.{two_queries, local_listener}

-- The default resolver is a slice with nil, with dns64 over a name that refers back to the instance
-- by way of a DoH, and with a list of name servers.
abbrev mixed : Config
mixed = record {
  registry =
      (codes "doh", Upstream.doh_of 0 doh_settings (Ref.anonymous Upstream.instance_of))
      ∷ (
        codes "lan",
        Upstream.concurrent_of (
            Refs.ref (Ref.anonymous (Upstream.name_server_of local_server))
              (Refs.ref (Ref.named (codes "doh")) Refs.end)),
      )
      ∷ [];
  rules =
      (
        codes "example",
        Ref.anonymous (Upstream.alias_of (codes "other.") (Ref.named (codes "lan"))),
      )
      ∷ (codes "test", Ref.anonymous (Upstream.filter_a_if_of (Ref.named (codes "nobody"))))
      ∷ [];
  default_resolver = some (
      Ref.anonymous (
        Upstream.sequence_of (
          Refs.ref Ref.nil (
            Refs.ref
              (Ref.anonymous (
                Upstream.dns64_of (0 ∷ 0x64 ∷ 0xff ∷ 0x9b ∷ 0 ∷ 0 ∷ 0 ∷ 0 ∷ 0 ∷ 0 ∷ 0 ∷ 0 ∷ [])
                  false (Ref.named (codes "doh"))))
              (Refs.ref (Ref.named (codes "lan")) Refs.end)))));
}

pub counting-Reliable : Reliable counting
counting-Reliable = record { dials = λ c r ip port w can. tt; echoes = λ c w. tt }

pub web-Answering : Answering env.web
web-Answering = record { answers = λ c url wire w. tt }

local_server-CanDial : CanDial (client_of (net_of counting) local_server)
unfolding init_client
local_server-CanDial = tt

mixed-IsWellFormed : IsWellFormed (net_of counting) mixed
mixed-IsWellFormed = record {
  registered = ((tt, tt), ((local_server-CanDial, tt), tt));
  rules_there = (tt, (tt, tt));
  default_there = ((omega arith, tt), tt);
}

handle-run_replies_example :
    (h : Handled) × (w : World ℕ) × (handle
        (client_error_message_handler plain_library)
        (server_error_message_handler plain_library)
        (run env mixed 132 (Ref.anonymous Upstream.instance_of))
        (pos 64)
        (some (query_for (codes "a.example.") 28))
        at_start
      ≡ (done h, w))
    × Answers
        (client_error_message_handler plain_library)
        (server_error_message_handler plain_library)
        (run env mixed 132 (Ref.anonymous Upstream.instance_of))
        (pos 64)
        (query_for (codes "a.example.") 28)
        at_start
        h
        w
handle-run_replies_example =
    handle-run_replies env mixed plain_library-Documented counting-Reliable web-Answering
      mixed-IsWellFormed (client_error_message_handler plain_library)
      (server_error_message_handler plain_library) (Ref.anonymous Upstream.instance_of) tt 132 1
      (pos 64) (omega arith) (query_for (codes "a.example.") 28) at_start (omega arith)

abbrev two_arrivals : Arrivals
two_arrivals = record {
  queries = query_for (codes "a.") 1 ∷ query_for (codes "b.") 28 ∷ [];
  ended_by = none;
}

serve-run_returns_example :
    (errors : List Error) × (w : World ℕ) × (serve
        (sockets_of two_queries)
        (some (
          handle
            (client_error_message_handler plain_library)
            (server_error_message_handler plain_library)
            (run env mixed 132 (Ref.anonymous Upstream.instance_of))
            (pos 64)))
        local_listener
        at_start
      ≡ (done (errors ++ []), w))
    × Served
        (sockets_of two_queries)
        (client_error_message_handler plain_library)
        (server_error_message_handler plain_library)
        (run env mixed 132 (Ref.anonymous Upstream.instance_of))
        (pos 64)
        two_arrivals.queries
        at_start
        errors
        w
serve-run_returns_example =
    serve-run_returns env mixed plain_library-Documented counting-Reliable web-Answering
      mixed-IsWellFormed (client_error_message_handler plain_library)
      (server_error_message_handler plain_library) (Ref.anonymous Upstream.instance_of) tt 132 1
      (pos 64) (omega arith) two_queries local_listener at_start two_arrivals (omega arith) refl
