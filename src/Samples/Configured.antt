-- ===== src/Samples/Configured.antt =====
-- A system whose resolvers all come from values of the configuration.
use sec_dns.Prelude.{lookup, ℕ, ◌≡◌, refl, pos, [], ◌∷◌, codes, some, false, arith}
use sec_dns.Dns.{plain_library, plain_library-Documented}
use sec_dns.Exec.{done}
use sec_dns.Common.{client_error_message_handler, server_error_message_handler}
use sec_dns.Resolvers.{NameServer}
use sec_dns.Core.{Handled, handle}
use sec_dns.Core.Answers.{Answers}
use sec_dns.Config.{
  new_name_server, two_seconds, well_known_prefix, ip_kind, port_source, timeout_source, to_ip,
  name_server_filler, dns64_filler, prefix_source, ignore_source, assigned,
}
use sec_dns.System.{Upstream, Ref, Config, World, run}
use sec_dns.System.Given.{Gave, gave_dns64, gave_name_server, the_instance, by_value}
use sec_dns.System.Answered.{IsConfigured, handle-configured_replies}
use sec_dns.Samples.Networks.{query_for}
use sec_dns.Samples.Systems.{env, at_start}
use sec_dns.Samples.Mixed.{counting-Reliable, web-Answering}
use sec_dns.Samples.Described.{
  by_functions, by_functions-Describes, members, only_an_address, localhost, conversions,
  names-NotNil,
}

abbrev lan_server : NameServer
lan_server = record new_name_server {
  address = localhost;
  port = 53;
  protocol = codes "udp";
  query_timeout = two_seconds;
}

abbrev lan : Ref
lan = Ref.named (codes "lan")

abbrev lan_dns64 : Upstream
lan_dns64 = Upstream.dns64_of well_known_prefix false lan

abbrev small : Config
small = record {
  registry = (codes "lan", Upstream.name_server_of lan_server) ∷ ([], Upstream.instance_of) ∷ [];
  rules = (codes "example", lan) ∷ [];
  default_resolver = some (Ref.anonymous lan_dns64);
}

lan_server-Gave : Gave by_functions conversions only_an_address (Upstream.name_server_of lan_server)
unfolding name_server_filler ip_kind port_source timeout_source to_ip lookup
lan_server-Gave = gave_name_server lan_server refl refl

lan_dns64-Gave :
    Gave by_functions conversions (members ((codes "resolver", codes "lan") ∷ [])) lan_dns64
unfolding dns64_filler prefix_source ignore_source assigned lookup
lan_dns64-Gave =
    gave_dns64
      (record { resolver = some lan; prefix = well_known_prefix; ignore_existing_aaaa = false })
      refl

small-IsConfigured : IsConfigured by_functions conversions small
small-IsConfigured = record {
  registered = (
    (by_value only_an_address (Upstream.name_server_of lan_server) lan_server-Gave, tt),
    ((the_instance, tt), tt),
  );
  rules_given = ((tt, tt), tt);
  default_given = (
    tt,
    (by_value (members ((codes "resolver", codes "lan") ∷ [])) lan_dns64 lan_dns64-Gave, tt),
  );
}

handle-configured_replies_example :
    (h : Handled) × (w : World ℕ) × (handle
        (client_error_message_handler plain_library)
        (server_error_message_handler plain_library)
        (run env small 132 (Ref.anonymous Upstream.instance_of))
        (pos 64)
        (some (query_for (codes "a.test.") 28))
        at_start
      ≡ (done h, w))
    × Answers
        (client_error_message_handler plain_library)
        (server_error_message_handler plain_library)
        (run env small 132 (Ref.anonymous Upstream.instance_of))
        (pos 64)
        (query_for (codes "a.test.") 28)
        at_start
        h
        w
handle-configured_replies_example =
    handle-configured_replies env by_functions-Describes conversions small
      (client_error_message_handler plain_library) (server_error_message_handler plain_library) 132
      1 (pos 64) (query_for (codes "a.test.") 28) at_start names-NotNil small-IsConfigured
      plain_library-Documented counting-Reliable web-Answering (omega arith) (omega arith)
