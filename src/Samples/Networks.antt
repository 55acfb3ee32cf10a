-- ===== src/Samples/Networks.antt =====
-- Networks and queries for the samples.
use sec_dns.Prelude.{
  ◌*◌, ◌<◌, ℕ, ◌+◌, ◌-◌, ◌≤◌, ◌≡◌, refl, pos, List, [], ◌∷◌, Text, codes, none, some, true, arith,
}
use sec_dns.Dns.{Msg, Header, Rr, a, aaaa, new_msg}
use sec_dns.Exec.{library, State}
use sec_dns.Resolvers.{
  Network, connected, unreachable, got, NameServer, name_server, Report, failed, replied, settle,
  socks5_timeout, second,
}
use sec_dns.Resolvers.Connections.{Counted, socks5_timeout_bounds, name_server_open}
use sec_dns.Resolvers.Goroutines.{Race, Run, began, stepped, collect, win, first, later}
use sec_dns.Resolvers.Racing.{Delivers, Run-Delivers, sent-settle}

abbrev pub query_for : Text → ℕ → Msg
query_for name t = record new_msg { question = record { name = name; qtype = t; qclass = 1 } ∷ [] }

abbrev header : ℕ → Header
header t = record { name = codes "example."; rrtype = t; class = 1; ttl = 60 }

abbrev pub a_record : Rr
a_record = a (header 1) (192 ∷ 0 ∷ 2 ∷ 1 ∷ [])

abbrev pub aaaa_record : Rr
aaaa_record =
    aaaa (header 28) (32 ∷ 1 ∷ 13 ∷ 184 ∷ 0 ∷ 0 ∷ 0 ∷ 0 ∷ 0 ∷ 0 ∷ 0 ∷ 0 ∷ 0 ∷ 0 ∷ 0 ∷ 1 ∷ [])

abbrev pub both_records : Msg
both_records = record (query_for (codes "example.") 1) {
  response = true;
  answer = a_record ∷ aaaa_record ∷ [];
  extra = aaaa_record ∷ a_record ∷ [];
}

-- The world counts the open connections, and every server replies with both records.
abbrev pub counting : Network (Unit {0}) ℕ
counting = record {
  dial = λ c r ip port w. (connected tt, w + 1);
  set_deadline = λ c t w. w;
  write_msg = λ c m w. (none, w);
  read_msg = λ c w. (got both_records, w);
  close = λ c w. w - 1;
}

-- No server can be reached.
abbrev pub cut_off : Network (Unit {0}) ℕ
cut_off = record counting { dial = λ c r ip port w. (unreachable (library 1), w) }

abbrev pub local_server : NameServer
local_server = record {
  address = 127 ∷ 0 ∷ 0 ∷ 1 ∷ [];
  port = 53;
  protocol = codes "udp";
  query_timeout = pos 2_000_000_000;
  tls_server_name = [];
  send_through = [];
  socks5_proxy = [];
  socks5_username = [];
  socks5_password = [];
  query_client = none;
}

abbrev counting-Counted : Counted counting
counting-Counted = record {
  open_in = λ w. w;
  IsOpen = λ c w. 1 ≤ w;
  IsOpen-dial = λ c r ip port w. omega arith;
  open-dial = λ c r ip port w. refl;
  IsOpen-set_deadline = λ c t w o. o;
  open-set_deadline = λ c t w. refl;
  IsOpen-write_msg = λ c m w o. o;
  open-write_msg = λ c m w. refl;
  IsOpen-read_msg = λ c w o. o;
  open-read_msg = λ c w. refl;
  open-close = λ c w o. omega arith;
}

abbrev pub asking : Text → ℕ → State ℕ
asking name t = record { query = query_for name t; world = 0 }

name_server_open_example :
    (name_server counting local_server (pos 3) (asking (codes "example.") 1)).1.world ≡ 0
name_server_open_example =
    name_server_open counting counting-Counted local_server (pos 3) (asking (codes "example.") 1)

abbrev two_reports : List Report
two_reports = replied (some both_records) ∷ failed (library 1) ∷ []

-- The second goroutine ends first.
abbrev half_way : Race
half_way = record {
  running = replied (some both_records) ∷ [];
  collected = library 1 ∷ [];
  sent = none;
}

abbrev over : Race
over = record {
  running = [];
  collected = library 1 ∷ [];
  sent = some (record { msg = some both_records; err = none });
}

half_way-Run : Run two_reports (failed (library 1) ∷ []) half_way
half_way-Run = stepped began (collect (later first) refl refl) refl

over-Run : Run two_reports (failed (library 1) ∷ replied (some both_records) ∷ []) over
over-Run = stepped half_way-Run (win first refl refl refl) refl

sent-settle_example :
    (settle (failed (library 1) ∷ replied (some both_records) ∷ [])
      ≡ record { msg = some both_records; err = none })
    × (1 ≤ 2)
sent-settle_example = sent-settle over-Run

Run-Delivers_example : Delivers half_way
Run-Delivers_example = Run-Delivers half_way-Run (omega arith) refl

socks5_timeout_bounds_example :
    (n : ℕ) × (socks5_timeout (pos 1_500_000_000) ≡ pos n)
    × (1_500_000_000 ≤ n * second)
    × (n * second < 1_500_000_000 + second)
socks5_timeout_bounds_example = socks5_timeout_bounds 1_500_000_000
