-- ===== src/Resolvers/Addresses.antt =====
-- resolvers/address/types.go: replies with the configured addresses of the family asked for.
use sec_dns.Prelude.{ℕ, List, [], ◌++◌, map, Text, ◌==◌, if◌then◌else◌}
use sec_dns.Dns.{Header, Rr, a, aaaa, Question, Library, new_msg, type_a, type_aaaa, class_inet}
use sec_dns.Exec.{Resolve, ◌>>=◌, get_query, head_question, reply}
use sec_dns.Resolvers.Guard.{guard_depth}

-- `Address [2][]net.IP`, indexed by v4 and v6
pub record Address : Type 0 where
  pub v4 : List (List ℕ)
  pub v6 : List (List ℕ)

abbrev pub make_address : Address
make_address = record { v4 = []; v6 = [] }

-- The header of a record that the program makes: class IN, 60 seconds to live.
abbrev pub header_of : Text → ℕ → Header
header_of name rrtype = record { name = name; rrtype = rrtype; class = class_inet; ttl = 60 }

unfoldable pub address_records : Address → Question → List Rr
address_records addr q =
    if q.qtype == type_a
    then map (a (header_of q.name type_a)) addr.v4
    else if q.qtype == type_aaaa
    then map (aaaa (header_of q.name type_aaaa)) addr.v6
    else []

module _ {W : Type 0} (dns : Library) where
  unfoldable pub address : Address → Resolve W
  unfolding address_records
  address addr = guard_depth λ depth. do
    query ← get_query
    let msg = dns.set_reply new_msg query
    q ← head_question
    reply (record msg { answer = msg.answer ++ address_records addr q })
