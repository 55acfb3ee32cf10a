-- ===== src/Config/Ports.antt =====
-- The ports of nameServer and dnsServer: internal/upstream/resolvers/nameserver/types.go and
-- internal/listeners/servers/dns/server/types.go, which keep a port in a uint16.
use sec_dns.Prelude.{ℕ, ℤ, pos, negsuc, ◌≤◌, ◌≡◌, ◌↔◌, Option, none, some, Text, arith}
use sec_dns.Config.{Value, text, number, array, object, scalar, to_port, port_of_int}

port_of_int_iff : (i : ℤ) (n : ℕ) → (port_of_int i ≡ some n) ↔ ((i ≡ pos n) × (n ≤ 65535))
port_of_int_iff (pos m) n = ground arith
port_of_int_iff (negsuc m) n = ground arith

by_integer :
    (o : Option ℤ) (n : ℕ)
    → ((elim o [ none ↦ none | some i ↦ port_of_int i ]) ≡ some n)
      ↔ ((o ≡ some (pos n)) × (n ≤ 65535))
by_integer none n = ground arith
by_integer (some i) n = ground (arith, port_of_int_iff i n)

module _ {F V : Type 0} (truncate : F → ℤ) (atoi : Text → Option ℤ) where
  -- The integer that a value of the configuration stands for: a number without its fraction, or a
  -- text that strconv.Atoi reads.
  abbrev pub integer_of : Value F V → Option ℤ
  integer_of (number f) = some (truncate f)
  integer_of (text s) = atoi s
  integer_of (array vs) = none
  integer_of (object vs) = none
  integer_of scalar = none

  -- A value is accepted for a port exactly if the integer that it stands for is not negative and at
  -- most 65535; and the port is then this very integer, which its uint16 has room for.
  pub to_port_iff :
      (v : Value F V) (n : ℕ)
      → (to_port truncate atoi v ≡ some n) ↔ ((integer_of v ≡ some (pos n)) × (n ≤ 65535))
  unfolding to_port
  to_port_iff (number f) n = by_integer (some (truncate f)) n
  to_port_iff (text s) n = by_integer (atoi s) n
  to_port_iff (array vs) n = by_integer none n
  to_port_iff (object vs) n = by_integer none n
  to_port_iff scalar n = by_integer none n
