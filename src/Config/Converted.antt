-- ===== src/Config/Converted.antt =====
-- What the configuration of dns64 and of address can give their resolvers.
use sec_dns.Prelude.{
  ℕ, ◌≡◌, ◌≤◌, refl, ap, Option, none, some, Bool, true, false, List, [], ◌∷◌, ◌++◌, Text, length,
  ◌==◌, if◌then◌else◌, All, All-append, arith,
}
use sec_dns.Dns.{Rr}
use sec_dns.Resolvers.{Address, make_address, convert_answers}
use sec_dns.Resolvers.Synthesis.{AllConverted, convert_answers-AllConverted}
use sec_dns.Config.{
  Value, text, number, array, object, scalar, parse_ipv4v6, if_v6, to_prefix, put, put_value,
  or_skip, put_all, address_of_array,
}

module _ (parse_ip : Text → Option (List ℕ)) (to_4 : List ℕ → Option (List ℕ)) where
  if_v6-some : (o : Option (List ℕ)) (p : List ℕ) → if_v6 parse_ip to_4 o ≡ some p → 12 ≤ length p
  if_v6-some none p e = absurd cc
  if_v6-some (some ip) p e = by (length ip == 16) refl e
    where
      by :
          (b : Bool)
          → (length ip == 16) ≡ b
          → (if b then some ip else none) ≡ some p
          → 12 ≤ length p
      by true sized e' = let same : ip ≡ p = cc in ground (arith, ap length same)
      by false other e' = absurd cc

  -- A prefix that the configuration gives has sixteen bytes, more than dns64 reads.
  pub to_prefix_long :
      {F V : Type 0} (v : Value F V) (prefix : List ℕ)
      → to_prefix parse_ip to_4 v ≡ some prefix
      → 12 ≤ length prefix
  unfolding to_prefix
  to_prefix_long (text s) prefix e = if_v6-some (parse_ipv4v6 parse_ip to_4 s) prefix e
  to_prefix_long (number f) prefix e = absurd cc
  to_prefix_long (array vs) prefix e = absurd cc
  to_prefix_long (object vs) prefix e = absurd cc
  to_prefix_long scalar prefix e = absurd cc

  -- With a prefix that the configuration gives the loop of dns64 over the answers never panics,
  -- whatever net.ParseIP and To4 do; it converts every A record in its place and keeps every other
  -- record.
  prefixed-AllConverted :
      {F V : Type 0} (v : Value F V) (prefix : List ℕ) (rs : List Rr)
      → to_prefix parse_ip to_4 v ≡ some prefix
      → (long : 12 ≤ length prefix) × (new : List Rr) × (convert_answers prefix rs ≡ some new)
        × AllConverted prefix long rs new
  prefixed-AllConverted v prefix rs e =
      let (new, converted, all) =
        convert_answers-AllConverted prefix (to_prefix_long v prefix e) rs in
      (to_prefix_long v prefix e, new, converted, all)

-- The addresses of both families have their sizes.
pub record Sized (addr : Address) : Type 0 where
  pub v4_sizes : All (λ (ip : List ℕ). length ip ≡ 4) addr.v4
  pub v6_sizes : All (λ (ip : List ℕ). length ip ≡ 16) addr.v6

make_address-Sized : Sized make_address
make_address-Sized = record { v4_sizes = tt; v6_sizes = tt }

abbrev SizedOption : Option Address → Type 0
SizedOption none = Unit
SizedOption (some addr) = Sized addr

module _ {F V : Type 0} (decoded : V → Value F V) (parse : Text → Option (List ℕ)) where
  put-Sized : (ip : List ℕ) (addr : Address) → Sized addr → SizedOption (put decoded parse ip addr)
  put-Sized ip addr h = by_4 (length ip == 4) refl
    where
      by_16 :
          (b : Bool)
          → (length ip == 16) ≡ b
          → SizedOption (if b then some (record addr { v6 = addr.v6 ++ ip ∷ [] }) else none)
      by_16 true e = record {
        v4_sizes = h.v4_sizes;
        v6_sizes =
            All-append (λ (x : List ℕ). length x ≡ 16) addr.v6 (ip ∷ []) h.v6_sizes
              (ground (arith, e), tt);
      }
      by_16 false e = tt

      by_4 :
          (b : Bool)
          → (length ip == 4) ≡ b
          → SizedOption (
              if b
              then some (record addr { v4 = addr.v4 ++ ip ∷ [] })
              else if length ip == 16
              then some (record addr { v6 = addr.v6 ++ ip ∷ [] })
              else none)
      by_4 true e = record {
        v4_sizes =
            All-append (λ (x : List ℕ). length x ≡ 4) addr.v4 (ip ∷ []) h.v4_sizes
              (ground (arith, e), tt);
        v6_sizes = h.v6_sizes;
      }
      by_4 false e = by_16 (length ip == 16) refl

  or_skip-Sized :
      (o : Option Address) (addr : Address)
      → SizedOption o
      → Sized addr
      → Sized (or_skip decoded parse o addr)
  or_skip-Sized none addr k h = h
  or_skip-Sized (some new) addr k h = k

  parsed-Sized :
      (o : Option (List ℕ)) (addr : Address)
      → Sized addr
      → Sized (elim o [
        | none ↦ addr
        | some ip ↦ or_skip decoded parse (put decoded parse ip addr) addr
      ])
  parsed-Sized none addr h = h
  parsed-Sized (some ip) addr h =
      or_skip-Sized (put decoded parse ip addr) addr (put-Sized ip addr h) h

  put_value-Sized :
      (v : Value F V) (addr : Address) → Sized addr → Sized (put_value decoded parse v addr)
  put_value-Sized (text s) addr h = parsed-Sized (parse s) addr h
  put_value-Sized (number f) addr h = h
  put_value-Sized (array vs) addr h = h
  put_value-Sized (object vs) addr h = h
  put_value-Sized scalar addr h = h

  put_all-Sized :
      (vs : List V) (addr : Address) → Sized addr → Sized (put_all decoded parse vs addr)
  put_all-Sized [] addr h = h
  put_all-Sized (v ∷ vs) addr h =
      put_all-Sized vs (put_value decoded parse (decoded v) addr)
        (put_value-Sized (decoded v) addr h)

  -- Of an array, whatever its elements are and whatever they are parsed as, an address resolver
  -- gets only addresses of 4 bytes for A records and of 16 bytes for AAAA records.
  pub address_of_array-Sized :
      (vs : List V)
      → (addr : Address) × (address_of_array decoded parse (array vs) ≡ some addr) × Sized addr
  unfolding address_of_array
  address_of_array-Sized vs = (
    put_all decoded parse vs make_address,
    refl,
    put_all-Sized vs make_address make_address-Sized,
  )
