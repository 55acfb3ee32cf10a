-- ===== src/Resolvers/Synthesis.antt =====
-- The addresses and replies that dns64 makes.
use sec_dns.Prelude.{
  ℕ, zero, suc, ◌≤◌, ◌≡◌, refl, ap, subst, List, [], ◌∷◌, ◌++◌, length, take, drop, some, true,
  false, ltb, ◌==◌, arith,
}
use sec_dns.Dns.{Rr, a, aaaa, cname, other, type_aaaa}
use sec_dns.Resolvers.{copy, zeros, to4, ipv4_to_ipv6, a_to_aaaa, convert_record, convert_answers}

length-take : (n : ℕ) (xs : List ℕ) → n ≤ length xs → length (take n xs) ≡ n
length-take zero xs h = refl
length-take (suc n) [] h = absurd (omega arith)
length-take (suc n) (x ∷ xs) h = omega (arith, length-take n xs (omega arith))

take-copy : (z src : List ℕ) → length src ≤ length z → take (length src) (copy z src) ≡ src
take-copy z [] h = refl
take-copy [] (x ∷ src) h = absurd (omega arith)
take-copy (y ∷ z) (x ∷ src) h = ap (λ (t : List ℕ). x ∷ t) (take-copy z src (omega arith))

drop-copy :
    (z src : List ℕ) → length src ≤ length z → drop (length src) (copy z src) ≡ drop (length src) z
drop-copy [] [] h = refl
drop-copy (y ∷ z) [] h = refl
drop-copy [] (x ∷ src) h = absurd (omega arith)
drop-copy (y ∷ z) (x ∷ src) h = drop-copy z src (omega arith)

copy_full : (z src : List ℕ) → length src ≡ length z → copy z src ≡ src
copy_full [] [] h = refl
copy_full [] (x ∷ src) h = absurd (omega arith)
copy_full (y ∷ z) [] h = absurd (omega arith)
copy_full (y ∷ z) (x ∷ src) h = ap (λ (t : List ℕ). x ∷ t) (copy_full z src (omega arith))

module _ (prefix : List ℕ) (long : 12 ≤ length prefix) where
  head_part : take 12 (copy (zeros 16) (take 12 prefix)) ≡ take 12 prefix
  head_part =
      let e : length (take 12 prefix) ≡ 12 = length-take 12 prefix long in
      subst (λ n. take n (copy (zeros 16) (take 12 prefix)) ≡ take 12 prefix) e
        (take-copy (zeros 16) (take 12 prefix) (omega (arith, e)))

  tail_part : drop 12 (copy (zeros 16) (take 12 prefix)) ≡ zeros 4
  tail_part =
      let e : length (take 12 prefix) ≡ 12 = length-take 12 prefix long in
      subst (λ n. drop n (copy (zeros 16) (take 12 prefix)) ≡ drop n (zeros 16)) e
        (drop-copy (zeros 16) (take 12 prefix) (omega (arith, e)))

  long_enough : ltb (length prefix) 12 ≡ false
  long_enough = ground arith

  -- The address that dns64 makes of an IPv4 address of four bytes: the first twelve bytes of the
  -- prefix, and these four. So the IPv4 address can be read back, and no two give the same.
  pub ipv4_to_ipv6_lem :
      (ipv4 : List ℕ) → length ipv4 ≡ 4 → ipv4_to_ipv6 prefix ipv4 ≡ some (take 12 prefix ++ ipv4)
  unfolding ipv4_to_ipv6
  ipv4_to_ipv6_lem ipv4 h =
      let four : (length ipv4 == 4) ≡ true = ground arith in
      rw (long_enough, head_part, tail_part, four, copy_full (zeros 4) ipv4 h)

  ipv4_to_ipv6-some : (ipv4 : List ℕ) → (v6 : List ℕ) × (ipv4_to_ipv6 prefix ipv4 ≡ some v6)
  unfolding ipv4_to_ipv6
  ipv4_to_ipv6-some ipv4 =
      let ipv6 = copy (zeros 16) (take 12 prefix) in
      (take 12 ipv6 ++ copy (drop 12 ipv6) (to4 ipv4), rw long_enough)

  -- A record that is no A record stays, and an A record becomes the AAAA record with the same
  -- name, class and time to live and the address that is made of its address.
  abbrev pub Converted : Rr → Rr → Type 0
  Converted (a h ip) rr =
      (v6 : List ℕ) × (ipv4_to_ipv6 prefix ip ≡ some v6)
      × (rr ≡ aaaa (record h { rrtype = type_aaaa }) v6)
  Converted old rr = rr ≡ old

  abbrev pub AllConverted : List Rr → List Rr → Type 0
  AllConverted [] [] = Unit
  AllConverted (r ∷ rs) (r' ∷ rs') = Converted r r' × AllConverted rs rs'
  AllConverted _ _ = ⊥

  convert_record-Converted :
      (rr : Rr) → (new : Rr) × (convert_record prefix rr ≡ some new) × Converted rr new
  unfolding convert_record a_to_aaaa
  convert_record-Converted (a h ip) =
      let (v6, e) = ipv4_to_ipv6-some ip in
      (aaaa (record h { rrtype = type_aaaa }) v6, rw (e, a_to_aaaa), (v6, e, refl))
  convert_record-Converted (aaaa h ip) = (aaaa h ip, refl, refl)
  convert_record-Converted (cname h t) = (cname h t, refl, refl)
  convert_record-Converted (other h d) = (other h d, refl, refl)

  -- With a prefix of at least twelve bytes the loop over the answers does not panic. It converts
  -- every A record in its place and keeps every other record.
  pub convert_answers-AllConverted :
      (rs : List Rr)
      → (new : List Rr) × (convert_answers prefix rs ≡ some new) × AllConverted rs new
  unfolding convert_answers
  convert_answers-AllConverted [] = ([], refl, tt)
  convert_answers-AllConverted (r ∷ rs) =
      let (new, e, c) = convert_record-Converted r in
      let (news, es, cs) = convert_answers-AllConverted rs in (new ∷ news, rw (e, es), (c, cs))
