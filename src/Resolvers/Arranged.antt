-- ===== src/Resolvers/Arranged.antt =====
-- What holds of the elements of a list holds of them in every order.
use sec_dns.Prelude.{ℕ, zero, suc, List, [], ◌∷◌, All}
use sec_dns.Resolvers.{insert_at, arrange}

module _ {A : Type 0} (P : A → Type 0) where
  pub All-insert_at : (k : ℕ) (x : A) (ys : List A) → P x → All P ys → All P (insert_at k x ys)
  All-insert_at zero x ys p h = (p, h)
  All-insert_at (suc k) x [] p h = (p, tt)
  All-insert_at (suc k) x (y ∷ ys) p h = (h.0, All-insert_at k x ys p h.1)

  insert_at-All : (k : ℕ) (x : A) (ys : List A) → All P (insert_at k x ys) → P x × All P ys
  insert_at-All zero x ys h = h
  insert_at-All (suc k) x [] h = h
  insert_at-All (suc k) x (y ∷ ys) h = let (p, rest) = insert_at-All k x ys h.1 in (p, (h.0, rest))

  pub All-arrange : (ks : List ℕ) (xs : List A) → All P xs → All P (arrange ks xs)
  unfolding arrange
  All-arrange [] xs h = h
  All-arrange (k ∷ ks) [] h = tt
  All-arrange (k ∷ ks) (x ∷ xs) h = All-insert_at k x (arrange ks xs) h.0 (All-arrange ks xs h.1)

  -- What holds of all in one order holds of all.
  pub arrange-All : (ks : List ℕ) (xs : List A) → All P (arrange ks xs) → All P xs
  unfolding arrange
  arrange-All [] xs h = h
  arrange-All (k ∷ ks) [] h = tt
  arrange-All (k ∷ ks) (x ∷ xs) h =
      let (p, rest) = insert_at-All k x (arrange ks xs) h in (p, arrange-All ks xs rest)

abbrev pub IsCons : {A : Type 0} → List A → Type 0
IsCons [] = ⊥
IsCons (x ∷ xs) = Unit

module _ {A : Type 0} where
  insert_at-IsCons : (k : ℕ) (x : A) (ys : List A) → IsCons (insert_at k x ys)
  insert_at-IsCons zero x ys = tt
  insert_at-IsCons (suc k) x [] = tt
  insert_at-IsCons (suc k) x (y ∷ ys) = tt

  pub arrange-IsCons : (ks : List ℕ) (xs : List A) → IsCons xs → IsCons (arrange ks xs)
  unfolding arrange
  arrange-IsCons [] xs h = h
  arrange-IsCons (k ∷ ks) [] h = h
  arrange-IsCons (k ∷ ks) (x ∷ xs) h = insert_at-IsCons k x (arrange ks xs)
