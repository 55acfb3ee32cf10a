-- ===== src/Config/Distinct.antt =====
-- Lists of different texts, and their orders.
use sec_dns.Prelude.{
  ℕ, zero, suc, ◌≡◌, refl, ◌∙◌, List, [], ◌∷◌, Text, text_eq, ◌==◌, ◌||◌, Bool, true, false, any,
  All, arith,
}
use sec_dns.Resolvers.{insert_at, arrange}
use sec_dns.Resolvers.Arranged.{All-insert_at, All-arrange}

==_comm : (a b : ℕ) → (a == b) ≡ (b == a)
==_comm a b = ground arith

pub text_eq_comm : (s t : Text) → text_eq s t ≡ text_eq t s
text_eq_comm [] [] = refl
text_eq_comm [] (b ∷ t) = refl
text_eq_comm (a ∷ s) [] = refl
text_eq_comm (a ∷ s) (b ∷ t) = rw (==_comm a b, text_eq_comm s t) refl

abbrev pub Fresh : Text → List Text → Type 0
Fresh n ns = All (λ m. text_eq n m ≡ false) ns

abbrev pub Distinct : List Text → Type 0
Distinct [] = Unit
Distinct (n ∷ ns) = Fresh n ns × Distinct ns

Distinct-insert_at :
    (k : ℕ) (x : Text) (ys : List Text) → Fresh x ys → Distinct ys → Distinct (insert_at k x ys)
Distinct-insert_at zero x ys f d = (f, d)
Distinct-insert_at (suc k) x [] f d = (tt, tt)
Distinct-insert_at (suc k) x (y ∷ ys) f d = (
  All-insert_at (λ m. text_eq y m ≡ false) k x ys (text_eq_comm y x ∙ f.0) d.0,
  Distinct-insert_at k x ys f.1 d.1,
)

pub Distinct-arrange : (ks : List ℕ) (xs : List Text) → Distinct xs → Distinct (arrange ks xs)
unfolding arrange
Distinct-arrange [] xs d = d
Distinct-arrange (k ∷ ks) [] d = tt
Distinct-arrange (k ∷ ks) (x ∷ xs) d =
    Distinct-insert_at k x (arrange ks xs) (All-arrange (λ m. text_eq x m ≡ false) ks xs d.0)
      (Distinct-arrange ks xs d.1)

either_false : (x y : Bool) → (x || y) ≡ false → (x ≡ false) × (y ≡ false)
either_false true y e = absurd cc
either_false false y e = (refl, e)

pub any-false :
    {A : Type 0} (p : A → Bool) (xs : List A) → any p xs ≡ false → All (λ x. p x ≡ false) xs
any-false p [] e = tt
any-false p (x ∷ xs) e =
    let (here, there) = either_false (p x) (any p xs) e in (here, any-false p xs there)

abbrev pub has_double : List Text → Bool
has_double [] = false
has_double (n ∷ ns) = any (λ m. text_eq n m) ns || has_double ns

pub has_double-Distinct : (ns : List Text) → has_double ns ≡ false → Distinct ns
has_double-Distinct [] e = tt
has_double-Distinct (n ∷ ns) e =
    let (fresh, rest) = either_false (any (λ m. text_eq n m) ns) (has_double ns) e in
    (any-false (λ m. text_eq n m) ns fresh, has_double-Distinct ns rest)
