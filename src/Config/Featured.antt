-- ===== src/Config/Featured.antt =====
-- internal/features/features.go: every resolver is registered, in whatever order the packages are
-- initialised.
use sec_dns.Prelude.{
  ℕ, ◌≡◌, refl, sym, subst, ◌∙◌, ap, if◌then◌else◌, Option, none, some, List, [], ◌∷◌, Text,
  text_eq, text_eq_self, lookup, insert, lookup-insert, map, false, All,
}
use sec_dns.Resolvers.{arrange}
use sec_dns.Config.{
  Prototype, RegistrationError, register, Registrations, with_error, register_each, resolver_names,
}
use sec_dns.Resolvers.Arranged.{All-arrange, arrange-All}
use sec_dns.Config.Distinct.{
  text_eq_comm, Fresh, Distinct, Distinct-arrange, any-false, has_double-Distinct,
}

All-both :
    {A : Type 0} (P Q R : A → Type 0)
    → ((x : A) → P x → Q x → R x)
    → (xs : List A) → All P xs
    → All Q xs
    → All R xs
All-both P Q R f [] p q = tt
All-both P Q R f (x ∷ xs) p q = (f x p.0 q.0, All-both P Q R f xs p.1 q.1)

module _ {D : Type 0} (prototype : D → Prototype) (of : Text → D)
    (typed : (n : Text) → (prototype (of n)).type_name ≡ some n) where
  -- A name that is new and not empty is registered without an error.
  register-new :
      (n : Text) (m : List (Text × D))
      → text_eq n [] ≡ false
      → lookup n m ≡ none
      → register prototype (some (of n)) m ≡ (none, insert n (of n) m)
  unfolding register
  register-new n m filled free = rw (typed n, filled, free) refl

  -- All are registered without an error, and the other names keep what they have.
  abbrev pub AllRegistered : List Text → List (Text × D) → Registrations D → Type 0
  AllRegistered ns m r =
      (r.errors ≡ [])
      × All (λ n. lookup n r.registered ≡ some (of n)) ns
      × ((k : Text) → Fresh k ns → lookup k r.registered ≡ lookup k m)

  -- The first registration, and what the others leave.
  AllRegistered-cons :
      (n : Text) (ns : List Text) (m : List (Text × D))
      (x : Option RegistrationError × List (Text × D))
      → x ≡ (none, insert n (of n) m)
      → Fresh n ns
      → AllRegistered ns
          (insert n (of n) m)
          (register_each prototype (map of ns) (insert n (of n) m))
      → AllRegistered (n ∷ ns) m (with_error x.0 (register_each prototype (map of ns) x.1))
  AllRegistered-cons n ns m x e fresh (no_errors, there, kept) =
      subst
        (λ y. AllRegistered (n ∷ ns) m (with_error y.0 (register_each prototype (map of ns) y.1)))
        (sym e)
        (
          no_errors,
          (kept n fresh ∙ lookup-insert n n (of n) m ∙ rw (text_eq_self n) refl, there),
          λ k f.
              kept k f.1
              ∙ lookup-insert n k (of n) m
              ∙ ap (λ b. if b then some (of n) else lookup k m) (text_eq_comm n k ∙ f.0),
        )

  register_each-AllRegistered :
      (ns : List Text) (m : List (Text × D))
      → All (λ n. text_eq n [] ≡ false) ns
      → Distinct ns
      → All (λ n. lookup n m ≡ none) ns
      → AllRegistered ns m (register_each prototype (map of ns) m)
  unfolding register_each
  register_each-AllRegistered [] m filled distinct free = (refl, tt, λ k f. refl)
  register_each-AllRegistered (n ∷ ns) m filled distinct free =
      AllRegistered-cons n ns m (register prototype (some (of n)) m)
        (register-new n m filled.0 free.0) distinct.0
        (register_each-AllRegistered ns (insert n (of n) m) filled.1 distinct.1 (
          All-both (λ x. text_eq n x ≡ false) (λ x. lookup x m ≡ none)
            (λ x. lookup x (insert n (of n) m) ≡ none)
            (λ x e e'. lookup-insert n x (of n) m ∙ rw (e, e') refl) ns distinct.0 free.1))

  names_free : (ns : List Text) → All (λ n. lookup {V = D} n [] ≡ none) ns
  unfolding lookup
  names_free [] = tt
  names_free (n ∷ ns) = (refl, names_free ns)

  names_filled : All (λ n. text_eq n [] ≡ false) resolver_names
  unfolding resolver_names
  names_filled = any-false (λ n. text_eq n []) resolver_names refl

  names_differ : Distinct resolver_names
  unfolding resolver_names
  names_differ = has_double-Distinct resolver_names refl

  -- In whatever order the packages of the resolvers are initialised, no registration fails, and
  -- afterwards each resolver is found under the name of its type.
  pub register_each-resolver_names :
      (order : List ℕ)
      → let r = register_each prototype (map of (arrange order resolver_names)) [] in
        (r.errors ≡ []) × All (λ n. lookup n r.registered ≡ some (of n)) resolver_names
  register_each-resolver_names order =
      let (no_errors, there, kept) =
        register_each-AllRegistered (arrange order resolver_names) []
          (All-arrange (λ n. text_eq n [] ≡ false) order resolver_names names_filled)
          (Distinct-arrange order resolver_names names_differ)
          (names_free (arrange order resolver_names)) in
      (no_errors, arrange-All (λ n. lookup n _ ≡ some (of n)) order resolver_names there)
