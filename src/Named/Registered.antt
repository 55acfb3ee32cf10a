-- ===== src/Named/Registered.antt =====
-- The registry of names, and the start of the named resolvers.
use sec_dns.Prelude.{
  ◌≡◌, refl, ◌∙◌, ◌↔◌, All, Option, none, some, true, is_some, List, [], ◌∷◌, Text, lookup, insert,
  lookup-insert, text_eq, text_eq_sound, Bool-cases, inl, inr, if◌then◌else◌, arith,
}
use sec_dns.Named.{NameRegistry, NamedResolver, entries, store_new, name_resolver, init_each}

module _ {R : Type 0} where
  -- An independent description of a registry to which a name was given.
  abbrev pub first_of_two : Option (Option R) → Option (Option R) → Option (Option R)
  first_of_two (some r) new = some r
  first_of_two none new = new

  stored :
      (m : List (Text × Option R)) (name other : Text) (r : Option R)
      → lookup name m ≡ none
      → lookup other (insert name r m)
        ≡ first_of_two (lookup other m) (if text_eq name other then some r else none)
  stored m name other r absent = elim (Bool-cases (text_eq name other)) [
    | inl same ↦
        let absent' : lookup other m ≡ none = rw (← text_eq_sound name other same) absent in
        lookup-insert name other r m ∙ rw (same, absent')
    | inr differs ↦ lookup-insert name other r m ∙ rw differs (ground arith)
  ]

  kept :
      (m : List (Text × Option R)) (name other : Text) (r old : Option R)
      → lookup name m ≡ some old
      → lookup other m ≡ first_of_two (lookup other m) (if text_eq name other then some r else none)
  kept m name other r old there = elim (Bool-cases (text_eq name other)) [
    | inl same ↦
        let there' : lookup other m ≡ some old = rw (← text_eq_sound name other same) there in
        rw (same, there')
    | inr differs ↦ rw differs (ground arith)
  ]

  abbrev pub shared_entries : Option (NameRegistry R) → List (Text × Option R)
  shared_entries none = []
  shared_entries (some nr) = entries nr

  -- After a call of `NameResolver` a name has the resolver that was registered for it before, and
  -- only a name that had none has the new one: the first registration counts.
  pub lookup-name_resolver :
      (nr : NameRegistry R) (name other : Text) (r : Option R)
      → lookup other (shared_entries (name_resolver (some nr) name r).1)
        ≡ first_of_two (lookup other (entries nr)) (if text_eq name other then some r else none)
  unfolding name_resolver
  lookup-name_resolver nr name other r = by (lookup name (entries nr)) refl
    where
      by :
          (found : Option (Option R))
          → lookup name (entries nr) ≡ found
          → lookup other (shared_entries (store_new found nr name r).1)
            ≡ first_of_two (lookup other (entries nr)) (if text_eq name other then some r else none)
      by none absent = stored (entries nr) name other r absent
      by (some old) there = kept (entries nr) name other r old there

  -- What a named resolver stands for in a registry with these entries.
  abbrev flat : Option (Option R) → Option R
  flat none = none
  flat (some o) = o

  abbrev pub target : List (Text × Option R) → NamedResolver R → Option R
  target m n = elim n.resolver [ some r ↦ some r | none ↦ flat (lookup n.name m) ]

  -- The start reports no error exactly if every named resolver has a resolver already or finds
  -- one, not nil, under its name.
  pub init_each-none_iff :
      (nr : NameRegistry R) (ns : List (NamedResolver R))
      → ((init_each (some nr) ns).err ≡ none) ↔ All (λ n. is_some (target (entries nr) n) ≡ true) ns
  unfolding init_each
  init_each-none_iff nr [] = (λ e. tt, λ h. refl)
  init_each-none_iff nr (n ∷ ns) =
      by n.resolver refl (lookup n.name (entries nr)) refl (init_each-none_iff nr ns)
        (init_each-none_iff (record { registry = some (entries nr) }) ns)
    where
      by :
          (o : Option R)
          → n.resolver ≡ o
          → (found : Option (Option R)) → lookup n.name (entries nr) ≡ found
          → ((init_each (some nr) ns).err ≡ none)
            ↔ All (λ n. is_some (target (entries nr) n) ≡ true) ns
          → ((init_each (some (record { registry = some (entries nr) })) ns).err ≡ none)
            ↔ All (λ n. is_some (target (entries nr) n) ≡ true) ns
          → ((init_each (some nr) (n ∷ ns)).err ≡ none)
            ↔ All (λ n. is_some (target (entries nr) n) ≡ true) (n ∷ ns)
      by (some r) has found e ih ih' = rw has (λ p. (refl, ih.0 p), λ h. ih.1 h.1)
      by none has none e ih ih' = rw (has, e) (λ p. absurd (cc p), λ h. absurd (cc (h.0)))
      by none has (some none) e ih ih' = rw (has, e) (λ p. absurd (cc p), λ h. absurd (cc (h.0)))
      by none has (some (some r)) e ih ih' = rw (has, e) (λ p. (refl, ih'.0 p), λ h. ih'.1 h.1)
