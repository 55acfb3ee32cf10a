-- ===== src/Config/Filled.antt =====
-- What holds of an object that a descriptor made: what its sources give, and what its fillers
-- establish one after another.
use sec_dns.Prelude.{
  some_same, Option, none, some, List, [], ◌∷◌, Text, Bool, true, false, All, ◌≡◌, refl, sym, ◌∙◌,
  if◌then◌else◌, inl, inr, subst, ◌⊎◌,
}
use sec_dns.Config.{Value, accepted}
use sec_dns.Config.{
  GoDescriptor, Describes, Basic, first_result, or_else, set_field, and_then_fill, fill_each,
  not_nil,
}

module _ {V : Type 0} {g : GoDescriptor V} (k : Describes g) where
  module _ {A : Type 0} (P : Option A → Type 0) where
    -- All that a kind converts to, or a source gives, satisfies `P`, which sees nil as `none`.
    pub record Takes (kind : g.Kind A) : Type 0 where
      pub taken : (v : V) (a : Option A) → k.converted kind v ≡ some a → P a

    pub record Gives (s : g.Source A) : Type 0 where
      pub given : (v : V) (a : Option A) → k.value_of s v ≡ some a → P a

  -- A filler leads from the objects of a predicate to those of another one.
  module _ {R : Type 0} (Pre Post : R → Type 0) where
    pub record Fills (f : g.Filler R) : Type 0 where
      pub filled : (v : V) (r r' : R) → k.fill f v r ≡ some r' → Pre r → Post r'

    pub record FillsEach (fs : List (g.Filler R)) : Type 0 where
      pub filled : (v : V) (r r' : R) → fill_each (λ f. k.fill f v) fs r ≡ some r' → Pre r → Post r'

first_result-cons :
    {E A : Type 0} (f : E → Option A) (x : E) (xs : List E) (a : A)
    → first_result f (x ∷ xs) ≡ some a
    → (f x ≡ some a) ⊎ (first_result f xs ≡ some a)
first_result-cons f x xs a e = by (f x) refl e
  where
    by :
        (o : Option _)
        → f x ≡ o
        → or_else o (first_result f xs) ≡ some a
        → (f x ≡ some a) ⊎ (first_result f xs ≡ some a)
    by none none_there e = inr e
    by (some b) there e = inl (there ∙ e)

module _ {V : Type 0} {g : GoDescriptor V} (k : Describes g) where
  module _ {A : Type 0} (P : Option A → Type 0) where
    pub convertible-Takes :
        (b : Basic) (f : V → Option (Option A))
        → ((v : V) (a : Option A) → f v ≡ some a → P a)
        → Takes k P (g.convertible b f)
    convertible-Takes b f h = record {
      taken = λ v a e. by v a (k.is_of_kind b v) (sym (k.converted-convertible b f v) ∙ e);
    }
      where
        by : (v : V) (a : Option A) (c : Bool) → (if c then f v else none) ≡ some a → P a
        by v a true e = h v a e
        by v a false e = absurd cc

    -- A conversion to values that are not nil.
    pub not_nil-Takes :
        {F : Type 0} (b : Basic) (f : Value F V → Option A) (decoded : V → Value F V)
        → ((u : Value F V) (x : A) → f u ≡ some x → P (some x))
        → Takes k P (g.convertible b λ v. not_nil f (decoded v))
    not_nil-Takes b f decoded h =
        convertible-Takes b (λ v. not_nil f (decoded v))
          λ v a e. by a (f (decoded v)) (h (decoded v)) e
      where
        by :
            (a o : Option A)
            → ((x : A) → o ≡ some x → P (some x))
            → (elim o [ none ↦ none | some b ↦ some (some b) ]) ≡ some a
            → P a
        by a none h e = absurd cc
        by a (some b) h e = subst P (some_same e) (h b refl)

    pub assignment-Takes :
        (f : V → Option (Option A))
        → ((v : V) (a : Option A) → f v ≡ some a → P a)
        → Takes k P (g.assignment f)
    assignment-Takes f h = record { taken = λ v a e. h v a (sym (k.converted-assignment f v) ∙ e) }

    pub assignable_kinds-Takes :
        (ks : List (g.Kind A)) → All (Takes k P) ks → Takes k P (g.assignable_kinds ks)
    assignable_kinds-Takes ks all = record {
      taken = λ v a e. each v a ks all (sym (k.converted-assignable_kinds ks v) ∙ e);
    }
      where
        each :
            (v : V) (a : Option A) (ks : List (g.Kind A))
            → All (Takes k P) ks
            → first_result (λ kind. k.converted kind v) ks ≡ some a
            → P a
        each v a [] all e = absurd cc
        each v a (x ∷ xs) all e = elim (first_result-cons (λ kind. k.converted kind v) x xs a e) [
          | inl here ↦ all.0.taken v a here
          | inr later ↦ each v a xs all.1 later
        ]

    pub object_at-Gives :
        (path : List Text) (kind : g.Kind A) → Takes k P kind → Gives k P (g.object_at path kind)
    object_at-Gives path kind h = record {
      given = λ v a e. by v a (k.at_path path v) (sym (k.value_of-object_at path kind v) ∙ e);
    }
      where
        by :
            (v : V) (a : Option A) (o : Option V)
            → (elim o [ none ↦ none | some u ↦ k.converted kind u ]) ≡ some a
            → P a
        by v a none e = absurd cc
        by v a (some u) e = h.taken u a e

    pub default_value-Gives : (a : Option A) → P a → Gives k P (g.default_value a)
    default_value-Gives a h = record {
      given = λ v b e. subst P (some_same (sym (k.value_of-default_value a v) ∙ e)) h;
    }

    pub value_sources-Gives :
        (ss : List (g.Source A)) → All (Gives k P) ss → Gives k P (g.value_sources ss)
    value_sources-Gives ss all = record {
      given = λ v a e. each v a ss all (sym (k.value_of-value_sources ss v) ∙ e);
    }
      where
        each :
            (v : V) (a : Option A) (ss : List (g.Source A))
            → All (Gives k P) ss
            → first_result (λ s. k.value_of s v) ss ≡ some a
            → P a
        each v a [] all e = absurd cc
        each v a (x ∷ xs) all e = elim (first_result-cons (λ s. k.value_of s v) x xs a e) [
          | inl here ↦ all.0.given v a here
          | inr later ↦ each v a xs all.1 later
        ]

  module _ {R : Type 0} {Pre Post : R → Type 0} where
    pub object_filler-Fills :
        {A : Type 0} (P : Option A → Type 0) {set : A → R → R} {s : g.Source A}
        → Gives k P s
        → ((r : R) → P none → Pre r → Post r)
        → ((a : A) (r : R) → P (some a) → Pre r → Post (set a r))
        → Fills k Pre Post (g.object_filler set s)
    object_filler-Fills {A} P {set} {s} h nil_lem set_lem = record {
      filled = λ v r r' e pre.
          by r r' (k.value_of s v) (h.given v) (sym (k.fill-object_filler set s v r) ∙ e) pre;
    }
      where
        by :
            (r r' : R) (o : Option (Option A))
            → ((a : Option A) → o ≡ some a → P a)
            → set_field set o r ≡ some r'
            → Pre r
            → Post r'
        by r r' none given e pre = absurd cc
        by r r' (some none) given e pre = subst Post (some_same e) (nil_lem r (given none refl) pre)
        by r r' (some (some a)) given e pre =
            subst Post (some_same e) (set_lem a r (given (some a) refl) pre)

    -- A description is what its fillers make of the new object.
    pub described :
        (new : R) (f : g.Filler R) (v : V) (r : R)
        → Fills k Pre Post f
        → Pre new
        → accepted (g.describe new f) v ≡ some r
        → Post r
    described new f v r h pre e = h.filled v new r (k.accepted-describe new f v r e) pre

  module _ {R : Type 0} where
    pub nil-FillsEach : (P : R → Type 0) → FillsEach k P P []
    nil-FillsEach P = record { filled = λ v r r' e pre. subst P (some_same e) pre }

    pub cons-FillsEach :
        {Pre Mid Post : R → Type 0} {f : g.Filler R} {fs : List (g.Filler R)}
        → Fills k Pre Mid f
        → FillsEach k Mid Post fs
        → FillsEach k Pre Post (f ∷ fs)
    cons-FillsEach {Pre} {Mid} {Post} {f} {fs} h hs = record {
      filled = λ v r r' e pre. by v r r' (k.fill f v r) (λ m same. h.filled v r m same pre) e;
    }
      where
        by :
            (v : V) (r r' : R) (o : Option R)
            → ((m : R) → o ≡ some m → Mid m)
            → and_then_fill o (fill_each (λ f. k.fill f v) fs) ≡ some r'
            → Post r'
        by v r r' none first e = absurd cc
        by v r r' (some m) first e = hs.filled v m r' e (first m refl)

    pub kept-FillsEach :
        (P : R → Type 0) (fs : List (g.Filler R)) → All (Fills k P P) fs → FillsEach k P P fs
    kept-FillsEach P [] all = nil-FillsEach P
    kept-FillsEach P (f ∷ fs) all = cons-FillsEach all.0 (kept-FillsEach P fs all.1)

    pub fillers-Fills :
        {Pre Post : R → Type 0} {fs : List (g.Filler R)}
        → FillsEach k Pre Post fs
        → Fills k Pre Post (g.fillers fs)
    fillers-Fills h = record {
      filled = λ v r r' e pre. h.filled v r r' (sym (k.fill-fillers _ v r) ∙ e) pre;
    }

    -- A field that a predicate does not see may get any value, nil included.
    pub unseen-Fills :
        {A : Type 0} {P : R → Type 0} {set : A → R → R} {s : g.Source A}
        → ((a : A) (r : R) → P r → P (set a r))
        → Fills k P P (g.object_filler set s)
    unseen-Fills {A} {P} {set} {s} h =
        object_filler-Fills (λ a. Unit) (record { given = λ v a e. tt }) (λ r any pre. pre)
          λ a r any pre. h a r pre
