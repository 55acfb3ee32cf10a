-- ===== src/Config/Descriptors.antt =====
-- The package go-descriptor, as far as the descriptors of the repository use it: descriptors are built
-- of its types, and `Describe` makes an object of a value. The package is a parameter.
use sec_dns.Prelude.{Option, none, some, List, [], ◌∷◌, Text, Bool, ◌≡◌, if◌then◌else◌}
use sec_dns.Config.Values.{Value, text, number, Described, accepted}

-- The kinds that a ConvertibleKind is made for.
pub data Basic : Type 0 where
  kind_string kind_float64 kind_slice : Basic

-- Kinds and sources of `A` give values that a field of type `A` takes, fillers fill in an `R`. In
-- a result `Option (Option A)` the outer `none` is `ok == false`, and the inner one is nil.
pub record GoDescriptor (V : Type 0) : Type 1 where
  pub Kind : Type 0 → Type 0
  pub Source : Type 0 → Type 0
  pub Filler : Type 0 → Type 0
  -- descriptor.Root
  pub root : List Text
  -- the kinds KindString and KindBool on their own
  pub string : Kind Text
  pub bool : Kind Bool
  -- ConvertibleKind, by its Kind and its ConvertFunction
  pub convertible : {A : Type 0} → Basic → (V → Option (Option A)) → Kind A
  pub assignable_kinds : {A : Type 0} → List (Kind A) → Kind A
  -- AssignmentFunction
  pub assignment : {A : Type 0} → (V → Option (Option A)) → Kind A
  pub object_at : {A : Type 0} → List Text → Kind A → Source A
  pub default_value : {A : Type 0} → Option A → Source A
  pub value_sources : {A : Type 0} → List (Source A) → Source A
  -- ObjectFiller: its ObjectPath is here the function that sets the field
  pub object_filler : {A R : Type 0} → (A → R → R) → Source A → Filler R
  pub fillers : {R : Type 0} → List (Filler R) → Filler R
  -- Describe of a Descriptor, whose Type is here a new object
  pub describe : {R : Type 0} → R → Filler R → V → Described R

abbrev pub or_else : {A : Type 0} → Option A → Option A → Option A
or_else (some a) rest = some a
or_else none rest = rest

-- The first element for which there is a result.
abbrev pub first_result : {E A : Type 0} → (E → Option A) → List E → Option A
first_result f [] = none
first_result f (x ∷ xs) = or_else (f x) (first_result f xs)

-- A field is set. Nil leaves the zero value of a new object.
abbrev pub set_field : {A R : Type 0} → (A → R → R) → Option (Option A) → R → Option R
set_field set none r = none
set_field set (some none) r = some r
set_field set (some (some a)) r = some (set a r)

abbrev pub and_then_fill : {R : Type 0} → Option R → (R → Option R) → Option R
and_then_fill none next = none
and_then_fill (some r) next = next r

-- One after another, as long as they succeed.
abbrev pub fill_each : {E R : Type 0} → (E → R → Option R) → List E → R → Option R
fill_each fill [] r = some r
fill_each fill (f ∷ fs) r = and_then_fill (fill f r) (fill_each fill fs)

-- What the documentation says: kinds and sources are tried in order, and an object is described if
-- all its fields are filled.
pub record Describes {V : Type 0} (g : GoDescriptor V) : Type 1 where
  -- the object at a path, and whether a value is of a kind
  pub at_path : List Text → V → Option V
  pub is_of_kind : Basic → V → Bool
  pub converted : {A : Type 0} → g.Kind A → V → Option (Option A)
  pub value_of : {A : Type 0} → g.Source A → V → Option (Option A)
  pub fill : {R : Type 0} → g.Filler R → V → R → Option R
  pub at_root : (v : V) → at_path g.root v ≡ some v
  pub at_no_path : (v : V) → at_path [] v ≡ some v
  pub converted-convertible :
      {A : Type 0} (b : Basic) (f : V → Option (Option A)) (v : V)
      → converted (g.convertible b f) v ≡ (if is_of_kind b v then f v else none)
  pub converted-assignable_kinds :
      {A : Type 0} (ks : List (g.Kind A)) (v : V)
      → converted (g.assignable_kinds ks) v ≡ first_result (λ k. converted k v) ks
  pub converted-assignment :
      {A : Type 0} (f : V → Option (Option A)) (v : V) → converted (g.assignment f) v ≡ f v
  pub value_of-object_at :
      {A : Type 0} (path : List Text) (k : g.Kind A) (v : V)
      → value_of (g.object_at path k) v
        ≡ (elim (at_path path v) [ none ↦ none | some u ↦ converted k u ])
  pub value_of-default_value :
      {A : Type 0} (a : Option A) (v : V) → value_of (g.default_value a) v ≡ some a
  pub value_of-value_sources :
      {A : Type 0} (ss : List (g.Source A)) (v : V)
      → value_of (g.value_sources ss) v ≡ first_result (λ s. value_of s v) ss
  pub fill-object_filler :
      {A R : Type 0} (set : A → R → R) (s : g.Source A) (v : V) (r : R)
      → fill (g.object_filler set s) v r ≡ set_field set (value_of s v) r
  pub fill-fillers :
      {R : Type 0} (fs : List (g.Filler R)) (v : V) (r : R)
      → fill (g.fillers fs) v r ≡ fill_each (λ f. fill f v) fs r
  pub accepted-describe :
      {R : Type 0} (new : R) (f : g.Filler R) (v : V) (r : R)
      → accepted (g.describe new f) v ≡ some r
      → fill f v new ≡ some r
  pub accepted-filled :
      {A R : Type 0} (new : R) (set : A → R → R) (s : g.Source A) (fs : List (g.Filler R)) (v : V)
      (r : R)
      → fill (g.fillers (g.object_filler set s ∷ fs)) v new ≡ some r
      → accepted (g.describe new (g.fillers (g.object_filler set s ∷ fs))) v ≡ some r

module _ {F V A : Type 0} where
  -- `converted` is not nil where `ok` is true.
  abbrev pub not_nil : (Value F V → Option A) → Value F V → Option (Option A)
  not_nil f v = elim (f v) [ none ↦ none | some a ↦ some (some a) ]

  -- The type assertions original.(string) and original.(float64).
  abbrev pub if_text : (Value F V → Option A) → Value F V → Option A
  if_text f (text s) = f (text s)
  if_text f _ = none

  abbrev pub if_number : (Value F V → Option A) → Value F V → Option A
  if_number f (number n) = f (number n)
  if_number f _ = none
