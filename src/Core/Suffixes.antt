-- ===== src/Core/Suffixes.antt =====
-- internal/core/instance.go: the names that the loop of Resolve looks rules up by, read off the bytes
-- of the name asked for.
use sec_dns.Prelude.{
  ℕ, ◌≡◌, refl, sym, ap, ◌∙◌, List, [], ◌∷◌, Text, Bool, true, false, ◌&&◌, ◌||◌, join, split,
  split_first, join-split_first, has_byte, Bool-cases, inl, inr, ◌==◌, ==_iff, if◌then◌else◌,
}
use sec_dns.Core.{dot_byte}

-- The code's names by its labels: the labels from each level on, joined again. The last level, the
-- last label alone, is not looked up.
abbrev pub suffixes : List Text → List Text
suffixes [] = []
suffixes (l ∷ []) = []
suffixes (l ∷ m ∷ ls) = join dot_byte (l ∷ m ∷ ls) ∷ suffixes (m ∷ ls)

-- What stands behind each dot of a text, if there is a dot in it.
abbrev pub behind_dots : Text → List Text
behind_dots [] = []
behind_dots (c ∷ cs) =
    let rest = behind_dots cs in if (c == dot_byte) && has_byte dot_byte cs then cs ∷ rest else rest

-- The name itself, and what stands behind its dots, if there is a dot in it.
abbrev pub names_for : Text → List Text
names_for name = if has_byte dot_byte name then name ∷ behind_dots name else []

behind_dots-nil : (s : Text) → has_byte dot_byte s ≡ false → behind_dots s ≡ []
behind_dots-nil [] e = refl
behind_dots-nil (c ∷ cs) e = by (c == dot_byte) (has_byte dot_byte cs) e (behind_dots-nil cs)
  where
    by :
        (b more : Bool)
        → (b || more) ≡ false
        → (more ≡ false → behind_dots cs ≡ [])
        → (if b && more then cs ∷ behind_dots cs else behind_dots cs) ≡ []
    by true more h ih = absurd cc
    by false more h ih = ih h

-- A byte more in front of the first text.
abbrev in_front : ℕ → List Text → List Text
in_front c [] = []
in_front c (x ∷ xs) = (c ∷ x) ∷ xs

suffixes-in_front :
    (c : ℕ) (p : Text) (ps : List Text) → suffixes ((c ∷ p) ∷ ps) ≡ in_front c (suffixes (p ∷ ps))
unfolding join
suffixes-in_front c p [] = refl
suffixes-in_front c p (q ∷ qs) = refl

-- The names behind a dot, and with another byte in front.
names_for-dot : (cs : Text) → (dot_byte ∷ cs) ∷ names_for cs ≡ names_for (dot_byte ∷ cs)
names_for-dot cs = by (has_byte dot_byte cs) (behind_dots-nil cs)
  where
    by :
        (more : Bool)
        → (more ≡ false → behind_dots cs ≡ [])
        → (dot_byte ∷ cs) ∷ (if more then cs ∷ behind_dots cs else [])
          ≡ (dot_byte ∷ cs) ∷ (if more then cs ∷ behind_dots cs else behind_dots cs)
    by true nil = refl
    by false nil = ap (λ (t : List Text). (dot_byte ∷ cs) ∷ t) (sym (nil refl))

in_front-names_for :
    (c : ℕ) (cs : Text)
    → in_front c (names_for cs) ≡ (if has_byte dot_byte cs then (c ∷ cs) ∷ behind_dots cs else [])
in_front-names_for c cs = by (has_byte dot_byte cs)
  where
    by :
        (more : Bool)
        → in_front c (if more then cs ∷ behind_dots cs else [])
          ≡ (if more then (c ∷ cs) ∷ behind_dots cs else [])
    by true = refl
    by false = refl

at_dot :
    (c : ℕ) (p : Text) (ps : List Text) (cs : Text)
    → c ≡ dot_byte
    → join dot_byte (p ∷ ps) ≡ cs
    → suffixes (p ∷ ps) ≡ names_for cs
    → suffixes ([] ∷ p ∷ ps)
      ≡ (c ∷ cs) ∷ (if has_byte dot_byte cs then cs ∷ behind_dots cs else behind_dots cs)
unfolding join
at_dot c p ps cs dot whole ih =
    ap (λ (t : Text). (dot_byte ∷ t) ∷ suffixes (p ∷ ps)) whole
    ∙ ap (λ (t : List Text). (dot_byte ∷ cs) ∷ t) ih
    ∙ names_for-dot cs
    ∙ ap
        (λ (b : ℕ).
          (b ∷ cs) ∷ (if has_byte dot_byte cs then cs ∷ behind_dots cs else behind_dots cs))
        (sym dot)

suffixes-split_first :
    (s : Text) → suffixes ((split_first dot_byte s).0 ∷ (split_first dot_byte s).1) ≡ names_for s
unfolding split_first
suffixes-split_first [] = refl
suffixes-split_first (c ∷ cs) = elim (Bool-cases (c == dot_byte)) [
  | inl dot ↦
      let c_dot : c ≡ dot_byte = (==_iff c dot_byte).0 dot in
      rw dot (
        at_dot c (split_first dot_byte cs).0 (split_first dot_byte cs).1 cs c_dot
          (join-split_first dot_byte cs) (suffixes-split_first cs))
  | inr other ↦ rw other (
      suffixes-in_front c (split_first dot_byte cs).0 (split_first dot_byte cs).1
      ∙ ap (in_front c) (suffixes-split_first cs)
      ∙ in_front-names_for c cs)
]

-- The labels of a name give the name itself and what stands behind its dots.
pub suffixes-split : (name : Text) → suffixes (split dot_byte name) ≡ names_for name
unfolding split
suffixes-split name = suffixes-split_first name
