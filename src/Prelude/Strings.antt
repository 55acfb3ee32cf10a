-- ===== src/Prelude/Strings.antt =====
-- Go's `string` as its bytes, and the functions of the package `strings` that the program calls.
use Prim.Native.Nat.{ℕ, suc}
use Prim.Native.Char.{code}
use Prim.Native.String.{String}
use mathlib.Core.Path.{◌≡◌, refl, ap, ◌∙◌}
use mathlib.Core.Logic.{◌↔◌}
use mathlib.Core.Bool.{Bool, true, false, ◌&&◌, ◌||◌, not}
use mathlib.Core.List.{List, [], ◌∷◌, ◌++◌, reverse}
use native.Mathlib.Omega.{arith}
use sec_dns.Prelude.Tests.{ltb, ◌==◌, ==_self, if◌then◌else◌}
use sec_dns.Prelude.Lists.{length, drop, any}

abbrev pub Text : Type 0
Text = List ℕ

-- The bytes of an ASCII literal.
abbrev pub codes : String → Text
codes String.[] = []
codes (String.◌∷◌ c s) = code c ∷ codes s

abbrev pub text_eq : Text → Text → Bool
text_eq [] [] = true
text_eq (a ∷ s) (b ∷ t) = a == b && text_eq s t
text_eq _ _ = false

pub text_eq_sound : (s t : Text) → text_eq s t ≡ true → s ≡ t
text_eq_sound [] [] h = refl
text_eq_sound [] (b ∷ t) h = cc
text_eq_sound (a ∷ s) [] h = cc
text_eq_sound (a ∷ s) (b ∷ t) h = ground (arith, text_eq_sound s t)

pub text_eq_self : (s : Text) → text_eq s s ≡ true
text_eq_self [] = refl
text_eq_self (a ∷ s) = rw (==_self a) (text_eq_self s)

pub text_eq_iff : (s t : Text) → (text_eq s t ≡ true) ↔ (s ≡ t)
text_eq_iff s t = (text_eq_sound s t, λ e. rw e (text_eq_self t))

-- strings.HasPrefix(s, p)
abbrev pub has_prefix : Text → Text → Bool
has_prefix s [] = true
has_prefix [] (b ∷ p) = false
has_prefix (a ∷ s) (b ∷ p) = a == b && has_prefix s p

-- strings.HasSuffix(s, p)
abbrev pub has_suffix : Text → Text → Bool
has_suffix s p = has_prefix (reverse s) (reverse p)

-- strings.TrimPrefix(s, p)
abbrev pub trim_prefix : Text → Text → Text
trim_prefix s p = if has_prefix s p then drop (length p) s else s

-- strings.TrimSuffix(s, p)
abbrev pub trim_suffix : Text → Text → Text
trim_suffix s p = if has_suffix s p then reverse (drop (length p) (reverse s)) else s

-- The first part and the others of a split at the byte `sep`.
abbrev cut_in : Bool → ℕ → Text × List Text → Text × List Text
cut_in true c (part, parts) = ([], part ∷ parts)
cut_in false c (part, parts) = (c ∷ part, parts)

unfoldable pub split_first : ℕ → Text → Text × List Text
split_first sep [] = ([], [])
split_first sep (c ∷ s) = cut_in (c == sep) c (split_first sep s)

-- strings.Split(s, sep), for a separator of one byte
unfoldable pub split : ℕ → Text → List Text
unfolding split_first
split sep s = let (part, parts) = split_first sep s in part ∷ parts

-- strings.Join(parts, sep), for a separator of one byte
unfoldable pub join : ℕ → List Text → Text
join sep [] = []
join sep (p ∷ []) = p
join sep (p ∷ q ∷ ps) = p ++ sep ∷ join sep (q ∷ ps)

join-cut_in :
    (b : Bool) (sep c : ℕ) (r : Text × List Text)
    → (b ≡ true → c ≡ sep)
    → join sep ((cut_in b c r).0 ∷ (cut_in b c r).1) ≡ c ∷ join sep (r.0 ∷ r.1)
unfolding join
join-cut_in true sep c (part, parts) h = rw (h refl)
join-cut_in false sep c (part, []) h = refl
join-cut_in false sep c (part, q ∷ parts) h = refl

pub join-split_first :
    (sep : ℕ) (s : Text) → join sep ((split_first sep s).0 ∷ (split_first sep s).1) ≡ s
unfolding split_first join
join-split_first sep [] = refl
join-split_first sep (c ∷ s) =
    rw (join-cut_in (c == sep) sep c (split_first sep s) (λ e. ground arith))
      (ap (λ (t : Text). c ∷ t) (join-split_first sep s))

-- Joining what a split gave returns the text.
pub join-split : (sep : ℕ) (s : Text) → join sep (split sep s) ≡ s
unfolding split
join-split sep s = join-split_first sep s

abbrev pub has_byte : ℕ → Text → Bool
has_byte sep s = any (λ c. c == sep) s

cut_in-parts :
    (b : Bool) (c : ℕ) (rest : Text × List Text) (more : Bool)
    → ltb (length rest.1) 1 ≡ not more
    → ltb (length (cut_in b c rest).1) 1 ≡ not (b || more)
cut_in-parts true c (part, parts) more e = ground arith
cut_in-parts false c (part, parts) more e = e

split_first-parts :
    (sep : ℕ) (s : Text) → ltb (length (split_first sep s).1) 1 ≡ not (has_byte sep s)
unfolding split_first
split_first-parts sep [] = refl
split_first-parts sep (c ∷ s) =
    cut_in-parts (c == sep) c (split_first sep s) (has_byte sep s) (split_first-parts sep s)

ltb-suc : (n : ℕ) → ltb (suc n) 2 ≡ ltb n 1
ltb-suc n = ground arith

-- A name has less than two labels if it has no dot.
pub length-split : (sep : ℕ) (s : Text) → ltb (length (split sep s)) 2 ≡ not (has_byte sep s)
unfolding split
length-split sep s = ltb-suc (length (split_first sep s).1) ∙ split_first-parts sep s
