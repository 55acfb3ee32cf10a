-- ===== src/Core/FirstRule.antt =====
-- The rules that the instance keeps: the first resolver for each name.
use sec_dns.Prelude.{
  ◌≡◌, refl, List, [], ◌∷◌, Text, Option, none, some, Bool, true, false, lookup, text_eq,
  text_eq_sound, lookup-insert, arith, inl, inr, Bool-cases, ◌∙◌,
}
use sec_dns.Core.{insert_new, receive, receive_all}

module _ {R : Type 0} where
  abbrev pub or_else : Option R → Option R → Option R
  or_else none o = o
  or_else (some r) o = some r

  abbrev pub pick : Bool → Option R → Option R → Option R
  pick true (some r) rest = some r
  pick true none rest = rest
  pick false r rest = rest

  -- An independent description: the first resolver, not nil, that a list of rules has for a name.
  abbrev pub first_rule : Text → List (Text × Option R) → Option R
  first_rule name [] = none
  first_rule name ((n, r) ∷ rs) = pick (text_eq n name) r (first_rule name rs)

  pub or_else-none : (o : Option R) → o ≡ or_else o none
  or_else-none none = refl
  or_else-none (some r) = refl

  same_name :
      (name n : Text) (o : Option R) (rules : List (Text × R))
      → text_eq n name ≡ true
      → lookup n rules ≡ o
      → lookup name rules ≡ o
  same_name name n o rules same e = rw (← text_eq_sound n name same) e

  pub lookup-insert_new :
      (name n : Text) (r : R) (rules : List (Text × R)) (o : Option R)
      → lookup n rules ≡ o
      → lookup name (insert_new o n r rules)
        ≡ or_else (lookup name rules) (pick (text_eq n name) (some r) none)
  lookup-insert_new name n r rules o e = elim (Bool-cases (text_eq n name)) [
    | inl same ↦ rw (same, same_name name n o rules same e) (equal o e same)
    | inr other ↦ rw (other, ← or_else-none (lookup name rules)) (unequal o other)
  ]
    where
      equal :
          (o : Option R)
          → lookup n rules ≡ o
          → text_eq n name ≡ true
          → lookup name (insert_new o n r rules) ≡ or_else o (some r)
      equal none e same = lookup-insert n name r rules ∙ rw same
      equal (some old) e same = same_name name n (some old) rules same e

      unequal :
          (o : Option R)
          → text_eq n name ≡ false
          → lookup name (insert_new o n r rules) ≡ lookup name rules
      unequal none other = lookup-insert n name r rules ∙ rw other
      unequal (some old) other = refl

  lookup-receive :
      (name n : Text) (r : Option R) (rules : List (Text × R))
      → lookup name (receive rules (n, r))
        ≡ or_else (lookup name rules) (pick (text_eq n name) r none)
  unfolding receive
  lookup-receive name n none rules = elim (Bool-cases (text_eq n name)) [
    | inl same ↦ rw same (or_else-none (lookup name rules))
    | inr other ↦ rw other (or_else-none (lookup name rules))
  ]
  lookup-receive name n (some r) rules = lookup-insert_new name n r rules (lookup n rules) refl

  -- After AcceptProvider has received a list of rules, a name has the resolver that it had before,
  -- and otherwise the first one of the list for it.
  pub lookup-receive_all :
      (name : Text) (rs : List (Text × Option R)) (rules : List (Text × R))
      → lookup name (receive_all rules rs) ≡ or_else (lookup name rules) (first_rule name rs)
  unfolding receive_all
  lookup-receive_all name [] rules = ground arith
  lookup-receive_all name ((n, r) ∷ rs) rules =
      rw (lookup-receive_all name rs (receive rules (n, r)), lookup-receive name n r rules)
        (ground arith)
