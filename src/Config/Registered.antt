-- ===== src/Config/Registered.antt =====
-- What the registration and the conversions of the configuration leave.
use sec_dns.Prelude.{
  ℕ, ◌+◌, ◌≡◌, refl, ◌∙◌, ap, ◌&&◌, not, Option, none, some, Bool, true, false, List, [], ◌∷◌, ◌++◌,
  Text, length, lookup, text_eq, Bool-cases, inl, inr, join, append_assoc, if◌then◌else◌, arith,
}
use sec_dns.Core.FirstRule.{or_else, pick, or_else-none, lookup-insert_new}
use sec_dns.Config.{
  Prototype, register, store, by_name, array, Described, accept_each, error_count, to_listeners,
  snake_case_onto, snake_case_concatenate,
}

-- The prototype is of the type with this name, and can be registered.
abbrev pub answers_to : Text → Option Text → Bool
answers_to key none = false
answers_to key (some name) = not (text_eq name []) && text_eq name key

pick_if : {D : Type 0} (b : Bool) (d : D) → pick b (some d) none ≡ (if b then some d else none)
pick_if true d = refl
pick_if false d = refl

module _ {D : Type 0} (prototype : D → Prototype) (d : D) (registered : List (Text × D)) where
  -- After a registration each type name has the descriptor that it had before, and only a name
  -- that had none has the new one, if it is the name of its type and not empty.
  pub lookup-register :
      (key : Text)
      → lookup key (register prototype (some d) registered).1
        ≡ or_else
            (lookup key registered)
            (if answers_to key (prototype d).type_name then some d else none)
  unfolding register
  lookup-register key = by (prototype d).type_name
    where
      stored :
          (name : Text) (o : Option D)
          → lookup name registered ≡ o
          → lookup key (store o name d registered).1
            ≡ or_else (lookup key registered) (if text_eq name key then some d else none)
      stored name none e =
          lookup-insert_new key name d registered none e
          ∙ ap (or_else (lookup key registered)) (pick_if (text_eq name key) d)
      stored name (some old) e =
          lookup-insert_new key name d registered (some old) e
          ∙ ap (or_else (lookup key registered)) (pick_if (text_eq name key) d)

      by :
          (o : Option Text)
          → lookup key (by_name o (prototype d).type_string d registered).1
            ≡ or_else (lookup key registered) (if answers_to key o then some d else none)
      by none = or_else-none (lookup key registered)
      by (some name) = elim (Bool-cases (text_eq name [])) [
        | inl is_empty ↦ rw is_empty (or_else-none (lookup key registered))
        | inr has ↦ rw has (stored name (lookup name registered) refl)
      ]

module _ {V R : Type 0} (describe : V → Described R) where
  counted : (vs : List V) → length (accept_each describe vs) + error_count describe vs ≡ length vs
  unfolding accept_each error_count
  counted [] = refl
  counted (v ∷ vs) = ground (arith, counted vs)

  -- If the listeners of a configuration are accepted then none of them was left out.
  length-to_listeners :
      (F : Type 0) (vs : List V) (rs : List R)
      → to_listeners {F = F} describe (array vs) ≡ some rs
      → length rs ≡ length vs
  unfolding to_listeners
  length-to_listeners F vs rs e = ground (arith, counted vs)

-- The elements that are not empty.
abbrev pub filled : List Text → List Text
filled [] = []
filled (s ∷ ss) = if text_eq s [] then filled ss else s ∷ filled ss

join-merge :
    (a b : Text) (ss : List Text) → join b'_' ((a ++ (b'_' ∷ b)) ∷ ss) ≡ join b'_' (a ∷ b ∷ ss)
unfolding join
join-merge a b [] = refl
join-merge a b (s ∷ ss) = append_assoc a (b'_' ∷ b) _

not_empty-append : (a b : Text) (c : ℕ) → text_eq (a ++ c ∷ b) [] ≡ false
not_empty-append [] b c = refl
not_empty-append (x ∷ a) b c = refl

onto_some :
    (built : Text) (ss : List Text)
    → text_eq built [] ≡ false
    → snake_case_onto built ss ≡ join b'_' (built ∷ filled ss)
unfolding join
onto_some built [] h = refl
onto_some built (s ∷ ss) h = elim (Bool-cases (text_eq s [])) [
  | inl is_empty ↦ rw is_empty (onto_some built ss h)
  | inr has ↦
      rw (has, h)
        (onto_some (built ++ b'_' ∷ s) ss (not_empty-append built s b'_')
          ∙ join-merge built s (filled ss))
]

-- SnakeCaseConcatenate puts one underscore between the strings that are not empty.
snake_case_concatenate_lem : (ss : List Text) → snake_case_concatenate ss ≡ join b'_' (filled ss)
unfolding snake_case_concatenate join
snake_case_concatenate_lem [] = refl
snake_case_concatenate_lem (s ∷ ss) = elim (Bool-cases (text_eq s [])) [
  | inl is_empty ↦ rw is_empty (snake_case_concatenate_lem ss)
  | inr has ↦ rw has (onto_some s ss has)
]
