-- ===== src/Exec/Tidy.antt =====
-- Calls that come to an end, in a return or a panic. Those that return leave the query of their
-- caller as it was, and lead from the worlds of a predicate into its worlds.
pub mod Retyped
use sec_dns.Prelude.{◌≡◌, refl, ◌∙◌, List, [], ◌∷◌, Bool, true, false, if◌then◌else◌}
use sec_dns.Dns.{Msg, Question}
use sec_dns.Exec.{
  Exit, done, panicked, stopped, State, Exec, continue, ◌>>=◌, pure, panic, get_query,
  head_question, head_or_panic, with_query,
}

module _ {W A : Type 0} (P : W → Type 0) where
  abbrev pub Tidy : State W → Exit A → State W → Type 0
  Tidy s (done x) s' = (s'.query ≡ s.query) × P s'.world
  Tidy s panicked s' = Unit
  Tidy s stopped s' = ⊥

  abbrev pub TidyAt : Exec W A → State W → Type 0
  TidyAt m s = P s.world → Tidy s (m s).0 (m s).1

  pub record IsTidy (m : Exec W A) : Type 0 where
    pub at : (s : State W) → TidyAt m s

  pub Tidy-eq :
      (s t : State W) (r : Exit A) (s' : State W) → s.query ≡ t.query → Tidy s r s' → Tidy t r s'
  Tidy-eq s t (done x) s' e h = (h.0 ∙ e, h.1)
  Tidy-eq s t panicked s' e h = tt
  Tidy-eq s t stopped s' e h = h

  with_query-Tidy :
      (s : State W) (q : Msg) (r : Exit A) (s' : State W)
      → Tidy (record s { query = q }) r s'
      → Tidy s r (record s' { query = s.query })
  with_query-Tidy s q (done x) s' h = (refl, h.1)
  with_query-Tidy s q panicked s' h = tt
  with_query-Tidy s q stopped s' h = h

  pub if-TidyAt :
      (b : Bool) (m n : Exec W A) (s : State W)
      → (b ≡ true → TidyAt m s)
      → (b ≡ false → TidyAt n s)
      → TidyAt (if b then m else n) s
  if-TidyAt true m n s hm hn = hm refl
  if-TidyAt false m n s hm hn = hn refl

module _ {W A B : Type 0} (P : W → Type 0) where
  continue-TidyAt :
      (s s' : State W) (r : Exit A) (f : A → Exec W B)
      → Tidy P s r s'
      → ((x : A) (t : State W) → t.query ≡ s.query → TidyAt P (f x) t)
      → Tidy P s (continue r f s').0 (continue r f s').1
  continue-TidyAt s s' (done x) f h hf = Tidy-eq P s' s (f x s').0 (f x s').1 h.0 (hf x s' h.0 h.1)
  continue-TidyAt s s' panicked f h hf = tt
  continue-TidyAt s s' stopped f h hf = h

module _ {W A : Type 0} {P : W → Type 0} where
  pub pure-IsTidy : (x : A) → IsTidy P (pure {W = W} x)
  unfolding pure
  pure-IsTidy x = record { at = λ s p. (refl, p) }

  pub panic-IsTidy : IsTidy P (panic {W = W} {A = A})
  unfolding panic
  panic-IsTidy = record { at = λ s p. tt }

  pub with_query-IsTidy : (q : Msg) (m : Exec W A) → IsTidy P m → IsTidy P (with_query q m)
  unfolding with_query
  with_query-IsTidy q m h = record {
    at = λ s p. let t = record s { query = q } in with_query-Tidy P s q (m t).0 (m t).1 (h.at t p);
  }

  pub if-IsTidy :
      (b : Bool) (m n : Exec W A)
      → (b ≡ true → IsTidy P m)
      → (b ≡ false → IsTidy P n)
      → IsTidy P (if b then m else n)
  if-IsTidy true m n hm hn = hm refl
  if-IsTidy false m n hm hn = hn refl

module _ {W : Type 0} {P : W → Type 0} where
  pub get_query-IsTidy : IsTidy P (get_query {W = W})
  unfolding get_query
  get_query-IsTidy = record { at = λ s p. (refl, p) }

  pub head_question-IsTidy : IsTidy P (head_question {W = W})
  unfolding head_question
  head_question-IsTidy = record { at = λ s p. by s s.query.question p }
    where
      by :
          (s : State W) (qs : List Question)
          → P s.world
          → Tidy P s (head_or_panic qs s).0 (head_or_panic qs s).1
      by s [] p = tt
      by s (q ∷ qs) p = (refl, p)

module _ {W A B : Type 0} {P : W → Type 0} where
  -- The rest of a block may use that the query is as it was.
  pub bind-TidyAt :
      (m : Exec W A) (f : A → Exec W B) (s : State W)
      → IsTidy P m
      → ((x : A) (t : State W) → t.query ≡ s.query → TidyAt P (f x) t)
      → TidyAt P (m >>= f) s
  unfolding ◌>>=◌
  bind-TidyAt m f s hm hf p = continue-TidyAt P s (m s).1 (m s).0 f (hm.at s p) hf

  -- A block whose first call is tidy from this state.
  pub bind-TidyAt-IsTidy :
      (m : Exec W A) (f : A → Exec W B) (s : State W)
      → TidyAt P m s
      → ((x : A) → IsTidy P (f x))
      → TidyAt P (m >>= f) s
  unfolding ◌>>=◌
  bind-TidyAt-IsTidy m f s hm hf p =
      continue-TidyAt P s (m s).1 (m s).0 f (hm p) (λ x t e. (hf x).at t)

  pub bind-IsTidy :
      (m : Exec W A) (f : A → Exec W B)
      → IsTidy P m
      → ((x : A) → IsTidy P (f x))
      → IsTidy P (m >>= f)
  bind-IsTidy m f hm hf = record { at = λ s. bind-TidyAt m f s hm (λ x t e. (hf x).at t) }

pub ruleset tidy_rules = (
  pure-IsTidy, panic-IsTidy, with_query-IsTidy, if-IsTidy, get_query-IsTidy, head_question-IsTidy,
  bind-IsTidy,
)
