-- ===== src/Exec/Tidy/Retyped.antt =====
-- Blocks that read the first question and write its type, and write it back.
use sec_dns.Prelude.{◌≡◌, refl, ℕ, List, [], ◌∷◌}
use sec_dns.Dns.{Msg, Question}
use sec_dns.Exec.{
  Exit, done, panicked, stopped, State, Exec, continue, ◌>>=◌, ◌>>◌, head_question, set_qtype,
  Outcome,
}
use sec_dns.Exec.Tidy.{Tidy, TidyAt, IsTidy, Tidy-eq}

-- The first question has this type.
abbrev pub HasType : ℕ → List Question → Type 0
HasType t [] = ⊥
HasType t (q ∷ qs) = q.qtype ≡ t

abbrev pub with_questions : {W : Type 0} → State W → List Question → State W
with_questions s qs = record s { query = record s.query { question = qs } }

module _ {W A : Type 0} {P : W → Type 0} where
  -- A call that is tidy from each state with the question that it has read.
  pub head_question-bind-IsTidy :
      (f : Question → Exec W A)
      → ((q : Question) (s : State W) → HasType q.qtype s.query.question → TidyAt P (f q) s)
      → IsTidy P (head_question >>= f)
  unfolding ◌>>=◌
  head_question-bind-IsTidy f h = record { at = λ s. go s s.query.question }
    where
      go : (s : State W) (qs : List Question) → TidyAt P (head_question >>= f) (with_questions s qs)
      go s [] p = tt
      go s (q ∷ qs) p = h q (with_questions s (q ∷ qs)) refl p

module _ {W B : Type 0} (t u : ℕ) (m : Exec W Outcome) (f : Outcome → Exec W B) where
  -- `Qtype` written back after a call, and what follows.
  abbrev finish : Outcome → Exec W B
  finish out = set_qtype u >> f out

  -- Between two writes of `Qtype` the query has another type, and then its own again.
  pub set_qtype-TidyAt :
      {P : W → Type 0}
      → IsTidy P m
      → ((out : Outcome) → IsTidy P (f out))
      → (s : State W) → HasType u s.query.question
      → TidyAt P (set_qtype t >> (m >>= finish)) s
  unfolding ◌>>=◌
  set_qtype-TidyAt {P} hm hf s has = go s.query.question has
    where
      finished :
          (q : Question) (qs : List Question) (query : Msg) (w : W) (out : Outcome)
          → q.qtype ≡ u
          → query ≡ record s.query { question = record q { qtype = t } ∷ qs }
          → P w
          → let s' : State W = record { query = query; world = w } in
            Tidy P (with_questions s (q ∷ qs)) (finish out s').0 (finish out s').1
      finished q qs query w out same e p =
          let s' = record (with_questions s (q ∷ qs)) { world = w } in
          rw (e, ← same) (Tidy-eq P s' (with_questions s (q ∷ qs)) _ _ refl ((hf out).at s' p))

      after :
          (q : Question) (qs : List Question) (r : Exit Outcome) (s' : State W)
          → q.qtype ≡ u
          → Tidy P (with_questions s (record q { qtype = t } ∷ qs)) r s'
          → Tidy P (with_questions s (q ∷ qs)) (continue r finish s').0 (continue r finish s').1
      after q qs (done out) s' k h = finished q qs s'.query s'.world out k h.0 h.1
      after q qs panicked s' k h = tt
      after q qs stopped s' k h = h

      go :
          (qs : List Question)
          → HasType u qs
          → TidyAt P (set_qtype t >> (m >>= finish)) (with_questions s qs)
      go [] k p = absurd k
      go (q ∷ qs) k p =
          let s' = with_questions s (record q { qtype = t } ∷ qs) in
          after q qs (m s').0 (m s').1 k (hm.at s' p)
