-- ===== src/Exec/Safe.antt =====
-- The notion of a call without a panic for a query with a question, and its rules for `Exec`.
use sec_dns.Prelude.{
  ℕ, List, [], ◌∷◌, Option, none, some, Bool, true, false, ◌≡◌, refl, if◌then◌else◌,
}
use sec_dns.Dns.{Msg, Question}
use sec_dns.Exec.{
  Error, Exit, done, panicked, stopped, State, Exec, Outcome, continue, stop, ◌>>=◌, pure,
  get_query, head_question, head_or_panic, write_qtype, set_qtype, with_query, fail, reply,
}

-- There is a question.
abbrev pub Asked : List Question → Type 0
Asked [] = ⊥
Asked (q ∷ qs) = Unit

abbrev pub HasReply : Option Msg → Type 0
HasReply none = ⊥
HasReply (some m) = Asked m.question

-- A result of `Resolve`: an error, or a message that is not nil and has a question.
abbrev pub GoodWith : Option Error → Option Msg → Type 0
GoodWith (some e) m = Unit
GoodWith none m = HasReply m

pub record Good (out : Outcome) : Type 0 where
  pub good : GoodWith out.err out.msg

module _ {W A : Type 0} (Q : A → Type 0) where
  abbrev pub Safe : Exit A → State W → Type 0
  Safe (done x) s = Asked s.query.question × Q x
  Safe panicked s = ⊥
  Safe stopped s = Unit

  pub record IsSafe (m : Exec W A) : Type 0 where
    pub at : (s : State W) → Asked s.query.question → Safe (m s).0 (m s).1

module _ {W A : Type 0} (Q : A → Type 0) where
  with_query-Safe :
      (s : State W) (x : Exit A) (t : State W)
      → Asked s.query.question
      → Safe Q x t
      → Safe Q x (record t { query = s.query })
  with_query-Safe s (done x) t asked h = (asked, h.1)
  with_query-Safe s panicked t asked h = h
  with_query-Safe s stopped t asked h = h

module _ {W A : Type 0} {Q : A → Type 0} where
  pub pure-IsSafe : (x : A) → Q x → IsSafe Q (pure {W = W} x)
  unfolding pure
  pure-IsSafe x h = record { at = λ s asked. (asked, h) }

  pub if-IsSafe :
      (b : Bool) (m n : Exec W A)
      → (b ≡ true → IsSafe Q m)
      → (b ≡ false → IsSafe Q n)
      → IsSafe Q (if b then m else n)
  if-IsSafe true m n hm hn = hm refl
  if-IsSafe false m n hm hn = hn refl

  pub with_query-IsSafe :
      (q : Msg) (m : Exec W A) → Asked q.question → IsSafe Q m → IsSafe Q (with_query q m)
  unfolding with_query
  with_query-IsSafe q m new h = record {
    at = λ s asked.
        let t = record s { query = q } in with_query-Safe Q s (m t).0 (m t).1 asked (h.at t new);
  }

module _ {W A B : Type 0} (Q : A → Type 0) {R : B → Type 0} where
  continue-Safe :
      (r : Exit A) (f : A → Exec W B) (s : State W)
      → Safe Q r s
      → ((x : A) → Q x → IsSafe R (f x))
      → Safe R (continue r f s).0 (continue r f s).1
  continue-Safe (done x) f s h hf = (hf x h.1).at s h.0
  continue-Safe panicked f s h hf = h
  continue-Safe stopped f s h hf = h

  pub bind-IsSafe :
      (m : Exec W A) (f : A → Exec W B)
      → IsSafe Q m
      → ((x : A) → Q x → IsSafe R (f x))
      → IsSafe R (m >>= f)
  unfolding ◌>>=◌
  bind-IsSafe m f hm hf = record {
    at = λ s asked. continue-Safe (m s).0 f (m s).1 (hm.at s asked) hf;
  }

abbrev pub Any : {A : Type 0} → A → Type 0
Any x = Unit

module _ {W : Type 0} where
  pub get_query-IsSafe : IsSafe (λ m. Asked m.question) (get_query {W = W})
  unfolding get_query
  get_query-IsSafe = record { at = λ s asked. (asked, asked) }

  pub head_question-IsSafe : IsSafe Any (head_question {W = W})
  unfolding head_question
  head_question-IsSafe = record { at = λ s asked. by s s.query.question asked asked }
    where
      by :
          (s : State W) (qs : List Question)
          → Asked s.query.question
          → Asked qs
          → Safe Any (head_or_panic qs s).0 (head_or_panic qs s).1
      by s [] asked h = h
      by s (q ∷ qs) asked h = (asked, tt)

  pub set_qtype-IsSafe : (t : ℕ) → IsSafe Any (set_qtype {W = W} t)
  unfolding set_qtype
  set_qtype-IsSafe t = record { at = λ s asked. by s s.query.question asked }
    where
      by :
          (s : State W) (qs : List Question)
          → Asked qs
          → Safe Any (write_qtype t qs s).0 (write_qtype t qs s).1
      by s [] h = h
      by s (q ∷ qs) h = (tt, tt)

  pub fail-IsSafe : (e : Error) → IsSafe Good (fail {W = W} e)
  fail-IsSafe e = pure-IsSafe _ (record { good = tt })

  pub reply-IsSafe : (m : Msg) → Asked m.question → IsSafe Good (reply {W = W} m)
  reply-IsSafe m asked = pure-IsSafe _ (record { good = asked })

  pub stop-IsSafe : IsSafe Good (stop {W = W})
  unfolding stop
  stop-IsSafe = record { at = λ s asked. tt }
