-- ===== src/Core/Answers.antt =====
-- What a client gets: the check of its query, and the handler's reply.
use sec_dns.Prelude.{◌≡◌, refl, ap, ◌↔◌, List, [], ◌∷◌, Option, none, some, ℤ, arith}
use sec_dns.Dns.{Msg, Question, class_inet}
use sec_dns.Exec.{Error, Exit, done, panicked, stopped, State, Resolve, Outcome}
use sec_dns.Exec.Tidy.{Tidy, IsTidy}
use sec_dns.Exec.Safe.{Asked, GoodWith, Good, Safe, IsSafe}
use sec_dns.Core.{check_questions, query_check, Handled, conclude, concluded, checked, handle}

-- One question, of class IN.
abbrev pub IsSupported : List Question → Type 0
IsSupported (q ∷ []) = q.qclass ≡ class_inet
IsSupported _ = ⊥

check_questions_iff : (qs : List Question) → (check_questions qs ≡ none) ↔ IsSupported qs
check_questions_iff [] = ground arith
check_questions_iff (q ∷ []) = ground arith
check_questions_iff (q ∷ r ∷ qs) = ground arith

-- A query that is there is accepted exactly if it has one question, of class IN.
pub query_check-none_iff : (m : Msg) → (query_check (some m) ≡ none) ↔ IsSupported m.question
unfolding query_check
query_check-none_iff m = check_questions_iff m.question

check_questions-Asked : (qs : List Question) → check_questions qs ≡ none → Asked qs
check_questions-Asked [] e = absurd cc
check_questions-Asked (q ∷ qs) e = tt

module _ {W : Type 0} (client server : Msg → Msg) (r : Resolve W) (depth : ℤ) (q : Msg)
    (w : W) where
  abbrev asked_for : State W
  asked_for = record { query = q; world = w }

  -- What a client gets for its query `q`, the error that is reported, and the world afterwards: the
  -- client error message for a query that the check refuses; the server error message for one whose
  -- resolver returns an error; and the message that the resolver returned, which has a question. The
  -- error messages are made for the very query that came in.
  pub data Answers : Handled → W → Type 0 where
    refused_query :
        (e : Error)
        → query_check (some q) ≡ some e
        → Answers (record { reply = some (client q); reported = some e }) w
    failed_query :
        (out : Outcome) (e : Error) (t : State W)
        → query_check (some q) ≡ none
        → r depth asked_for ≡ (done out, t)
        → out.err ≡ some e
        → Answers (record { reply = some (server q); reported = some e }) t.world
    answered_query :
        (out : Outcome) (m : Msg) (t : State W)
        → query_check (some q) ≡ none
        → r depth asked_for ≡ (done out, t)
        → out.err ≡ none
        → out.msg ≡ some m
        → Asked m.question
        → Answers (record { reply = some m; reported = none }) t.world

  module _ (P : W → Type 0) (tidy : IsTidy P (r depth)) (safe : IsSafe Good (r depth))
      (p : P w) where
    abbrev Answered : Exit Handled × W → Type 0
    Answered x = (h : Handled) × (w' : W) × (x ≡ (done h, w')) × Answers h w' × P w'

    concluded-Answered :
        (out : Outcome) (t : State W) (err : Option Error) (msg : Option Msg)
        → query_check (some q) ≡ none
        → r depth asked_for ≡ (done out, t)
        → out.err ≡ err
        → out.msg ≡ msg
        → GoodWith err msg
        → t.query ≡ q
        → P t.world
        → Answered (done (conclude client server r depth err msg t.query), t.world)
    concluded-Answered out t (some e) msg ok ran err same good kept pt = (
      record { reply = some (server q); reported = some e },
      t.world,
      ap (λ (x : Msg). (done (record { reply = some (server x); reported = some e }), t.world))
          kept,
      failed_query out e t ok ran err,
      pt,
    )
    concluded-Answered out t none none ok ran err same good kept pt = absurd good
    concluded-Answered out t none (some m) ok ran err same good kept pt =
        (_, t.world, refl, answered_query out m t ok ran err same good, pt)

    result-Answered :
        (x : Exit Outcome × State W)
        → query_check (some q) ≡ none
        → r depth asked_for ≡ x
        → Tidy P asked_for x.0 x.1
        → Safe Good x.0 x.1
        → Answered (concluded client server r depth x)
    result-Answered (done out, t) ok ran kept good =
        concluded-Answered out t out.err out.msg ok ran refl refl good.1.good kept.0 kept.1
    result-Answered (panicked, t) ok ran kept good = absurd good
    result-Answered (stopped, t) ok ran kept good = absurd kept

    checked-Answered :
        (e : Option Error)
        → query_check (some q) ≡ e
        → Answered (checked client server r depth e q w)
    unfolding query_check
    checked-Answered (some e) same = (_, w, refl, refused_query e same, p)
    checked-Answered none same =
        result-Answered (r depth asked_for) same refl (tidy.at asked_for p)
          (safe.at asked_for (check_questions-Asked q.question same))

    -- Over a resolver that returns, and leaves the query as it found it.
    pub handle-Answered :
        (h : Handled) × (w' : W) × (handle client server r depth (some q) w ≡ (done h, w'))
        × Answers h w'
        × P w'
    unfolding handle
    handle-Answered = checked-Answered (query_check (some q)) refl
