-- ===== src/Resolvers/Racing.antt =====
-- resolvers/concurrent/nameserver/list/types.go: over every interleaving, the goroutines send what
-- `settle` says, and they can always go on until something is sent.
use sec_dns.Prelude.{
  ℕ, ◌+◌, ◌≤◌, ◌≡◌, refl, List, [], ◌∷◌, ◌++◌, Option, none, some, length, map, ap, sym, subst, ◌∙◌,
  ◌⊎◌, inl, inr, arith, append-nil, length-append, ◌<◌,
}
use sec_dns.Dns.{Msg}
use sec_dns.Exec.{Error, Outcome}
use sec_dns.Resolvers.Goroutines.{
  Picks, first, later, Race, start, last_error, Step, collect, win, lose, give_up, noted, Run,
  began, stepped, Onward, there, onward,
}
use sec_dns.Resolvers.{Report, failed, replied, settle}

-- One of the goroutines replied.
abbrev pub HasReply : List Report → Type 0
HasReply [] = ⊥
HasReply (replied m ∷ rs) = Unit
HasReply (failed e ∷ rs) = HasReply rs

settle-append : (rs ys : List Report) → HasReply rs → settle (rs ++ ys) ≡ settle rs
unfolding settle
settle-append [] ys h = absurd h
settle-append (replied m ∷ rs) ys h = refl
settle-append (failed e ∷ []) ys h = absurd h
settle-append (failed e ∷ r ∷ rs) ys h = settle-append (r ∷ rs) ys h

HasReply-append : (rs ys : List Report) → HasReply rs → HasReply (rs ++ ys)
HasReply-append [] ys h = absurd h
HasReply-append (replied m ∷ rs) ys h = tt
HasReply-append (failed e ∷ rs) ys h = HasReply-append rs ys h

HasReply-last : (rs : List Report) (m : Option Msg) → HasReply (rs ++ replied m ∷ [])
HasReply-last [] m = tt
HasReply-last (replied n ∷ rs) m = tt
HasReply-last (failed e ∷ rs) m = HasReply-last rs m

abbrev pub error_only : Option Error → Outcome
error_only e = record { msg = none; err = e }

settle-map_failed :
    (es : List Error) → settle (map failed es) ≡ record { msg = none; err = last_error es }
unfolding settle
settle-map_failed [] = refl
settle-map_failed (e ∷ []) = refl
settle-map_failed (e ∷ f ∷ es) = settle-map_failed (f ∷ es)

settle-first_reply :
    (es : List Error) (m : Option Msg)
    → settle (map failed es ++ replied m ∷ []) ≡ record { msg = m; err = none }
unfolding settle
settle-first_reply [] m = refl
settle-first_reply (e ∷ []) m = refl
settle-first_reply (e ∷ f ∷ es) m = settle-first_reply (f ∷ es) m

map-failed-append :
    (es : List Error) (e : Error) → map failed (es ++ e ∷ []) ≡ map failed es ++ failed e ∷ []
map-failed-append [] e = refl
map-failed-append (f ∷ es) e = ap (λ (t : List Report). failed f ∷ t) (map-failed-append es e)

length-Picks {ℓ} : {A : Type ℓ} {x : A} {xs ys : List A} → Picks x xs ys → length xs ≡ length ys + 1
length-Picks first = omega arith
length-Picks (later p) = omega (arith, length-Picks p)

not_empty {ℓ} : {A : Type ℓ} {x : A} {xs ys : List A} → Picks x xs ys → xs ≡ [] → ⊥
not_empty first e = cc
not_empty (later p) e = cc

-- A goroutine that still runs is not the last one, so a reply decided.
decided-running {ℓ} :
    {A : Type ℓ} {x : A} {xs ys : List A} {P : Type 0} → Picks x xs ys → P ⊎ (xs ≡ []) → P
decided-running p (inl h) = h
decided-running p (inr e) = absurd (not_empty p e)

sent_is : {x : Option Outcome} {o out : Outcome} → x ≡ some o → x ≡ some out → o ≡ out
sent_is e s = cc (e, s)

-- What has been sent, for the goroutines that have ended in this order: nothing while all failed,
-- and then what `settle` says. `size` is the number of goroutines, and the capacity of the channel.
pub record Agrees (size : ℕ) (order : List Report) (c : Race) : Type 0 where
  pub before : c.sent ≡ none → order ≡ map failed c.collected
  pub after : (out : Outcome) → c.sent ≡ some out → settle order ≡ out
  pub decided : (out : Outcome) → c.sent ≡ some out → HasReply order ⊎ (c.running ≡ [])
  pub fits : length c.collected + length c.running ≤ size
  pub all : c.sent ≡ none → length c.collected + length c.running ≡ size

Agrees-start : (rs : List Report) → Agrees (length rs) [] (start rs)
Agrees-start rs = record {
  before = λ e. refl;
  after = λ out e. cc;
  decided = λ out e. cc;
  fits = omega arith;
  all = λ e. omega arith;
}

Step-Agrees :
    {size : ℕ} {order : List Report} {c c' : Race} {r : Option Report}
    → Step c r c'
    → Agrees size order c
    → Agrees size (order ++ noted r) c'
Step-Agrees {size} {order} {c} {c'} (collect {e} p es sent) h = record {
  before = λ n.
      ap (λ t. t ++ failed e ∷ []) (h.before (sym sent ∙ n))
      ∙ sym (map-failed-append c.collected e)
      ∙ ap (map failed) (sym es);
  after = λ out s.
      settle-append order (failed e ∷ []) (decided-running p (h.decided out (sym sent ∙ s)))
      ∙ h.after out (sym sent ∙ s);
  decided = λ out s.
      inl
        (HasReply-append order (failed e ∷ []) (decided-running p (h.decided out (sym sent ∙ s))));
  fits = omega (arith, length-Picks p, h.fits, ap length es, length-append c.collected (e ∷ []));
  all = λ n. omega (
    arith,
    length-Picks p,
    h.all (sym sent ∙ n),
    ap length es,
    length-append c.collected (e ∷ []),
  );
}
Step-Agrees {size} {order} {c} {c'} (win {m} p unsent es sent) h = record {
  before = λ n. cc (n, sent);
  after = λ out s.
      ap (λ t. settle (t ++ replied m ∷ [])) (h.before unsent)
      ∙ settle-first_reply c.collected m
      ∙ sent_is sent s;
  decided = λ out s. inl (HasReply-last order m);
  fits = omega (arith, length-Picks p, h.fits, ap length es);
  all = λ n. cc (n, sent);
}
Step-Agrees {size} {order} {c} {c'} (lose {m} {out = old} p was es sent) h = record {
  before = λ n. absurd (cc (n, sent, was));
  after = λ out s.
      settle-append order (replied m ∷ []) (decided-running p (h.decided out (sym sent ∙ s)))
      ∙ h.after out (sym sent ∙ s);
  decided = λ out s. inl (HasReply-last order m);
  fits = omega (arith, length-Picks p, h.fits, ap length es);
  all = λ n. absurd (cc (n, sent, was));
}
Step-Agrees {size} {order} {c} {c'} (give_up none_run unsent left still es sent) h = record {
  before = λ n. cc (n, sent);
  after = λ out s.
      ap settle (append-nil order ∙ h.before unsent)
      ∙ settle-map_failed c.collected
      ∙ ap error_only left
      ∙ sent_is sent s;
  decided = λ out s. inr still;
  fits = omega (arith, h.fits, ap length es, ap length still);
  all = λ n. cc (n, sent);
}

-- The result of the goroutines, in whichever order they end: it is what `settle` says of the order
-- of their ends, and `errCollector` is never asked for more room than it has.
pub Run-Agrees : {rs order : List Report} {c : Race} → Run rs order c → Agrees (length rs) order c
Run-Agrees {rs} began = Agrees-start rs
Run-Agrees {rs} (stepped {order} {c' = c'} {r} run step e) =
    subst (λ t. Agrees (length rs) t c') (sym e) (Step-Agrees step (Run-Agrees run))

pub last_error-some : (es : List Error) → 0 < length es → (e : Error) × (last_error es ≡ some e)
last_error-some [] h = absurd (omega arith)
last_error-some (e ∷ []) h = (e, refl)
last_error-some (e ∷ f ∷ es) h = last_error-some (f ∷ es) (omega arith)

-- Steps from here to a state in which something was sent.
abbrev pub Delivers : Race → Type 0
Delivers c = (c' : Race) × (out : Outcome) × Onward c c' × (c'.sent ≡ some out)

deliver :
    (running : List Report) (c : Race)
    → c.running ≡ running
    → c.sent ≡ none
    → 0 < length running + length c.collected
    → Delivers c
deliver [] c e n h =
    let (x, left) = last_error-some c.collected (omega arith) in
    let c' : Race = record { running = []; collected = []; sent = some (error_only (some x)) } in
    (c', error_only (some x), onward (give_up e n left refl refl refl) there, refl)
deliver (replied m ∷ running) c e n h =
    let out : Outcome = record { msg = m; err = none } in
    let c' : Race = record { running = running; collected = c.collected; sent = some out } in
    (
      c',
      out,
      onward (win (subst (λ xs. Picks (replied m) xs running) (sym e) first) n refl refl) there,
      refl,
    )
deliver (failed x ∷ running) c e n h =
    let c' : Race = record { running = running; collected = c.collected ++ x ∷ []; sent = none } in
    let (c'', out, steps, sent) =
      deliver running c' refl refl (omega (arith, length-append c.collected (x ∷ []))) in
    (
      c'',
      out,
      onward (collect (subst (λ xs. Picks (failed x) xs running) (sym e) first) refl (sym n)) steps,
      sent,
    )

-- From every state that the goroutines of a list with one server or more can come to, and in which
-- nothing was sent, there are steps to a state in which something was sent.
pub Run-Delivers :
    {rs order : List Report} {c : Race}
    → Run rs order c
    → 0 < length rs
    → c.sent ≡ none
    → Delivers c
Run-Delivers {rs} {order} {c} run some_server unsent =
    deliver c.running c refl unsent (omega (arith, (Run-Agrees run).all unsent))

-- What was sent, by the reports in the order in which the goroutines ended: nothing if all of them
-- failed so far, with the errors in the channel, or else what `settle` says.
abbrev pub SentFor : List Report → List Error → Option Outcome → Type 0
SentFor order errors none = order ≡ map failed errors
SentFor order errors (some out) = settle order ≡ out

-- In every state that the goroutines of a concurrent list can come to: if something was sent, it is
-- what `settle` says of the reports in the order in which the goroutines ended, the first reply, or
-- the last error if all failed; if nothing was sent, all that ended failed, and their errors are in
-- the channel. The errors in the channel and the goroutines that still run are never more than the
-- goroutines, so that none waits for room in the channel.
pub sent-settle :
    {rs order : List Report} {c : Race}
    → Run rs order c
    → SentFor order c.collected c.sent × (length c.collected + length c.running ≤ length rs)
sent-settle {rs} {order} {c} run = let h = Run-Agrees run in (by c.sent h.before h.after, h.fits)
  where
    by :
        (o : Option Outcome)
        → (o ≡ none → order ≡ map failed c.collected)
        → ((out : Outcome) → o ≡ some out → settle order ≡ out)
        → SentFor order c.collected o
    by none before after = before refl
    by (some out) before after = after out refl
