-- ===== src/Resolvers/Outrun.antt =====
-- resolvers/concurrent/nameserver/list/types.go: what the list returns, as a function of the order in
-- which its goroutines end, is what the goroutines send in a run of theirs.
use sec_dns.Prelude.{
  ◌<◌, ◌≡◌, refl, sym, ap, ◌∙◌, subst, List, [], ◌∷◌, ◌++◌, Option, none, some, length, ℕ, ℤ, pos,
  append-nil, append_assoc, arith,
}
use sec_dns.Exec.{Exit, done, panicked, stopped, State, Resolve, Outcome, ◌>>=◌, continue, pure}
use sec_dns.Resolvers.Goroutines.{
  Picks, first, later, Race, Step, collect, win, lose, give_up, Run, began, stepped,
}
use sec_dns.Resolvers.Arranged.{IsCons, arrange-IsCons}
use sec_dns.Resolvers.Racing.{SentFor, Run-Agrees, last_error-some, error_only, sent-settle}
use sec_dns.Resolvers.{
  Report, failed, replied, settle, arrange, request, request_all, race, concurrent, guard_depth,
}

-- The elements of the first list, taken one after another, are those of the second.
pub data Reordered {A : Type 0} : List A → List A → Type 0 where
  nothing : Reordered [] []
  taken :
      {x : A} {xs rest ys : List A} → Picks x xs rest → Reordered rest ys → Reordered xs (x ∷ ys)

-- The state after a goroutine ended with a report, and its step.
after_report : (c : Race) (r : Report) (rest : List Report) → Race
after_report c (failed e) rest = record c { running = rest; collected = c.collected ++ e ∷ [] }
after_report c (replied m) rest = elim c.sent [
  | none ↦ record c { running = rest; sent = some (record { msg = m; err = none }) }
  | some out ↦ record c { running = rest }
]

running-after_report :
    (c : Race) (r : Report) (rest : List Report) → (after_report c r rest).running ≡ rest
unfolding after_report
running-after_report c (failed e) rest = refl
running-after_report c (replied m) rest = ground arith

Step-after_report :
    (c : Race) (r : Report) (rest : List Report)
    → Picks r c.running rest
    → Step c (some r) (after_report c r rest)
unfolding after_report
Step-after_report c (failed e) rest p = collect p refl refl
Step-after_report c (replied m) rest p = by c.sent refl
  where
    by :
        (o : Option Outcome)
        → c.sent ≡ o
        → Step c (some (replied m)) (elim o [
          | none ↦ record c { running = rest; sent = some (record { msg = m; err = none }) }
          | some out ↦ record c { running = rest }
        ])
    by none e = win p e refl refl
    by (some out) e = lose p e refl refl

-- From a state that a run comes to, the goroutines that still run can end in any order.
ended_in :
    {rs before left order : List Report} (c : Race)
    → Reordered left order
    → Run rs before c
    → c.running ≡ left
    → (c' : Race) × Run rs (before ++ order) c' × (c'.running ≡ [])
ended_in {rs} {before} c nothing run e =
    (c, subst (λ t. Run rs t c) (sym (append-nil before)) run, e)
ended_in {rs} {before} c (taken {x} {xs} {rest} {ys} p more) run e =
    let step = Step-after_report c x rest (subst (λ t. Picks x t rest) (sym e) p) in
    let (c', run', still) =
      ended_in (after_report c x rest) more (stepped run step refl)
        (running-after_report c x rest) in
    (c', subst (λ t. Run rs t c') (append_assoc before (x ∷ []) ys) run', still)

-- And then something is sent: what `settle` says.
Sends : List Report → List Report → Type 0
Sends rs order = (c : Race) × Run rs order c × (c.sent ≡ some (settle order))

sent_in :
    {rs order : List Report} (c : Race)
    → Run rs order c
    → c.running ≡ []
    → 0 < length rs
    → Sends rs order
unfolding Sends
sent_in {rs} {order} c run still some_server = by c.sent refl (sent-settle run).0
  where
    by : (o : Option Outcome) → c.sent ≡ o → SentFor order c.collected o → Sends rs order
    by (some out) e said = (c, run, e ∙ ap some (sym said))
    by none e said =
        let (x, left) =
          last_error-some c.collected
            (omega (arith, some_server, (Run-Agrees run).all e, ap length still)) in
        let c' : Race = record {
          running = [];
          collected = [];
          sent = some (error_only (some x));
        } in
        let run' : Run rs order c' =
          stepped run (give_up still e left refl refl refl) (sym (append-nil order)) in
        (c', run', ap some (sym (sent-settle run').0))

length-Reordered : {A : Type 0} {xs ys : List A} → Reordered xs ys → IsCons ys → 0 < length xs
length-Reordered nothing h = absurd h
length-Reordered (taken first more) h = omega arith
length-Reordered (taken (later p) more) h = omega arith

module _ {W : Type 0} where
  abbrev NotEmpty : Exit (List Report) × State W → Type 0
  NotEmpty (done reports, t) = IsCons reports
  NotEmpty (panicked, t) = Unit
  NotEmpty (stopped, t) = Unit

  request_all-NotEmpty :
      (depth : ℤ) (r : Option (Resolve W)) (rs : List (Option (Resolve W))) (s : State W)
      → NotEmpty (request_all depth (r ∷ rs) s)
  unfolding request_all ◌>>=◌
  request_all-NotEmpty depth r rs s = by (request depth r s)
    where
      others :
          (x : Report) (y : Exit (List Report) × State W)
          → NotEmpty (continue y.0 (λ reports. pure (x ∷ reports)) y.1)
      others x (done reports, t) = tt
      others x (panicked, t) = tt
      others x (stopped, t) = tt

      by :
          (y : Exit Report × State W)
          → NotEmpty
              (continue y.0 (λ x. request_all depth rs >>= λ reports. pure (x ∷ reports)) y.1)
      by (done x, t) = others x (request_all depth rs t)
      by (panicked, t) = tt
      by (stopped, t) = tt

  all-NotEmpty :
      (depth : ℤ) (rs : List (Option (Resolve W))) (s : State W)
      → IsCons rs
      → NotEmpty (request_all depth rs s)
  all-NotEmpty depth [] s h = absurd h
  all-NotEmpty depth (r ∷ rs) s h = request_all-NotEmpty depth r rs s

  -- What a list of one resolver or more returns, at a depth not below 0, is what the goroutines send
  -- in a run of theirs: in the one in which they end in the order that the schedule gives, with the
  -- reports that they have in this order, whatever order they were started in.
  pub concurrent-Run :
      (schedule : W → List ℕ) (r : Option (Resolve W)) (rs : List (Option (Resolve W))) (n : ℕ)
      (s t : State W) (reports begun : List Report)
      → request_all (pos n) (arrange (schedule s.world) (r ∷ rs)) s ≡ (done reports, t)
      → Reordered begun reports
      → (c : Race) × (out : Outcome) × Run begun reports c
        × (c.sent ≡ some out)
        × (concurrent schedule (r ∷ rs) (pos n) s ≡ (done out, t))
  unfolding concurrent guard_depth race ◌>>=◌ Sends
  concurrent-Run schedule r rs n s t reports begun ran order =
      let some_report : IsCons reports = subst NotEmpty ran (
        all-NotEmpty (pos n) (arrange (schedule s.world) (r ∷ rs)) s
          (arrange-IsCons (schedule s.world) (r ∷ rs) tt)) in
      let (c0, run, still) =
        ended_in {before = []} (record { running = begun; collected = []; sent = none }) order began
          refl in
      let (c, run', sent) = sent_in c0 run still (length-Reordered order some_report) in
      (c, settle reports, run', sent, rw ran refl)
