-- ===== src/Resolvers/Goroutines.antt =====
-- The goroutines of a concurrent list as a step relation, over every interleaving.
use sec_dns.Prelude.{◌≡◌, List, [], ◌∷◌, ◌++◌, Option, none, some}
use sec_dns.Dns.{Msg}
use sec_dns.Exec.{Error, Outcome}
use sec_dns.Resolvers.{Report, failed, replied}

-- One goroutine and the others.
pub data Picks {ℓ} {A : Type ℓ} (x : A) : List A → List A → Type ℓ where
  first : {xs : List A} → Picks x (x ∷ xs) xs
  later : {y : A} {xs ys : List A} → Picks x xs ys → Picks x (y ∷ xs) (y ∷ ys)

-- The reports of the goroutines that still run, the errors in `errCollector`, and what was sent
-- over the channels `msg` and `err`; `once` is used up when something was sent.
pub record Race : Type 0 where
  pub running : List Report
  pub collected : List Error
  pub sent : Option Outcome

abbrev pub start : List Report → Race
start rs = record { running = rs; collected = []; sent = none }

-- The error that is left when all but one are taken from the channel. An empty channel has none:
-- receiving from it blocks.
abbrev pub last_error : List Error → Option Error
last_error [] = none
last_error (e ∷ []) = some e
last_error (e ∷ f ∷ es) = last_error (f ∷ es)

-- A step of a goroutine, with the report that it had if it ends: it puts its error in the channel,
-- sends its reply, or finds that one was sent. The last step is of the goroutine that waits, which
-- empties the channel and sends the last error; it is only there if the channel has one.
pub data Step : Race → Option Report → Race → Type 0 where
  collect :
      {e : Error} {c c' : Race}
      → Picks (failed e) c.running c'.running
      → c'.collected ≡ c.collected ++ e ∷ []
      → c'.sent ≡ c.sent
      → Step c (some (failed e)) c'
  win :
      {m : Option Msg} {c c' : Race}
      → Picks (replied m) c.running c'.running
      → c.sent ≡ none
      → c'.collected ≡ c.collected
      → c'.sent ≡ some (record { msg = m; err = none })
      → Step c (some (replied m)) c'
  lose :
      {m : Option Msg} {out : Outcome} {c c' : Race}
      → Picks (replied m) c.running c'.running
      → c.sent ≡ some out
      → c'.collected ≡ c.collected
      → c'.sent ≡ c.sent
      → Step c (some (replied m)) c'
  give_up :
      {e : Error} {c c' : Race}
      → c.running ≡ []
      → c.sent ≡ none
      → last_error c.collected ≡ some e
      → c'.running ≡ []
      → c'.collected ≡ []
      → c'.sent ≡ some (record { msg = none; err = some e })
      → Step c none c'

-- The reports in the order in which their goroutines ended.
abbrev pub noted : Option Report → List Report
noted none = []
noted (some r) = r ∷ []

pub data Run (rs : List Report) : List Report → Race → Type 0 where
  began : Run rs [] (start rs)
  stepped :
      {order order' : List Report} {c c' : Race} {r : Option Report}
      → Run rs order c
      → Step c r c'
      → order' ≡ order ++ noted r
      → Run rs order' c'

-- Any number of steps.
pub data Onward : Race → Race → Type 0 where
  there : {c : Race} → Onward c c
  onward : {c c' c'' : Race} {r : Option Report} → Step c r c' → Onward c' c'' → Onward c c''
