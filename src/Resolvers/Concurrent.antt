-- ===== src/Resolvers/Concurrent.antt =====
-- resolvers/concurrent/nameserver/list/types.go: all servers at once, and the first reply. One
-- goroutine asks each resolver; what they deliver is seen in the order in which they finish.
use sec_dns.Prelude.{ℕ, zero, suc, Option, none, some, List, [], ◌∷◌, less_one, ℤ}
use sec_dns.Dns.{Msg}
use sec_dns.Exec.{
  Error, Exec, Resolve, Outcome, ◌>>=◌, pure, fail, no_available_name_server, nil_name_server,
}
use sec_dns.Resolvers.Guard.{guard_depth}

-- What one goroutine has: an error for `errCollector`, or a message and the error nil.
pub data Report : Type 0 where
  failed : Error → Report
  replied : Option Msg → Report

unfoldable pub report_of : Outcome → Report
report_of out = elim out.err [ some e ↦ failed e | none ↦ replied out.msg ]

-- The result, by the reports in the order of their goroutines' ends: the first reply, or the error
-- that is left when all but one are taken from `errCollector`.
unfoldable pub settle : List Report → Outcome
settle [] = record { msg = none; err = none }
settle (replied m ∷ rs) = record { msg = m; err = none }
settle (failed e ∷ []) = record { msg = none; err = some e }
settle (failed e ∷ r ∷ rs) = settle (r ∷ rs)

module _ {ℓ} {A : Type ℓ} where
  abbrev pub insert_at : ℕ → A → List A → List A
  insert_at zero x ys = x ∷ ys
  insert_at (suc k) x [] = x ∷ []
  insert_at (suc k) x (y ∷ ys) = y ∷ insert_at k x ys

  -- The elements in an order: the places where the first, the second and so on are put among those
  -- behind them. Each order has its places.
  unfoldable pub arrange : List ℕ → List A → List A
  arrange [] xs = xs
  arrange (k ∷ ks) [] = []
  arrange (k ∷ ks) (x ∷ xs) = insert_at k x (arrange ks xs)

module _ {W : Type 0} where
  -- `request`: `none` is a resolver that is nil or no name server
  unfoldable pub request : ℤ → Option (Resolve W) → Exec W Report
  unfolding report_of
  request depth none = pure (failed nil_name_server)
  request depth (some r) = do out ← r (less_one depth); pure (report_of out)

  -- The goroutines, one after another.
  unfoldable pub request_all : ℤ → List (Option (Resolve W)) → Exec W (List Report)
  request_all depth [] = pure []
  request_all depth (r ∷ rs) = do
    report ← request depth r
    reports ← request_all depth rs
    pure (report ∷ reports)

  unfoldable pub race : ℤ → List (Option (Resolve W)) → Exec W Outcome
  race depth order = do reports ← request_all depth order; pure (settle reports)

  -- `schedule` gives the order in which the goroutines end, which the world determines.
  unfoldable pub concurrent : (W → List ℕ) → List (Option (Resolve W)) → Resolve W
  concurrent schedule [] = guard_depth λ depth. fail no_available_name_server
  concurrent schedule (r ∷ rs) =
      guard_depth λ depth s. race depth (arrange (schedule s.world) (r ∷ rs)) s
