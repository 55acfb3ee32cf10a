-- ===== src/Resolvers/Safe/Slices.antt =====
-- sequence/types.go and concurrent/nameserver/list/types.go: calls without a panic.
use sec_dns.Prelude.{ℤ, less_one, ℕ, List, [], ◌∷◌, Option, none, some, true, ◌≡◌, is_some, All}
use sec_dns.Dns.{Msg}
use sec_dns.Exec.{Error, Resolve, Outcome}
use sec_dns.Exec.Safe.{
  HasReply, Good, GoodWith, IsSafe, pure-IsSafe, if-IsSafe, bind-IsSafe, fail-IsSafe,
}
use sec_dns.Resolvers.{
  try_each, sequence, Report, failed, replied, report_of, settle, has_reply, request, request_all,
  race, concurrent, arrange,
}
use sec_dns.Resolvers.Arranged.{All-arrange, IsCons, arrange-IsCons}
use sec_dns.Resolvers.Safe.{guard_depth-IsSafe}

-- An element of a slice: nil, or a resolver that answers at this depth.
abbrev pub SafeElement : {W : Type 0} → ℤ → Option (Resolve W) → Type 0
SafeElement d none = Unit
SafeElement d (some r) = IsSafe Good (r d)

abbrev pub GoodReport : Report → Type 0
GoodReport (failed e) = Unit
GoodReport (replied m) = HasReply m

report_of-GoodReport : (out : Outcome) → Good out → GoodReport (report_of out)
unfolding report_of
report_of-GoodReport out h = by out.err out.msg h.good
  where
    by :
        (e : Option Error) (m : Option Msg)
        → GoodWith e m
        → GoodReport (report_of (record { msg = m; err = e }))
    by (some e) m k = tt
    by none m k = k

pub settle-Good : (xs : List Report) → All GoodReport xs → IsCons xs → Good (settle xs)
unfolding settle
settle-Good [] all some_report = absurd some_report
settle-Good (replied m ∷ xs) all some_report = record { good = all.0 }
settle-Good (failed e ∷ []) all some_report = record { good = tt }
settle-Good (failed e ∷ x ∷ xs) all some_report = settle-Good (x ∷ xs) all.1 tt

-- A reply among the reports is a report.
pub has_reply-IsCons : (xs : List Report) → has_reply xs ≡ true → IsCons xs
has_reply-IsCons [] e = absurd cc
has_reply-IsCons (x ∷ xs) e = tt

module _ {W : Type 0} (depth : ℤ) where
  try_each-IsSafe :
      (rs : List (Option (Resolve W))) (acc : Outcome)
      → Good acc
      → All (SafeElement (less_one depth)) rs
      → IsSafe Good (try_each depth rs acc)
  unfolding try_each
  try_each-IsSafe [] acc good all = pure-IsSafe acc good
  try_each-IsSafe (none ∷ rs) acc good all = try_each-IsSafe rs _ (record { good = tt }) all.1
  try_each-IsSafe (some r ∷ rs) acc good all = bind-IsSafe _ _ _ all.0 λ out h.
      if-IsSafe (is_some out.err) _ _ (λ _. try_each-IsSafe rs out h all.1) (λ _. pure-IsSafe out h)

  -- The first resolver replaces what the variables of the loop began with.
  try_first-IsSafe :
      (r : Option (Resolve W)) (rs : List (Option (Resolve W))) (acc : Outcome)
      → All (SafeElement (less_one depth)) (r ∷ rs)
      → IsSafe Good (try_each depth (r ∷ rs) acc)
  unfolding try_each
  try_first-IsSafe none rs acc all = try_each-IsSafe rs _ (record { good = tt }) all.1
  try_first-IsSafe (some r) rs acc all = bind-IsSafe _ _ _ all.0 λ out h.
      if-IsSafe (is_some out.err) _ _ (λ _. try_each-IsSafe rs out h all.1) (λ _. pure-IsSafe out h)

  pub sequence-IsSafe :
      (rs : List (Option (Resolve W)))
      → All (SafeElement (less_one depth)) rs
      → IsSafe Good (sequence rs depth)
  unfolding sequence
  sequence-IsSafe [] all = guard_depth-IsSafe _ depth (fail-IsSafe _)
  sequence-IsSafe (r ∷ rs) all = guard_depth-IsSafe _ depth (try_first-IsSafe r rs _ all)

  -- One report for each resolver.
  abbrev Reports : List (Option (Resolve W)) → List Report → Type 0
  Reports rs xs = All GoodReport xs × (IsCons rs → IsCons xs)

  request-IsSafe :
      (o : Option (Resolve W))
      → SafeElement (less_one depth) o
      → IsSafe GoodReport (request depth o)
  unfolding request
  request-IsSafe none h = pure-IsSafe _ tt
  request-IsSafe (some r) h =
      bind-IsSafe _ _ _ h λ out good. pure-IsSafe _ (report_of-GoodReport out good)

  request_all-IsSafe :
      (rs : List (Option (Resolve W)))
      → All (SafeElement (less_one depth)) rs
      → IsSafe (Reports rs) (request_all depth rs)
  unfolding request_all
  request_all-IsSafe [] all = pure-IsSafe _ (tt, λ none_there. none_there)
  request_all-IsSafe (r ∷ rs) all = bind-IsSafe _ _ _ (request-IsSafe r all.0) λ x h.
      bind-IsSafe _ _ _ (request_all-IsSafe rs all.1) λ xs hs. pure-IsSafe _ ((h, hs.0), λ _. tt)

  race-IsSafe :
      (rs : List (Option (Resolve W)))
      → IsCons rs
      → All (SafeElement (less_one depth)) rs
      → IsSafe Good (race depth rs)
  unfolding race
  race-IsSafe rs some_there all =
      bind-IsSafe _ _ _ (request_all-IsSafe rs all)
        λ xs h. pure-IsSafe _ (settle-Good xs h.0 (h.1 some_there))

  pub concurrent-IsSafe :
      (schedule : W → List ℕ) (rs : List (Option (Resolve W)))
      → All (SafeElement (less_one depth)) rs
      → IsSafe Good (concurrent schedule rs depth)
  unfolding concurrent
  concurrent-IsSafe schedule [] all = guard_depth-IsSafe _ depth (fail-IsSafe _)
  concurrent-IsSafe schedule (r ∷ rs) all = guard_depth-IsSafe _ depth (record {
    at = λ s.
        (race-IsSafe (arrange (schedule s.world) (r ∷ rs))
            (arrange-IsCons (schedule s.world) (r ∷ rs) tt)
            (All-arrange (SafeElement (less_one depth)) (schedule s.world) (r ∷ rs) all)).at
          s;
  })
