-- ===== src/Resolvers/Tidy/Slices.antt =====
-- Slices of resolvers: sequence, and the concurrent list.
use sec_dns.Prelude.{ℤ, less_one, ℕ, zero, suc, List, [], ◌∷◌, Option, none, some, is_some}
use sec_dns.Exec.{Resolve, Outcome}
use sec_dns.Exec.Tidy.{IsTidy, tidy_rules, pure-IsTidy, bind-IsTidy, if-IsTidy}
use sec_dns.Resolvers.{
  try_each, sequence, request, request_all, race, concurrent, insert_at, arrange,
}
use sec_dns.Resolvers.Tidy.{guard_depth-IsTidy}

module _ {W : Type 0} (P : W → Type 0) where
  -- A slice of resolvers, all of them tidy at a depth.
  abbrev pub AllTidy : ℤ → List (Option (Resolve W)) → Type 0
  AllTidy d [] = Unit
  AllTidy d (none ∷ rs) = AllTidy d rs
  AllTidy d (some r ∷ rs) = IsTidy P (r d) × AllTidy d rs

  AllTidy-cons :
      (d : ℤ) (r : Option (Resolve W)) (rs : List (Option (Resolve W)))
      → AllTidy d (r ∷ [])
      → AllTidy d rs
      → AllTidy d (r ∷ rs)
  AllTidy-cons d none rs h hs = hs
  AllTidy-cons d (some r) rs h hs = (h.0, hs)

  AllTidy-uncons :
      (d : ℤ) (r : Option (Resolve W)) (rs : List (Option (Resolve W)))
      → AllTidy d (r ∷ rs)
      → AllTidy d (r ∷ []) × AllTidy d rs
  AllTidy-uncons d none rs h = (tt, h)
  AllTidy-uncons d (some r) rs h = ((h.0, tt), h.1)

  AllTidy-insert_at :
      (d : ℤ) (k : ℕ) (r : Option (Resolve W)) (rs : List (Option (Resolve W)))
      → AllTidy d (r ∷ [])
      → AllTidy d rs
      → AllTidy d (insert_at k r rs)
  AllTidy-insert_at d zero r rs h hs = AllTidy-cons d r rs h hs
  AllTidy-insert_at d (suc k) r [] h hs = h
  AllTidy-insert_at d (suc k) r (x ∷ rs) h hs =
      let (hx, ht) = AllTidy-uncons d x rs hs in
      AllTidy-cons d x (insert_at k r rs) hx (AllTidy-insert_at d k r rs h ht)

  AllTidy-arrange :
      (d : ℤ) (ks : List ℕ) (rs : List (Option (Resolve W)))
      → AllTidy d rs
      → AllTidy d (arrange ks rs)
  unfolding arrange
  AllTidy-arrange d [] rs h = h
  AllTidy-arrange d (k ∷ ks) [] h = h
  AllTidy-arrange d (k ∷ ks) (r ∷ rs) h =
      let (hr, ht) = AllTidy-uncons d r rs h in
      AllTidy-insert_at d k r (arrange ks rs) hr (AllTidy-arrange d ks rs ht)

module _ {W : Type 0} {P : W → Type 0} where
  try_each-IsTidy :
      (depth : ℤ) (rs : List (Option (Resolve W))) (acc : Outcome)
      → AllTidy P (less_one depth) rs
      → IsTidy P (try_each depth rs acc)
  unfolding try_each
  try_each-IsTidy depth [] acc h = search tidy_rules
  try_each-IsTidy depth (none ∷ rs) acc h = try_each-IsTidy depth rs _ h
  try_each-IsTidy depth (some r ∷ rs) acc h = bind-IsTidy _ _ h.0 λ out.
      if-IsTidy (is_some out.err) _ _ (λ _. try_each-IsTidy depth rs out h.1) (λ _. pure-IsTidy out)

  pub sequence-IsTidy :
      (rs : List (Option (Resolve W))) (depth : ℤ)
      → AllTidy P (less_one depth) rs
      → IsTidy P (sequence rs depth)
  unfolding sequence
  sequence-IsTidy [] depth h = search (tidy_rules, guard_depth-IsTidy)
  sequence-IsTidy (r ∷ rs) depth h = guard_depth-IsTidy _ depth (try_each-IsTidy depth (r ∷ rs) _ h)

  request_all-IsTidy :
      (depth : ℤ) (rs : List (Option (Resolve W)))
      → AllTidy P (less_one depth) rs
      → IsTidy P (request_all depth rs)
  unfolding request_all request
  request_all-IsTidy depth [] h = search tidy_rules
  request_all-IsTidy depth (none ∷ rs) h =
      bind-IsTidy _ _ (pure-IsTidy _)
        λ x. bind-IsTidy _ _ (request_all-IsTidy depth rs h) λ xs. pure-IsTidy _
  request_all-IsTidy depth (some r ∷ rs) h =
      bind-IsTidy _ _ (bind-IsTidy _ _ h.0 λ out. pure-IsTidy _)
        λ x. bind-IsTidy _ _ (request_all-IsTidy depth rs h.1) λ xs. pure-IsTidy _

  race-IsTidy :
      (depth : ℤ) (rs : List (Option (Resolve W)))
      → AllTidy P (less_one depth) rs
      → IsTidy P (race depth rs)
  unfolding race
  race-IsTidy depth rs h = bind-IsTidy _ _ (request_all-IsTidy depth rs h) λ xs. pure-IsTidy _

  pub concurrent-IsTidy :
      (schedule : W → List ℕ) (rs : List (Option (Resolve W))) (depth : ℤ)
      → AllTidy P (less_one depth) rs
      → IsTidy P (concurrent schedule rs depth)
  unfolding concurrent
  concurrent-IsTidy schedule [] depth h = search (tidy_rules, guard_depth-IsTidy)
  concurrent-IsTidy schedule (r ∷ rs) depth h = guard_depth-IsTidy _ depth (record {
    at = λ s. (race-IsTidy depth _ (AllTidy-arrange P _ (schedule s.world) (r ∷ rs) h)).at s;
  })
