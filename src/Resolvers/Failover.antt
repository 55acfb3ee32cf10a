-- ===== src/Resolvers/Failover.antt =====
-- The order in which a sequence asks its resolvers.
use sec_dns.Prelude.{
  ◌≡◌, refl, List, [], ◌∷◌, Option, none, some, ℤ, pos, ℕ, less_one, is_some, Bool, subst, ◌↔◌,
  if◌then◌else◌, true, false,
}
use sec_dns.Exec.{
  Exit, done, panicked, stopped, continue, pure, State, Resolve, Outcome, ◌>>=◌, nil_resolver,
}
use sec_dns.Resolvers.{guard_depth, sequence, try_each}

module _ {W : Type 0} where
  -- An independent description: in the state `s`, with `last` the result so far, asking these
  -- resolvers at this depth ends with this result in that state. A resolver is asked only after all
  -- before it were nil or returned an error, in the state that they left.
  pub data Asked (d : ℤ)
      : List (Option (Resolve W)) → Outcome → State W → Outcome → State W → Type 0 where
    none_left : (last : Outcome) (s : State W) → Asked d [] last s last s
    is_nil :
        {rs : List (Option (Resolve W))} {last out : Outcome} {s t : State W}
        → Asked d rs (record { msg = last.msg; err = some nil_resolver }) s out t
        → Asked d (none ∷ rs) last s out t
    gave_error :
        {r : Resolve W} {rs : List (Option (Resolve W))} {last next out : Outcome} {s u t : State W}
        → r d s ≡ (done next, u)
        → is_some next.err ≡ true
        → Asked d rs next u out t
        → Asked d (some r ∷ rs) last s out t
    gave_reply :
        {r : Resolve W} {rs : List (Option (Resolve W))} {last out : Outcome} {s t : State W}
        → r d s ≡ (done out, t)
        → is_some out.err ≡ false
        → Asked d (some r ∷ rs) last s out t

  try_each-Asked :
      (n : ℤ) {rs : List (Option (Resolve W))} {last out : Outcome} {s t : State W}
      → Asked (less_one n) rs last s out t
      → try_each n rs last s ≡ (done out, t)
  unfolding try_each ◌>>=◌
  try_each-Asked n (none_left last s) = refl
  try_each-Asked n (is_nil a) = try_each-Asked n a
  try_each-Asked n (gave_error e h a) = rw (e, h) (try_each-Asked n a)
  try_each-Asked n (gave_reply e h) = rw (e, h)

  -- What asking comes to where the loop ends so; nothing is said of a panic.
  abbrev pub Ends :
      ℤ → List (Option (Resolve W)) → Outcome → State W → Exit Outcome × State W → Type 0
  Ends d rs last s (done out, t) = Asked d rs last s out t
  Ends d rs last s (panicked, t) = Unit
  Ends d rs last s (stopped, t) = Unit

  Ends-nil :
      (d : ℤ) (rs : List (Option (Resolve W))) (last : Outcome) (s : State W)
      (x : Exit Outcome × State W)
      → Ends d rs (record { msg = last.msg; err = some nil_resolver }) s x
      → Ends d (none ∷ rs) last s x
  Ends-nil d rs last s (done out, t) h = is_nil h
  Ends-nil d rs last s (panicked, t) h = tt
  Ends-nil d rs last s (stopped, t) h = tt

  Ends-error :
      (d : ℤ) (r : Resolve W) (rs : List (Option (Resolve W))) (last : Outcome) (s : State W)
      (next : Outcome) (u : State W) (x : Exit Outcome × State W)
      → r d s ≡ (done next, u)
      → is_some next.err ≡ true
      → Ends d rs next u x
      → Ends d (some r ∷ rs) last s x
  Ends-error d r rs last s next u (done out, t) e h a = gave_error e h a
  Ends-error d r rs last s next u (panicked, t) e h a = tt
  Ends-error d r rs last s next u (stopped, t) e h a = tt

  -- The converse: what the loop returns is the result of asking.
  try_each-Ends :
      (n : ℤ) (rs : List (Option (Resolve W))) (last : Outcome) (s : State W)
      → Ends (less_one n) rs last s (try_each n rs last s)
  unfolding try_each ◌>>=◌
  try_each-Ends n [] last s = none_left last s
  try_each-Ends n (none ∷ rs) last s = Ends-nil (less_one n) rs last s _ (try_each-Ends n rs _ s)
  try_each-Ends n (some r ∷ rs) last s =
      go (r (less_one n) s) refl (λ out t. try_each-Ends n rs out t)
    where
      by_error :
          (out : Outcome) (t : State W) (b : Bool)
          → r (less_one n) s ≡ (done out, t)
          → is_some out.err ≡ b
          → Ends (less_one n) rs out t (try_each n rs out t)
          → Ends (less_one n) (some r ∷ rs) last s ((if b then try_each n rs out else pure out) t)
      by_error out t false e h ih = gave_reply e h
      by_error out t true e h ih = Ends-error (less_one n) r rs last s out t _ e h ih

      go :
          (x : Exit Outcome × State W)
          → r (less_one n) s ≡ x
          → ((out : Outcome) (t : State W) → Ends (less_one n) rs out t (try_each n rs out t))
          → Ends
              (less_one n)
              (some r ∷ rs)
              last
              s
              (continue x.0 (λ out. if is_some out.err then try_each n rs out else pure out) x.1)
      go (done out, t) e ih = by_error out t (is_some out.err) e refl (ih out t)
      go (panicked, t) e ih = tt
      go (stopped, t) e ih = tt

  -- At a depth not below 0 a sequence of one or more resolvers returns a result if and only if asking its resolvers one after another
  -- ends with this result: the reply of the first that returns no error, or else what the last one
  -- leaves.
  pub sequence_iff :
      (r : Option (Resolve W)) (rs : List (Option (Resolve W))) (n : ℕ) (s t : State W)
      (out : Outcome)
      → (sequence (r ∷ rs) (pos n) s ≡ (done out, t))
        ↔ Asked (less_one (pos n)) (r ∷ rs) (record { msg = none; err = none }) s out t
  unfolding sequence guard_depth
  sequence_iff r rs n s t out = (
    λ e. subst (Ends (less_one (pos n)) (r ∷ rs) _ s) e (try_each-Ends (pos n) (r ∷ rs) _ s),
    λ a. try_each-Asked (pos n) a,
  )
