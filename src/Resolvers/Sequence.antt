-- ===== src/Resolvers/Sequence.antt =====
-- resolvers/sequence/types.go: the resolvers in turn, up to the first that returns no error.
use sec_dns.Prelude.{Option, none, some, List, [], ◌∷◌, is_some, less_one, ℤ, if◌then◌else◌}
use sec_dns.Exec.{Exec, Resolve, Outcome, ◌>>=◌, pure, fail, no_available_resolver, nil_resolver}
use sec_dns.Resolvers.Guard.{guard_depth}

module _ {W : Type 0} where
  -- the loop, with the variables `msg` and `err`
  unfoldable pub try_each : ℤ → List (Option (Resolve W)) → Outcome → Exec W Outcome
  try_each depth [] acc = pure acc
  try_each depth (none ∷ rs) acc =
      try_each depth rs (record { msg = acc.msg; err = some nil_resolver })
  try_each depth (some r ∷ rs) acc = do
    out ← r (less_one depth)
    if is_some out.err then try_each depth rs out else pure out

  unfoldable pub sequence : List (Option (Resolve W)) → Resolve W
  sequence [] = guard_depth λ depth. fail no_available_resolver
  sequence (r ∷ rs) =
      guard_depth λ depth. try_each depth (r ∷ rs) (record { msg = none; err = none })
