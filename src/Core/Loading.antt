-- ===== src/Core/Loading.antt =====
-- AcceptProvider: the loop that calls `Provide` and keeps the first resolver for each name. A call
-- is followed on fuel, one unit for each call of `Provide`.
use sec_dns.Prelude.{
  ℕ, zero, suc, Option, none, some, List, [], ◌∷◌, ◌++◌, Text, lookup, insert, if◌then◌else◌,
}
use sec_dns.Exec.{Error, Resolve}
use sec_dns.Rules.{Provider}
use sec_dns.Core.Resolution.{Instance}

module _ {R : Type 0} where
  abbrev pub insert_new : Option R → Text → R → List (Text × R) → List (Text × R)
  insert_new none name r rules = insert name r rules
  insert_new (some old) name r rules = rules

  -- the callback `receive`
  unfoldable pub receive : List (Text × R) → Text × Option R → List (Text × R)
  receive rules (name, none) = rules
  receive rules (name, some r) = insert_new (lookup name rules) name r rules

  unfoldable pub receive_all : List (Text × R) → List (Text × Option R) → List (Text × R)
  unfolding receive
  receive_all rules [] = rules
  receive_all rules (r ∷ rs) = receive_all (receive rules r) rs

  -- The rules afterwards, and the errors in the order in which goroutines were started to hand them
  -- to the error handler, which they may do in any order; `none` if the fuel ran out.
  unfoldable pub accept :
      {P : Type 0}
      → ℕ
      → Provider R P
      → P
      → List (Text × R) × List Error
      → Option (List (Text × R) × List Error)
  unfolding receive_all
  accept zero provide p (rules, errors) = none
  accept (suc fuel) provide p (rules, errors) =
      let step = provide p in
      let after : List (Text × R) × List Error =
        (receive_all rules step.received, errors ++ step.errors) in
      let rest = accept fuel provide step.next after in if step.more then rest else some after

-- `none` for the provider nil, which is ignored
unfoldable pub accept_provider :
    {L W P : Type 0}
    → ℕ
    → Provider (Resolve W) P
    → Option P
    → Instance L W
    → Option (Instance L W × List Error)
unfolding accept
accept_provider fuel provide none i = some (i, [])
accept_provider fuel provide (some p) i = elim (accept fuel provide p (i.name_resolver_map, [])) [
  | none ↦ none
  | some (rules, errors) ↦ some (record i { name_resolver_map = rules }, errors)
]
