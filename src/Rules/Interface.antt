-- ===== src/Rules/Interface.antt =====
-- The method `Provide` of pkg/rules/provider/types.go: one call, and what it hands to its callbacks.
use sec_dns.Prelude.{Bool, Option, List, Text}
use sec_dns.Exec.{Error}

-- One call of `Provide` by a provider in a state of type `P`: the calls of `receive` and of
-- `receiveError` in their order, the result `more`, and the state afterwards.
pub record Provided (R P : Type 0) : Type 0 where
  pub received : List (Text × Option R)
  pub errors : List Error
  pub more : Bool
  pub next : P

abbrev pub Provider : Type 0 → Type 0 → Type 0
Provider R P = P → Provided R P
