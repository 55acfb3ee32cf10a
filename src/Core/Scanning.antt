-- ===== src/Core/Scanning.antt =====
-- AcceptProvider over a provider that walks a list by an index: the two providers of
-- internal/rules/providers are of this kind.
use sec_dns.Prelude.{
  ℕ, zero, suc, ◌+◌, ◌≤◌, ◌<◌, ◌≡◌, refl, List, [], ◌∷◌, ◌++◌, Text, Option, some, true, false,
  length, drop, ltb, if◌then◌else◌, arith, append_assoc, append-nil,
}
use sec_dns.Exec.{Error}
use sec_dns.Rules.{Provided, Provider}
use sec_dns.Core.{receive, receive_all, accept}

drop-suc {ℓ} :
    {A : Type ℓ} (i : ℕ) (xs : List A) {x : A} {ys : List A}
    → drop i xs ≡ x ∷ ys
    → drop (i + 1) xs ≡ ys
drop-suc zero [] e = cc
drop-suc zero (a ∷ xs) e = cc
drop-suc (suc i) [] e = cc
drop-suc (suc i) (a ∷ xs) e =
    let next : suc i + 1 ≡ suc (i + 1) = omega arith in rw next (drop-suc i xs e)

-- What a provider does with one item: nothing, report an error, or hand out a rule.
pub data Verdict (R : Type 0) : Type 0 where
  skip : Verdict R
  bad : Error → Verdict R
  good : Text → Option R → Verdict R

module _ {R X : Type 0} (judge : X → Verdict R) where
  -- The rules that a list of items stands for, and the errors.
  abbrev cons_rule : Verdict R → List (Text × Option R) → List (Text × Option R)
  cons_rule skip rest = rest
  cons_rule (bad e) rest = rest
  cons_rule (good name r) rest = (name, r) ∷ rest

  abbrev cons_error : Verdict R → List Error → List Error
  cons_error skip rest = rest
  cons_error (bad e) rest = e ∷ rest
  cons_error (good name r) rest = rest

  abbrev pub rules_in : List X → List (Text × Option R)
  rules_in [] = []
  rules_in (x ∷ xs) = cons_rule (judge x) (rules_in xs)

  abbrev pub errors_in : List X → List Error
  errors_in [] = []
  errors_in (x ∷ xs) = cons_error (judge x) (errors_in xs)

  module _ {P : Type 0} (count : ℕ) (at : ℕ → P) where
    -- One call of `Provide`: up to the first rule.
    abbrev pub scanned : Verdict R → ℕ → List Error → (List Error → Provided R P) → Provided R P
    scanned skip i errors rest = rest errors
    scanned (bad e) i errors rest = rest (errors ++ e ∷ [])
    scanned (good name r) i errors rest = record {
      received = (name, r) ∷ [];
      errors = errors;
      more = ltb (i + 1) count;
      next = at (i + 1);
    }

    unfoldable pub scan : List X → ℕ → List Error → Provided R P
    scan [] i errors = record { received = []; errors = errors; more = ltb i count; next = at i }
    scan (x ∷ xs) i errors = scanned (judge x) i errors (scan xs (i + 1))

    module _ (xs : List X) (provide : Provider R P)
        (reads : (i : ℕ) → provide (at i) ≡ scan (drop i xs) i []) where
      -- What `accept` makes of one call.
      abbrev follow :
          ℕ → Provided R P → List (Text × R) × List Error → Option (List (Text × R) × List Error)
      follow fuel step (rules, errors) =
          if step.more
          then accept fuel provide step.next
              (receive_all rules step.received, errors ++ step.errors)
          else some (receive_all rules step.received, errors ++ step.errors)

      Follows : List X → Type 0
      Follows ys =
          (fuel i : ℕ) (errs errors : List Error) (rules : List (Text × R))
          → drop i xs ≡ ys
          → i + length ys ≡ count
          → length ys ≤ fuel
          → follow fuel (scan ys i errs) (rules, errors)
            ≡ some (receive_all rules (rules_in ys), errors ++ (errs ++ errors_in ys))

      -- After a rule, the next call goes on behind it.
      follow-rule :
          (ys : List X)
          → Follows ys
          → (fuel i : ℕ) (errors : List Error) (rules : List (Text × R)) → drop (i + 1) xs ≡ ys
          → i + 1 + length ys ≡ count
          → length ys < fuel
          → (if ltb (i + 1) count
              then accept fuel provide (at (i + 1)) (rules, errors)
              else some (rules, errors))
            ≡ some (receive_all rules (rules_in ys), errors ++ errors_in ys)
      unfolding Follows receive_all accept
      follow-rule [] ih fuel i errors rules at_i left enough =
          let stop : ltb (i + 1) count ≡ false = ground arith in rw (stop, append-nil errors)
      follow-rule (y ∷ ys) ih zero i errors rules at_i left enough = absurd (omega arith)
      follow-rule (y ∷ ys) ih (suc fuel) i errors rules at_i left enough =
          let more : ltb (i + 1) count ≡ true = ground arith in
          rw (more, reads (i + 1), at_i) (ih fuel (i + 1) [] errors rules at_i left (omega arith))

      follow-scan : (ys : List X) → Follows ys
      unfolding Follows scan receive_all
      follow-scan [] fuel i errs errors rules at_i left enough =
          let stop : ltb i count ≡ false = ground arith in rw (stop, append-nil errs)
      follow-scan (x ∷ ys) fuel i errs errors rules at_i left enough =
          go (judge x) (follow-scan ys) (drop-suc i xs at_i) (omega arith)
        where
          go :
              (v : Verdict R)
              → Follows ys
              → drop (i + 1) xs ≡ ys
              → i + 1 + length ys ≡ count
              → follow fuel (scanned v i errs (scan ys (i + 1))) (rules, errors)
                ≡ some (
                  receive_all rules (cons_rule v (rules_in ys)),
                  errors ++ (errs ++ cons_error v (errors_in ys)),
                )
          go skip ih at_next left_next =
              ih fuel (i + 1) errs errors rules at_next left_next (omega arith)
          go (bad e) ih at_next left_next =
              rw (← append_assoc errs (e ∷ []) (errors_in ys))
                (ih fuel (i + 1) (errs ++ e ∷ []) errors rules at_next left_next (omega arith))
          go (good name r) ih at_next left_next = rw (← append_assoc errors errs (errors_in ys)) (
              follow-rule ys ih fuel i (errors ++ errs) (receive rules (name, r)) at_next left_next
                (omega arith))

      -- With fuel for the items, `AcceptProvider` ends, and it has taken the rules of them all. The
      -- first call may be made in another state.
      pub accept-scan :
          (fuel : ℕ) (p : P) (rules : List (Text × R)) (errs errors : List Error)
          → provide p ≡ scan xs 0 errs
          → 0 + length xs ≡ count
          → length xs < fuel
          → accept fuel provide p (rules, errors)
            ≡ some (receive_all rules (rules_in xs), errors ++ (errs ++ errors_in xs))
      unfolding Follows accept
      accept-scan zero p rules errs errors first all enough = absurd (omega arith)
      accept-scan (suc fuel) p rules errs errors first all enough =
          rw first (follow-scan xs fuel 0 errs errors rules refl all (omega arith))
