-- ===== src/Exec.antt =====
-- The calls of the program: what a call returns, and the state that it runs in. A resolver is the
-- method `Resolve` of the interface `resolver.Resolver` of pkg/upstream/resolver/types.go.
pub mod Safe
pub mod Tidy
use sec_dns.Prelude.{ℤ, ℕ, Option, none, some, List, [], ◌∷◌, Text}
use sec_dns.Dns.{Msg, Question}

-- The `error` values of the program by their kind (the files errors.go). `library` is an error of
-- code that the program calls.
pub data Error : Type 0 where
  -- pkg/upstream/resolver
  nil_query too_many_questions not_supported_question loop_detected : Error
  -- internal/core
  nil_error_msg_handler nil_default_resolver invalid_domain_name : Error
  -- internal/upstream/resolvers: alias, sequence, concurrent/nameserver/list
  alias_same_as_name no_available_resolver nil_resolver : Error
  no_available_name_server nil_name_server : Error
  -- internal/upstream/resolvers/doh
  resolver_not_ready : Error
  unknown_host : Text → Error
  -- internal/listeners/servers/dns/server
  nil_handler : Error
  -- internal/config/named/resolver
  nil_name_registry : Error
  not_found already_existed : Text → Error
  -- internal/rules/providers
  invalid_rule_name open_file : Text → Error
  -- internal/config
  bad_config unexpected_bad_config missing_listeners missing_default_resolver : Error
  library : ℕ → Error

-- What a call of `Resolve` returns: (*dns.Msg, error).
pub record Outcome : Type 0 where
  pub msg : Option Msg
  pub err : Option Error

-- How a call ends. `panicked` is a run-time panic of Go. `stopped` belongs to the model alone: a
-- chain of calls that was followed no further.
pub data Exit (A : Type 0) : Type 0 where
  done : A → Exit A
  panicked stopped : Exit A

-- The message behind the pointer `query`, which a callee may write through, and the world: what
-- lies outside the program, and whatever else the program keeps.
pub record State (W : Type 0) : Type 0 where
  pub query : Msg
  pub world : W

abbrev pub Exec : Type 0 → Type 0 → Type 0
Exec W A = State W → Exit A × State W

abbrev pub Resolve : Type 0 → Type 0
Resolve W = ℤ → Exec W Outcome

-- The questions after `Question[0].Qtype = t`.
abbrev pub retype : ℕ → List Question → List Question
retype t [] = []
retype t (q ∷ qs) = record q { qtype = t } ∷ qs

module _ {W A : Type 0} where
  pub pure : A → Exec W A
  pure x s = (done x, s)

  pub panic : Exec W A
  panic s = (panicked, s)

  pub stop : Exec W A
  stop s = (stopped, s)

  abbrev back_to : Msg → Exit A × State W → Exit A × State W
  back_to q (r, s) = (r, record s { query = q })

  -- A call with another query message: what is behind the caller's pointer stays.
  pub with_query : Msg → Exec W A → Exec W A
  with_query q m s = back_to s.query (m (record s { query = q }))

module _ {W : Type 0} where
  abbrev pub head_or_panic : List Question → State W → Exit Question × State W
  head_or_panic [] s = (panicked, s)
  head_or_panic (q ∷ qs) s = (done q, s)

  abbrev pub write_qtype : ℕ → List Question → State W → Exit (Unit {0}) × State W
  write_qtype t [] s = (panicked, s)
  write_qtype t (q ∷ qs) s =
      (done tt, record s { query = record s.query { question = record q { qtype = t } ∷ qs } })

  pub get_query : Exec W Msg
  get_query s = (done s.query, s)

  -- query.Question[0]: an index out of range panics.
  pub head_question : Exec W Question
  head_question s = head_or_panic s.query.question s

  -- query.Question[0].Qtype = t
  pub set_qtype : ℕ → Exec W (Unit {0})
  set_qtype t s = write_qtype t s.query.question s

module _ {W A B : Type 0} where
  abbrev pub continue : Exit A → (A → Exec W B) → Exec W B
  continue (done x) f s = f x s
  continue panicked f s = (panicked, s)
  continue stopped f s = (stopped, s)

  infixl 5 ◌>>=◌ ◌>>◌
  -- opening this opens the other actions too
  unfoldable pub ◌>>=◌ : Exec W A → (A → Exec W B) → Exec W B
  unfolding pure panic stop with_query get_query head_question set_qtype
  ◌>>=◌ m f s = let (r, s') = m s in continue r f s'

  abbrev pub ◌>>◌ : Exec W A → Exec W B → Exec W B
  m >> k = m >>= λ _. k

module _ {W : Type 0} where
  -- `return nil, e` and `return m, nil`
  abbrev pub fail : Error → Exec W Outcome
  fail e = pure (record { msg = none; err = some e })

  abbrev pub reply : Msg → Exec W Outcome
  reply m = pure (record { msg = some m; err = none })
