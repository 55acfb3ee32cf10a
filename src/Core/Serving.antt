-- ===== src/Core/Serving.antt =====
-- Listen, and the handler that each listener is started with.
use sec_dns.Prelude.{Option, none, some, Bool, true, List, [], ◌∷◌, ℤ}
use sec_dns.Dns.{Msg}
use sec_dns.Exec.{
  Error, Outcome, Exit, done, panicked, stopped, State, Resolve, nil_error_msg_handler,
  nil_default_resolver,
}
use sec_dns.Core.Check.{query_check}
use sec_dns.Core.Resolution.{Instance, get_resolver}

-- What the handler does for a query: its reply, and the error that goes to the error handler.
pub record Handled : Type 0 where
  pub reply : Option Msg
  pub reported : Option Error

module _ {W : Type 0} (client server : Msg → Msg) (r : Resolve W) (depth : ℤ) where
  -- The handler's last part: `query` is read behind the pointer that the resolver had.
  abbrev pub conclude : Option Error → Option Msg → Msg → Handled
  conclude (some e) msg query = record { reply = some (server query); reported = some e }
  conclude none msg query = record { reply = msg; reported = none }

  abbrev pub concluded : Exit Outcome × State W → Exit Handled × W
  concluded (done out, s) = (done (conclude out.err out.msg s.query), s.world)
  concluded (panicked, s) = (panicked, s.world)
  concluded (stopped, s) = (stopped, s.world)

  -- From the result of `QueryCheck` on.
  abbrev pub checked : Option Error → Msg → W → Exit Handled × W
  checked (some e) q w = (done (record { reply = some (client q); reported = some e }), w)
  checked none q w = concluded (r depth (record { query = q; world = w }))

  -- The check refuses nil; then an error handler reads the query, so it panics.
  unfoldable pub handle : Option Msg → W → Exit Handled × W
  handle none w = (panicked, w)
  handle (some q) w = checked (query_check (some q)) q w

-- What `Listen` comes to: an error for the error handler, or these listeners, each started with
-- the handler over this resolver.
pub data Listening (L W : Type 0) : Type 0 where
  refused : Error → Listening L W
  started : List L → Resolve W → ℤ → Listening L W

unfoldable pub live : {L : Type 0} → List (Option L) → List L
live [] = []
live (none ∷ ls) = live ls
live (some l ∷ ls) = l ∷ live ls

-- The first two arguments say whether the error message handlers are there (not nil).
unfoldable pub listen : {L W : Type 0} → Bool → Bool → Instance L W → Listening L W
unfolding live get_resolver
listen true true i = elim (get_resolver i) [
  | none ↦ refused nil_default_resolver
  | some r ↦ started (live i.listeners) r i.resolution_depth
]
listen _ _ i = refused nil_error_msg_handler
