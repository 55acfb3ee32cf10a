-- ===== src/System/Serving.antt =====
-- The handler of a query, and a listener, over a configured system.
use sec_dns.Prelude.{ℕ, ◌+◌, ◌*◌, ◌≤◌, ◌≢◌, refl, ℤ, Option, none, some, Bool, List, [], ◌∷◌}
use sec_dns.Dns.{Msg}
use sec_dns.Exec.{Error, Exit, done, panicked, stopped, State, Outcome}
use sec_dns.Exec.Tidy.{Tidy}
use sec_dns.Core.{Handled, concluded, checked, handle, query_check}
use sec_dns.Listeners.{
  DnsServer, Sockets, Handler, and_then, with_errors, written, serve_each, listened, serve,
  address_of, Arrivals, handle_if_error,
}
use sec_dns.System.{Env, World, Ref, Config, run, sockets_of}
use sec_dns.System.Idle.{Within, idle, flags}
use sec_dns.System.Termination.{calls_from, run-IsTidy}

module _ {V A : Type 0} (k : ℕ) (fs : List Bool) where
  -- An end in a return or a panic, and in the worlds of `Within` if it is a return.
  abbrev Ends : Exit A × World V → Type 0
  Ends (done x, w) = Within k fs w
  Ends (panicked, w) = Unit
  Ends (stopped, w) = ⊥

  Ends-not_stopped : (x : Exit A × World V) → Ends x → x.0 ≢ stopped
  Ends-not_stopped (done x, w) h = cc
  Ends-not_stopped (panicked, w) h = cc
  Ends-not_stopped (stopped, w) h = absurd h

module _ {C V : Type 0} (env : Env C V) (cfg : Config) (client server : Msg → Msg) (fuel idles : ℕ)
    (depth : ℤ) (r : Ref) where
  handler : Handler (World V)
  handler = handle client server (run env cfg fuel r) depth

  handle-Ends :
      (fs : List Bool) (query : Option Msg) (w : World V)
      → Within idles fs w
      → calls_from depth + 66 * idles ≤ fuel
      → Ends idles fs (handler query w)
  unfolding handler handle
  handle-Ends fs none w within enough = tt
  handle-Ends fs (some q) w within enough = by_check (query_check (some q))
    where
      s : State (World V)
      s = record { query = q; world = w }

      by_result :
          (x : Exit Outcome × State (World V))
          → Tidy (Within idles fs) s x.0 x.1
          → Ends idles fs (concluded client server (run env cfg fuel r) depth x)
      by_result (done out, t) h = h.1
      by_result (panicked, t) h = tt
      by_result (stopped, t) h = h

      by_check :
          (e : Option Error)
          → Ends idles fs (checked client server (run env cfg fuel r) depth e q w)
      by_check (some e) = within
      by_check none =
          by_result (run env cfg fuel r depth s)
            ((run-IsTidy env cfg fuel idles fs depth r enough).at s within)

  -- The handler of a query comes to an end, in a return or a panic, whatever the query is and
  -- whatever the configuration refers to, with fuel for the resolution depth and for the `DoH`
  -- objects that may have to make their client.
  pub handle-run_ends :
      (query : Option Msg) (w : World V)
      → idle w.cells ≤ idles
      → calls_from depth + 66 * idles ≤ fuel
      → (handle client server (run env cfg fuel r) depth query w).0 ≢ stopped
  unfolding handler
  handle-run_ends query w few enough =
      Ends-not_stopped idles (flags w.cells) (handler query w)
        (handle-Ends (flags w.cells) query w (record { few = few; same = refl }) enough)

  module _ (sockets : Sockets V) (fs : List Bool) where
    written-Ends :
        (x : Exit Handled × World V)
        → Ends idles fs x
        → Ends idles fs (written (sockets_of sockets) x)
    written-Ends (done h, w) within = record { few = within.few; same = within.same }
    written-Ends (panicked, w) e = tt
    written-Ends (stopped, w) e = e

    and_then-Ends :
        (x : Exit (List Error) × World V) (next : World V → Exit (List Error) × World V)
        → Ends idles fs x
        → ((w : World V) → Within idles fs w → Ends idles fs (next w))
        → Ends idles fs (and_then x next)
    and_then-Ends (panicked, w) next h later = tt
    and_then-Ends (stopped, w) next h later = h
    and_then-Ends (done es, w) next h later = by (next w) (later w h)
      where
        by : (y : Exit (List Error) × World V) → Ends idles fs y → Ends idles fs (with_errors es y)
        by (done later, w') e = e
        by (panicked, w') e = tt
        by (stopped, w') e = e

    serve_each-Ends :
        (qs : List Msg) (w : World V)
        → Within idles fs w
        → calls_from depth + 66 * idles ≤ fuel
        → Ends idles fs (serve_each (sockets_of sockets) (some handler) qs w)
    unfolding serve_each
    serve_each-Ends [] w h enough = h
    serve_each-Ends (q ∷ qs) w h enough =
        and_then-Ends _ _ (written-Ends (handler (some q) w) (handle-Ends fs (some q) w h enough))
          λ w' h'. serve_each-Ends qs w' h' enough

    listened-Ends :
        (arrivals : Arrivals) (w : World V)
        → Within idles fs w
        → calls_from depth + 66 * idles ≤ fuel
        → Ends idles fs (listened (sockets_of sockets) (some handler) arrivals w)
    listened-Ends arrivals w h enough =
        and_then-Ends (serve_each (sockets_of sockets) (some handler) arrivals.queries w)
          (λ w'. (done (handle_if_error arrivals.ended_by), w'))
          (serve_each-Ends arrivals.queries w h enough) λ w' h'. h'

  -- A listener over a configured system comes to an end, in a return or a panic, for every sequence
  -- of queries, with the fuel that is enough for its first query: whatever went before, no query
  -- takes more.
  pub serve-run_ends :
      (sockets : Sockets V) (d : DnsServer) (w : World V)
      → idle w.cells ≤ idles
      → calls_from depth + 66 * idles ≤ fuel
      → (serve (sockets_of sockets) (some (handle client server (run env cfg fuel r) depth)) d w).0
        ≢ stopped
  unfolding serve handler
  serve-run_ends sockets d w few enough =
      Ends-not_stopped {V = V} idles (flags w.cells)
        (serve (sockets_of sockets) (some (handle client server (run env cfg fuel r) depth)) d w)
        (listened-Ends sockets (flags w.cells)
          (sockets.listen_and_serve (address_of (sockets_of sockets) d) d.protocol w.outside) w
          (record { few = few; same = refl }) enough)
