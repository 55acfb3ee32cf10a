-- ===== src/System/Replies.antt =====
-- The handler of a query, and a listener, over a configured system: what they return.
use sec_dns.Prelude.{ℕ, ◌+◌, ◌*◌, ◌≤◌, ◌≡◌, refl, ℤ, List, [], ◌∷◌, ◌++◌, Bool, some}
use sec_dns.Dns.{Msg, Documented}
use sec_dns.Exec.{Error, done, Resolve}
use sec_dns.Resolvers.Safe.Servers.{Reliable}
use sec_dns.Resolvers.Safe.Https.{Answering}
use sec_dns.Core.{Handled, handle}
use sec_dns.Core.Answers.{Answers, handle-Answered}
use sec_dns.Listeners.{
  DnsServer, Sockets, Handler, serve_each, serve, address_of, Arrivals, handle_if_error,
}
use sec_dns.System.{Env, World, Ref, Config, run, net_of, sockets_of}
use sec_dns.System.Idle.{Within, idle, flags}
use sec_dns.System.WellFormed.{IsThere, IsWellFormed}
use sec_dns.System.Safe.{run-IsSafe}
use sec_dns.System.Termination.{calls_from, run-IsTidy}

module _ {W : Type 0} (sockets : Sockets W) (client server : Msg → Msg) (r : Resolve W)
    (depth : ℤ) where
  -- The queries are answered one after another, each in the world that the one before left, and each
  -- reply is written. The errors are, for each query in its turn, the one that its handler reports
  -- and the one of writing the reply.
  pub data Served : List Msg → W → List Error → W → Type 0 where
    served_all : {w : W} → Served [] w [] w
    served_next :
        {q : Msg} {qs : List Msg} {w w' w'' : W} {h : Handled} {errors : List Error}
        → Answers client server r depth q w h w'
        → Served qs (sockets.write_msg h.reply w').1 errors w''
        → Served
            (q ∷ qs)
            w
            ((handle_if_error h.reported ++ handle_if_error (sockets.write_msg h.reply w').0)
              ++ errors)
            w''

module _ {C V : Type 0} (env : Env C V) (cfg : Config) (doc : Documented env.dns)
    (reliable : Reliable env.net) (answering : Answering env.web)
    (formed : IsWellFormed (net_of env.net) cfg) (client server : Msg → Msg) (r : Ref)
    (there : IsThere (net_of env.net) r) (fuel idles : ℕ) (depth : ℤ)
    (enough : calls_from depth + 66 * idles ≤ fuel) where
  abbrev handler : Handler (World V)
  handler = handle client server (run env cfg fuel r) depth

  handler-Answered :
      (fs : List Bool) (q : Msg) (w : World V)
      → Within idles fs w
      → (h : Handled) × (w' : World V) × (handler (some q) w ≡ (done h, w'))
        × Answers client server (run env cfg fuel r) depth q w h w'
        × Within idles fs w'
  handler-Answered fs q w within =
      handle-Answered client server (run env cfg fuel r) depth q w (Within idles fs)
        (run-IsTidy env cfg fuel idles fs depth r enough)
        (run-IsSafe env cfg doc reliable answering formed fuel r there depth) within

  -- Every query that the handler is called with is answered: one that the check refuses with the
  -- client error message, any other with the message that the resolver returned, which has a
  -- question, or with the server error message if it returned an error; the error is reported. There
  -- is fuel for the depth and for the `DoH` objects that may have to make their client; the resolvers
  -- are well-formed, the network and the servers keep to their protocols, so that their replies have a
  -- question, and the DNS library is as documented.
  pub handle-run_replies :
      (q : Msg) (w : World V)
      → idle w.cells ≤ idles
      → (h : Handled) × (w' : World V) × (handle client server (run env cfg fuel r) depth (some q) w
          ≡ (done h, w'))
        × Answers client server (run env cfg fuel r) depth q w h w'
  handle-run_replies q w few =
      let (h, w', e, answers, within) =
        handler-Answered (flags w.cells) q w (record { few = few; same = refl }) in
      (h, w', e, answers)

  module _ (sockets : Sockets V) (fs : List Bool) where
    abbrev ServedBy : List Msg → World V → List Error → World V → Type 0
    ServedBy = Served (sockets_of sockets) client server (run env cfg fuel r) depth

    serve_each-Served :
        (qs : List Msg) (w : World V)
        → Within idles fs w
        → (errors : List Error) × (w' : World V) × (serve_each
              (sockets_of sockets)
              (some handler)
              qs
              w
            ≡ (done errors, w'))
          × ServedBy qs w errors w'
    unfolding serve_each
    serve_each-Served [] w within = ([], w, refl, served_all)
    serve_each-Served (q ∷ qs) w within =
        let (h, w1, e, answers, within1) = handler-Answered fs q w within in
        let (errors, w2, later, rest) =
          serve_each-Served qs ((sockets_of sockets).write_msg h.reply w1).1
            (record { few = within1.few; same = within1.same }) in
        (
          (handle_if_error h.reported
                ++ handle_if_error ((sockets_of sockets).write_msg h.reply w1).0)
              ++ errors,
          w2,
          rw (e, later) refl,
          served_next answers rest,
        )

  -- A listener over such a system returns without a panic, when dns.ListenAndServe does, whatever
  -- queries come in: there is fuel for the first query, the resolvers are well-formed, the network and
  -- the servers keep to their protocols, so that their replies have a question, and the DNS library is
  -- as documented. Every query was answered, in turn, and its reply written; the errors are those
  -- that the handler and the writes had for the queries, and then that of dns.ListenAndServe, if any.
  pub serve-run_returns :
      (sockets : Sockets V) (d : DnsServer) (w : World V) (arrivals : Arrivals)
      → idle w.cells ≤ idles
      → sockets.listen_and_serve (address_of (sockets_of sockets) d) d.protocol w.outside ≡ arrivals
      → (errors : List Error) × (w' : World V) × (serve
            (sockets_of sockets)
            (some (handle client server (run env cfg fuel r) depth))
            d
            w
          ≡ (done (errors ++ handle_if_error arrivals.ended_by), w'))
        × Served
            (sockets_of sockets)
            client
            server
            (run env cfg fuel r)
            depth
            arrivals.queries
            w
            errors
            w'
  unfolding serve
  serve-run_returns sockets d w arrivals few come =
      let (errors, w', e, served) =
        serve_each-Served sockets (flags w.cells) arrivals.queries w
          (record { few = few; same = refl }) in
      (errors, w', rw (come, e) refl, served)
