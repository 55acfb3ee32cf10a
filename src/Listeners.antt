-- ===== src/Listeners.antt =====
-- internal/listeners/servers/dns/server/types.go: a listener, which has dns.ListenAndServe hand the
-- queries that come in to its handler.
use sec_dns.Prelude.{ℕ, Option, none, some, List, [], ◌∷◌, ◌++◌, Text}
use sec_dns.Dns.{Msg}
use sec_dns.Exec.{Error, Exit, done, panicked, stopped, nil_handler}
use sec_dns.Core.{Handled}

-- The struct DNSServer.
pub record DnsServer : Type 0 where
  pub listen : List ℕ
  pub port : ℕ
  pub protocol : Text

-- The queries that a server gets until it ends, and the error that it ends with.
pub record Arrivals : Type 0 where
  pub queries : List Msg
  pub ended_by : Option Error

-- What Serve calls: String of an IP address, strconv.Itoa, net.JoinHostPort, dns.ListenAndServe
-- with an address and a network, and WriteMsg.
pub record Sockets (W : Type 0) : Type 0 where
  pub ip_string : List ℕ → Text
  pub itoa : ℕ → Text
  pub join_host_port : Text → Text → Text
  pub listen_and_serve : Text → Text → W → Arrivals
  pub write_msg : Option Msg → W → Option Error × W

-- A function for Serve, with the error that it hands on while it makes the reply.
abbrev pub Handler : Type 0 → Type 0
Handler W = Option Msg → W → Exit Handled × W

-- handleIfError: the errors that reach the error handler.
abbrev pub handle_if_error : Option Error → List Error
handle_if_error none = []
handle_if_error (some e) = e ∷ []

module _ {W : Type 0} where
  abbrev pub with_errors : List Error → Exit (List Error) × W → Exit (List Error) × W
  with_errors es (done later, w) = (done (es ++ later), w)
  with_errors es (panicked, w) = (panicked, w)
  with_errors es (stopped, w) = (stopped, w)

  -- What comes after a call that returned, with the errors of both.
  abbrev pub and_then : Exit (List Error) × W → (W → Exit (List Error) × W) → Exit (List Error) × W
  and_then (done es, w) next = with_errors es (next w)
  and_then (panicked, w) next = (panicked, w)
  and_then (stopped, w) next = (stopped, w)

  -- A nil function panics when it is called.
  abbrev pub call : Option (Handler W) → Handler W
  call none q w = (panicked, w)
  call (some handler) q w = handler q w

  module _ (sockets : Sockets W) where
    -- The reply is written.
    abbrev pub written : Exit Handled × W → Exit (List Error) × W
    written (done h, w) =
        let (e, w') = sockets.write_msg h.reply w in
        (done (handle_if_error h.reported ++ handle_if_error e), w')
    written (panicked, w) = (panicked, w)
    written (stopped, w) = (stopped, w)

    -- The handler function that dns.ListenAndServe gets.
    unfoldable pub serve_query : Option (Handler W) → Msg → W → Exit (List Error) × W
    serve_query handler q w = written (call handler (some q) w)

    -- It is called for each query; a panic ends the program.
    unfoldable pub serve_each : Option (Handler W) → List Msg → W → Exit (List Error) × W
    unfolding serve_query
    serve_each handler [] w = (done [], w)
    serve_each handler (q ∷ qs) w = and_then (serve_query handler q w) (serve_each handler qs)

    abbrev pub address_of : DnsServer → Text
    address_of d = sockets.join_host_port (sockets.ip_string d.listen) (sockets.itoa d.port)

    abbrev pub listened : Option (Handler W) → Arrivals → W → Exit (List Error) × W
    listened handler arrivals w =
        and_then (serve_each handler arrivals.queries w)
          λ w'. (done (handle_if_error arrivals.ended_by), w')

    -- Serve: a nil handler is reported, and dns.ListenAndServe is called all the same.
    unfoldable pub serve : Option (Handler W) → DnsServer → W → Exit (List Error) × W
    unfolding serve_each
    serve none d w =
        and_then (done (nil_handler ∷ []), w)
          (λ w'. listened none (sockets.listen_and_serve (address_of d) d.protocol w') w')
    serve (some handler) d w =
        listened (some handler) (sockets.listen_and_serve (address_of d) d.protocol w) w
