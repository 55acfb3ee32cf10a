-- ===== src/Resolvers/Https/Requests.antt =====
-- resolvers/doh/types.go: the method `Resolve`. One goroutine sends the query to each URL; what they
-- deliver is seen in the order in which they finish, as in the concurrent list.
use sec_dns.Prelude.{
  ℕ, zero, suc, Option, none, some, Bool, true, false, List, [], ◌∷◌, Text, ℤ, pos, negsuc,
  less_one, if◌then◌else◌,
}
use sec_dns.Dns.{Msg, Library}
use sec_dns.Exec.{
  Error, done, Exec, Resolve, Outcome, ◌>>=◌, ◌>>◌, pure, panic, get_query, fail, loop_detected,
  resolver_not_ready, unknown_host,
}
use sec_dns.Resolvers.NameServers.{Received, got, lost}
use sec_dns.Resolvers.Concurrent.{Report, failed, replied, settle, arrange}
use sec_dns.Resolvers.Https.Hosts.{Urls, QueryClient, Doh, DohState, make_client, resolve_url}

pub data Packed : Type 0 where
  packed : List ℕ → Packed
  not_packed : Error → Packed

pub data Response : Type 0 where
  body : List ℕ → Response
  no_response : Error → Response

-- What the resolver calls of net/http and of the wire format of miekg/dns: query.Pack(),
-- http.NewRequest for a URL, httpClient.Do with the host name and the packed query in the request,
-- and m.Unpack of what was read of the body.
pub record Web (W : Type 0) : Type 0 where
  pub pack : Msg → Packed
  pub new_request : Text → Option Error
  pub post : QueryClient → Text → List ℕ → W → Response × W
  pub unpack : List ℕ → Received

-- Where the world keeps the fields of one `DoH`.
pub record Slot (W : Type 0) : Type 0 where
  pub read : W → DohState
  pub write : DohState → W → W

module _ {W : Type 0} (web : Web W) where
  abbrev unpacked : Received → Report
  unpacked (got m) = replied (some m)
  unpacked (lost e) = failed e

  abbrev pub responded : Response → Report
  responded (no_response e) = failed e
  responded (body bytes) = unpacked (web.unpack bytes)

  -- `sendRequest`
  unfoldable pub send_request : QueryClient → List ℕ → Text → Exec W Report
  send_request c wire url s = elim (web.new_request url) [
    | some e ↦ (done (failed e), s)
    | none ↦
        let (response, w) = web.post c url wire s.world in
        (done (responded response), record s { world = w })
  ]

  unfoldable pub send_all : QueryClient → List ℕ → List Text → Exec W (List Report)
  send_all c wire [] = pure []
  send_all c wire (url ∷ urls) = do
    report ← send_request c wire url
    reports ← send_all c wire urls
    pure (report ∷ reports)

-- A goroutine won `once` before all had ended.
abbrev pub has_reply : List Report → Bool
has_reply [] = false
has_reply (replied m ∷ rs) = true
has_reply (failed e ∷ rs) = has_reply rs

module _ {W : Type 0} (slot : Slot W) where
  abbrev pub read_state : Exec W DohState
  read_state s = (done (slot.read s.world), s)

  abbrev pub write_state : DohState → Exec W (Unit {0})
  write_state x s = (done tt, record s { world = slot.write x s.world })

  -- d.queryClient.resolvedURLs = urls
  abbrev pub set_urls : List Text → DohState → DohState
  set_urls resolved st = elim st.query_client [
    | none ↦ st
    | some c ↦ record st { query_client = some (record c { resolved_urls = resolved }) }
  ]

  module _ (dns : Library) (urls : Urls) (web : Web W) (schedule : W → List ℕ) (d : Doh)
      (resolver : Resolve W) where
    -- The client, made if there is none; a query that comes meanwhile finds the flag.
    unfoldable pub ready_client : Option QueryClient → Exec W QueryClient
    unfolding make_client resolve_url
    ready_client (some c) = pure c
    ready_client none = do
      write_state (record { query_client = none; initializing = true })
      resolved ← resolve_url dns urls d resolver (pos 64)
      let c = make_client dns urls d resolved
      write_state (record { query_client = some c; initializing = false })
      pure c

    -- An error for a host without URLs; d.URL.Hostname() panics for a nil URL.
    abbrev pub no_host : Exec W Outcome
    no_host = elim d.url [ none ↦ panic | some u ↦ fail (unknown_host (urls.hostname u)) ]

    -- No request was sent: the URLs that were found now may serve.
    abbrev pub without_requests : Exec W Outcome → List Text → Exec W Outcome
    without_requests again [] = no_host
    without_requests again (u ∷ us) = do st ← read_state; write_state (set_urls (u ∷ us) st); again

    -- All requests failed.
    abbrev pub with_errors : List Report → List Text → Exec W Outcome
    with_errors reports [] = pure (settle reports)
    with_errors reports (u ∷ us) = do
      st ← read_state
      write_state (set_urls (u ∷ us) st)
      pure (settle reports)

    abbrev pub looked_up : Exec W Outcome → List Report → List Text → Exec W Outcome
    looked_up again [] resolved = without_requests again resolved
    looked_up again (r ∷ rs) resolved = with_errors (r ∷ rs) resolved

    -- The goroutine that waits for the others, where none of them replied.
    unfoldable pub look_up_again : ℤ → Exec W Outcome → List Report → Exec W Outcome
    unfolding resolve_url
    look_up_again depth again reports = do
      resolved ← resolve_url dns urls d resolver (less_one depth)
      looked_up again reports resolved

    abbrev pub conclude_requests : ℤ → Exec W Outcome → List Report → Exec W Outcome
    conclude_requests depth again reports =
        if has_reply reports then pure (settle reports) else look_up_again depth again reports

    abbrev pub send_packed : ℤ → Exec W Outcome → QueryClient → Packed → Exec W Outcome
    send_packed depth again c (not_packed e) = fail e
    send_packed depth again c (packed wire) = do
      reports ← (λ s. send_all web c wire (arrange (schedule s.world) c.resolved_urls) s)
      conclude_requests depth again reports

    -- From the client on.
    unfoldable pub send_query : ℤ → Exec W Outcome → QueryClient → Exec W Outcome
    unfolding look_up_again send_all
    send_query depth again c = do query ← get_query; send_packed depth again c (web.pack query)

    abbrev pub doh_body : ℤ → Exec W Outcome → DohState → Exec W Outcome
    doh_body depth again st =
        if st.initializing
        then fail resolver_not_ready
        else (do c ← ready_client st.query_client; send_query depth again c)

    -- `Resolve` at a depth not below 0; `again` is the call of `d.Resolve` at one less.
    unfoldable pub doh_from : ℕ → Exec W Outcome
    unfolding ready_client send_query
    doh_from zero = do st ← read_state; doh_body (pos zero) (fail loop_detected) st
    doh_from (suc n) = do st ← read_state; doh_body (pos (suc n)) (doh_from n) st

    unfoldable pub doh : Resolve W
    doh (pos n) = doh_from n
    doh (negsuc n) = fail loop_detected
