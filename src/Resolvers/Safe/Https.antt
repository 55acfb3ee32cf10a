-- ===== src/Resolvers/Safe/Https.antt =====
-- doh/types.go: calls without a panic.
use sec_dns.Prelude.{
  ℕ, zero, suc, ℤ, pos, negsuc, less_one, List, [], ◌∷◌, Text, Option, none, some, ◌≡◌, All,
}
use sec_dns.Dns.{Library, Documented, new_msg}
use sec_dns.Common.{is_domain_name}
use sec_dns.Exec.{Error, Exit, done, State, Exec, Resolve, Outcome, ◌>>=◌, ◌>>◌, pure}
use sec_dns.Exec.Safe.{
  Asked, Good, Any, Safe, IsSafe, pure-IsSafe, if-IsSafe, with_query-IsSafe, bind-IsSafe,
  get_query-IsSafe, fail-IsSafe,
}
use sec_dns.Resolvers.{
  arrange, Report, failed, responded, has_reply, Urls, QueryClient, Doh, DohState, Packed, packed,
  not_packed, Web, Slot, send_request, send_all, read_state, write_state, set_urls, found_urls,
  resolve_host, resolve_url, ready_client, looked_up, look_up_again, send_packed, send_query,
  doh_body, doh_from, doh,
}
use sec_dns.Resolvers.Safe.{by_reply}
use sec_dns.Resolvers.Safe.Slices.{GoodReport, settle-Good, has_reply-IsCons}

module _ {W : Type 0} (dns : Library) (doc : Documented dns) (urls : Urls) (d : Doh) (r : Resolve W)
    (depth : ℤ) (h : IsSafe Good (r depth)) where
  found_urls-IsSafe :
      (u : Text) (out : Outcome) → Good out → IsSafe Any (found_urls dns urls d {W = W} u out)
  unfolding found_urls
  found_urls-IsSafe u out good =
      by_reply Any (λ e o. found_urls dns urls d u (record { msg = o; err = e }))
        (λ e o. pure-IsSafe _ tt) (λ m has. pure-IsSafe _ tt) out.err out.msg good.good

  resolve_url-IsSafe : IsSafe Any (resolve_url dns urls d r depth)
  unfolding resolve_url resolve_host
  resolve_url-IsSafe = by d.url
    where
      asks : (z : Text) (t : ℕ) → Asked (dns.set_question new_msg z t).question
      asks z t = rw (doc.question-set_question new_msg z t) tt

      by :
          (o : Option Text)
          → IsSafe {W = W} {A = List Text} Any
              (elim o [ none ↦ pure [] | some u ↦ resolve_host dns urls d u r depth ])
      by none = pure-IsSafe _ tt
      by (some u) =
          if-IsSafe (is_domain_name dns (urls.hostname u)) _ _
            (λ _.
              bind-IsSafe _ _ _ (with_query-IsSafe _ _ (asks _ _) h)
                λ out good. found_urls-IsSafe u out good)
            (λ _. pure-IsSafe _ tt)

-- What is expected of a server: the message in a response copies the question.
pub record Answering {W : Type 0} (web : Web W) : Type 0 where
  pub answers :
      (c : QueryClient) (url : Text) (wire : List ℕ) (w : W)
      → GoodReport (responded web (web.post c url wire w).0)

module _ {W : Type 0} (slot : Slot W) (dns : Library) (doc : Documented dns) (urls : Urls)
    (web : Web W) (k : Answering web) (schedule : W → List ℕ) (d : Doh) (u : Text)
    (has_url : d.url ≡ some u) (r : Resolve W) (h : (depth : ℤ) → IsSafe Good (r depth)) where
  read_state-IsSafe : IsSafe Any (read_state slot)
  read_state-IsSafe = record { at = λ s asked. (asked, tt) }

  write_state-IsSafe : (x : DohState) → IsSafe Any (write_state slot x)
  write_state-IsSafe x = record { at = λ s asked. (asked, tt) }

  send_request-IsSafe :
      (c : QueryClient) (wire : List ℕ) (url : Text)
      → IsSafe GoodReport (send_request web c wire url)
  unfolding send_request
  send_request-IsSafe c wire url = record { at = λ s asked. by s asked (web.new_request url) }
    where
      by :
          (s : State W)
          → Asked s.query.question
          → (o : Option Error)
          → let x : Exit Report × State W = elim o [
            | some e ↦ (done (failed e), s)
            | none ↦
                let (response, w) = web.post c url wire s.world in
                (done (responded web response), record s { world = w })
          ] in
            Safe GoodReport x.0 x.1
      by s asked (some e) = (asked, tt)
      by s asked none = (asked, k.answers c url wire s.world)

  send_all-IsSafe :
      (c : QueryClient) (wire : List ℕ) (us : List Text)
      → IsSafe (All GoodReport) (send_all web c wire us)
  unfolding send_all
  send_all-IsSafe c wire [] = pure-IsSafe _ tt
  send_all-IsSafe c wire (url ∷ us) =
      bind-IsSafe _ _ _ (send_request-IsSafe c wire url)
        λ x hx. bind-IsSafe _ _ _ (send_all-IsSafe c wire us) λ xs hxs. pure-IsSafe _ (hx, hxs)

  ready_client-IsSafe :
      (o : Option QueryClient) → IsSafe Any (ready_client slot dns urls web schedule d r o)
  unfolding ready_client
  ready_client-IsSafe (some c) = pure-IsSafe _ tt
  ready_client-IsSafe none = bind-IsSafe _ _ _ (write_state-IsSafe _) λ x any.
      bind-IsSafe _ _ _ (resolve_url-IsSafe dns doc urls d r (pos 64) (h (pos 64)))
        λ us any. bind-IsSafe _ _ _ (write_state-IsSafe _) λ x any. pure-IsSafe _ tt

  set_urls-IsSafe :
      (us : List Text) (m : Exec W Outcome)
      → IsSafe Good m
      → IsSafe Good (read_state slot >>= λ st. write_state slot (set_urls slot us st) >> m)
  set_urls-IsSafe us m hm =
      bind-IsSafe _ _ _ read_state-IsSafe
        λ st any. bind-IsSafe _ _ _ (write_state-IsSafe _) λ x any. hm

  module _ (depth : ℤ) (again : Exec W Outcome) (next : IsSafe Good again) where
    looked_up-IsSafe :
        (xs : List Report) (us : List Text)
        → All GoodReport xs
        → IsSafe Good (looked_up slot dns urls web schedule d r again xs us)
    looked_up-IsSafe [] [] all = rw has_url (fail-IsSafe _)
    looked_up-IsSafe [] (url ∷ us) all = set_urls-IsSafe (url ∷ us) again next
    looked_up-IsSafe (x ∷ xs) [] all = pure-IsSafe _ (settle-Good (x ∷ xs) all tt)
    looked_up-IsSafe (x ∷ xs) (url ∷ us) all =
        set_urls-IsSafe (url ∷ us) _ (pure-IsSafe _ (settle-Good (x ∷ xs) all tt))

    look_up_again-IsSafe :
        (xs : List Report)
        → All GoodReport xs
        → IsSafe Good (look_up_again slot dns urls web schedule d r depth again xs)
    unfolding look_up_again
    look_up_again-IsSafe xs all =
        bind-IsSafe _ _ _
          (resolve_url-IsSafe dns doc urls d r (less_one depth) (h (less_one depth)))
          λ us any. looked_up-IsSafe xs us all

    send_packed-IsSafe :
        (c : QueryClient) (p : Packed)
        → IsSafe Good (send_packed slot dns urls web schedule d r depth again c p)
    unfolding send_query
    send_packed-IsSafe c (not_packed e) = fail-IsSafe e
    send_packed-IsSafe c (packed wire) =
        bind-IsSafe (All GoodReport) _ _
          (record {
            at = λ s. (send_all-IsSafe c wire (arrange (schedule s.world) c.resolved_urls)).at s;
          })
          λ xs all.
            if-IsSafe (has_reply xs) _ _
              (λ e. pure-IsSafe _ (settle-Good xs all (has_reply-IsCons xs e)))
              λ _. look_up_again-IsSafe xs all

    doh_body-IsSafe :
        (st : DohState) → IsSafe Good (doh_body slot dns urls web schedule d r depth again st)
    unfolding send_query
    doh_body-IsSafe st =
        if-IsSafe st.initializing _ _ (λ _. fail-IsSafe _)
          λ _.
            bind-IsSafe _ _ _ (ready_client-IsSafe st.query_client) λ c any.
              bind-IsSafe _ _ _ get_query-IsSafe λ q asked. send_packed-IsSafe c (web.pack q)

  doh_from-IsSafe : (n : ℕ) → IsSafe Good (doh_from slot dns urls web schedule d r n)
  unfolding doh_from
  doh_from-IsSafe zero =
      bind-IsSafe _ _ _ read_state-IsSafe λ st any. doh_body-IsSafe (pos zero) _ (fail-IsSafe _) st
  doh_from-IsSafe (suc n) =
      bind-IsSafe _ _ _ read_state-IsSafe
        λ st any. doh_body-IsSafe (pos (suc n)) _ (doh_from-IsSafe n) st

  pub doh-IsSafe : (depth : ℤ) → IsSafe Good (doh slot dns urls web schedule d r depth)
  unfolding doh
  doh-IsSafe (pos n) = doh_from-IsSafe n
  doh-IsSafe (negsuc n) = fail-IsSafe _
