-- ===== src/Resolvers/Tidy/Https.antt =====
-- DNS over HTTPS: tidy if its resolver is, with one predicate for the worlds outside of the making
-- of the client and one for those inside.
use sec_dns.Prelude.{
  ℕ, zero, suc, ◌≤◌, ◌≡◌, refl, arith, ℤ, pos, negsuc, less_one, List, [], ◌∷◌, Text, Option, none,
  some, true, false,
}
use sec_dns.Dns.{Library}
use sec_dns.Exec.{
  Error, Exit, done, panicked, stopped, continue, State, Exec, pure, panic, fail, unknown_host,
  Resolve, Outcome, ◌>>=◌, ◌>>◌,
}
use sec_dns.Exec.Tidy.{
  Tidy, TidyAt, IsTidy, Tidy-eq, pure-IsTidy, bind-IsTidy, bind-TidyAt-IsTidy, panic-IsTidy,
  if-IsTidy, if-TidyAt, get_query-IsTidy,
}
use sec_dns.Resolvers.Tidy.Urls.{resolve_url-IsTidy}
use sec_dns.Resolvers.{
  arrange, Report, failed, responded, has_reply, Urls, QueryClient, Doh, Packed, packed, not_packed,
  Web, Slot, send_request, send_all, read_state, write_state, set_urls, resolve_url, make_client,
  ready_client, no_host, looked_up, look_up_again, send_packed, send_query, doh_body, doh_from, doh,
}

module _ {W : Type 0} (P : W → Type 0) (slot : Slot W) (resolver : Resolve W) where
  -- The making of the client: a predicate for the worlds meanwhile, which holds once the flag is
  -- set, in which the resolver is tidy, and which leads back when the client is stored.
  pub record Making (w : W) : Type 1 where
    pub Meanwhile : W → Type 0
    pub begins : Meanwhile (slot.write (record { query_client = none; initializing = true }) w)
    pub asks : IsTidy Meanwhile (resolver (pos 64))
    pub ends :
        (c : QueryClient) (v : W)
        → Meanwhile v
        → P (slot.write (record { query_client = some c; initializing = false }) v)

module _ {W : Type 0} (P : W → Type 0) (dns : Library) (urls : Urls) (d : Doh) (web : Web W)
    (slot : Slot W) (schedule : W → List ℕ) (resolver : Resolve W) where
  pub record Steady : Type 1 where
    pub makes :
        (w : W)
        → P w
        → (slot.read w).initializing ≡ false
        → (slot.read w).query_client ≡ none
        → Making P slot resolver w
    pub sets : (us : List Text) (w : W) → P w → P (slot.write (set_urls slot us (slot.read w)) w)
    pub posts :
        (c : QueryClient) (url : Text) (wire : List ℕ) (w : W) → P w → P (web.post c url wire w).1

  module _ (k : Steady) where
    send_request-IsTidy :
        (c : QueryClient) (wire : List ℕ) (url : Text) → IsTidy P (send_request web c wire url)
    unfolding send_request
    send_request-IsTidy c wire url = record { at = λ s p. by s p (web.new_request url) }
      where
        by :
            (s : State W)
            → P s.world
            → (o : Option Error)
            → let x : Exit Report × State W = elim o [
              | some e ↦ (done (failed e), s)
              | none ↦
                  let (response, w) = web.post c url wire s.world in
                  (done (responded web response), record s { world = w })
            ] in
              Tidy P s x.0 x.1
        by s p (some e) = (refl, p)
        by s p none = (refl, k.posts c url wire s.world p)

    send_all-IsTidy :
        (c : QueryClient) (wire : List ℕ) (us : List Text) → IsTidy P (send_all web c wire us)
    unfolding send_all
    send_all-IsTidy c wire [] = pure-IsTidy _
    send_all-IsTidy c wire (u ∷ us) =
        bind-IsTidy _ _ (send_request-IsTidy c wire u)
          λ report. bind-IsTidy _ _ (send_all-IsTidy c wire us) λ reports. pure-IsTidy _

    ready_client-TidyAt :
        (o : Option QueryClient) (s : State W)
        → (slot.read s.world).initializing ≡ false
        → (slot.read s.world).query_client ≡ o
        → TidyAt P (ready_client slot dns urls web schedule d resolver o) s
    unfolding ready_client ◌>>=◌
    ready_client-TidyAt (some c) s calm has p = (refl, p)
    ready_client-TidyAt none s calm has p =
        let making = k.makes s.world p calm has in
        let s' = record s {
          world = slot.write (record { query_client = none; initializing = true }) s.world;
        } in
        after making (resolve_url dns urls d resolver (pos 64) s').0
          (resolve_url dns urls d resolver (pos 64) s').1
          ((resolve_url-IsTidy dns urls d resolver (pos 64) making.asks).at s' making.begins)
      where
        after :
            (making : Making P slot resolver s.world) (x : Exit (List Text)) (t : State W)
            → Tidy making.Meanwhile s x t
            → let y =
                continue x
                  (λ us. (do
                    let c = make_client dns urls d us
                    write_state slot (record { query_client = some c; initializing = false })
                    pure c))
                  t in
              Tidy P s y.0 y.1
        after making (done us) t h = (h.0, making.ends _ _ h.1)
        after making panicked t h = tt
        after making stopped t h = h

    set_urls-IsTidy :
        (us : List Text) (m : Exec W Outcome)
        → IsTidy P m
        → IsTidy P (read_state slot >>= λ st. write_state slot (set_urls slot us st) >> m)
    unfolding ◌>>=◌
    set_urls-IsTidy us m h = record {
      at = λ s p.
          let s' = record s { world = slot.write (set_urls slot us (slot.read s.world)) s.world } in
          Tidy-eq P s' s (m s').0 (m s').1 refl (h.at s' (k.sets us s.world p));
    }

    no_host-IsTidy : IsTidy P (no_host slot dns urls web schedule d resolver)
    no_host-IsTidy = by d.url
      where
        by :
            (o : Option Text)
            → IsTidy {W = W} {A = Outcome} P
                (elim o [ none ↦ panic | some u ↦ fail (unknown_host (urls.hostname u)) ])
        by none = panic-IsTidy
        by (some u) = pure-IsTidy _

    module _ (depth : ℤ) (low : IsTidy P (resolver (less_one depth))) (again : Exec W Outcome)
        (next : IsTidy P again) where
      looked_up-IsTidy :
          (reports : List Report) (us : List Text)
          → IsTidy P (looked_up slot dns urls web schedule d resolver again reports us)
      looked_up-IsTidy [] [] = no_host-IsTidy
      looked_up-IsTidy [] (u ∷ us) = set_urls-IsTidy (u ∷ us) again next
      looked_up-IsTidy (r ∷ rs) [] = pure-IsTidy _
      looked_up-IsTidy (r ∷ rs) (u ∷ us) = set_urls-IsTidy (u ∷ us) _ (pure-IsTidy _)

      look_up_again-IsTidy :
          (reports : List Report)
          → IsTidy P (look_up_again slot dns urls web schedule d resolver depth again reports)
      unfolding look_up_again
      look_up_again-IsTidy reports =
          bind-IsTidy _ _ (resolve_url-IsTidy dns urls d resolver (less_one depth) low)
            (looked_up-IsTidy reports)

      send_query-IsTidy :
          (c : QueryClient)
          → IsTidy P (send_query slot dns urls web schedule d resolver depth again c)
      unfolding send_query
      send_query-IsTidy c = bind-IsTidy _ _ get_query-IsTidy λ q. by (web.pack q)
        where
          by :
              (x : Packed)
              → IsTidy P (send_packed slot dns urls web schedule d resolver depth again c x)
          by (not_packed e) = pure-IsTidy _
          by (packed wire) =
              bind-IsTidy _ _
                (record {
                  at = λ s.
                      (send_all-IsTidy c wire (arrange (schedule s.world) c.resolved_urls)).at s;
                })
                λ reports.
                  if-IsTidy (has_reply reports) _ _ (λ _. pure-IsTidy _)
                    (λ _. look_up_again-IsTidy reports)

      doh_body-TidyAt :
          (s : State W)
          → TidyAt P
              (doh_body slot dns urls web schedule d resolver depth again (slot.read s.world))
              s
      doh_body-TidyAt s =
          if-TidyAt P (slot.read s.world).initializing _ _ s (λ _. (pure-IsTidy _).at s)
            λ calm.
              bind-TidyAt-IsTidy
                (ready_client slot dns urls web schedule d resolver
                  (slot.read s.world).query_client)
                (send_query slot dns urls web schedule d resolver depth again) s
                (ready_client-TidyAt (slot.read s.world).query_client s calm refl) send_query-IsTidy

    -- At a depth not below 0, if the resolver is tidy at all smaller depths.
    doh_from-IsTidy :
        (n : ℕ)
        → ((m : ℕ) → m ≤ n → IsTidy P (resolver (less_one (pos m))))
        → IsTidy P (doh_from slot dns urls web schedule d resolver n)
    unfolding doh_from ◌>>=◌
    doh_from-IsTidy zero low = record {
      at = λ s. doh_body-TidyAt (pos zero) (low zero (omega arith)) _ (pure-IsTidy _) s;
    }
    doh_from-IsTidy (suc n) low = record {
      at = λ s.
          doh_body-TidyAt (pos (suc n)) (low (suc n) (omega arith)) _
            (doh_from-IsTidy n (λ m le. low m (omega arith))) s;
    }

    abbrev pub UpTo : ℤ → ℕ → Type 0
    UpTo (pos n) m = m ≤ n
    UpTo (negsuc n) m = ⊥

    pub doh-IsTidy :
        (depth : ℤ)
        → ((m : ℕ) → UpTo depth m → IsTidy P (resolver (less_one (pos m))))
        → IsTidy P (doh slot dns urls web schedule d resolver depth)
    unfolding doh
    doh-IsTidy (negsuc n) low = pure-IsTidy _
    doh-IsTidy (pos n) low = doh_from-IsTidy n low
