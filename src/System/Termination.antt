-- ===== src/System/Termination.antt =====
-- The depth bounds every chain of calls, whatever the configuration refers to. A `DoH` makes its
-- client at a depth of its own, but each one does so once.
use sec_dns.Prelude.{
  ℕ, zero, suc, ◌+◌, ◌*◌, ◌≤◌, ◌≡◌, refl, ◌∙◌, ℤ, pos, negsuc, less_one, List, [], ◌∷◌, Text,
  Option, none, some, Bool, true, false, lookup, arith, if◌then◌else◌,
}
use sec_dns.Exec.{Resolve, fail, loop_detected}
use sec_dns.Exec.Tidy.{IsTidy, pure-IsTidy, panic-IsTidy}
use sec_dns.Resolvers.{
  guard_depth, no_answer, not_exist, address, alias, sequence, concurrent, filter_out_a, Doh, doh,
  filter_out_aaaa, filter_out_a_if_aaaa_presents, filter_out_aaaa_if_a_presents, dns64, name_server,
}
use sec_dns.Resolvers.Tidy.{
  no_answer-IsTidy, not_exist-IsTidy, address-IsTidy, alias-IsTidy, filter_out_a-IsTidy,
  filter_out_aaaa-IsTidy, filter_out_a_if_aaaa_presents-IsTidy,
  filter_out_aaaa_if_a_presents-IsTidy, dns64-IsTidy, name_server-IsTidy,
}
use sec_dns.Resolvers.Tidy.Slices.{AllTidy, sequence-IsTidy, concurrent-IsTidy}
use sec_dns.Resolvers.Tidy.Https.{Making, Steady, doh-IsTidy}
use sec_dns.Core.{resolve_instance}
use sec_dns.Core.Tidy.{TidyRules, TidyOption, resolve_instance-IsTidy}
use sec_dns.System.{
  World, Env, slot_at, net_of, web_of, schedule_of, cell_at, Upstream, Ref, Refs, Config, behave,
  enter, run, behind_name, elements, element, bind_rules, bind_default, name_servers,
  is_name_server_ref,
}
use sec_dns.System.Idle.{
  Within, flags-begin, flags-back, flags-set_urls, set_flag, idle-begin, idle-end, idle-set_urls,
  net_of-Preserves,
}

-- The calls that a chain from this depth has at most, the making of clients left out.
abbrev pub calls_from : ℤ → ℕ
calls_from (pos n) = n + 2
calls_from (negsuc n) = 1

calls_from-less_one : (n : ℕ) → calls_from (less_one (pos n)) ≡ n + 1
calls_from-less_one zero = refl
calls_from-less_one (suc n) = omega arith

module _ {W : Type 0} (P : W → Type 0) (rec : Ref → Resolve W) (d : ℤ)
    (h : (r : Ref) → IsTidy P (rec r d)) where
  elements-AllTidy : (rs : Refs) → AllTidy P d (elements rec rs)
  elements-AllTidy Refs.end = tt
  elements-AllTidy (Refs.ref Ref.nil rs) = elements-AllTidy rs
  elements-AllTidy (Refs.ref (Ref.anonymous u) rs) = (h (Ref.anonymous u), elements-AllTidy rs)
  elements-AllTidy (Refs.ref (Ref.named n) rs) = (h (Ref.named n), elements-AllTidy rs)

  AllTidy-if :
      (b : Bool) (r : Ref) (rs : List (Option (Resolve W)))
      → AllTidy P d rs
      → AllTidy P d ((if b then element rec r else none) ∷ rs)
  AllTidy-if false r rs k = k
  AllTidy-if true Ref.nil rs k = k
  AllTidy-if true (Ref.anonymous u) rs k = (h (Ref.anonymous u), k)
  AllTidy-if true (Ref.named n) rs k = (h (Ref.named n), k)

  bind_rules-TidyRules : (rules : List (Text × Ref)) → TidyRules P d (bind_rules rec rules)
  bind_rules-TidyRules [] = tt
  bind_rules-TidyRules ((name, r) ∷ rules) = (h r, bind_rules-TidyRules rules)

  bind_default-TidyOption : (o : Option Ref) → TidyOption P d (bind_default rec o)
  bind_default-TidyOption none = tt
  bind_default-TidyOption (some r) = h r

module _ {C V : Type 0} (env : Env C V) (cfg : Config) where
  -- Below depth 0 each resolver that is not a named one returns ErrLoopDetected at once, whatever the
  -- others would do.
  behave-negative :
      (rec : Ref → Resolve (World V)) (u : Upstream) (n : ℕ)
      → behave env cfg rec u (negsuc n) ≡ fail loop_detected
  unfolding behave guard_depth no_answer not_exist address alias sequence concurrent filter_out_a
      filter_out_aaaa filter_out_a_if_aaaa_presents filter_out_aaaa_if_a_presents dns64 name_server
      resolve_instance doh
  behave-negative rec Upstream.no_answer_of n = refl
  behave-negative rec (Upstream.sequence_of Refs.end) n = refl
  behave-negative rec (Upstream.sequence_of (Refs.ref r rs)) n = refl
  behave-negative rec (Upstream.concurrent_of Refs.end) n = refl
  behave-negative rec (Upstream.concurrent_of (Refs.ref r rs)) n = refl
  behave-negative rec _ n = refl

  -- Calls from worlds with this many idle objects: they are tidy at all smaller depths, and at
  -- depth 64 once one object less is idle.
  module _ (idles n : ℕ) (fs : List Bool) (rec : Ref → Resolve (World V))
      (low : (m : ℕ) → m ≤ n → (r : Ref) → IsTidy (Within idles fs) (rec r (less_one (pos m))))
      (high : (j : ℕ)
        → idles ≡ suc j
        → (gs : List Bool) (r : Ref) → IsTidy (Within j gs) (rec r (pos 64))) where
    next : (r : Ref) → IsTidy (Within idles fs) (rec r (less_one (pos n)))
    next = low n (omega arith)

    name_servers-AllTidy :
        (rs : Refs) → AllTidy (Within idles fs) (less_one (pos n)) (name_servers env cfg rec rs)
    name_servers-AllTidy Refs.end = tt
    name_servers-AllTidy (Refs.ref r rs) =
        AllTidy-if _ rec _ next (is_name_server_ref cfg r) r _ (name_servers-AllTidy rs)

    doh-Making :
        (k : ℕ) (r : Ref) (w : World V) (i : ℕ)
        → idles ≡ i
        → Within idles fs w
        → (cell_at k w.cells).initializing ≡ false
        → (cell_at k w.cells).query_client ≡ none
        → Making (Within idles fs) (slot_at k) (rec r) w
    doh-Making k r w zero e h calm empty =
        absurd (omega (arith, h.few, idle-begin k w.cells calm empty))
    doh-Making k r w (suc j) e h calm empty = record {
      Meanwhile = Within j (set_flag k true fs);
      begins = record {
        few = omega (arith, h.few, idle-begin k w.cells calm empty);
        same = flags-begin k fs w.cells h.same;
      };
      asks = high j e (set_flag k true fs) r;
      ends = λ c v later. record {
        few = omega (arith, later.few, idle-end k c v.cells);
        same = flags-back k c fs w.cells v.cells h.same calm later.same;
      };
    }

    doh-Steady :
        (k : ℕ) (d : Doh) (r : Ref)
        → Steady
            (Within idles fs)
            env.dns
            env.urls
            d
            (web_of env.web)
            (slot_at k)
            (schedule_of env.schedule)
            (rec r)
    doh-Steady k d r = record {
      makes = λ w le calm empty. doh-Making k r w idles refl le calm empty;
      sets = λ us w h. record {
        few = omega (arith, h.few, idle-set_urls V k us w.cells);
        same = flags-set_urls V k us w.cells ∙ h.same;
      };
      posts = λ c url wire w h. record { few = h.few; same = h.same };
    }

    behave-IsTidy : (u : Upstream) → IsTidy (Within idles fs) (behave env cfg rec u (pos n))
    unfolding behave
    behave-IsTidy Upstream.no_answer_of = no_answer-IsTidy env.dns (pos n)
    behave-IsTidy Upstream.not_exist_of = not_exist-IsTidy env.dns (pos n)
    behave-IsTidy Upstream.instance_of =
        resolve_instance-IsTidy _ (pos n) (bind_rules-TidyRules _ rec _ next cfg.rules)
          (bind_default-TidyOption _ rec _ next cfg.default_resolver)
    behave-IsTidy (Upstream.address_of addr) = address-IsTidy env.dns addr (pos n)
    behave-IsTidy (Upstream.alias_of target r) =
        alias-IsTidy env.dns (rec r) (pos n) (next r) target
    behave-IsTidy (Upstream.sequence_of rs) =
        sequence-IsTidy _ (pos n) (elements-AllTidy _ rec _ next rs)
    behave-IsTidy (Upstream.concurrent_of rs) =
        concurrent-IsTidy (schedule_of env.schedule) _ (pos n) (name_servers-AllTidy rs)
    behave-IsTidy (Upstream.filter_a_of r) = filter_out_a-IsTidy env.dns (rec r) (pos n) (next r)
    behave-IsTidy (Upstream.filter_aaaa_of r) =
        filter_out_aaaa-IsTidy env.dns (rec r) (pos n) (next r)
    behave-IsTidy (Upstream.filter_a_if_of r) =
        filter_out_a_if_aaaa_presents-IsTidy (rec r) (pos n) (next r) env.dns
    behave-IsTidy (Upstream.filter_aaaa_if_of r) =
        filter_out_aaaa_if_a_presents-IsTidy (rec r) (pos n) (next r) env.dns
    behave-IsTidy (Upstream.dns64_of prefix ignore r) = dns64-IsTidy _ (pos n) (next r)
    behave-IsTidy (Upstream.name_server_of ns) =
        name_server-IsTidy (net_of env.net) (net_of-Preserves env.net idles fs) ns (pos n)
    behave-IsTidy (Upstream.doh_of k d r) =
        doh-IsTidy _ env.dns env.urls d (web_of env.web) (slot_at k) (schedule_of env.schedule)
          (rec r) (doh-Steady k d r) (pos n) (λ m le. low m le r)

  enter-IsTidy :
      (P : World V → Type 0) (rec : Ref → Resolve (World V)) (depth : ℤ)
      → ((u : Upstream) → IsTidy P (behave env cfg rec u depth))
      → (r : Ref) → IsTidy P (enter env cfg rec r depth)
  unfolding enter behind_name
  enter-IsTidy P rec depth h Ref.nil = panic-IsTidy
  enter-IsTidy P rec depth h (Ref.anonymous u) = h u
  enter-IsTidy P rec depth h (Ref.named name) = named-IsTidy (lookup name cfg.registry)
    where
      named-IsTidy : (o : Option Upstream) → IsTidy P (behind_name env cfg rec name o depth)
      named-IsTidy none = pure-IsTidy _
      named-IsTidy (some u) = h u

  -- A call with fuel for the depth that it has, and for the `DoH` objects that may have to make
  -- their client, comes to an end, whatever refers to whatever: it returns or panics. If it returns
  -- the query is as it was before the call, the objects that were making their client still do and
  -- no others, and no more objects have their client to make.
  pub run-IsTidy :
      (fuel idles : ℕ) (fs : List Bool) (depth : ℤ) (r : Ref)
      → calls_from depth + 66 * idles ≤ fuel
      → IsTidy (Within idles fs) (run env cfg fuel r depth)
  unfolding run
  run-IsTidy zero idles fs (pos n) r h = absurd (omega arith)
  run-IsTidy zero idles fs (negsuc n) r h = absurd (omega arith)
  run-IsTidy (suc fuel) idles fs (negsuc n) r h =
      enter-IsTidy _ (run env cfg fuel) (negsuc n) (λ u. rw behave-negative (pure-IsTidy _)) r
  run-IsTidy (suc fuel) idles fs (pos n) r h =
      enter-IsTidy _ (run env cfg fuel) (pos n)
        (behave-IsTidy idles n fs (run env cfg fuel)
          (λ m le r'.
            run-IsTidy fuel idles fs (less_one (pos m)) r'
              (omega (arith, h, calls_from-less_one m)))
          (λ j e gs r'. run-IsTidy fuel j gs (pos 64) r' (omega (arith, h, e))))
        r
