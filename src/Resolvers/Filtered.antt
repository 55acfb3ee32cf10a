-- ===== src/Resolvers/Filtered.antt =====
-- What the filtering resolvers leave out.
use sec_dns.Prelude.{
  ℤ, pos, negsuc, less_one, ℕ, List, [], ◌∷◌, All, keep, Option, none, some, Bool, true, false, ◌≡◌,
  Bool-cases, inl, inr, ◌==◌, if◌then◌else◌,
}
use sec_dns.Dns.{Library, Documented, Msg, Rr, new_msg}
use sec_dns.Exec.{
  Error, Exit, done, panicked, stopped, Exec, Resolve, State, Outcome, ◌>>=◌, continue, reply,
  get_query,
}
use sec_dns.Common.{filter_resource_records}
use sec_dns.Resolvers.{
  guard_depth, filter_sections, filter_reply, not_a, not_aaaa, filter_out_a, filter_out_aaaa, Found,
  can_resolve_to_a, can_resolve_to_aaaa, hide, filter_if, filter_out_a_if_aaaa_presents,
  filter_out_aaaa_if_a_presents,
}

-- No section of the message has a record that fails the test.
pub record IsFiltered (p : Rr → Bool) (m : Msg) : Type 0 where
  pub answer : All (λ rr. p rr ≡ true) m.answer
  pub ns : All (λ rr. p rr ≡ true) m.ns
  pub extra : All (λ rr. p rr ≡ true) m.extra

abbrev pub FilteredMsg : (Rr → Bool) → Option Msg → Type 0
FilteredMsg p none = Unit
FilteredMsg p (some m) = IsFiltered p m

-- What holds of the message that a call returns.
abbrev pub Returns : (Outcome → Type 0) → Exit Outcome → Type 0
Returns P (done out) = P out
Returns P panicked = Unit
Returns P stopped = Unit

abbrev pub Filtered : (Rr → Bool) → Exit Outcome → Type 0
Filtered p = Returns (λ out. FilteredMsg p out.msg)

All-keep : (p : Rr → Bool) (rs : List Rr) → All (λ rr. p rr ≡ true) (keep p rs)
All-keep p [] = tt
All-keep p (rr ∷ rs) = elim (Bool-cases (p rr)) [
  | inl yes_p ↦ rw yes_p (yes_p, All-keep p rs)
  | inr no_p ↦ rw no_p (All-keep p rs)
]

filter_sections-IsFiltered : (p : Rr → Bool) (m : Msg) → IsFiltered p (filter_sections p m)
unfolding filter_sections filter_resource_records
filter_sections-IsFiltered p m = record {
  answer = All-keep p m.answer;
  ns = All-keep p m.ns;
  extra = All-keep p m.extra;
}

-- The reply without records.
blank-IsFiltered :
    (dns : Library)
    → Documented dns
    → (p : Rr → Bool) (q : Msg) → IsFiltered p (dns.set_reply new_msg q)
blank-IsFiltered dns doc p q = record {
  answer = rw doc.answer-set_reply tt;
  ns = rw doc.ns-set_reply tt;
  extra = rw doc.extra-set_reply tt;
}

module _ {W : Type 0} where
  filter_reply-Filtered :
      (p : Rr → Bool) (out : Outcome) (s : State W) → Filtered p (filter_reply p out s).0
  unfolding filter_reply ◌>>=◌
  filter_reply-Filtered p out s = by out.err out.msg
    where
      by :
          (e : Option Error) (o : Option Msg)
          → Filtered p (filter_reply p (record { msg = o; err = e }) s).0
      by (some e) o = tt
      by none none = tt
      by none (some m) = filter_sections-IsFiltered p m

  continue-Returns :
      {A : Type 0} (P : Outcome → Type 0) (r : Exit A) (f : A → Exec W Outcome) (s : State W)
      → ((x : A) (t : State W) → Returns P (f x t).0)
      → Returns P (continue r f s).0
  continue-Returns P (done x) f s h = h x s
  continue-Returns P panicked f s h = tt
  continue-Returns P stopped f s h = tt

  -- A block returns what its last call returns.
  bind-Returns :
      {A : Type 0} (P : Outcome → Type 0) (m : Exec W A) (f : A → Exec W Outcome) (s : State W)
      → ((x : A) (t : State W) → Returns P (f x t).0)
      → Returns P ((m >>= f) s).0
  unfolding ◌>>=◌
  bind-Returns P m f s h = continue-Returns P (m s).0 f (m s).1 h

  if-Returns :
      (P : Outcome → Type 0) (b : Bool) (m n : Exec W Outcome) (s : State W)
      → Returns P (m s).0
      → Returns P (n s).0
      → Returns P ((if b then m else n) s).0
  if-Returns P true m n s hm hn = hm
  if-Returns P false m n s hm hn = hn

  guard_depth-Returns :
      (P : Outcome → Type 0) (body : Resolve W) (depth : ℤ) (s : State W)
      → ((e : Error) → P (record { msg = none; err = some e }))
      → Returns P (body depth s).0
      → Returns P (guard_depth body depth s).0
  unfolding guard_depth ◌>>=◌
  guard_depth-Returns P body (pos n) s he h = h
  guard_depth-Returns P body (negsuc n) s he h = he _

  module _ (dns : Library) (doc : Documented dns) where
    blank-Filtered :
        (p : Rr → Bool) (s : State W)
        → Filtered p ((get_query >>= λ query. reply (dns.set_reply new_msg query)) s).0
    unfolding ◌>>=◌
    blank-Filtered p s = blank-IsFiltered dns doc p s.query

    module _ (r : Resolve W) (depth : ℤ) (s : State W) where
      -- With a DNS library as documented, no section of a reply of filterOutA has an A record,
      -- whatever the upstream resolver replies.
      pub filter_out_a-Filtered : Filtered not_a (filter_out_a dns r depth s).0
      unfolding filter_out_a
      filter_out_a-Filtered =
          guard_depth-Returns _ _ depth s (λ e. tt)
            (bind-Returns _ _ _ s λ q t.
              if-Returns _ (q.qtype == 1) _ _ t (blank-Filtered not_a t) (
                bind-Returns _ (r (less_one depth)) _ t λ out u. filter_reply-Filtered not_a out u))

      -- With a DNS library as documented, no section of a reply of filterOutAAAA has an AAAA
      -- record, whatever the upstream resolver replies.
      pub filter_out_aaaa-Filtered : Filtered not_aaaa (filter_out_aaaa dns r depth s).0
      unfolding filter_out_aaaa
      filter_out_aaaa-Filtered =
          guard_depth-Returns _ _ depth s (λ e. tt)
            (bind-Returns _ _ _ s λ q t.
              if-Returns _ (q.qtype == 28) _ _ t (blank-Filtered not_aaaa t) (
                bind-Returns _ (r (less_one depth)) _ t
                  λ out u. filter_reply-Filtered not_aaaa out u))

      hide-Filtered : (t : ℕ) (p : Rr → Bool) → Filtered p (hide dns t p r depth s).0
      unfolding hide
      hide-Filtered t p = bind-Returns _ _ _ s λ q t'.
          if-Returns _ (q.qtype == t) _ _ t' (blank-Filtered p t')
            (bind-Returns _ (r (less_one depth)) _ t' λ out u. filter_reply-Filtered p out u)

      filter_if-Filtered :
          (t : ℕ) (p : Rr → Bool) (e : Option Error)
          → Filtered p (filter_if dns t p r depth e true s).0
      unfolding filter_if ◌>>=◌
      filter_if-Filtered t p none = hide-Filtered t p
      filter_if-Filtered t p (some e) = tt

    module _ (r : Resolve W) (n : ℕ) (s t : State W) (f : Found) where
      -- With a DNS library as documented and at a depth not below 0: if the query for A records,
      -- asked first, finds some in a reply without an error, then no
      -- section of a reply of filterOutAAAAIfAPresents has an AAAA record.
      pub filter_out_aaaa_if_a_presents-Filtered :
          can_resolve_to_a r (pos n) s ≡ (done f, t)
          → f.present ≡ true
          → Filtered not_aaaa (filter_out_aaaa_if_a_presents dns r (pos n) s).0
      unfolding filter_out_aaaa_if_a_presents guard_depth ◌>>=◌
      filter_out_aaaa_if_a_presents-Filtered e h =
          rw (e, h) (filter_if-Filtered r (pos n) t 28 not_aaaa f.err)

      -- With a DNS library as documented and at a depth not below 0: if the query for AAAA records,
      -- asked first, finds some in a reply without an error, then no
      -- section of a reply of filterOutAIfAAAAPresents has an A record.
      pub filter_out_a_if_aaaa_presents-Filtered :
          can_resolve_to_aaaa r (pos n) s ≡ (done f, t)
          → f.present ≡ true
          → Filtered not_a (filter_out_a_if_aaaa_presents dns r (pos n) s).0
      unfolding filter_out_a_if_aaaa_presents guard_depth ◌>>=◌
      filter_out_a_if_aaaa_presents-Filtered e h =
          rw (e, h) (filter_if-Filtered r (pos n) t 1 not_a f.err)
