-- ===== src/System/Idle.antt =====
-- How many `DoH` objects have still to make their client.
use sec_dns.Prelude.{
  ℕ, zero, suc, ◌+◌, ◌≤◌, ◌≡◌, refl, sym, ap, ◌∙◌, inl, inr, Option-cases, arith, Option, none,
  some, Bool, true, false, List, [], ◌∷◌, Text,
}
use sec_dns.Resolvers.{QueryClient, DohState, Network, set_urls}
use sec_dns.Resolvers.Tidy.{Preserves}
use sec_dns.System.{World, cell_at, set_cell, slot_at, net_of}

abbrev weight_of : Option QueryClient → Bool → ℕ
weight_of none false = 1
weight_of none true = 0
weight_of (some c) b = 0

abbrev weight : DohState → ℕ
weight st = weight_of st.query_client st.initializing

abbrev pub idle : List DohState → ℕ
idle [] = 0
idle (x ∷ xs) = weight x + idle xs

-- Which objects make their client at the moment.
abbrev pub flags : List DohState → List Bool
flags [] = []
flags (x ∷ xs) = x.initializing ∷ flags xs

abbrev pub set_flag : ℕ → Bool → List Bool → List Bool
set_flag k b [] = []
set_flag zero b (x ∷ xs) = b ∷ xs
set_flag (suc k) b (x ∷ xs) = x ∷ set_flag k b xs

-- The worlds with so many idle objects, or fewer, in which just these make their client.
pub record Within {V : Type 0} (k : ℕ) (fs : List Bool) (w : World V) : Type 0 where
  pub few : idle w.cells ≤ k
  pub same : flags w.cells ≡ fs

flags-set_cell :
    (k : ℕ) (x : DohState) (cells : List DohState)
    → flags (set_cell k x cells) ≡ set_flag k x.initializing (flags cells)
flags-set_cell k x [] = refl
flags-set_cell zero x (y ∷ ys) = refl
flags-set_cell (suc k) x (y ∷ ys) = rw (flags-set_cell k x ys) refl

set_flag-set_flag :
    (k : ℕ) (b c : Bool) (fs : List Bool) → set_flag k b (set_flag k c fs) ≡ set_flag k b fs
set_flag-set_flag k b c [] = refl
set_flag-set_flag zero b c (x ∷ xs) = refl
set_flag-set_flag (suc k) b c (x ∷ xs) = rw (set_flag-set_flag k b c xs) refl

set_flag_self :
    (k : ℕ) (cells : List DohState)
    → set_flag k (cell_at k cells).initializing (flags cells) ≡ flags cells
set_flag_self k [] = refl
set_flag_self zero (y ∷ ys) = refl
set_flag_self (suc k) (y ∷ ys) = rw (set_flag_self k ys) refl

-- The flag is set, other things happen in which it stays, and it is taken away again.
pub flags-back :
    (k : ℕ) (c : QueryClient) (fs : List Bool) (cells later : List DohState)
    → flags cells ≡ fs
    → (cell_at k cells).initializing ≡ false
    → flags later ≡ set_flag k true fs
    → flags (set_cell k (record { query_client = some c; initializing = false }) later) ≡ fs
flags-back k c fs cells later e calm e' =
    flags-set_cell k _ later
    ∙ ap (set_flag k false) e'
    ∙ set_flag-set_flag k false true fs
    ∙ ap (set_flag k false) (sym e)
    ∙ rw calm at (set_flag_self k cells)
    ∙ e

pub flags-begin :
    (k : ℕ) (fs : List Bool) (cells : List DohState)
    → flags cells ≡ fs
    → flags (set_cell k (record { query_client = none; initializing = true }) cells)
      ≡ set_flag k true fs
flags-begin k fs cells e = flags-set_cell k _ cells ∙ ap (set_flag k true) e

pub flags-set_urls :
    (V : Type 0) (k : ℕ) (us : List Text) (cells : List DohState)
    → flags (set_cell k (set_urls (slot_at {V = V} k) us (cell_at k cells)) cells) ≡ flags cells
flags-set_urls V k us cells =
    flags-set_cell k _ cells
    ∙ ap (λ b. set_flag k b (flags cells)) (by (cell_at k cells))
    ∙ set_flag_self k cells
  where
    by : (st : DohState) → (set_urls (slot_at {V = V} k) us st).initializing ≡ st.initializing
    by st = elim (Option-cases st.query_client) [ inl e ↦ rw e refl | inr (c, e) ↦ rw e refl ]

idle-set_cell :
    (k : ℕ) (x : DohState) (cells : List DohState)
    → idle (set_cell k x cells) + weight (cell_at k cells) ≤ idle cells + weight x
idle-set_cell k x [] = omega arith
idle-set_cell zero x (y ∷ ys) = omega arith
idle-set_cell (suc k) x (y ∷ ys) = omega (arith, idle-set_cell k x ys)

-- The flag is set where there is no client.
pub idle-begin :
    (k : ℕ) (cells : List DohState)
    → (cell_at k cells).initializing ≡ false
    → (cell_at k cells).query_client ≡ none
    → idle (set_cell k (record { query_client = none; initializing = true }) cells) + 1 ≤ idle cells
idle-begin k cells calm empty =
    let one : weight (cell_at k cells) ≡ 1 = rw (calm, empty) refl in
    omega (arith, one, idle-set_cell k (record { query_client = none; initializing = true }) cells)

pub idle-end :
    (k : ℕ) (c : QueryClient) (cells : List DohState)
    → idle (set_cell k (record { query_client = some c; initializing = false }) cells) ≤ idle cells
idle-end k c cells =
    omega (arith, idle-set_cell k (record { query_client = some c; initializing = false }) cells)

weight-set_urls :
    (V : Type 0) (k : ℕ) (us : List Text) (st : DohState)
    → weight (set_urls (slot_at {V = V} k) us st) ≡ weight st
weight-set_urls V k us st = by st.query_client refl
  where
    by :
        (o : Option QueryClient)
        → st.query_client ≡ o
        → weight (set_urls (slot_at {V = V} k) us st) ≡ weight st
    by none e = rw e refl
    by (some c) e = rw e refl

pub idle-set_urls :
    (V : Type 0) (k : ℕ) (us : List Text) (cells : List DohState)
    → idle (set_cell k (set_urls (slot_at {V = V} k) us (cell_at k cells)) cells) ≤ idle cells
idle-set_urls V k us cells = omega (
  arith,
  weight-set_urls V k us (cell_at k cells),
  idle-set_cell k (set_urls (slot_at {V = V} k) us (cell_at k cells)) cells,
)

pub net_of-Preserves :
    {C V : Type 0} (net : Network C V) (k : ℕ) (fs : List Bool)
    → Preserves (Within k fs) (net_of net)
net_of-Preserves net k fs = record {
  dial = λ c r ip port w h. record { few = h.few; same = h.same };
  set_deadline = λ c t w h. record { few = h.few; same = h.same };
  write_msg = λ c m w h. record { few = h.few; same = h.same };
  read_msg = λ c w h. record { few = h.few; same = h.same };
  close = λ c w h. record { few = h.few; same = h.same };
}
