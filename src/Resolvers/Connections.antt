-- ===== src/Resolvers/Connections.antt =====
-- A name server closes what it opens.
use sec_dns.Prelude.{
  ℕ, ◌+◌, ◌*◌, ◌/◌, ◌≤◌, ◌<◌, ltb, inl, inr, Bool-cases, ◌≡◌, refl, ℤ, pos, negsuc, arith, List,
}
use sec_dns.Dns.{Msg}
use sec_dns.Exec.{State, ◌>>=◌}
use sec_dns.Resolvers.{
  guard_depth, NameServer, socks5_timeout, second, Client, Route, Network, Dialled, connected,
  unreachable, dial_panicked, exchange, name_server, client_of, route, ask, prepared,
}

abbrev opened_by : {C : Type 0} → Dialled C → ℕ
opened_by (connected c) = 1
opened_by (unreachable e) = 0
opened_by dial_panicked = 0

-- The connection that a dial returned is open in this world.
abbrev OpenedIn : {C W : Type 0} → (C → W → Type 0) → Dialled C → W → Type 0
OpenedIn is_open (connected c) w = is_open c w
OpenedIn is_open (unreachable e) w = Unit
OpenedIn is_open dial_panicked w = Unit

-- What the documentation of net says of connections: a dial that returns one opens it, it stays
-- open while it is used, and `Close` closes an open one. `open_in` counts the open ones.
pub record Counted {C W : Type 0} (net : Network C W) : Type 1 where
  pub open_in : W → ℕ
  pub IsOpen : C → W → Type 0
  pub IsOpen-dial :
      (c : Client) (r : Route) (ip : List ℕ) (port : ℕ) (w : W)
      → OpenedIn IsOpen (net.dial c r ip port w).0 (net.dial c r ip port w).1
  pub open-dial :
      (c : Client) (r : Route) (ip : List ℕ) (port : ℕ) (w : W)
      → open_in (net.dial c r ip port w).1 ≡ open_in w + opened_by (net.dial c r ip port w).0
  pub IsOpen-set_deadline : (c : C) (t : ℤ) (w : W) → IsOpen c w → IsOpen c (net.set_deadline c t w)
  pub open-set_deadline : (c : C) (t : ℤ) (w : W) → open_in (net.set_deadline c t w) ≡ open_in w
  pub IsOpen-write_msg : (c : C) (m : Msg) (w : W) → IsOpen c w → IsOpen c (net.write_msg c m w).1
  pub open-write_msg : (c : C) (m : Msg) (w : W) → open_in (net.write_msg c m w).1 ≡ open_in w
  pub IsOpen-read_msg : (c : C) (w : W) → IsOpen c w → IsOpen c (net.read_msg c w).1
  pub open-read_msg : (c : C) (w : W) → open_in (net.read_msg c w).1 ≡ open_in w
  pub open-close : (c : C) (w : W) → IsOpen c w → open_in (net.close c w) + 1 ≡ open_in w

module _ {C W : Type 0} (net : Network C W) (k : Counted net) where
  exchange_open :
      (c : C) (q : Msg) (w : W) → k.IsOpen c w → k.open_in (exchange net c q w).1 + 1 ≡ k.open_in w
  unfolding exchange
  exchange_open c q w o =
      let o₁ : k.IsOpen c (net.write_msg c q w).1 = k.IsOpen-write_msg c q w o in
      let o₂ : k.IsOpen c (net.read_msg c (net.write_msg c q w).1).1 = k.IsOpen-read_msg c _ o₁ in
      ground (
        arith,
        k.open-write_msg c q w,
        k.open-read_msg c (net.write_msg c q w).1,
        k.open-close c (net.write_msg c q w).1 o₁,
        k.open-close c (net.read_msg c (net.write_msg c q w).1).1 o₂,
      )

  ask_open :
      (ns : NameServer) (d : Dialled C) (q : Msg) (w w₀ : W)
      → OpenedIn k.IsOpen d w
      → k.open_in w ≡ k.open_in w₀ + opened_by d
      → k.open_in (ask net ns (d, w) q).1.world ≡ k.open_in w₀
  ask_open ns (connected c) q w w₀ o h =
      let w₁ = net.set_deadline c ns.query_timeout w in
      omega (
        arith,
        exchange_open c q w₁ (k.IsOpen-set_deadline c ns.query_timeout w o),
        k.open-set_deadline c ns.query_timeout w,
      )
  ask_open ns (unreachable e) q w w₀ o h = omega arith
  ask_open ns dial_panicked q w w₀ o h = omega arith

  -- If the network counts its open connections as documented, a call of a name server leaves as
  -- many open as there were before it, whatever the server does.
  pub name_server_open :
      (ns : NameServer) (depth : ℤ) (s : State W)
      → k.open_in (name_server net ns depth s).1.world ≡ k.open_in s.world
  unfolding name_server guard_depth ◌>>=◌
  name_server_open ns (negsuc n) s = refl
  name_server_open ns (pos n) s =
      let c = client_of net ns in
      ask_open ns _ s.query _ s.world (k.IsOpen-dial c (route c) ns.address ns.port s.world)
        (k.open-dial c (route c) ns.address ns.port s.world)

-- A name server that has stored its client asks the same way as one that has not made it yet.
name_server-prepared :
    {C W : Type 0} (net : Network C W) (ns : NameServer) (depth : ℤ) (s : State W)
    → name_server net (prepared net ns) depth s ≡ name_server net ns depth s
unfolding name_server prepared guard_depth
name_server-prepared net ns depth s = refl

-- The timeout of the SOCKS5 client is the query timeout rounded up to whole seconds.
pub socks5_timeout_bounds :
    (t : ℕ)
    → (n : ℕ) × (socks5_timeout (pos t) ≡ pos n) × (t ≤ n * second) × (n * second < t + second)
unfolding socks5_timeout
socks5_timeout_bounds t = elim (Bool-cases (ltb (t / second * second) t)) [
  | inl more ↦ (t / second + 1, rw more refl, ground arith, ground arith)
  | inr exact ↦ (t / second, rw exact refl, ground arith, ground arith)
]
