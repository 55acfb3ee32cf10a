-- ===== src/System/Memory.antt =====
-- The memory of a configured system: the `DoH` objects, which their resolvers change, by their
-- addresses. All other objects of the graph keep their fields.
use sec_dns.Prelude.{ℕ, zero, suc, none, true, List, [], ◌∷◌}
use sec_dns.Dns.{Library}
use sec_dns.Resolvers.{DohState, Network, Web, Slot, Urls}
use sec_dns.Listeners.{Sockets}

pub record World (V : Type 0) : Type 0 where
  pub cells : List DohState
  pub outside : V

-- What is read at an address that no object has; no run of the program does that.
abbrev pub no_cell : DohState
no_cell = record { query_client = none; initializing = true }

abbrev pub cell_at : ℕ → List DohState → DohState
cell_at k [] = no_cell
cell_at zero (x ∷ xs) = x
cell_at (suc k) (x ∷ xs) = cell_at k xs

abbrev pub set_cell : ℕ → DohState → List DohState → List DohState
set_cell k new [] = []
set_cell zero new (x ∷ xs) = new ∷ xs
set_cell (suc k) new (x ∷ xs) = x ∷ set_cell k new xs

-- The code outside of the program: the libraries, the network, and the order in which goroutines
-- end.
pub record Env (C V : Type 0) : Type 0 where
  pub dns : Library
  pub urls : Urls
  pub net : Network C V
  pub web : Web V
  pub schedule : V → List ℕ

module _ {V : Type 0} where
  abbrev pub slot_at : ℕ → Slot (World V)
  slot_at k = record {
    read = λ w. cell_at k w.cells;
    write = λ x w. record w { cells = set_cell k x w.cells };
  }

  -- The outside has no part in the memory of the program.
  abbrev pub net_of : {C : Type 0} → Network C V → Network C (World V)
  net_of net = record {
    dial = λ c r ip port w.
        let (x, v) = net.dial c r ip port w.outside in (x, record w { outside = v });
    set_deadline = λ c t w. record w { outside = net.set_deadline c t w.outside };
    write_msg = λ c m w. let (x, v) = net.write_msg c m w.outside in (x, record w { outside = v });
    read_msg = λ c w. let (x, v) = net.read_msg c w.outside in (x, record w { outside = v });
    close = λ c w. record w { outside = net.close c w.outside };
  }

  abbrev pub web_of : Web V → Web (World V)
  web_of web = record {
    pack = web.pack;
    new_request = web.new_request;
    post =
        λ c url wire w. let (x, v) = web.post c url wire w.outside in (x, record w { outside = v });
    unpack = web.unpack;
  }

  abbrev pub schedule_of : (V → List ℕ) → World V → List ℕ
  schedule_of schedule w = schedule w.outside

  abbrev pub sockets_of : Sockets V → Sockets (World V)
  sockets_of sockets = record {
    ip_string = sockets.ip_string;
    itoa = sockets.itoa;
    join_host_port = sockets.join_host_port;
    listen_and_serve = λ address network w. sockets.listen_and_serve address network w.outside;
    write_msg = λ m w. let (x, v) = sockets.write_msg m w.outside in (x, record w { outside = v });
  }
