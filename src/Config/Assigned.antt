-- ===== src/Config/Assigned.antt =====
-- The descriptor of pkg/upstream/resolver/types.go, which describes any resolver.
use sec_dns.Prelude.{Option, none, some, ◌≡◌}
use sec_dns.Config.{Reflection, Assignments, assign, GoDescriptor, Describes}

module _ {T K V R : Type 0} {g : GoDescriptor V} (k : Describes g) (reflection : Reflection T K V)
    (fs : Assignments T K V R) where
  -- It is what some value is assigned to.
  abbrev pub Assigned : Option R → Type 0
  Assigned none = ⊥
  Assigned (some r) = (v : V) × (assign reflection fs v ≡ some r)
