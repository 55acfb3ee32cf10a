-- ===== src/Named.antt =====
-- internal/config/named/resolver: resolvers by their unique names. The registry is shared by
-- pointer, so the functions that write it return it; `none` is the pointer nil.
pub mod Registered
pub mod Types
use sec_dns.Prelude.{Option, none, some, List, [], ◌∷◌, Text, lookup, insert}
use sec_dns.Exec.{Error, Resolve, nil_name_registry, not_found, already_existed, fail}

-- `registry` is `none` for the map nil, and a value is `none` for the interface value nil.
pub record NameRegistry (R : Type 0) : Type 0 where
  pub registry : Option (List (Text × Option R))

pub record NamedResolver (R : Type 0) : Type 0 where
  pub name : Text
  pub resolver : Option R

module _ {R : Type 0} where
  -- The map, made if it is nil.
  abbrev pub entries : NameRegistry R → List (Text × Option R)
  entries nr = elim nr.registry [ none ↦ [] | some m ↦ m ]

  abbrev pub store_new :
      Option (Option R) → NameRegistry R → Text → Option R → Option Error × Option (NameRegistry R)
  store_new (some old) nr name r =
      (some (already_existed name), some (record { registry = some (entries nr) }))
  store_new none nr name r = (none, some (record { registry = some (insert name r (entries nr)) }))

  -- The method `NameResolver`: the error, and the registry afterwards.
  unfoldable pub name_resolver :
      Option (NameRegistry R) → Text → Option R → Option Error × Option (NameRegistry R)
  name_resolver none name r = (some nil_name_registry, none)
  name_resolver (some nr) name r = store_new (lookup name (entries nr)) nr name r

  abbrev cache : Option (Option R) → NamedResolver R → NamedResolver R
  cache (some (some r)) n = record n { resolver = some r }
  cache _ n = n

  -- The method `Init` of a named resolver: it and the registry afterwards.
  unfoldable pub init_named :
      Option (NameRegistry R) → NamedResolver R → NamedResolver R × Option (NameRegistry R)
  init_named none n = (n, none)
  init_named (some nr) n =
      (cache (lookup n.name (entries nr)) n, some (record { registry = some (entries nr) }))

  abbrev init_if_nil :
      Option R
      → Option (NameRegistry R)
      → NamedResolver R
      → NamedResolver R × Option (NameRegistry R)
  init_if_nil (some r) reg n = (n, reg)
  init_if_nil none reg n = init_named reg n

  -- `if nr.resolver == nil { nr.Init() }`, with which the methods begin
  unfoldable pub ready :
      Option (NameRegistry R) → NamedResolver R → NamedResolver R × Option (NameRegistry R)
  unfolding init_named
  ready reg n = init_if_nil n.resolver reg n

-- The loop of `InitKnownNamedResolvers` over pointers to distinct named resolvers: the error, and
-- what these and the registry are afterwards.
pub record Known (R : Type 0) : Type 0 where
  pub err : Option Error
  pub resolvers : List (NamedResolver R)
  pub registry : Option (NameRegistry R)

module _ {R : Type 0} where
  abbrev keep_known : NamedResolver R → Known R → Known R
  keep_known n k = record k { resolvers = n ∷ k.resolvers }

  abbrev check_known :
      Option R
      → NamedResolver R
      → List (NamedResolver R)
      → Option (NameRegistry R)
      → Known R
      → Known R
  check_known none n ns reg rest = record {
    err = some (not_found n.name);
    resolvers = n ∷ ns;
    registry = reg;
  }
  check_known (some r) n ns reg rest = keep_known n rest

  unfoldable pub init_each : Option (NameRegistry R) → List (NamedResolver R) → Known R
  unfolding ready
  init_each reg [] = record { err = none; resolvers = []; registry = reg }
  init_each reg (n ∷ ns) =
      let (n', reg') = ready reg n in check_known n'.resolver n' ns reg' (init_each reg' ns)

-- The method `Resolve`: with the named resolver and the registry as `ready` leaves them.
module _ {W : Type 0} where
  unfoldable pub ask_named : Text → Option (Resolve W) → Resolve W
  ask_named name none depth = fail (not_found name)
  ask_named name (some r) depth = r depth

  unfoldable pub resolve_named :
      Option (NameRegistry (Resolve W)) → NamedResolver (Resolve W) → Resolve W
  unfolding ready
  resolve_named reg n = ask_named n.name (ready reg n).0.resolver
