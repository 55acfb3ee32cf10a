-- ===== src/Config/Values.antt =====
-- The functions `ConvertFunction` of the descriptors: from the decoded JSON to values of the
-- program. `none` is the result `ok == false`.
use sec_dns.Prelude.{
  ◌%◌, ◌^◌, ℕ, ◌+◌, Option, none, some, Bool, ◌&&◌, ◌||◌, true, false, List, [], ◌∷◌, ◌++◌, Text,
  length, ltb, leb, ◌==◌, if◌then◌else◌, ℤ, pos, negsuc,
}
use sec_dns.Resolvers.{Address, make_address}
use sec_dns.Named.{NameRegistry, name_resolver}

-- What encoding/json makes of a value: `F` are the numbers, `V` the values inside.
pub data Value (F V : Type 0) : Type 0 where
  text : Text → Value F V
  number : F → Value F V
  array : List V → Value F V
  object : List (Text × V) → Value F V
  -- nil, true and false
  scalar : Value F V

-- The results of `Describe`, the first after the type assertion.
pub record Described (R : Type 0) : Type 0 where
  pub value : Option R
  pub successes : ℕ
  pub failures : ℕ

module _ {V R : Type 0} (describe : V → Described R) where
  -- `s > 0 && f < 1`, and the type assertion
  abbrev pub accepted : V → Option R
  accepted v = let d = describe v in if ltb 0 d.successes && ltb d.failures 1 then d.value else none

  -- The same in an assignment function, whose result may be nil.
  unfoldable pub assigned : V → Option (Option R)
  assigned v =
      let d = describe v in if ltb 0 d.successes && ltb d.failures 1 then some d.value else none

  abbrev pub cons_accepted : Option R → List R → List R
  cons_accepted none rs = rs
  cons_accepted (some r) rs = r ∷ rs

  abbrev count_error : Option R → ℕ → ℕ
  count_error none n = n + 1
  count_error (some r) n = n

  -- The loop over a slice: the values that were accepted, and `errorCount`.
  unfoldable pub accept_each : List V → List R
  accept_each [] = []
  accept_each (v ∷ vs) = cons_accepted (accepted v) (accept_each vs)

  unfoldable pub error_count : List V → ℕ
  error_count [] = 0
  error_count (v ∷ vs) = count_error (accepted v) (error_count vs)

module _ {F V R : Type 0} (describe : V → Described R) where
  unfoldable pub to_listeners : Value F V → Option (List R)
  unfolding accept_each error_count
  to_listeners (array vs) =
      if ltb (error_count describe vs) 1 then some (accept_each describe vs) else none
  to_listeners _ = none

  unfoldable pub to_rules : Value F V → Option (List R)
  unfolding accept_each error_count
  to_rules (array vs) =
      if ltb 0 (length (accept_each describe vs)) || ltb (error_count describe vs) 1
      then some (accept_each describe vs)
      else none
  to_rules _ = none

  -- of sequence, and of concurrentNameServerList
  unfoldable pub to_sequence : Value F V → Option (List R)
  unfolding accept_each
  to_sequence (array vs) = some (accept_each describe vs)
  to_sequence _ = none

  unfoldable pub to_name_servers : Value F V → Option (List R)
  unfolding accept_each
  to_name_servers (array vs) = some (accept_each describe vs)
  to_name_servers _ = none

-- The object `resolvers`: objects by type name, and in these configurations by resolver name. The
-- order is that in which Go ranges over the maps.
module _ {F V D R : Type 0} (decoded : V → Value F V) (descriptors : Text → Option D)
    (describe : D → V → Described R) where
  abbrev name_it : Option (NameRegistry R) → Text → Option R → Option (NameRegistry R)
  name_it reg name none = reg
  name_it reg name (some r) = (name_resolver reg name (some r)).1

  abbrev pub name_each : D → List (Text × V) → Option (NameRegistry R) → Option (NameRegistry R)
  name_each d [] reg = reg
  name_each d ((name, v) ∷ vs) reg = name_each d vs (name_it reg name (accepted (describe d) v))

  abbrev of_type : Option D → Value F V → Option (NameRegistry R) → Option (NameRegistry R)
  of_type (some d) (object vs) reg = name_each d vs reg
  of_type _ _ reg = reg

  abbrev pub name_types : List (Text × V) → Option (NameRegistry R) → Option (NameRegistry R)
  name_types [] reg = reg
  name_types ((name, v) ∷ vs) reg = name_types vs (of_type (descriptors name) (decoded v) reg)

  -- Whether the value was one, and the registry afterwards.
  unfoldable pub to_resolvers : Value F V → Option (NameRegistry R) → Bool × Option (NameRegistry R)
  to_resolvers (object vs) reg = (true, name_types vs reg)
  to_resolvers _ reg = (false, reg)

-- `parse` is common.ParseIPv4v6, with `none` for nil.
module _ {F V : Type 0} (decoded : V → Value F V) (parse : Text → Option (List ℕ)) where
  -- The two cases of the `switch len(ip)`, and the default.
  abbrev pub put : List ℕ → Address → Option Address
  put ip addr =
      if length ip == 4
      then some (record addr { v4 = addr.v4 ++ ip ∷ [] })
      else if length ip == 16
      then some (record addr { v6 = addr.v6 ++ ip ∷ [] })
      else none

  unfoldable pub address_of_text : Value F V → Option Address
  address_of_text (text s) = elim (parse s) [ none ↦ none | some ip ↦ put ip make_address ]
  address_of_text _ = none

  abbrev pub or_skip : Option Address → Address → Address
  or_skip none addr = addr
  or_skip (some new) addr = new

  abbrev pub put_value : Value F V → Address → Address
  put_value (text s) addr = elim (parse s) [ none ↦ addr | some ip ↦ or_skip (put ip addr) addr ]
  put_value _ addr = addr

  abbrev pub put_all : List V → Address → Address
  put_all [] addr = addr
  put_all (v ∷ vs) addr = put_all vs (put_value (decoded v) addr)

  unfoldable pub address_of_array : Value F V → Option Address
  address_of_array (array vs) = some (put_all vs make_address)
  address_of_array _ = none

-- The conversion uint16(n), which wraps around.
abbrev pub uint16 : ℕ → ℕ
uint16 n = n % 2 ^ 16

-- `if i >= 0 && i <= 65535 { return uint16(i), true }`
abbrev pub port_of_int : ℤ → Option ℕ
port_of_int (pos n) = if leb n 65535 then some (uint16 n) else none
port_of_int (negsuc n) = none

-- `truncate` is Go's conversion int(f), `atoi` is strconv.Atoi.
module _ {F V : Type 0} (truncate : F → ℤ) (atoi : Text → Option ℤ) where
  unfoldable pub to_resolution_depth : Value F V → Option ℤ
  to_resolution_depth (number f) = some (truncate f)
  to_resolution_depth (text s) = atoi s
  to_resolution_depth _ = none

  unfoldable pub to_port : Value F V → Option ℕ
  to_port (number f) = port_of_int (truncate f)
  to_port (text s) = elim (atoi s) [ none ↦ none | some i ↦ port_of_int i ]
  to_port _ = none
