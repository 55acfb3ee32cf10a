-- ===== src/Config/Dispatch.antt =====
-- pkg/upstream/resolver/types.go, pkg/rules/provider/types.go and pkg/listeners/server/types.go, which
-- have the same text: which function makes a resolver, a provider or a server of a value of the
-- configuration. With it the functions that internal/config/resolver, provider and server, and
-- internal/config/typed, register.
use sec_dns.Prelude.{Option, none, some, Bool, List, [], ◌∷◌, Text, if◌then◌else◌}
use sec_dns.Named.{NamedResolver}
use sec_dns.Named.Types.{report_named_resolver}
use sec_dns.Config.Values.{Described, accepted}

-- descriptor.AssignmentFunction: `none` is the result `ok == false`.
abbrev pub AssignmentFunction : Type 0 → Type 0 → Type 0
AssignmentFunction V R = V → Option R

-- Which function a map has for a key.
unfoldable pub find : {K A : Type 0} → (K → K → Bool) → K → List (K × A) → Option A
find same k [] = none
find same k ((key, f) ∷ fs) = let rest = find same k fs in if same key k then some f else rest

-- The two maps, the last assignment to a key first: `T` are types, `K` kinds of values.
pub record Assignments (T K V R : Type 0) : Type 0 where
  pub by_type : List (T × AssignmentFunction V R)
  pub by_kind : List (K × AssignmentFunction V R)

-- Values of the configuration, with the functions descriptor.TypeOf and KindOf.
pub record Reflection (T K V : Type 0) : Type 0 where
  pub type_of : V → T
  pub kind_of : V → K
  pub same_type : T → T → Bool
  pub same_kind : K → K → Bool

abbrev pub apply_found : {V R : Type 0} → Option (AssignmentFunction V R) → V → Option R
apply_found none v = none
apply_found (some f) v = f v

module _ {T K V R : Type 0} where
  -- RegisterAssignmentFunctionByType; `none` is nil
  unfoldable pub register_by_type :
      Option T → Option (AssignmentFunction V R) → Assignments T K V R → Assignments T K V R
  register_by_type (some t) (some f) fs = record fs { by_type = (t, f) ∷ fs.by_type }
  register_by_type _ _ fs = fs

  -- RegisterAssignmentFunctionByKind
  unfoldable pub register_by_kind :
      K → Option (AssignmentFunction V R) → Assignments T K V R → Assignments T K V R
  register_by_kind k none fs = fs
  register_by_kind k (some f) fs = record fs { by_kind = (k, f) ∷ fs.by_kind }

  -- The assignment function of `privateDescriptor`: by the type of the value, else by its kind.
  unfoldable pub assign : Reflection T K V → Assignments T K V R → V → Option R
  assign reflection fs v = elim (find reflection.same_type (reflection.type_of v) fs.by_type) [
    | some f ↦ f v
    | none ↦ apply_found (find reflection.same_kind (reflection.kind_of v) fs.by_kind) v
  ]

-- typed.Value
pub record TypedValue (V : Type 0) : Type 0 where
  pub type_name : Text
  pub value : V

-- By a descriptor that was looked up: the inner `none` is a nil descriptor.
abbrev pub described_by :
    {V D R : Type 0} → (D → V → Described R) → Option (Option D) → V → Option R
described_by describe none v = none
described_by describe (some none) v = none
described_by describe (some (some d)) v = accepted (describe d) v

-- The function that is registered for typed.Value: `as_typed` is the type assertion, `descriptors`
-- the look-up by type name.
unfoldable pub describe_typed :
    {V D R : Type 0}
    → (V → Option (TypedValue V))
    → (Text → Option (Option D))
    → (D → V → Described R)
    → AssignmentFunction V R
describe_typed as_typed descriptors describe v = elim (as_typed v) [
  | none ↦ none
  | some t ↦ described_by describe (descriptors t.type_name) t.value
]

-- The function that is registered for maps: to a typed.Value first, and then by its type.
unfoldable pub describe_map :
    {V R : Type 0} → (V → Described V) → (V → Described R) → AssignmentFunction V R
describe_map describe_value describe_any v = elim (accepted describe_value v) [
  | none ↦ none
  | some t ↦ accepted describe_any t
]

-- The same functions in pkg/rules/provider and pkg/listeners/server, and in internal/config/typed and
-- internal/config for providers and for servers.
unfoldable pub assign_provider :
    {T K V R : Type 0} → Reflection T K V → Assignments T K V R → V → Option R
unfolding assign
assign_provider reflection fs v = assign reflection fs v

unfoldable pub assign_server :
    {T K V R : Type 0} → Reflection T K V → Assignments T K V R → V → Option R
unfolding assign
assign_server reflection fs v = assign reflection fs v

module _ {T K V R : Type 0} where
  unfoldable pub register_provider_by_type :
      Option T → Option (AssignmentFunction V R) → Assignments T K V R → Assignments T K V R
  unfolding register_by_type
  register_provider_by_type t f fs = register_by_type t f fs

  unfoldable pub register_server_by_type :
      Option T → Option (AssignmentFunction V R) → Assignments T K V R → Assignments T K V R
  unfolding register_by_type
  register_server_by_type t f fs = register_by_type t f fs

  unfoldable pub register_provider_by_kind :
      K → Option (AssignmentFunction V R) → Assignments T K V R → Assignments T K V R
  unfolding register_by_kind
  register_provider_by_kind k f fs = register_by_kind k f fs

  unfoldable pub register_server_by_kind :
      K → Option (AssignmentFunction V R) → Assignments T K V R → Assignments T K V R
  unfolding register_by_kind
  register_server_by_kind k f fs = register_by_kind k f fs

module _ {V D R : Type 0} (as_typed : V → Option (TypedValue V))
    (descriptors : Text → Option (Option D)) (describe : D → V → Described R) where
  unfoldable pub describe_typed_provider : AssignmentFunction V R
  unfolding describe_typed
  describe_typed_provider v = describe_typed as_typed descriptors describe v

  unfoldable pub describe_typed_server : AssignmentFunction V R
  unfolding describe_typed
  describe_typed_server v = describe_typed as_typed descriptors describe v

module _ {V R : Type 0} (describe_value : V → Described V) (describe_any : V → Described R) where
  unfoldable pub describe_map_provider : AssignmentFunction V R
  unfolding describe_map
  describe_map_provider v = describe_map describe_value describe_any v

  unfoldable pub describe_map_server : AssignmentFunction V R
  unfolding describe_map
  describe_map_server v = describe_map describe_value describe_any v

-- The function that internal/config/named/resolver registers for strings: a named resolver, which it
-- reports.
unfoldable pub describe_named :
    {V R : Type 0}
    → (V → Described (NamedResolver R))
    → V
    → List (NamedResolver R)
    → Option (NamedResolver R) × List (NamedResolver R)
unfolding report_named_resolver
describe_named describe v known = elim (accepted describe v) [
  | none ↦ (none, known)
  | some nr ↦ (some nr, report_named_resolver (some nr) known)
]

module _ {T K V D R : Type 0} (typed : T) (map_kind : K) (as_typed : V → Option (TypedValue V))
    (descriptors : Text → Option (Option D)) (describe : D → V → Described R)
    (describe_value : V → Described V) (describe_any : V → Described R) where
  -- The two maps after the `init` functions of internal/config for providers, or for servers. For
  -- resolvers there is one function more, for strings.
  unfoldable pub configured : Assignments T K V R
  unfolding register_by_type register_by_kind
  configured = register_by_kind map_kind (some (describe_map describe_value describe_any)) (
      register_by_type (some typed) (some (describe_typed as_typed descriptors describe))
        (record { by_type = []; by_kind = [] }))
