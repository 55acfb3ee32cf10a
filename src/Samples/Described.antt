-- ===== src/Samples/Described.antt =====
-- Values of the configuration, a go-descriptor that does what its documentation says, and objects
-- that it makes of them.
use sec_dns.Prelude.{
  length, ◌==◌, some_same, ℕ, ℤ, pos, ◌≡◌, ◌≤◌, ◌↔◌, refl, Option, none, some, Bool, true, false,
  List, [], ◌∷◌, Text, codes, lookup, map, if◌then◌else◌, sym, ◌∙◌, subst,
}
use sec_dns.Dns.{plain_library}
use sec_dns.Config.{
  Value, text, object, Described, accepted, GoDescriptor, Describes, Basic, kind_string,
  first_result, set_field, fill_each, new_name_server, two_seconds, name_server_filler, to_port,
  assigned,
}
use sec_dns.Resolvers.{Address}
use sec_dns.Config.{array, address_of_array, Reflection, Assignments}
use sec_dns.Config.Converted.{Sized, address_of_array-Sized}
use sec_dns.Config.Assigned.{Assigned}
use sec_dns.Config.Ports.{integer_of, to_port_iff}
use sec_dns.Config.Omitted.{describe-address_only}
use sec_dns.Config.Tabled.{Set, DescribesAll}
use sec_dns.System.{Ref}
use sec_dns.System.Given.{Conversions}
use sec_dns.System.Configured.{NotNil}

-- A text, or an object whose members are texts.
pub data Plain : Type 0 where
  plain : Text → Plain
  members : List (Text × Text) → Plain

abbrev pub with_plain : Text × Text → Text × Plain
with_plain (key, s) = (key, plain s)

abbrev decoded_plain : Plain → Value ℕ Plain
decoded_plain (plain s) = text s
decoded_plain (members ms) = object (map with_plain ms)

abbrev found_plain : Option Text → Option Plain
found_plain none = none
found_plain (some s) = some (plain s)

abbrev at_plain : List Text → Plain → Option Plain
at_plain [] v = some v
at_plain (key ∷ []) (members ms) = found_plain (lookup key ms)
at_plain _ v = none

abbrev plain_of_kind : Basic → Plain → Bool
plain_of_kind kind_string (plain s) = true
plain_of_kind b v = false

abbrev text_of : Plain → Option (Option Text)
text_of (plain s) = some (some s)
text_of v = none

abbrev described_as : {R : Type 0} → Option R → Described R
described_as none = record { value = none; successes = 0; failures = 1 }
described_as (some r) = record { value = some r; successes = 1; failures = 0 }

-- Kinds, sources and fillers are the functions that they come to.
abbrev pub by_functions : GoDescriptor Plain
by_functions = record {
  Kind = λ A. Plain → Option (Option A);
  Source = λ A. Plain → Option (Option A);
  Filler = λ R. Plain → R → Option R;
  root = [];
  string = text_of;
  bool = λ v. none;
  convertible = λ b f v. if plain_of_kind b v then f v else none;
  assignable_kinds = λ ks v. first_result (λ k. k v) ks;
  assignment = λ f. f;
  object_at = λ path k v. elim (at_plain path v) [ none ↦ none | some u ↦ k u ];
  default_value = λ a v. some a;
  value_sources = λ ss v. first_result (λ s. s v) ss;
  object_filler = λ set s v r. set_field set (s v) r;
  fillers = λ fs v. fill_each (λ f. f v) fs;
  describe = λ new f v. described_as (f v new);
}

pub accepted-described_as :
    {R : Type 0} (o : Option R) (v : Plain) → accepted (λ (u : Plain). described_as o) v ≡ o
accepted-described_as none v = refl
accepted-described_as (some r) v = refl

abbrev pub by_functions-Describes : Describes by_functions
by_functions-Describes = record {
  at_path = at_plain;
  is_of_kind = plain_of_kind;
  converted = λ k. k;
  value_of = λ s. s;
  fill = λ f. f;
  at_root = λ v. refl;
  at_no_path = λ v. refl;
  converted-convertible = λ b f v. refl;
  converted-assignable_kinds = λ ks v. refl;
  converted-assignment = λ f v. refl;
  value_of-object_at = λ path k v. refl;
  value_of-default_value = λ a v. refl;
  value_of-value_sources = λ ss v. refl;
  fill-object_filler = λ set s v r. refl;
  fill-fillers = λ fs v r. refl;
  accepted-describe = λ new f v r e. sym (accepted-described_as (f v new) v) ∙ e;
  accepted-filled = λ new set s fs v r e. accepted-described_as _ v ∙ e;
}

abbrev pub localhost : List ℕ
localhost = 127 ∷ 0 ∷ 0 ∷ 1 ∷ []

abbrev pub only_an_address : Plain
only_an_address = members ((codes "address", codes "127.0.0.1") ∷ [])

abbrev parse_localhost : Text → Option (List ℕ)
parse_localhost s = some localhost

abbrev as_integer : ℕ → ℤ
as_integer n = pos n

abbrev always_853 : Text → Option ℤ
always_853 s = some (pos 853)

abbrev no_float : Text → Option ℕ
no_float s = none

describe-address_only_example :
    accepted
      (by_functions.describe new_name_server (
        name_server_filler by_functions decoded_plain parse_localhost as_integer as_integer
          always_853 no_float))
      only_an_address
    ≡ some (record new_name_server {
      address = localhost;
      port = 53;
      protocol = codes "udp";
      query_timeout = two_seconds;
    })
unfolding lookup
describe-address_only_example =
    describe-address_only by_functions-Describes decoded_plain parse_localhost as_integer as_integer
      always_853 no_float only_an_address (plain (codes "127.0.0.1")) (codes "127.0.0.1") localhost
      refl refl refl refl refl refl refl refl refl refl refl refl

to_port_iff_example :
    (to_port {V = Plain} as_integer always_853 (text (codes "853")) ≡ some 853) ↔ (
      (integer_of {V = Plain} as_integer always_853 (text (codes "853")) ≡ some (pos 853))
      × (853 ≤ 65535))
to_port_iff_example = to_port_iff {V = Plain} as_integer always_853 (text (codes "853")) 853

-- A text is the name of a resolver, and nothing else is a resolver.
abbrev by_name : Plain → Described Ref
by_name (plain s) = described_as (some (Ref.named s))
by_name (members ms) = described_as none

abbrev pub conversions : Conversions ℕ Plain
conversions = record {
  decoded = decoded_plain;
  dns = plain_library;
  parse_ip = parse_localhost;
  to_4 = λ ip. none;
  parse_url = λ s. some s;
  truncate = as_integer;
  seconds = as_integer;
  atoi = always_853;
  parse_float = no_float;
  describe_any = by_name;
  empty = plain [];
}

by_name-NotNil : (v : Plain) (o : Option Ref) → assigned by_name v ≡ some o → Set NotNil o
unfolding assigned
by_name-NotNil (plain s) o e = subst (Set NotNil) (some_same e) tt
by_name-NotNil (members ms) o e = absurd cc

pub names-NotNil : DescribesAll NotNil conversions.describe_any
names-NotNil = record { all = by_name-NotNil }

-- An IPv4 address, an IPv6 address, and a text that is neither.
abbrev by_length : Text → Option (List ℕ)
by_length s = if length s == 4 then some s else if length s == 16 then some s else none

address_of_array-Sized_example :
    (addr : Address) × (address_of_array decoded_plain by_length
        (array (plain (codes "abcd") ∷ plain (codes "abc") ∷ plain (codes "0123456789abcdef") ∷ []))
      ≡ some addr)
    × Sized addr
address_of_array-Sized_example =
    address_of_array-Sized decoded_plain by_length
      (plain (codes "abcd") ∷ plain (codes "abc") ∷ plain (codes "0123456789abcdef") ∷ [])

-- Texts are of kind 1, for which a function is registered, and maps of kind 2.
abbrev kinds : Reflection ℕ ℕ Plain
kinds = record {
  type_of = λ v. 0;
  kind_of = λ v. elim v [ plain s ↦ 1 | members ms ↦ 2 ];
  same_type = λ s t. s == t;
  same_kind = λ s t. s == t;
}

abbrev for_texts : Assignments ℕ ℕ Plain ℕ
for_texts = record { by_type = []; by_kind = (1, λ v. some 5) ∷ [] }
