-- ===== src/Config/Registration.antt =====
-- pkg/upstream/resolver/registration.go, pkg/rules/provider/registration.go and
-- pkg/listeners/server/registration.go: descriptors by the names of their types. The three files
-- differ in the interface that a prototype must have, and in the map that they write.
use sec_dns.Prelude.{
  Option, none, some, List, [], Text, codes, lookup, insert, text_eq, if◌then◌else◌,
}

-- The prototype of a descriptor: the text of its Go type, and what `TypeName` returns if it has
-- the interface asked for.
pub record Prototype : Type 0 where
  pub type_string : Text
  pub type_name : Option Text

pub data RegistrationError : Type 0 where
  not_registrable already_registered : Text → RegistrationError

module _ {D : Type 0} where
  abbrev pub store :
      Option D → Text → D → List (Text × D) → Option RegistrationError × List (Text × D)
  store (some old) name d registered = (some (already_registered name), registered)
  store none name d registered = (none, insert name d registered)

  abbrev pub by_name :
      Option Text → Text → D → List (Text × D) → Option RegistrationError × List (Text × D)
  by_name none type_string d registered = (some (not_registrable type_string), registered)
  by_name (some name) type_string d registered =
      if text_eq name []
      then (some (not_registrable type_string), registered)
      else store (lookup name registered) name d registered

  -- The error and the map afterwards; `none` is the descriptor nil.
  unfoldable pub register :
      (D → Prototype) → Option D → List (Text × D) → Option RegistrationError × List (Text × D)
  register prototype none registered = (some (not_registrable (codes "<nil>")), registered)
  register prototype (some d) registered =
      by_name (prototype d).type_name (prototype d).type_string d registered

  unfoldable pub register_resolver :
      (D → Prototype) → Option D → List (Text × D) → Option RegistrationError × List (Text × D)
  register_resolver prototype d registered = register prototype d registered

  unfoldable pub register_provider :
      (D → Prototype) → Option D → List (Text × D) → Option RegistrationError × List (Text × D)
  register_provider prototype d registered = register prototype d registered

  unfoldable pub register_server :
      (D → Prototype) → Option D → List (Text × D) → Option RegistrationError × List (Text × D)
  register_server prototype d registered = register prototype d registered
