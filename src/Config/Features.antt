-- ===== src/Config/Features.antt =====
-- internal/features/features.go: the packages whose `init` functions register their types, each under
-- the name that the method TypeName of the type returns.
use sec_dns.Prelude.{Option, none, some, List, [], ◌∷◌, Text, codes}
use sec_dns.Config.Registration.{Prototype, RegistrationError, register}

abbrev pub address_name : Text
address_name = codes "address"

abbrev pub alias_name : Text
alias_name = codes "alias"

abbrev pub concurrent_name : Text
concurrent_name = codes "concurrentNameServerList"

abbrev pub dns64_name : Text
dns64_name = codes "dns64"

abbrev pub doh_name : Text
doh_name = codes "doh"

abbrev pub filter_out_a_name : Text
filter_out_a_name = codes "filterOutA"

abbrev pub filter_out_a_if_name : Text
filter_out_a_if_name = codes "filterOutAIfAAAAPresents"

abbrev pub filter_out_aaaa_name : Text
filter_out_aaaa_name = codes "filterOutAAAA"

abbrev pub filter_out_aaaa_if_name : Text
filter_out_aaaa_if_name = codes "filterOutAAAAIfAPresents"

abbrev pub name_server_name : Text
name_server_name = codes "nameServer"

abbrev pub no_answer_name : Text
no_answer_name = codes "noAnswer"

abbrev pub not_exist_name : Text
not_exist_name = codes "notExist"

abbrev pub sequence_name : Text
sequence_name = codes "sequence"

abbrev pub collection_name : Text
collection_name = codes "collection"

abbrev pub dnsmasq_name : Text
dnsmasq_name = codes "dnsmasqConf"

abbrev pub server_name : Text
server_name = codes "dnsServer"

-- The resolvers, as the imports have them.
unfoldable pub resolver_names : List Text
resolver_names =
    address_name ∷ alias_name ∷ concurrent_name ∷ dns64_name ∷ doh_name ∷ filter_out_a_name
    ∷ filter_out_a_if_name ∷ filter_out_aaaa_name ∷ filter_out_aaaa_if_name ∷ name_server_name
    ∷ no_answer_name ∷ not_exist_name ∷ sequence_name ∷ []

unfoldable pub provider_names : List Text
provider_names = collection_name ∷ dnsmasq_name ∷ []

unfoldable pub server_names : List Text
server_names = server_name ∷ []

-- What a row of registrations leaves: the errors that are reported, and the map.
pub record Registrations (D : Type 0) : Type 0 where
  pub errors : List RegistrationError
  pub registered : List (Text × D)

abbrev pub with_error : {D : Type 0} → Option RegistrationError → Registrations D → Registrations D
with_error none r = r
with_error (some e) r = record r { errors = e ∷ r.errors }

-- The `init` functions, one after another: an error is reported, and the next one runs.
unfoldable pub register_each :
    {D : Type 0} → (D → Prototype) → List D → List (Text × D) → Registrations D
unfolding register
register_each prototype [] registered = record { errors = []; registered = registered }
register_each prototype (d ∷ ds) registered =
    let (e, registered') = register prototype (some d) registered in
    with_error e (register_each prototype ds registered')
