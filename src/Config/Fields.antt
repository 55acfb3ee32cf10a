-- ===== src/Config/Fields.antt =====
-- The functions `ConvertFunction` for single fields: IP addresses, times, URLs, names, switches and
-- the rules of a collection. net, net/url, strconv and the arithmetic of floating-point numbers are
-- parameters.
use sec_dns.Prelude.{
  ℕ, Option, none, some, Bool, true, false, List, [], Text, codes, text_eq, length, ◌==◌,
  if◌then◌else◌, ℤ,
}
use sec_dns.Dns.{Library}
use sec_dns.Common.{is_domain_name, ensure_fqdn}
use sec_dns.Config.Values.{Value, text, number, array, Described, accept_each, to_port}

-- `parse_ip` is net.ParseIP, with `none` for nil, and `to_4` is To4.
module _ (parse_ip : Text → Option (List ℕ)) (to_4 : List ℕ → Option (List ℕ)) where
  unfoldable pub parse_ipv4v6 : Text → Option (List ℕ)
  parse_ipv4v6 str = elim (parse_ip str) [
    | none ↦ none
    | some ip ↦ elim (to_4 ip) [ some ipv4 ↦ some ipv4 | none ↦ some ip ]
  ]

  abbrev pub if_v6 : Option (List ℕ) → Option (List ℕ)
  if_v6 none = none
  if_v6 (some ip) = if length ip == 16 then some ip else none

  -- The prefix of dns64.
  unfoldable pub to_prefix : {F V : Type 0} → Value F V → Option (List ℕ)
  unfolding parse_ipv4v6
  to_prefix (text str) = if_v6 (parse_ipv4v6 str)
  to_prefix _ = none

-- net.IP(nil) is the empty list. In an interface value it is not nil: `converted != nil` holds of
-- it, so a text that is no IP address is accepted.
abbrev or_nil_ip : Option (List ℕ) → List ℕ
or_nil_ip none = []
or_nil_ip (some ip) = ip

module _ {F V : Type 0} (parse_ip : Text → Option (List ℕ)) where
  -- The addresses of nameServer.
  unfoldable pub to_ip : Value F V → Option (List ℕ)
  to_ip (text str) = some (or_nil_ip (parse_ip str))
  to_ip _ = none

  -- `sendThrough` of doh
  unfoldable pub to_send_through : Value F V → Option (List ℕ)
  to_send_through (text str) = some (or_nil_ip (parse_ip str))
  to_send_through _ = none

  -- `listen` of dnsServer
  unfoldable pub to_listen : Value F V → Option (List ℕ)
  to_listen (text str) = some (or_nil_ip (parse_ip str))
  to_listen _ = none

-- `seconds` is time.Duration(num * float64(time.Second)), `parse_float` is strconv.ParseFloat.
module _ {F V : Type 0} (seconds : F → ℤ) (parse_float : Text → Option F) where
  -- `queryTimeout` of nameServer
  unfoldable pub to_query_timeout : Value F V → Option ℤ
  to_query_timeout (number num) = some (seconds num)
  to_query_timeout (text str) = elim (parse_float str) [
    | none ↦ none
    | some num ↦ some (seconds num)
  ]
  to_query_timeout _ = none

  -- and of doh
  unfoldable pub to_doh_timeout : Value F V → Option ℤ
  to_doh_timeout (number num) = some (seconds num)
  to_doh_timeout (text str) = elim (parse_float str) [ none ↦ none | some num ↦ some (seconds num) ]
  to_doh_timeout _ = none

-- `port` of dnsServer
unfoldable pub to_listen_port : {F V : Type 0} → (F → ℤ) → (Text → Option ℤ) → Value F V → Option ℕ
unfolding to_port
to_listen_port truncate atoi v = to_port truncate atoi v

-- `parse` is url.Parse, `U` are URLs.
unfoldable pub to_url : {F V U : Type 0} → (Text → Option U) → Value F V → Option U
to_url parse (text str) = parse str
to_url parse _ = none

-- The name of an alias.
unfoldable pub to_alias : {F V : Type 0} → Library → Value F V → Option Text
unfolding is_domain_name ensure_fqdn
to_alias dns (text str) = if is_domain_name dns str then some (ensure_fqdn dns str) else none
to_alias dns _ = none

-- `ignoreExistingAAAA`, if it is a string. Where the `switch` has no case, `ok` is still true from
-- the type assertion and `converted` is nil, the inner `none`.
unfoldable pub to_ignore_existing : {F V : Type 0} → Value F V → Option (Option Bool)
to_ignore_existing (text str) =
    if text_eq str (codes "true")
    then some (some true)
    else if text_eq str (codes "false")
    then some (some false)
    else some none
to_ignore_existing _ = none

-- The rules of a collection: those that their descriptor accepts.
unfoldable pub to_collection_rules :
    {F V R : Type 0} → (V → Described R) → Value F V → Option (List R)
unfolding accept_each
to_collection_rules describe (array interfaces) = some (accept_each describe interfaces)
to_collection_rules describe _ = none
