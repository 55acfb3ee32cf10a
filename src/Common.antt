-- ===== src/Common.antt =====
-- internal/common/common.go: names, records and the replies to a client whose query fails.
use sec_dns.Prelude.{
  Bool, ◌&&◌, List, ◌++◌, Text, codes, has_prefix, has_suffix, trim_prefix, trim_suffix, keep,
  if◌then◌else◌,
}
use sec_dns.Dns.{Msg, Rr, Library, new_msg, rcode_format_error, rcode_server_failure}

abbrev pub quote : Text
quote = codes "\""

abbrev pub dot : Text
dot = codes "."

unfoldable pub has_prefix_and_suffix : Text → Text → Text → Bool
has_prefix_and_suffix s prefix suffix = has_prefix s prefix && has_suffix s suffix

unfoldable pub trim_prefix_and_suffix : Text → Text → Text → Text
trim_prefix_and_suffix s prefix suffix = trim_suffix (trim_prefix s prefix) suffix

unfoldable pub filter_resource_records : List Rr → (Rr → Bool) → List Rr
filter_resource_records records predicate = keep predicate records

module _ (dns : Library) where
  unfoldable pub is_domain_name : Text → Bool
  unfolding has_prefix_and_suffix trim_prefix_and_suffix
  is_domain_name name =
      if has_prefix_and_suffix name quote quote
      then dns.is_domain_name (trim_prefix_and_suffix name quote quote)
      else dns.is_domain_name name

  -- the private `ensureFQDN`
  unfoldable pub append_dot : Text → Text
  append_dot name = if dns.is_fqdn name then name else name ++ dot

  unfoldable pub ensure_fqdn : Text → Text
  unfolding has_prefix_and_suffix trim_prefix_and_suffix append_dot
  ensure_fqdn name =
      if has_prefix_and_suffix name quote quote
      then quote ++ (append_dot (trim_prefix_and_suffix name quote quote) ++ quote)
      else append_dot name

  unfoldable pub client_error_message_handler : Msg → Msg
  client_error_message_handler query = dns.set_rcode new_msg query rcode_format_error

  unfoldable pub server_error_message_handler : Msg → Msg
  server_error_message_handler query = dns.set_rcode new_msg query rcode_server_failure
