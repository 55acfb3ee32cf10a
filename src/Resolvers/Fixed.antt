-- ===== src/Resolvers/Fixed.antt =====
-- resolvers/no/answer and resolvers/not/exist: a reply without records, and NXDOMAIN.
use sec_dns.Dns.{Library, new_msg, rcode_name_error}
use sec_dns.Exec.{Resolve, ◌>>=◌, get_query, reply}
use sec_dns.Resolvers.Guard.{guard_depth}

module _ {W : Type 0} (dns : Library) where
  unfoldable pub no_answer : Resolve W
  no_answer = guard_depth λ depth. do query ← get_query; reply (dns.set_reply new_msg query)

  unfoldable pub not_exist : Resolve W
  not_exist =
      guard_depth
        λ depth. do query ← get_query; reply (dns.set_rcode new_msg query rcode_name_error)
