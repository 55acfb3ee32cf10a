-- ===== src/Samples/Instances.antt =====
-- Instances, providers and configurations for the samples.
use sec_dns.Prelude.{
  ℕ, ◌≡◌, refl, ◌↔◌, pos, List, [], ◌∷◌, Text, codes, Option, none, some, true, false, lookup, All,
  is_some, arith,
}
use sec_dns.Dns.{plain_library}
use sec_dns.Exec.{Resolve}
use sec_dns.Resolvers.{name_server}
use sec_dns.Rules.{NameResolutionRule, Reading, provide_collection, provide_dnsmasq}
use sec_dns.Core.Order.{exactly, resolve_instance-eq-first_of}
use sec_dns.Core.{Instance, resolve_instance, receive_all, accept, query_check}
use sec_dns.Core.Precedence.{rules_for, first_of}
use sec_dns.Core.FirstRule.{or_else, first_rule, lookup-receive_all}
use sec_dns.Core.Scanning.{rules_in, errors_in}
use sec_dns.Core.Providers.{judge_rule, judge_line, unread, accept-collection, accept-dnsmasq}
use sec_dns.Core.Answers.{IsSupported, query_check-none_iff}
use sec_dns.Named.{NameRegistry, NamedResolver, name_resolver, entries, init_each}
use sec_dns.Named.Registered.{
  first_of_two, shared_entries, target, lookup-name_resolver, init_each-none_iff,
}
use sec_dns.Samples.Networks.{query_for, counting, cut_off, local_server, asking}

abbrev rules : List (Text × Resolve ℕ)
rules =
    (codes "example.", name_server cut_off local_server)
    ∷ (codes "www.example.", name_server counting local_server)
    ∷ []

abbrev by_rules : Instance ℕ ℕ
by_rules = record {
  listeners = [];
  name_resolver_map = rules;
  default_resolver = some (name_server counting local_server);
  resolution_depth = pos 64;
}

resolve_instance-eq-first_of_example :
    resolve_instance by_rules (pos 9) (asking (codes "www.example.") 1)
    ≡ exactly none
        (pos 9)
        (first_of
          (rules_for rules (codes "www.example." ∷ codes "example." ∷ []))
          by_rules.default_resolver
          (pos 9))
        (asking (codes "www.example.") 1)
unfolding lookup
resolve_instance-eq-first_of_example =
    resolve_instance-eq-first_of by_rules 9 (asking (codes "www.example.") 1)
      (record { name = codes "www.example."; qtype = 1; qclass = 1 }) [] refl

-- Rules with numbers for resolvers.
abbrev some_rules : List (Text × Option ℕ)
some_rules = (codes "a.b.", none) ∷ (codes "a.b.", some 1) ∷ (codes "a.b.", some 2) ∷ []

lookup-receive_all_example :
    lookup (codes "a.b.") (receive_all [] some_rules)
    ≡ or_else (lookup (codes "a.b.") []) (first_rule (codes "a.b.") some_rules)
lookup-receive_all_example = lookup-receive_all (codes "a.b.") some_rules []

abbrev written : List (NameResolutionRule ℕ)
written =
    record { name = codes "a.b"; resolver = some 1 } ∷ record { name = []; resolver = some 2 } ∷ []

accept-collection_example :
    accept 3 (provide_collection plain_library) (record { rules = written; index = 0 }) ([], [])
    ≡ some (
      receive_all [] (rules_in (judge_rule plain_library) written),
      errors_in (judge_rule plain_library) written,
    )
accept-collection_example = accept-collection plain_library 3 written [] [] (omega arith)

abbrev seven : Option ℕ
seven = some 7

abbrev lines : List Text
lines = codes "server=/a.b/ # a comment" ∷ codes "# server=/c.d/" ∷ codes "server=//" ∷ []

abbrev file : Text → Reading
file path = Reading.scanned lines false

accept-dnsmasq_example :
    accept 4
      (provide_dnsmasq plain_library file)
      (unread plain_library file (codes "f") seven)
      ([], [])
    ≡ some (
      receive_all [] (rules_in (judge_line plain_library seven) lines),
      errors_in (judge_line plain_library seven) lines,
    )
accept-dnsmasq_example =
    accept-dnsmasq plain_library file (codes "f") seven 4 lines false [] [] refl (omega arith)

query_check-none_iff_example :
    (query_check (some (query_for (codes "example.") 1)) ≡ none)
    ↔ IsSupported (query_for (codes "example.") 1).question
query_check-none_iff_example = query_check-none_iff (query_for (codes "example.") 1)

abbrev names : NameRegistry ℕ
names = record { registry = some ((codes "a", some 1) ∷ []) }

lookup-name_resolver_example :
    lookup (codes "a") (shared_entries (name_resolver (some names) (codes "a") (some 2)).1)
    ≡ first_of_two (lookup (codes "a") (entries names)) (some (some 2))
lookup-name_resolver_example = lookup-name_resolver names (codes "a") (codes "a") (some 2)

abbrev waiting : List (NamedResolver ℕ)
waiting =
    record { name = codes "a"; resolver = none }
    ∷ record { name = codes "b"; resolver = some 3 }
    ∷ []

init_each-none_iff_example :
    ((init_each (some names) waiting).err ≡ none)
    ↔ All (λ n. is_some (target (entries names) n) ≡ true) waiting
init_each-none_iff_example = init_each-none_iff names waiting
