-- ===== src/Rules/Collected.antt =====
-- internal/rules/providers/collection: rules written in the configuration. The receiver and the
-- callbacks are not nil, as in the calls of internal/core.
use sec_dns.Prelude.{ℕ, ◌+◌, Option, List, [], ◌∷◌, ◌++◌, Text, length, drop, ltb, if◌then◌else◌}
use sec_dns.Dns.{Library}
use sec_dns.Exec.{Error, invalid_rule_name}
use sec_dns.Common.{is_domain_name, ensure_fqdn}
use sec_dns.Rules.Interface.{Provided, Provider}

-- rule.NameResolutionRule
pub record NameResolutionRule (R : Type 0) : Type 0 where
  pub name : Text
  pub resolver : Option R

pub record Collection (R : Type 0) : Type 0 where
  pub rules : List (NameResolutionRule R)
  pub index : ℕ

module _ {R : Type 0} (dns : Library) where
  -- The loop of `Provide` over the rules from `index` on, with the errors reported so far.
  unfoldable pub next_rule :
      Collection R → List (NameResolutionRule R) → ℕ → List Error → Provided R (Collection R)
  next_rule c [] index errors = record {
    received = [];
    errors = errors;
    more = ltb index (length c.rules);
    next = record c { index = index };
  }
  next_rule c (r ∷ rs) index errors =
      let rest = next_rule c rs (index + 1) (errors ++ invalid_rule_name r.name ∷ []) in
      let found : Provided R (Collection R) = record {
        received = (ensure_fqdn dns r.name, r.resolver) ∷ [];
        errors = errors;
        more = ltb (index + 1) (length c.rules);
        next = record c { index = index + 1 };
      } in
      if is_domain_name dns r.name then found else rest

  unfoldable pub provide_collection : Provider R (Collection R)
  unfolding next_rule
  provide_collection c = next_rule c (drop c.index c.rules) c.index []
