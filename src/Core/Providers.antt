-- ===== src/Core/Providers.antt =====
-- AcceptProvider with the two providers of the program.
use sec_dns.Prelude.{
  ℕ, zero, suc, ◌+◌, ◌<◌, ◌≡◌, refl, List, [], ◌∷◌, ◌++◌, Text, Option, none, some, Bool, length,
  drop, if◌then◌else◌, arith, Bool-cases, inl, inr, append-nil,
}
use sec_dns.Dns.{Library}
use sec_dns.Exec.{Error, invalid_rule_name}
use sec_dns.Common.{is_domain_name, ensure_fqdn}
use sec_dns.Rules.{
  Provided, NameResolutionRule, Collection, next_rule, provide_collection, DnsmasqConf, Reading,
  on_name, next_line, provide_lines, scanner_errors, provide_dnsmasq,
}
use sec_dns.Rules.Lines.{name_in, name_of_line-name_in}
use sec_dns.Core.{receive_all, accept}
use sec_dns.Core.Scanning.{
  Verdict, skip, bad, good, rules_in, errors_in, scanned, scan, accept-scan,
}

module _ {R : Type 0} (dns : Library) where
  -- A rule counts if its name is a domain name, and under its fully qualified name.
  abbrev pub judge_rule : NameResolutionRule R → Verdict R
  judge_rule r =
      if is_domain_name dns r.name
      then good (ensure_fqdn dns r.name) r.resolver
      else bad (invalid_rule_name r.name)

  next_rule-eq-scan :
      (c : Collection R) (rs : List (NameResolutionRule R)) (i : ℕ) (errors : List Error)
      → next_rule dns c rs i errors
        ≡ scan judge_rule (length c.rules) (λ k. record c { index = k }) rs i errors
  unfolding next_rule scan
  next_rule-eq-scan c [] i errors = refl
  next_rule-eq-scan c (r ∷ rs) i errors = elim (Bool-cases (is_domain_name dns r.name)) [
    | inl valid ↦ rw valid
    | inr invalid ↦ rw invalid (next_rule-eq-scan c rs (i + 1) _)
  ]

  -- AcceptProvider takes exactly the rules of a collection that have a domain name for their name,
  -- in their order, each under its fully qualified name, hands the other names over for a report in
  -- their order, and ends after at most one call more than there are rules.
  pub accept-collection :
      (fuel : ℕ) (rs : List (NameResolutionRule R)) (rules : List (Text × R)) (errors : List Error)
      → length rs < fuel
      → accept fuel (provide_collection dns) (record { rules = rs; index = 0 }) (rules, errors)
        ≡ some (receive_all rules (rules_in judge_rule rs), errors ++ errors_in judge_rule rs)
  unfolding provide_collection
  accept-collection fuel rs rules errors enough =
      accept-scan judge_rule (length rs) (λ k. record { rules = rs; index = k }) rs
        (provide_collection dns)
        (λ i. next_rule-eq-scan (record { rules = rs; index = i }) (drop i rs) i []) fuel
        (record { rules = rs; index = 0 }) rules [] errors
        (next_rule-eq-scan (record { rules = rs; index = 0 }) rs 0 []) (omega arith) enough

  -- A line counts if there is a slash in it before any comment: for the name behind the first one, up
  -- to the next slash, a comment or the end of the line.
  abbrev pub judge_name : Option R → Option Text → Verdict R
  judge_name r none = skip
  judge_name r (some name) =
      if is_domain_name dns name
      then good (ensure_fqdn dns name) r
      else bad (invalid_rule_name name)

  abbrev pub judge_line : Option R → Text → Verdict R
  judge_line r line = judge_name r (name_in line)

  module _ (file : Text → Reading) (path : Text) (r : Option R) where
    -- The provider in its state before the file is read, and with its lines.
    abbrev pub unread : DnsmasqConf R
    unread = record { file_path = path; resolver = r; file_content = none; index = 0 }

    abbrev holding : List Text → ℕ → DnsmasqConf R
    holding lines i = record {
      file_path = path;
      resolver = r;
      file_content = some lines;
      index = i;
    }

    next_line-eq-scan :
        (content lines : List Text) (k i : ℕ) (errors : List Error)
        → next_line dns (holding content k) (length content) lines i errors
          ≡ scan (judge_line r) (length content) (holding content) lines i errors
    unfolding next_line scan
    next_line-eq-scan content [] k i errors = refl
    next_line-eq-scan content (line ∷ lines) k i errors = rw (name_of_line-name_in line) (
        by_name (name_in line) (next_line dns (holding content k) (length content) lines (i + 1))
          (scan (judge_line r) (length content) (holding content) lines (i + 1))
          (next_line-eq-scan content lines k (i + 1)))
      where
        by_name :
            (o : Option Text) (rest rest' : List Error → Provided R (DnsmasqConf R))
            → ((errs : List Error) → rest errs ≡ rest' errs)
            → on_name dns (holding content k) (length content) i errors o rest
              ≡ scanned
                  (judge_line r)
                  (length content)
                  (holding content)
                  (judge_name r o)
                  i
                  errors
                  rest'
        by_name none rest rest' ih = ih errors
        by_name (some name) rest rest' ih = elim (Bool-cases (is_domain_name dns name)) [
          | inl valid ↦ rw valid
          | inr invalid ↦ rw invalid (ih _)
        ]

    provide_dnsmasq-holding :
        (content : List Text) (i : ℕ)
        → provide_dnsmasq dns file (holding content i)
          ≡ scan (judge_line r) (length content) (holding content) (drop i content) i []
    unfolding provide_dnsmasq provide_lines
    provide_dnsmasq-holding content i = next_line-eq-scan content (drop i content) i i []

    first_call :
        (line : Text) (lines : List Text) (broken : Bool)
        → file path ≡ Reading.scanned (line ∷ lines) broken
        → provide_dnsmasq dns file unread
          ≡ scan
              (judge_line r)
              (length (line ∷ lines))
              (holding (line ∷ lines))
              (line ∷ lines)
              0
              (scanner_errors dns unread broken)
    unfolding provide_dnsmasq provide_lines
    first_call line lines broken e =
        rw e
          (next_line-eq-scan (line ∷ lines) (line ∷ lines) 0 0 (scanner_errors dns unread broken))

    -- AcceptProvider takes exactly the rules of a dnsmasq file that could be read: one for each
    -- line that has a domain name behind its first slash, up to the next slash, a comment or the end
    -- of the line, in their order and under the fully qualified name. It hands over for a report an
    -- error of the scanner first and then the names that are no domain names, and ends after at most
    -- one call more than there are lines.
    pub accept-dnsmasq :
        (fuel : ℕ) (lines : List Text) (broken : Bool) (rules : List (Text × R))
        (errors : List Error)
        → file path ≡ Reading.scanned lines broken
        → length lines < fuel
        → accept fuel (provide_dnsmasq dns file) unread (rules, errors)
          ≡ some (
            receive_all rules (rules_in (judge_line r) lines),
            errors ++ (scanner_errors dns unread broken ++ errors_in (judge_line r) lines),
          )
    unfolding accept provide_dnsmasq receive_all
    accept-dnsmasq zero lines broken rules errors reads enough = absurd (omega arith)
    accept-dnsmasq (suc fuel) [] broken rules errors reads enough =
        rw (reads, append-nil (scanner_errors dns unread broken))
    accept-dnsmasq (suc fuel) (line ∷ lines) broken rules errors reads enough =
        accept-scan (judge_line r) (length (line ∷ lines)) (holding (line ∷ lines)) (line ∷ lines)
          (provide_dnsmasq dns file) (provide_dnsmasq-holding (line ∷ lines)) (suc fuel) unread
          rules (scanner_errors dns unread broken) errors (first_call line lines broken reads)
          (omega arith) enough
