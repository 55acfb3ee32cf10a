-- ===== src/Rules/Dnsmasq.antt =====
-- internal/rules/providers/dnsmasq/conf: rules for the domain names of a dnsmasq configuration.
-- The receiver and the callbacks are not nil, as in the calls of internal/core.
use sec_dns.Prelude.{
  ℕ, ◌+◌, Option, none, some, Bool, false, List, [], ◌∷◌, ◌++◌, Text, length, drop, split, ltb,
  ◌==◌, if◌then◌else◌,
}
use sec_dns.Dns.{Library}
use sec_dns.Exec.{Error, invalid_rule_name, open_file}
use sec_dns.Common.{is_domain_name, ensure_fqdn}
use sec_dns.Rules.Interface.{Provided, Provider}

pub record DnsmasqConf (R : Type 0) : Type 0 where
  pub file_path : Text
  pub resolver : Option R
  pub file_content : Option (List Text)
  pub index : ℕ

-- What reading the file comes to: it cannot be opened, or it has these lines up to the scanner's
-- end or error.
pub data Reading : Type 0 where
  unopened : Reading
  scanned : List Text → Bool → Reading

-- commentRegEx.ReplaceAllString(line, ""), for "#.*$" on a line
unfoldable pub strip_comment : Text → Text
strip_comment [] = []
strip_comment (c ∷ line) = let rest = c ∷ strip_comment line in if c == b'#' then [] else rest

-- The second part of a line that is split at its slashes, if there is a slash.
abbrev pub second : List Text → Option Text
second (s ∷ t ∷ ts) = some t
second _ = none

unfoldable pub name_of_line : Text → Option Text
name_of_line line = second (split b'/' (strip_comment line))

module _ {R : Type 0} (dns : Library) where
  -- The result of `Provide` where it hands out no rule more.
  abbrev pub ended : DnsmasqConf R → List Error → Provided R (DnsmasqConf R)
  ended d errors = record { received = []; errors = errors; more = false; next = d }

  -- One line with this name, or with none, and the rest of the loop.
  abbrev pub on_name :
      DnsmasqConf R
      → ℕ
      → ℕ
      → List Error
      → Option Text
      → (List Error → Provided R (DnsmasqConf R))
      → Provided R (DnsmasqConf R)
  on_name d count index errors none rest = rest errors
  on_name d count index errors (some name) rest =
      let found : Provided R (DnsmasqConf R) = record {
        received = (ensure_fqdn dns name, d.resolver) ∷ [];
        errors = errors;
        more = ltb (index + 1) count;
        next = record d { index = index + 1 };
      } in
      if is_domain_name dns name then found else rest (errors ++ invalid_rule_name name ∷ [])

  -- The loop of `Provide` over the lines from `index` on, with the errors reported so far.
  unfoldable pub next_line :
      DnsmasqConf R → ℕ → List Text → ℕ → List Error → Provided R (DnsmasqConf R)
  next_line d count [] index errors = record {
    received = [];
    errors = errors;
    more = ltb index count;
    next = record d { index = index };
  }
  next_line d count (line ∷ lines) index errors =
      on_name d count index errors (name_of_line line) (next_line d count lines (index + 1))

  -- `Provide` once `fileContent` is there
  unfoldable pub provide_lines : DnsmasqConf R → List Text → List Error → Provided R (DnsmasqConf R)
  provide_lines d content errors =
      next_line d (length content) (drop d.index content) d.index errors

  -- The appends of the scanner's lines to a nil slice, which stays nil if there are none.
  abbrev pub scanner_errors : DnsmasqConf R → Bool → List Error
  scanner_errors d broken = if broken then open_file d.file_path ∷ [] else []

  abbrev loaded : DnsmasqConf R → List Text → List Error → Provided R (DnsmasqConf R)
  loaded d [] errors = ended d errors
  loaded d (line ∷ lines) errors =
      provide_lines (record d { file_content = some (line ∷ lines) }) (line ∷ lines) errors

  abbrev read : DnsmasqConf R → Reading → Provided R (DnsmasqConf R)
  read d unopened = ended d (open_file d.file_path ∷ [])
  read d (scanned lines broken) = loaded d lines (scanner_errors d broken)

  unfoldable pub provide_dnsmasq : (Text → Reading) → Provider R (DnsmasqConf R)
  provide_dnsmasq file d = elim d.file_content [
    | none ↦ read d (file d.file_path)
    | some content ↦ provide_lines d content []
  ]
