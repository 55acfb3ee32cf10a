-- ===== src/Resolvers/Tidy/Urls.antt =====
-- resolvers/doh/types.go: the look-up of the host is tidy if its resolver is.
use sec_dns.Prelude.{ℤ, List, [], Text, Option, none, some}
use sec_dns.Dns.{Library, Msg}
use sec_dns.Exec.{Error, pure, Resolve, Outcome, ◌>>=◌}
use sec_dns.Exec.Tidy.{IsTidy, pure-IsTidy, tidy_rules}
use sec_dns.Resolvers.{Urls, Doh, found_urls, resolve_host, resolve_url}

module _ {W : Type 0} {P : W → Type 0} where
  module _ (dns : Library) (urls : Urls) (d : Doh) where
    found_urls-IsTidy : (u : Text) (out : Outcome) → IsTidy P (found_urls dns urls d u out)
    unfolding found_urls ◌>>=◌
    found_urls-IsTidy u out = by out.err out.msg
      where
        by :
            (e : Option Error) (m : Option Msg)
            → IsTidy P (found_urls dns urls d u (record { msg = m; err = e }))
        by (some e) m = pure-IsTidy _
        by none none = search tidy_rules
        by none (some m) = pure-IsTidy _

    pub resolve_url-IsTidy :
        (r : Resolve W) (depth : ℤ) → IsTidy P (r depth) → IsTidy P (resolve_url dns urls d r depth)
    unfolding resolve_url resolve_host
    resolve_url-IsTidy r depth h = by d.url
      where
        by :
            (o : Option Text)
            → IsTidy P (elim o [
              | none ↦ pure {W = W} {A = List Text} []
              | some u ↦ resolve_host dns urls d u r depth
            ])
        by none = pure-IsTidy _
        by (some u) = search (tidy_rules, found_urls-IsTidy)
