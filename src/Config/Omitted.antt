-- ===== src/Config/Omitted.antt =====
-- The descriptor of nameServer, for a configuration with an address alone.
use sec_dns.Prelude.{ℕ, ℤ, ◌≡◌, refl, ◌∙◌, ap, Option, none, some, true, List, [], ◌∷◌, Text, codes}
use sec_dns.Config.{
  Value, text, accepted, to_ip, GoDescriptor, Describes, kind_string, or_else, set_field,
  and_then_fill, fill_each, new_name_server, two_seconds, ip_kind, port_source, timeout_source,
  name_server_filler,
}

module _ {V : Type 0} {g : GoDescriptor V} (k : Describes g) where
  -- Where nothing stands at the path, it is the default.
  value_of-default :
      {A : Type 0} (path : List Text) (kind : g.Kind A) (a : Option A) (v : V)
      → k.at_path path v ≡ none
      → k.value_of (g.value_sources (g.object_at path kind ∷ g.default_value a ∷ [])) v ≡ some a
  value_of-default path kind a v e =
      k.value_of-value_sources (g.object_at path kind ∷ g.default_value a ∷ []) v
      ∙ ap (λ o. or_else o (or_else (k.value_of (g.default_value a) v) none))
          (k.value_of-object_at path kind v
            ∙ ap (λ o. elim o [ none ↦ none | some u ↦ k.converted kind u ]) e)
      ∙ ap (λ o. or_else o none) (k.value_of-default_value a v)

  value_of-there :
      {A : Type 0} (path : List Text) (kind : g.Kind A) (v u : V)
      → k.at_path path v ≡ some u
      → k.value_of (g.object_at path kind) v ≡ k.converted kind u
  value_of-there path kind v u e =
      k.value_of-object_at path kind v
      ∙ ap (λ o. elim o [ none ↦ none | some u ↦ k.converted kind u ]) e

  module _ {R : Type 0} (v : V) where
    -- These fillers make the second object of the first.
    pub record FillsTo (fs : List (g.Filler R)) (r r' : R) : Type 0 where
      pub fills : fill_each (λ f. k.fill f v) fs r ≡ some r'

  module _ {R : Type 0} {v : V} where
    nil-FillsTo : (r : R) → FillsTo v [] r r
    nil-FillsTo r = record { fills = refl }

    module _ {A : Type 0} {set : A → R → R} {s : g.Source A} {fs : List (g.Filler R)}
        {r r' : R} where
      filler-FillsTo :
          (o : Option A)
          → k.value_of s v ≡ some o
          → and_then_fill (set_field set (some o) r) (fill_each (λ f. k.fill f v) fs) ≡ some r'
          → FillsTo v (g.object_filler set s ∷ fs) r r'
      filler-FillsTo o e h = record {
        fills =
            ap (λ x. and_then_fill x (fill_each (λ f. k.fill f v) fs))
              (k.fill-object_filler set s v r ∙ ap (λ x. set_field set x r) e)
            ∙ h;
      }

      set-FillsTo :
          (a : A)
          → k.value_of s v ≡ some (some a)
          → FillsTo v fs (set a r) r'
          → FillsTo v (g.object_filler set s ∷ fs) r r'
      set-FillsTo a e h = filler-FillsTo (some a) e h.fills

      describe-FillsTo :
          FillsTo v (g.object_filler set s ∷ fs) r r'
          → accepted (g.describe r (g.fillers (g.object_filler set s ∷ fs))) v ≡ some r'
      describe-FillsTo h =
          k.accepted-filled r set s fs v r'
            (k.fill-fillers (g.object_filler set s ∷ fs) v r ∙ h.fills)

      nil_value-FillsTo :
          k.value_of s v ≡ some none
          → FillsTo v fs r r'
          → FillsTo v (g.object_filler set s ∷ fs) r r'
      nil_value-FillsTo e h = filler-FillsTo none e h.fills

module _ {F V : Type 0} {g : GoDescriptor V} (k : Describes g) (decoded : V → Value F V)
    (parse_ip : Text → Option (List ℕ)) (truncate seconds : F → ℤ) (atoi : Text → Option ℤ)
    (parse_float : Text → Option F) where
  abbrev Absent : V → Text → Type 0
  Absent v key = k.at_path (key ∷ []) v ≡ none

  converted-ip_kind :
      (u : V) (s : Text) (ip : List ℕ)
      → k.is_of_kind kind_string u ≡ true
      → decoded u ≡ text s
      → parse_ip s ≡ some ip
      → k.converted (ip_kind g decoded parse_ip truncate seconds atoi parse_float) u
        ≡ some (some ip)
  unfolding ip_kind to_ip
  converted-ip_kind u s ip is_text e parsed =
      k.converted-convertible kind_string _ u ∙ rw (is_text, e, parsed) refl

  -- Where the configuration of a name server has an address that net.ParseIP accepts and nothing
  -- else, it is accepted, and becomes a name server with that address, port 53, protocol udp and a
  -- timeout of two seconds; there is no proxy, no local address and no name for TLS.
  pub describe-address_only :
      (v u : V) (s : Text) (ip : List ℕ)
      → k.at_path (codes "address" ∷ []) v ≡ some u
      → k.is_of_kind kind_string u ≡ true
      → decoded u ≡ text s
      → parse_ip s ≡ some ip
      → Absent v (codes "port")
      → Absent v (codes "protocol")
      → Absent v (codes "queryTimeout")
      → Absent v (codes "tlsServerName")
      → Absent v (codes "sendThrough")
      → Absent v (codes "socks5Proxy")
      → Absent v (codes "socks5Username")
      → Absent v (codes "socks5Password")
      → accepted
          (g.describe new_name_server
            (name_server_filler g decoded parse_ip truncate seconds atoi parse_float))
          v
        ≡ some (record new_name_server {
          address = ip;
          port = 53;
          protocol = codes "udp";
          query_timeout = two_seconds;
        })
  unfolding name_server_filler port_source timeout_source
  describe-address_only v u s ip there is_text e parsed port protocol timeout tls local proxy user
        password =
      describe-FillsTo k (
        set-FillsTo k ip
          (value_of-there k _ _ v u there ∙ converted-ip_kind u s ip is_text e parsed)
          (set-FillsTo k 53 (value_of-default k _ _ _ v port) (
            set-FillsTo k (codes "udp") (value_of-default k _ _ _ v protocol) (
              set-FillsTo k two_seconds (value_of-default k _ _ _ v timeout) (
                set-FillsTo k [] (value_of-default k _ _ _ v tls) (
                  nil_value-FillsTo k (value_of-default k _ _ _ v local) (
                    set-FillsTo k [] (value_of-default k _ _ _ v proxy) (
                      set-FillsTo k [] (value_of-default k _ _ _ v user) (
                        set-FillsTo k [] (value_of-default k _ _ _ v password)
                          (nil-FillsTo k _))))))))))
