-- ===== src/System/Given.antt =====
-- What the configuration gives: resolvers, each by the descriptor of its type.
use sec_dns.Prelude.{ℕ, ℤ, List, [], ◌∷◌, Text, Option, none, some, ◌≡◌}
use sec_dns.Dns.{Library}
use sec_dns.Resolvers.{Address, NameServer}
use sec_dns.Config.{no_answer_filler, not_exist_filler}
use sec_dns.Config.{
  Value, Described, accepted, GoDescriptor, Dns64Object, new_dns64, dns64_filler, DohObject,
  new_doh, doh_filler, AliasObject, new_alias, alias_filler, FilterObject, new_filter,
  filter_out_a_filler, filter_out_aaaa_filler, filter_out_a_if_filler, filter_out_aaaa_if_filler,
  address_filler, sequence_filler, name_servers_filler, parse_ipv4v6, new_name_server,
  name_server_filler,
}
use sec_dns.System.{Upstream, Ref, Refs}

-- What the conversions call of other packages, and the descriptor of all resolvers, with "" as a
-- value.
pub record Conversions (F V : Type 0) : Type 0 where
  pub decoded : V → Value F V
  pub dns : Library
  pub parse_ip : Text → Option (List ℕ)
  pub to_4 : List ℕ → Option (List ℕ)
  pub parse_url : Text → Option Text
  pub truncate : F → ℤ
  pub seconds : F → ℤ
  pub atoi : Text → Option ℤ
  pub parse_float : Text → Option F
  pub describe_any : V → Described Ref
  pub empty : V

abbrev pub refs : List Ref → Refs
refs [] = Refs.end
refs (r ∷ rs) = Refs.ref r (refs rs)

-- A field that holds a resolver: an interface value, which may be nil.
abbrev pub held_in : Option Ref → Ref
held_in none = Ref.nil
held_in (some r) = r

module _ {F V : Type 0} (g : GoDescriptor V) (c : Conversions F V) where
  abbrev pub a_name_server : g.Filler NameServer
  a_name_server =
      name_server_filler g c.decoded c.parse_ip c.truncate c.seconds c.atoi c.parse_float

  abbrev pub a_dns64 : g.Filler (Dns64Object Ref)
  a_dns64 = dns64_filler g c.decoded c.parse_ip c.to_4 c.describe_any

  abbrev pub a_doh : g.Filler (DohObject Ref)
  a_doh =
      doh_filler g c.decoded c.parse_url c.parse_ip c.seconds c.parse_float c.describe_any c.empty

  -- The resolver that a value of the configuration gives, by the descriptor of its type. A DoH is
  -- put at an address.
  pub data Gave (v : V) : Upstream → Type 0 where
    gave_name_server :
        (ns : NameServer)
        → accepted (g.describe new_name_server a_name_server) v ≡ some ns
        → ns.socks5_proxy ≡ []
        → Gave v (Upstream.name_server_of ns)
    gave_dns64 :
        (d : Dns64Object Ref)
        → accepted (g.describe new_dns64 a_dns64) v ≡ some d
        → Gave v (Upstream.dns64_of d.prefix d.ignore_existing_aaaa (held_in d.resolver))
    gave_doh :
        (cell : ℕ) (d : DohObject Ref)
        → accepted (g.describe new_doh a_doh) v ≡ some d
        → Gave v (Upstream.doh_of cell d.settings (held_in d.resolver))
    gave_alias :
        (a : AliasObject Ref)
        → accepted (g.describe new_alias (alias_filler g c.decoded c.dns c.describe_any c.empty)) v
          ≡ some a
        → Gave v (Upstream.alias_of a.alias (held_in a.resolver))
    gave_filter_out_a :
        (f : FilterObject Ref)
        → accepted (g.describe new_filter (filter_out_a_filler g c.describe_any)) v ≡ some f
        → Gave v (Upstream.filter_a_of (held_in f.resolver))
    gave_filter_out_aaaa :
        (f : FilterObject Ref)
        → accepted (g.describe new_filter (filter_out_aaaa_filler g c.describe_any)) v ≡ some f
        → Gave v (Upstream.filter_aaaa_of (held_in f.resolver))
    gave_filter_out_a_if :
        (f : FilterObject Ref)
        → accepted (g.describe new_filter (filter_out_a_if_filler g c.describe_any)) v ≡ some f
        → Gave v (Upstream.filter_a_if_of (held_in f.resolver))
    gave_filter_out_aaaa_if :
        (f : FilterObject Ref)
        → accepted (g.describe new_filter (filter_out_aaaa_if_filler g c.describe_any)) v ≡ some f
        → Gave v (Upstream.filter_aaaa_if_of (held_in f.resolver))
    gave_address :
        (addr new : Address)
        → accepted (g.describe new (address_filler g c.decoded (parse_ipv4v6 c.parse_ip c.to_4))) v
          ≡ some addr
        → Gave v (Upstream.address_of addr)
    gave_sequence :
        (rs : List Ref)
        → accepted (g.describe [] (sequence_filler g c.decoded c.describe_any)) v ≡ some rs
        → Gave v (Upstream.sequence_of (refs rs))
    gave_name_servers :
        (rs : List Ref)
        → accepted (g.describe [] (name_servers_filler g c.decoded c.describe_any)) v ≡ some rs
        → Gave v (Upstream.concurrent_of (refs rs))
    gave_no_answer :
        (u : Upstream)
        → accepted (g.describe none (no_answer_filler g Upstream.no_answer_of)) v ≡ some (some u)
        → Gave v u
    gave_not_exist :
        (u : Upstream)
        → accepted (g.describe none (not_exist_filler g Upstream.not_exist_of)) v ≡ some (some u)
        → Gave v u

  -- A resolver of a loaded configuration: one that a value gives, or the instance, which LoadConfig
  -- registers under the empty name.
  pub data Given : Upstream → Type 0 where
    the_instance : Given Upstream.instance_of
    by_value : (v : V) (u : Upstream) → Gave v u → Given u
