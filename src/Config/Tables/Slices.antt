-- ===== src/Config/Tables/Slices.antt =====
-- The descriptors of the resolvers address, sequence and concurrentNameServerList, in
-- internal/upstream/resolvers: the object is made of the value as a whole.
use sec_dns.Prelude.{ℕ, Option, List, [], ◌∷◌, Text}
use sec_dns.Resolvers.{Address}
use sec_dns.Config.Values.{
  Value, Described, address_of_text, address_of_array, to_sequence, to_name_servers,
}
use sec_dns.Config.Descriptors.{GoDescriptor, kind_string, kind_slice, not_nil}

module _ {F V : Type 0} (g : GoDescriptor V) (decoded : V → Value F V) where
  -- `parse` is common.ParseIPv4v6.
  unfoldable pub address_filler : (Text → Option (List ℕ)) → g.Filler Address
  unfolding address_of_text address_of_array
  address_filler parse =
      g.object_filler (λ x old. x)
        (g.object_at g.root (
          g.assignable_kinds (
            g.convertible kind_string (λ v. not_nil (address_of_text decoded parse) (decoded v))
            ∷ g.convertible kind_slice (λ v. not_nil (address_of_array decoded parse) (decoded v))
            ∷ [])))

  unfoldable pub sequence_filler : {X : Type 0} → (V → Described X) → g.Filler (List X)
  unfolding to_sequence
  sequence_filler describe_any =
      g.object_filler (λ x old. x)
        (g.object_at g.root
          (g.convertible kind_slice λ v. not_nil (to_sequence describe_any) (decoded v)))

  unfoldable pub name_servers_filler : {X : Type 0} → (V → Described X) → g.Filler (List X)
  unfolding to_name_servers
  name_servers_filler describe_any =
      g.object_filler (λ x old. x)
        (g.object_at g.root
          (g.convertible kind_slice λ v. not_nil (to_name_servers describe_any) (decoded v)))
