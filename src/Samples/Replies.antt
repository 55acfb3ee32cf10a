-- ===== src/Samples/Replies.antt =====
-- Replies for the samples: filters, synthesis, a sequence.
use sec_dns.Prelude.{Option, ℕ, ◌≡◌, refl, ◌↔◌, pos, List, [], ◌∷◌, codes, none, some, true, arith}
use sec_dns.Dns.{Rr, plain_library, plain_library-Documented}
use sec_dns.Exec.{Outcome, library, done, State, Resolve, ◌>>=◌}
use sec_dns.Resolvers.{
  replied, failed, concurrent, request_all, request, arrange, name_server, not_a, not_aaaa,
  filter_out_a, filter_out_aaaa, filter_out_a_if_aaaa_presents, filter_out_aaaa_if_a_presents,
  can_resolve_to_a, can_resolve_to_aaaa, ipv4_to_ipv6, convert_answers, sequence, guard_depth,
  try_each,
}
use sec_dns.Resolvers.Filtered.{
  Filtered, filter_out_a-Filtered, filter_out_aaaa-Filtered, filter_out_aaaa_if_a_presents-Filtered,
  filter_out_a_if_aaaa_presents-Filtered,
}
use sec_dns.Resolvers.Synthesis.{ipv4_to_ipv6_lem, AllConverted, convert_answers-AllConverted}
use sec_dns.Resolvers.Goroutines.{Race, Run, first, later}
use sec_dns.Resolvers.Outrun.{taken, nothing, concurrent-Run}
use sec_dns.Resolvers.Failover.{Asked, sequence_iff}
use sec_dns.Samples.Networks.{
  both_records, a_record, aaaa_record, counting, cut_off, local_server, asking,
}

abbrev server : Resolve ℕ
server = name_server counting local_server

abbrev dead_server : Resolve ℕ
dead_server = name_server cut_off local_server

abbrev text_query : State ℕ
text_query = asking (codes "example.") 16

filter_out_aaaa-Filtered_example :
    Filtered not_aaaa (filter_out_aaaa plain_library server (pos 5) text_query).0
filter_out_aaaa-Filtered_example =
    filter_out_aaaa-Filtered plain_library plain_library-Documented server (pos 5) text_query

filter_out_a-Filtered_example :
    Filtered not_a (filter_out_a plain_library server (pos 5) text_query).0
filter_out_a-Filtered_example =
    filter_out_a-Filtered plain_library plain_library-Documented server (pos 5) text_query

filter_out_aaaa_if_a_presents-Filtered_example :
    Filtered not_aaaa (filter_out_aaaa_if_a_presents plain_library server (pos 5) text_query).0
unfolding can_resolve_to_a name_server ◌>>=◌ guard_depth
filter_out_aaaa_if_a_presents-Filtered_example =
    filter_out_aaaa_if_a_presents-Filtered plain_library plain_library-Documented server 5
      text_query text_query (record { present = true; err = none }) refl refl

filter_out_a_if_aaaa_presents-Filtered_example :
    Filtered not_a (filter_out_a_if_aaaa_presents plain_library server (pos 5) text_query).0
unfolding can_resolve_to_aaaa name_server ◌>>=◌ guard_depth
filter_out_a_if_aaaa_presents-Filtered_example =
    filter_out_a_if_aaaa_presents-Filtered plain_library plain_library-Documented server 5
      text_query text_query (record { present = true; err = none }) refl refl

-- 64:ff9b::/96
abbrev well_known : List ℕ
well_known = 0 ∷ 100 ∷ 255 ∷ 155 ∷ 0 ∷ 0 ∷ 0 ∷ 0 ∷ 0 ∷ 0 ∷ 0 ∷ 0 ∷ 0 ∷ 0 ∷ 0 ∷ 0 ∷ []

ipv4_to_ipv6_lem_example :
    ipv4_to_ipv6 well_known (192 ∷ 0 ∷ 2 ∷ 1 ∷ [])
    ≡ some (0 ∷ 100 ∷ 255 ∷ 155 ∷ 0 ∷ 0 ∷ 0 ∷ 0 ∷ 0 ∷ 0 ∷ 0 ∷ 0 ∷ 192 ∷ 0 ∷ 2 ∷ 1 ∷ [])
ipv4_to_ipv6_lem_example = ipv4_to_ipv6_lem well_known (omega arith) (192 ∷ 0 ∷ 2 ∷ 1 ∷ []) refl

convert_answers-AllConverted_example :
    (new : List Rr) × (convert_answers well_known (a_record ∷ aaaa_record ∷ []) ≡ some new)
    × AllConverted well_known (omega arith) (a_record ∷ aaaa_record ∷ []) new
convert_answers-AllConverted_example =
    convert_answers-AllConverted well_known (omega arith) (a_record ∷ aaaa_record ∷ [])

sequence_iff_example :
    (sequence (some dead_server ∷ none ∷ some server ∷ []) (pos 5) text_query
      ≡ (done (record { msg = some both_records; err = none }), text_query))
    ↔ Asked
        (pos 4)
        (some dead_server ∷ none ∷ some server ∷ [])
        (record { msg = none; err = none })
        text_query
        (record { msg = some both_records; err = none })
        text_query
sequence_iff_example =
    sequence_iff (some dead_server) (none ∷ some server ∷ []) 5 text_query text_query
      (record { msg = some both_records; err = none })

-- The sequence runs to that reply.
sequence_run :
    sequence (some dead_server ∷ none ∷ some server ∷ []) (pos 5) text_query
    ≡ (done (record { msg = some both_records; err = none }), text_query)
unfolding sequence name_server guard_depth try_each ◌>>=◌
sequence_run = refl

-- The second of two servers, which cannot be reached, ends first.
abbrev two_servers : List (Option (Resolve ℕ))
two_servers = some server ∷ some dead_server ∷ []

abbrev second_first : ℕ → List ℕ
second_first w = 1 ∷ []

concurrent-Run_example :
    (c : Race) × (out : Outcome) × Run
      (replied (some both_records) ∷ failed (library 1) ∷ [])
      (failed (library 1) ∷ replied (some both_records) ∷ [])
      c
    × (c.sent ≡ some out)
    × (concurrent second_first two_servers (pos 5) text_query ≡ (done out, text_query))
unfolding request_all request arrange name_server guard_depth ◌>>=◌
concurrent-Run_example =
    concurrent-Run second_first (some server) (some dead_server ∷ []) 5 text_query text_query
      (failed (library 1) ∷ replied (some both_records) ∷ [])
      (replied (some both_records) ∷ failed (library 1) ∷ []) refl
      (taken (later first) (taken first nothing))
