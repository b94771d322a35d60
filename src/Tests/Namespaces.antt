-- ===== src/Tests/Namespaces.antt =====
-- Examples for internal/contain.
use prolewatch.Prelude.{
  ℕ, ◌+◌, ◌-◌, ◌%◌, ◌^◌, ◌<◌, ◌≡◌, refl, true, List, [], ◌∷◌, Option, none, some, if◌then◌else◌,
  Bytes, codes, bytes_eq, split_at, trim_space, parse_uint, value, IsIn, arith,
}
use prolewatch.Contain.Subid.{
  SubIdRange, SubIdEntry, content, ok, parse_entry, parse_entries, sub_id_end,
  sub_id_ranges_overlap, own_entries, widest, select_range, lookup_sub_id_file, is_owner, id_space,
}
use prolewatch.Contain.Subid.Delegated.{IsDelegated, lookup_sub_id_file-IsDelegated}
use prolewatch.Contain.Mapping.{
  Span, uint64_mod, insert_span, spans_of, covered_from, maps_to_itself, verify_mapping_text,
}
use prolewatch.Contain.Mapping.Total.{MapsId, FitsWord, verify_mapping_text-IsTotal}

abbrev subuid : List Bytes
subuid =
    codes "# delegations"
    ∷ codes "bob:100000:65536"
    ∷ codes "1000:300000:1000"
    ∷ codes "ann:400000:65536"
    ∷ []

abbrev delegated : SubIdRange
delegated = record { start = 400000; count = 65536 }

lookup_test :
    lookup_sub_id_file (content subuid true) (codes "ann") (codes "1000") (codes "1000")
    ≡ ok delegated
unfolding lookup_sub_id_file parse_entries parse_entry sub_id_end own_entries select_range
    sub_id_ranges_overlap widest parse_uint value bytes_eq trim_space
lookup_test = refl

lookup_sub_id_file-IsDelegated_example :
    (es : List SubIdEntry) × (id : ℕ) × (parse_entries subuid true ≡ ok es)
    × (parse_uint (2 ^ 32) (codes "1000") ≡ some id)
    × IsDelegated (is_owner (codes "ann") (codes "1000")) id es delegated
lookup_sub_id_file-IsDelegated_example =
    lookup_sub_id_file-IsDelegated subuid true (codes "ann") (codes "1000") (codes "1000") delegated
      lookup_test

-- The map of an account with the ID 1000: three spans.
abbrev low : Span
low = record { ns_start = 0; host_start = 400000; count = 1000 }

abbrev self : Span
self = record { ns_start = 1000; host_start = 1000; count = 1 }

abbrev high : Span
high = record { ns_start = 1001; host_start = 401000; count = 64535 }

abbrev scan : Bytes → Option Span
scan l =
    if bytes_eq l (codes "a")
    then some low
    else if bytes_eq l (codes "b")
    then some self
    else if bytes_eq l (codes "c")
    then some high
    else none

scan-FitsWord : (l : Bytes) (s : Span) → scan l ≡ some s → FitsWord s
scan-FitsWord l s h = ground arith

abbrev id_map : Bytes
id_map = codes "c\na\n b\n"

accepted : verify_mapping_text scan id_map 1000 ≡ true
unfolding verify_mapping_text spans_of insert_span covered_from maps_to_itself bytes_eq trim_space
accepted = refl

verify_mapping_text-IsTotal_example :
    ((x : ℕ)
      → x < id_space
      → (s : Span) × IsIn s (spans_of scan (split_at b'\n' id_map)) × MapsId s x)
    × ((s : Span) × IsIn s (spans_of scan (split_at b'\n' id_map))
        × MapsId s 1000
        × ((s.host_start + (1000 - s.ns_start)) % uint64_mod ≡ 1000))
verify_mapping_text-IsTotal_example =
    verify_mapping_text-IsTotal scan scan-FitsWord id_map 1000 accepted
