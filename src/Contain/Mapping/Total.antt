-- ===== src/Contain/Mapping/Total.antt =====
-- A mapping that is accepted has no gap.
use prolewatch.Prelude.{
  ℕ, ◌+◌, ◌-◌, ◌%◌, ◌≤◌, ◌<◌, ◌≡◌, refl, inl, inr, true, ◌||◌, List, [], ◌∷◌, Option, none, some,
  ◌==◌, ==_iff, ltb, leb, Bytes, split_at, trim_space, arith, Bool-cases, IsIn, here, there, All,
}
use prolewatch.Contain.Subid.{id_space}
use prolewatch.Contain.Mapping.{
  Span, uint64_mod, insert_span, add_span, spans_of, span_end, covered_from, maps_to_itself,
  verify_mapping_text,
}

-- The span maps this namespace ID.
abbrev pub MapsId : Span → ℕ → Type 0
MapsId s id = (s.ns_start ≤ id) × (id < s.ns_start + s.count)

abbrev pub FitsWord : Span → Type 0
FitsWord s = (s.ns_start < uint64_mod) × (s.count < uint64_mod)

insert_span-All :
    (s : Span) (ts : List Span) → FitsWord s → All FitsWord ts → All FitsWord (insert_span s ts)
unfolding insert_span
insert_span-All s [] f h = (f, tt)
insert_span-All s (t ∷ ts) f (g, h) = elim (Bool-cases (ltb (Span.ns_start t) (Span.ns_start s))) [
  | inl less ↦ rw less (g, insert_span-All s ts f h)
  | inr not_less ↦ rw not_less (f, (g, h))
]

add_span-All :
    (o : Option Span) (ss : List Span)
    → ((s : Span) → o ≡ some s → FitsWord s)
    → All FitsWord ss
    → All FitsWord (add_span o ss)
add_span-All none ss f h = h
add_span-All (some s) ss f h = elim (Bool-cases (s.count == 0)) [
  | inl blank ↦ rw blank h
  | inr full ↦ rw full (insert_span-All s ss (f s refl) h)
]

spans_of-All :
    (scan : Bytes → Option Span)
    → ((l : Bytes) (s : Span) → scan l ≡ some s → FitsWord s)
    → (ls : List Bytes) → All FitsWord (spans_of scan ls)
unfolding spans_of
spans_of-All scan fits [] = tt
spans_of-All scan fits (l ∷ ls) =
    add_span-All (scan (trim_space l)) (spans_of scan ls) (fits (trim_space l))
      (spans_of-All scan fits ls)

reached :
    (s : Span) (covered id : ℕ)
    → FitsWord s
    → s.ns_start ≤ covered
    → covered ≤ id
    → id < span_end s
    → MapsId s id
reached s covered id f le from to = omega arith

covered_from-maps :
    (covered id : ℕ) (ss : List Span)
    → All FitsWord ss
    → covered ≤ id
    → id < covered_from covered ss
    → (s : Span) × IsIn s ss × MapsId s id
unfolding covered_from
covered_from-maps covered id [] f le lt = absurd (omega arith)
covered_from-maps covered id (s ∷ ss) (f, fs) le lt =
    elim (Bool-cases (ltb covered (Span.ns_start s))) [
      | inl gap ↦ absurd (ground arith)
      | inr next ↦ elim (Bool-cases (ltb covered (span_end s))) [
        | inr within ↦
            let (t, i, m) = covered_from-maps covered id ss fs le (rw (next, within) at lt) in
            (t, there i, m)
        | inl further ↦ elim (Bool-cases (ltb id (span_end s))) [
          | inl here' ↦ (s, here refl, reached s covered id f (ground arith) le (ground arith))
          | inr beyond ↦
              let (t, i, m) =
                covered_from-maps (span_end s) id ss fs (ground arith) (rw (next, further) at lt) in
              (t, there i, m)
        ]
      ]
    ]

maps_to_itself-maps :
    (id : ℕ) (ss : List Span)
    → maps_to_itself id ss ≡ true
    → (s : Span) × IsIn s ss × MapsId s id × ((s.host_start + (id - s.ns_start)) % uint64_mod ≡ id)
unfolding maps_to_itself
maps_to_itself-maps id [] h = absurd (cc)
maps_to_itself-maps id (s ∷ ss) h =
    elim (Bool-cases (ltb id (Span.ns_start s) || leb s.count (id - Span.ns_start s))) [
      | inl other ↦
          let (t, i, m, e) = maps_to_itself-maps id ss (rw other at h) in (t, there i, m, e)
      | inr this ↦ (s, here refl, ground arith, (==_iff _ id).0 (rw this at h))
    ]

-- An ID map that is accepted maps every ID of the namespace, by some span, and maps the given ID to
-- itself, where the numbers that are read fit 64 bits.
pub verify_mapping_text-IsTotal :
    (scan : Bytes → Option Span)
    → ((l : Bytes) (s : Span) → scan l ≡ some s → FitsWord s)
    → (text : Bytes) (id : ℕ) → verify_mapping_text scan text id ≡ true
    → ((x : ℕ)
        → x < id_space
        → (s : Span) × IsIn s (spans_of scan (split_at b'\n' text)) × MapsId s x)
      × ((s : Span) × IsIn s (spans_of scan (split_at b'\n' text))
          × MapsId s id
          × ((s.host_start + (id - s.ns_start)) % uint64_mod ≡ id))
unfolding verify_mapping_text
verify_mapping_text-IsTotal scan fits text id h =
    let spans = spans_of scan (split_at b'\n' text) in
    (
      λ x lt.
          covered_from-maps 0 x spans (spans_of-All scan fits (split_at b'\n' text)) (omega arith)
            (ground arith),
      maps_to_itself-maps id spans (ground arith),
    )
