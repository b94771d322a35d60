-- ===== src/Contain/Mapping.antt =====
-- internal/contain/userns.go: verifyMappingText, which reads back one ID map of the namespace.
-- fmt.Sscanf of three numbers comes from outside; the order of spans with one start is that of the text.
pub mod Total
use prolewatch.Prelude.{
  ℕ, suc, ◌+◌, ◌-◌, ◌%◌, ◌^◌, Bool, true, false, not, ◌&&◌, ◌||◌, List, [], ◌∷◌, Option, none, some,
  ◌==◌, ltb, leb, if◌then◌else◌, Bytes, split_at, trim_space,
}
use prolewatch.Contain.Subid.{id_space}

pub record Span : Type 0 where
  pub ns_start : ℕ
  pub host_start : ℕ
  pub count : ℕ

abbrev pub uint64_mod : ℕ
uint64_mod = 2 ^ 64

unfoldable pub insert_span : Span → List Span → List Span
insert_span s [] = s ∷ []
insert_span s (t ∷ ts) =
    let rest = insert_span s ts in
    if ltb (Span.ns_start t) (Span.ns_start s) then t ∷ rest else s ∷ t ∷ ts

abbrev pub add_span : Option Span → List Span → List Span
add_span none ss = ss
add_span (some s) ss = if s.count == 0 then ss else insert_span s ss

-- The spans of the text in the order of their starts.
unfoldable pub spans_of : (Bytes → Option Span) → List Bytes → List Span
unfolding insert_span
spans_of scan [] = []
spans_of scan (l ∷ ls) = add_span (scan (trim_space l)) (spans_of scan ls)

abbrev pub span_end : Span → ℕ
span_end s = (s.ns_start + s.count) % uint64_mod

-- The lowest namespace ID that is not yet shown to be mapped.
unfoldable pub covered_from : ℕ → List Span → ℕ
covered_from covered [] = covered
covered_from covered (s ∷ ss) =
    let rest = covered_from (if ltb covered (span_end s) then span_end s else covered) ss in
    if ltb covered (Span.ns_start s) then covered else rest

-- The first span that maps the ID maps it to itself.
unfoldable pub maps_to_itself : ℕ → List Span → Bool
maps_to_itself id [] = false
maps_to_itself id (s ∷ ss) =
    let rest = maps_to_itself id ss in
    if ltb id (Span.ns_start s) || leb s.count (id - Span.ns_start s)
    then rest
    else (s.host_start + (id - s.ns_start)) % uint64_mod == id

unfoldable pub verify_mapping_text : (Bytes → Option Span) → Bytes → ℕ → Bool
unfolding spans_of covered_from maps_to_itself
verify_mapping_text scan text id =
    let spans = spans_of scan (split_at b'\n' text) in
    not (ltb (covered_from 0 spans) id_space) && maps_to_itself id spans
