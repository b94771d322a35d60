-- ===== src/Contain/Subid/Entries.antt =====
-- The entries of a file are valid ranges.
use prolewatch.Prelude.{
  ℕ, ◌+◌, ◌^◌, ◌≤◌, ◌<◌, ◌≡◌, refl, ap, inl, inr, Bool, true, false, List, [], ◌∷◌, Option, none,
  some, Bytes, split_at, trim_space, parse_uint, arith, Bool-cases, Option-cases, All,
}
use mathlib.Core.Path.{subst}
use prolewatch.Contain.Subid.{
  SubIdRange, SubIdEntry, Result, ok, err, sub_id_end, sub_id_ranges_overlap, checked_entry,
  parse_entry, and_then, is_comment, parse_entries, max_sub_id_exclusive,
}

-- An ID of a range.
abbrev pub Holds : SubIdRange → ℕ → Type 0
Holds r id = (r.start ≤ id) × (id < r.start + r.count)

abbrev pub IsMappable : SubIdRange → Type 0
IsMappable r = (0 < r.count) × (r.start + r.count ≤ max_sub_id_exclusive)

abbrev pub Mappable : SubIdEntry → Type 0
Mappable e = IsMappable e.ids

sub_id_end-some : (r : SubIdRange) (n : ℕ) → sub_id_end r ≡ some n → IsMappable r
unfolding sub_id_end
sub_id_end-some r n h = ground arith

sub_id_end-mappable : (r : SubIdRange) → IsMappable r → sub_id_end r ≡ some (r.start + r.count)
unfolding sub_id_end
sub_id_end-mappable r h = ground arith

pub shared_id_overlaps :
    (a b : SubIdRange) (id : ℕ)
    → IsMappable a
    → IsMappable b
    → Holds a id
    → Holds b id
    → sub_id_ranges_overlap a b ≡ true
unfolding sub_id_ranges_overlap
shared_id_overlaps a b id ma mb ha hb =
    rw (sub_id_end-mappable a ma, sub_id_end-mappable b mb) (ground arith)

checked_entry-Mappable :
    (owner : Bytes) (start count : Option ℕ) (e : SubIdEntry)
    → checked_entry owner start count ≡ ok e
    → Mappable e
checked_entry-Mappable owner none count e h = absurd (cc)
checked_entry-Mappable owner (some start) none e h = absurd (cc)
checked_entry-Mappable owner (some start) (some count) e h =
    let entry : SubIdEntry = record {
      owner = owner;
      ids = record { start = start; count = count };
    } in
    elim (Option-cases (sub_id_end entry.ids)) [
      | inl bad ↦ absurd (ground arith)
      | inr (n, good) ↦
          let same : ok entry ≡ ok e = rw (good, checked_entry) at h in
          subst Mappable (ok-injective same) (sub_id_end-some entry.ids n good)
    ]
  where
    ok-injective : {x y : SubIdEntry} → ok x ≡ ok y → x ≡ y
    ok-injective {x} p = ap (λ (r : Result SubIdEntry). elim r [ ok z ↦ z | err w ↦ x ]) p

parse_entry-Mappable : (ws : List Bytes) (e : SubIdEntry) → parse_entry ws ≡ ok e → Mappable e
unfolding parse_entry
parse_entry-Mappable (owner ∷ start ∷ count ∷ []) e h =
    checked_entry-Mappable owner (parse_uint (2 ^ 32) start) (parse_uint (2 ^ 32) count) e h
parse_entry-Mappable [] e h = absurd (cc)
parse_entry-Mappable (a ∷ []) e h = absurd (cc)
parse_entry-Mappable (a ∷ b ∷ []) e h = absurd (cc)
parse_entry-Mappable (a ∷ b ∷ c ∷ d ∷ ws) e h = absurd (cc)

-- What an error leaves of a claim about a result.
abbrev pub Satisfies : (List SubIdEntry → Type 0) → Result (List SubIdEntry) → Type 0
Satisfies P (ok es) = P es
Satisfies P (err x) = Unit

and_then-Satisfies :
    (r : Result SubIdEntry) (rest : Result (List SubIdEntry))
    → ((e : SubIdEntry) → r ≡ ok e → Mappable e)
    → Satisfies (All Mappable) rest
    → Satisfies (All Mappable) (and_then r rest)
and_then-Satisfies (err x) rest f h = tt
and_then-Satisfies (ok e) (err x) f h = tt
and_then-Satisfies (ok e) (ok es) f h = (f e refl, h)

pub parse_entries-Mappable :
    (ls : List Bytes) (whole : Bool) → Satisfies (All Mappable) (parse_entries ls whole)
unfolding parse_entries
parse_entries-Mappable [] true = tt
parse_entries-Mappable [] false = tt
parse_entries-Mappable (l ∷ ls) whole = elim (Bool-cases (is_comment (trim_space l))) [
  | inl comment ↦ rw comment (parse_entries-Mappable ls whole)
  | inr entry ↦ rw entry (
      and_then-Satisfies (parse_entry (split_at b':' (trim_space l))) (parse_entries ls whole)
        (parse_entry-Mappable (split_at b':' (trim_space l))) (parse_entries-Mappable ls whole))
]
