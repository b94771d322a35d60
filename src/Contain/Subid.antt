-- ===== src/Contain/Subid.antt =====
-- internal/contain/subid.go: LookupSubIDs with requireFileSubIDProvider and lookupSubIDFile. A file is
-- what reading it line by line gives; the line numbers, which only messages name, are left out.
pub mod Widest
pub mod Entries
pub mod Delegated
use prolewatch.Prelude.{
  ℕ, ◌+◌, ◌-◌, ◌^◌, Bool, true, false, not, ◌&&◌, ◌||◌, List, [], ◌∷◌, Option, none, some, ◌==◌,
  ltb, leb, if◌then◌else◌, any, Bytes, bytes_eq, codes, is_empty, first_is, split_at, trim_space,
  cut, fields, parse_uint,
}

abbrev pub id_space : ℕ
id_space = 65536

abbrev pub min_delegation : ℕ
min_delegation = id_space

-- (uid_t)-1.
abbrev pub max_sub_id_exclusive : ℕ
max_sub_id_exclusive = 2 ^ 32 - 1

pub record SubIdRange : Type 0 where
  pub start : ℕ
  pub count : ℕ

pub data ReadFile : Type 0 where
  missing : ReadFile
  unreadable : ReadFile
  content : List Bytes → Bool → ReadFile

pub data SubIdError : Type 0 where
  no_sub_id : SubIdError
  open_failed : SubIdError
  read_failed : SubIdError
  bad_entry : SubIdError
  bad_range : SubIdError
  unsafe_overlap : SubIdError
  bad_id : SubIdError
  maps_self : SubIdError
  unsupported_provider : SubIdError

pub data Result {ℓ} (A : Type ℓ) : Type ℓ where
  ok : A → Result A
  err : SubIdError → Result A

abbrev without_comment : Option (Bytes × Bytes) → Bytes → Bytes
without_comment none line = line
without_comment (some (before, _)) line = before

-- What a line of nsswitch.conf says of the provider, if it does.
unfoldable pub provider_line : List Bytes → Option (Result (Unit {0}))
provider_line [] = none
provider_line (w ∷ ws) = if not (bytes_eq w (codes "subid:")) then none else elim ws [
  | f ∷ [] ↦ if bytes_eq f (codes "files") then some (ok tt) else some (err unsupported_provider)
  | _ ↦ some (err unsupported_provider)
]

unfoldable pub provider_lines : List Bytes → Bool → Result (Unit {0})
unfolding provider_line
provider_lines [] whole = if whole then ok tt else err read_failed
provider_lines (l ∷ ls) whole = elim (provider_line (fields (without_comment (cut b'#' l) l))) [
  | some r ↦ r
  | none ↦ provider_lines ls whole
]

-- requireFileSubIDProvider.
unfoldable pub require_file_sub_id_provider : ReadFile → Result (Unit {0})
unfolding provider_lines
require_file_sub_id_provider missing = ok tt
require_file_sub_id_provider unreadable = err open_failed
require_file_sub_id_provider (content ls whole) = provider_lines ls whole

pub record SubIdEntry : Type 0 where
  pub owner : Bytes
  pub ids : SubIdRange

-- subIDEnd.
unfoldable pub sub_id_end : SubIdRange → Option ℕ
sub_id_end r =
    if r.count == 0 || ltb max_sub_id_exclusive (r.start + r.count)
    then none
    else some (r.start + r.count)

abbrev overlap_to : SubIdRange → SubIdRange → Option ℕ → Option ℕ → Bool
overlap_to a b (some a_end) (some b_end) = ltb a.start b_end && ltb b.start a_end
overlap_to a b _ _ = false

unfoldable pub sub_id_ranges_overlap : SubIdRange → SubIdRange → Bool
sub_id_ranges_overlap a b = overlap_to a b (sub_id_end a) (sub_id_end b)

-- An entry of three fields.
abbrev pub checked_entry : Bytes → Option ℕ → Option ℕ → Result SubIdEntry
checked_entry owner (some start) (some count) =
    let entry : SubIdEntry = record {
      owner = owner;
      ids = record { start = start; count = count };
    } in
    elim (sub_id_end entry.ids) [ none ↦ err bad_range | some _ ↦ ok entry ]
checked_entry owner _ _ = err bad_range

unfoldable pub parse_entry : List Bytes → Result SubIdEntry
parse_entry (owner ∷ start ∷ count ∷ []) =
    checked_entry owner (parse_uint (2 ^ 32) start) (parse_uint (2 ^ 32) count)
parse_entry _ = err bad_entry

abbrev pub is_comment : Bytes → Bool
is_comment line = is_empty line || first_is b'#' line

abbrev pub also : SubIdEntry → Result (List SubIdEntry) → Result (List SubIdEntry)
also e (err x) = err x
also e (ok es) = ok (e ∷ es)

abbrev pub and_then : Result SubIdEntry → Result (List SubIdEntry) → Result (List SubIdEntry)
and_then (err x) rest = err x
and_then (ok e) rest = also e rest

-- The loop over the lines.
unfoldable pub parse_entries : List Bytes → Bool → Result (List SubIdEntry)
unfolding parse_entry
parse_entries [] whole = if whole then ok [] else err read_failed
parse_entries (l ∷ ls) whole =
    let rest = parse_entries ls whole in
    let more = and_then (parse_entry (split_at b':' (trim_space l))) rest in
    if is_comment (trim_space l) then rest else more

abbrev pub is_owner : Bytes → Bytes → SubIdEntry → Bool
is_owner username uid e = bytes_eq e.owner username || bytes_eq e.owner uid

unfoldable pub own_entries : (SubIdEntry → Bool) → List SubIdEntry → List SubIdEntry
own_entries mine [] = []
own_entries mine (e ∷ es) = let rest = own_entries mine es in if mine e then e ∷ rest else rest

-- Another account's range that overlaps.
abbrev pub conflicts : (SubIdEntry → Bool) → SubIdEntry → SubIdEntry → Bool
conflicts mine candidate other = not (mine other) && sub_id_ranges_overlap candidate.ids other.ids

abbrev pub is_in : ℕ → SubIdRange → Bool
is_in id r = leb r.start id && ltb id (r.start + r.count)

-- The widest delegation; `none` if one holds the mapped ID.
unfoldable pub widest : ℕ → SubIdRange → List SubIdEntry → Option SubIdRange
widest mapped best [] = some best
widest mapped best (e ∷ es) =
    let rest = widest mapped (if ltb best.count (SubIdRange.count e.ids) then e.ids else best) es in
    if is_in mapped e.ids then none else rest

abbrev pub wide_enough : Option SubIdRange → Result SubIdRange
wide_enough none = err maps_self
wide_enough (some best) = if ltb best.count min_delegation then err no_sub_id else ok best

abbrev pub no_range : SubIdRange
no_range = record { start = 0; count = 0 }

unfoldable pub select_range :
    (SubIdEntry → Bool) → Option ℕ → List SubIdEntry → List SubIdEntry → Result SubIdRange
select_range mine mapped es [] = err no_sub_id
select_range mine mapped es (o ∷ os) =
    if any (λ c. any (conflicts mine c) es) (o ∷ os)
    then err unsafe_overlap
    else elim mapped [ none ↦ err bad_id | some id ↦ wide_enough (widest id no_range (o ∷ os)) ]

abbrev pub on_entries : (SubIdEntry → Bool) → Bytes → Result (List SubIdEntry) → Result SubIdRange
on_entries mine mapped_id (err x) = err x
on_entries mine mapped_id (ok es) =
    select_range mine (parse_uint (2 ^ 32) mapped_id) es (own_entries mine es)

-- lookupSubIDFile.
unfoldable pub lookup_sub_id_file : ReadFile → Bytes → Bytes → Bytes → Result SubIdRange
unfolding parse_entries own_entries select_range
lookup_sub_id_file missing username uid mapped_id = err no_sub_id
lookup_sub_id_file unreadable username uid mapped_id = err open_failed
lookup_sub_id_file (content ls whole) username uid mapped_id =
    on_entries (is_owner username uid) mapped_id (parse_entries ls whole)

abbrev both : Result SubIdRange → Result SubIdRange → Result (SubIdRange × SubIdRange)
both (err x) gids = err x
both (ok u) (err x) = err x
both (ok u) (ok g) = ok (u, g)

-- LookupSubIDs, for an account that is known.
unfoldable pub lookup_sub_ids :
    ReadFile → ReadFile → ReadFile → Bytes → Bytes → Bytes → Result (SubIdRange × SubIdRange)
unfolding require_file_sub_id_provider lookup_sub_id_file
lookup_sub_ids nsswitch subuid subgid username uid gid =
    elim (require_file_sub_id_provider nsswitch) [
      | err x ↦ err x
      | ok _ ↦
          both (lookup_sub_id_file subuid username uid uid)
            (lookup_sub_id_file subgid username uid gid)
    ]
