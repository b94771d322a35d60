-- ===== src/Audit/Approvals/Create.antt =====
-- internal/audit/approvals.go: Create, and the way of an approval from a report to a decision.
use prolewatch.Prelude.{
  ℕ, zero, suc, ◌+◌, ◌≡◌, ◌≢◌, ap, Bool, true, false, not, ◌&&◌, ◌||◌, List, [], ◌∷◌, ◌++◌,
  if◌then◌else◌, any, Bytes, Option, none, some, ltb, length, bytes_eq, bytes_eq_iff, bytes_eq_refl,
  bytes_lt, codes, has_prefix-append, has_suffix-append, arith, ◌==◌, is_digit,
}
use prolewatch.Brief.PackageBase.{valid_package_base}
use prolewatch.Safe.Digest.{valid_hex_digest, is_hex}
use prolewatch.Audit.Types.{Report, approval, approval_schema_version, report_schema_version}
use prolewatch.Audit.Approvals.{
  ApprovalToken, Entry, ApprovalStore, Wanted, moved, Files, token_matches, entry_matches, nothing,
  consume,
}
use prolewatch.Audit.Approvals.Once.{count_matching, consume-nothing}

pub data CreateError : Type 0 where
  invalid_kind legacy_report bad_report not_eligible bad_reason io_error exists : CreateError

abbrev repeat : ℕ → (ℕ → Bool) → List (ℕ → Bool) → List (ℕ → Bool)
repeat zero p ps = ps
repeat (suc n) p ps = p ∷ repeat n p ps

abbrev is_byte : ℕ → ℕ → Bool
is_byte c d = d == c

abbrev fits : List (ℕ → Bool) → Bytes → Bool
fits [] [] = true
fits [] (c ∷ s) = false
fits (p ∷ ps) [] = false
fits (p ∷ ps) (c ∷ s) = p c && fits ps s

-- reportIDRE, `^[0-9]{8}T[0-9]{6}Z-[0-9a-f]{12}-[0-9a-f]{8}$`.
unfoldable pub valid_report_id : Bytes → Bool
valid_report_id = fits (
    repeat 8 is_digit (
      is_byte b'T'
      ∷ repeat 6 is_digit
          (is_byte b'Z' ∷ is_byte b'-' ∷ repeat 12 is_hex (is_byte b'-' ∷ repeat 8 is_hex []))))

unfoldable pub report_can_authorize : Report → Bool
unfolding valid_report_id
report_can_authorize r =
    valid_report_id r.report_id
    && valid_package_base r.package_base
    && (bytes_eq r.phase (codes "pre")
        || bytes_eq r.phase (codes "post")
        || bytes_eq r.phase (codes "artifact"))
    && valid_hex_digest r.content_hash
    && valid_hex_digest r.policy_fingerprint

abbrev pub token_of : Report → Bytes → Bytes → ApprovalToken
token_of r kind reason = record {
  schema_version = approval_schema_version;
  kind = kind;
  consumed = false;
  source_report_id = r.report_id;
  package_base = r.package_base;
  phase = r.phase;
  content_hash = r.content_hash;
  policy_fingerprint = r.policy_fingerprint;
  reason = reason;
}

abbrev pub entry_of : Report → Bytes → Bytes → Entry
entry_of r kind reason = record {
  name = kind ++ (b'-' ∷ (r.report_id ++ codes ".json"));
  is_dir = false;
  document = some (token_of r kind reason);
}

-- The listing of a directory with a new file in its place.
unfoldable pub insert_entry : Entry → List Entry → List Entry
insert_entry e [] = e ∷ []
insert_entry e (f ∷ fs) = if bytes_lt f.name e.name then f ∷ insert_entry e fs else e ∷ f ∷ fs

-- ApprovalStore.Create: `dirs_ok` and `write_ok` say whether the directories are private and whether
-- the document can be written.
unfoldable pub create :
    Bool → Bool → Report → Bytes → Bytes → ApprovalStore → ApprovalStore × Option CreateError
create dirs_ok write_ok r kind reason s =
    let entry = entry_of r kind reason in
    if not (bytes_eq kind approval)
    then (s, some invalid_kind)
    else if not (r.schema_version == report_schema_version)
    then (s, some legacy_report)
    else if not (report_can_authorize r)
    then (s, some bad_report)
    else if not r.approval_eligible
    then (s, some not_eligible)
    else if ltb (length reason) 4 || ltb 2000 (length reason)
    then (s, some bad_reason)
    else if not dirs_ok
    then (s, some io_error)
    else if any (λ f. bytes_eq f.name entry.name) s.pending
    then (s, some exists)
    else if not write_ok
    then (s, some io_error)
    else (record s { pending = insert_entry entry s.pending }, none)

-- The question of a decision on exactly what the report was about.
abbrev pub wanted_of : Report → Wanted
wanted_of r = record {
  kind = approval;
  package_base = r.package_base;
  phase = r.phase;
  content_hash = r.content_hash;
  policy_fingerprint = r.policy_fingerprint;
}

entry_of-matches :
    (r : Report) (reason : Bytes) → entry_matches (wanted_of r) (entry_of r approval reason) ≡ true
unfolding entry_matches token_matches
entry_of-matches r reason = ground (
  arith,
  has_prefix-append (approval ++ b'-' ∷ []) (r.report_id ++ codes ".json"),
  has_suffix-append (codes ".json") (approval ++ (b'-' ∷ r.report_id)),
  bytes_eq_refl approval,
  bytes_eq_refl r.package_base,
  bytes_eq_refl r.phase,
  bytes_eq_refl r.content_hash,
  bytes_eq_refl r.policy_fingerprint,
)

count_matching-insert :
    (w : Wanted) (e : Entry) (es : List Entry)
    → entry_matches w e ≡ true
    → count_matching w (insert_entry e es) ≡ count_matching w es + 1
unfolding insert_entry
count_matching-insert w e [] h = ground arith
count_matching-insert w e (f ∷ fs) h = ground (arith, count_matching-insert w e fs h)

create-ok :
    (dirs_ok write_ok : Bool) (r : Report) (kind reason : Bytes) (s : ApprovalStore)
    → (create dirs_ok write_ok r kind reason s).1 ≡ none
    → (kind ≡ approval)
      × (r.approval_eligible ≡ true)
      × ((create dirs_ok write_ok r kind reason s).0.pending
          ≡ insert_entry (entry_of r kind reason) s.pending)
unfolding create
create-ok dirs_ok write_ok r kind reason s h = ground (arith, bytes_eq_iff kind approval)

-- An approval is created only from a report that is eligible for one, and the next decision on the
-- same package, phase, content and policy then finds an approval, as long as no other process takes
-- or blocks the files.
pub create-consume :
    (dirs_ok write_ok : Bool) (r : Report) (kind reason : Bytes) (s : ApprovalStore) (files : Files)
    → (create dirs_ok write_ok r kind reason s).1 ≡ none
    → ((n : Bytes) → files.rename n ≡ moved)
    → (r.approval_eligible ≡ true)
      × ((consume (wanted_of r) files (create dirs_ok write_ok r kind reason s).0).1 ≢ nothing)
create-consume dirs_ok write_ok r kind reason s files h free =
    let after = (create dirs_ok write_ok r kind reason s).0 in
    let (is_approval, eligible, pending_is) = create-ok dirs_ok write_ok r kind reason s h in
    let found : entry_matches (wanted_of r) (entry_of r kind reason) ≡ true =
      rw is_approval (entry_of-matches r reason) in
    let more = count_matching-insert (wanted_of r) (entry_of r kind reason) s.pending found in
    let count_is = ap (count_matching (wanted_of r)) pending_is in
    (
      eligible,
      λ e. let empty = consume-nothing (wanted_of r) files after free e in absurd (omega arith),
    )
