-- ===== src/Audit/Approvals.antt =====
-- internal/audit/approvals.go: the store of one-time approvals. `pending` is the listing of the
-- pending directory as os.ReadDir gives it, sorted by name, which the sort in Consume leaves as it
-- is; a document that does not decode is `none`. The outcomes of the file operations come from
-- outside.
pub mod Once
pub mod Create
use prolewatch.Prelude.{
  ℕ, suc, ◌+◌, Bool, true, false, not, ◌&&◌, ◌||◌, List, [], ◌∷◌, ◌++◌, Option, none, some, leb,
  ltb, ◌==◌, if◌then◌else◌, length, any, Bytes, bytes_eq, codes, has_prefix, has_suffix, is_digit,
  all,
}
use prolewatch.Audit.Types.{Report, approval, approval_schema_version, report_schema_version}

-- `consumed` is whether ConsumedAt is set.
pub record ApprovalToken : Type 0 where
  pub schema_version : ℕ
  pub kind : Bytes
  pub consumed : Bool
  pub source_report_id : Bytes
  pub package_base : Bytes
  pub phase : Bytes
  pub content_hash : Bytes
  pub policy_fingerprint : Bytes
  pub reason : Bytes

pub record Entry : Type 0 where
  pub name : Bytes
  pub is_dir : Bool
  pub document : Option ApprovalToken

pub record ApprovalStore : Type 0 where
  pub pending : List Entry
  pub used : List Entry

-- What a decision asks for.
pub record Wanted : Type 0 where
  pub kind : Bytes
  pub package_base : Bytes
  pub phase : Bytes
  pub content_hash : Bytes
  pub policy_fingerprint : Bytes

-- os.Rename of an entry: done, the source is gone (another process took it), or an error.
pub data Rename : Type 0 where
  moved missing failed : Rename

-- The file operations of one call: whether the pending directory can be listed and the used one made,
-- the renames by entry name, and whether the record of the consumption can be written. A pending
-- directory that is not there is an empty listing.
pub record Files : Type 0 where
  pub list_ok : Bool
  pub used_ok : Bool
  pub rename : Bytes → Rename
  pub write_ok : Bool

unfoldable pub token_matches : Wanted → ApprovalToken → Bool
token_matches w t =
    t.schema_version == approval_schema_version
    && bytes_eq t.kind w.kind
    && bytes_eq t.package_base w.package_base
    && bytes_eq t.phase w.phase
    && bytes_eq t.content_hash w.content_hash
    && bytes_eq t.policy_fingerprint w.policy_fingerprint

abbrev document_matches : Wanted → Option ApprovalToken → Bool
document_matches w none = false
document_matches w (some t) = token_matches w t

-- The tests that an entry passes before it is renamed.
unfoldable pub entry_matches : Wanted → Entry → Bool
entry_matches w e =
    not e.is_dir
    && has_prefix (w.kind ++ b'-' ∷ []) e.name
    && has_suffix (codes ".json") e.name
    && document_matches w e.document

pub data Consumed : Type 0 where
  nothing : Consumed
  token : ApprovalToken → Consumed
  error : Consumed

abbrev stamp : Option ApprovalToken → Option ApprovalToken
stamp none = none
stamp (some t) = some (record t { consumed = true })

abbrev pub stamped : Entry → Entry
stamped e = record e { document = stamp e.document }

abbrev outcome : Bool → Option ApprovalToken → Consumed
outcome true (some t) = token t
outcome true none = error
outcome false d = error

-- The loop over the entries, which gives the entries left, those moved to `used`, and the result. An
-- entry whose rename finds no source is left out: it is no longer there.
unfoldable pub consume_entries : Wanted → Files → List Entry → List Entry × List Entry × Consumed
consume_entries w files [] = ([], [], nothing)
consume_entries w files (e ∷ es) =
    let (left, taken, result) = consume_entries w files es in
    if not (entry_matches w e) then (e ∷ left, taken, result) else elim (files.rename e.name) [
      | missing ↦ (left, taken, result)
      | failed ↦ (e ∷ es, [], error)
      | moved ↦ (es, stamped e ∷ [], outcome files.write_ok (stamped e).document)
    ]

abbrev pub remove_entry : Bytes → List Entry → List Entry
remove_entry name [] = []
remove_entry name (e ∷ es) =
    let rest = remove_entry name es in if bytes_eq (Entry.name e) name then rest else e ∷ rest

-- A rename replaces a file of the same name.
abbrev pub put_used : List Entry → List Entry → List Entry
put_used [] used = used
put_used (e ∷ es) used = remove_entry e.name used ++ e ∷ []

-- ApprovalStore.Consume.
unfoldable pub consume : Wanted → Files → ApprovalStore → ApprovalStore × Consumed
unfolding consume_entries
consume w files s =
    if not files.list_ok || not files.used_ok
    then (s, error)
    else let (left, taken, result) = consume_entries w files s.pending in
      (record { pending = left; used = put_used taken s.used }, result)
