-- ===== src/Brief/Manifest.antt =====
-- internal/brief/sources.go and internal/brief/models.go: the manifest of a report, ValidateManifestRecord,
-- with manifestEntryHash and manifestEntryHashes of internal/audit over it. A manifest value is a map
-- as JSON gives it: its keys, its strict decoding and the digest of its canonical form come from
-- outside.
pub mod Hashes
use prolewatch.Prelude.{
  ℕ, Bool, true, false, not, ◌&&◌, ◌||◌, List, [], ◌∷◌, Option, none, some, ltb, ◌==◌,
  if◌then◌else◌, length, all, Bytes, bytes_eq, codes, is_empty, is_member, ℤ, is_negative,
}
use prolewatch.Safe.Digest.{valid_hex_digest}

-- The fields that validation reads; `has_binary_metadata` is false for a nil map.
pub record FileRecord : Type 0 where
  pub path : Bytes
  pub path_b64 : Bytes
  pub kind : Bytes
  pub mode : ℕ
  pub size : ℤ
  pub sha256 : Bytes
  pub link_target : Bytes
  pub archive_entries : ℤ
  pub selected_reason : Bytes
  pub has_binary_metadata : Bool

pub record Codec (V : Type 0) : Type 0 where
  pub keys : V → List Bytes
  pub decode : V → Option FileRecord
  pub entry_hash : V → Option Bytes
  pub is_base64 : Bytes → Bool

abbrev pub manifest_keys : List Bytes
manifest_keys =
    codes "path"
    ∷ codes "path_b64"
    ∷ codes "kind"
    ∷ codes "mode"
    ∷ codes "size"
    ∷ codes "sha256"
    ∷ codes "executable"
    ∷ codes "text"
    ∷ codes "link_target"
    ∷ codes "archive_entries"
    ∷ codes "archive_format"
    ∷ codes "extractable"
    ∷ codes "selected_reason"
    ∷ codes "binary_metadata"
    ∷ []

abbrev valid_kinds : List Bytes
valid_kinds =
    codes "file"
    ∷ codes "archive-member"
    ∷ codes "symlink"
    ∷ codes "fifo"
    ∷ codes "char-device"
    ∷ codes "block-device"
    ∷ codes "socket"
    ∷ codes "special"
    ∷ []

abbrev valid_reasons : List Bytes
valid_reasons =
    []
    ∷ codes "mandatory"
    ∷ codes "archive-member"
    ∷ codes "binary-metadata"
    ∷ codes "executable"
    ∷ []

abbrev pub has_content : FileRecord → Bool
has_content r = bytes_eq r.kind (codes "file") || bytes_eq r.kind (codes "archive-member")

unfoldable pub within_value_limits : FileRecord → Bool
within_value_limits r =
    not (is_empty r.path)
    && not (ltb 4096 (length r.path))
    && not (ltb 8192 (length r.path_b64))
    && is_member r.kind valid_kinds
    && not (ltb 0o7777 r.mode)
    && not (is_negative r.size)
    && not (is_negative r.archive_entries)
    && not (ltb 4096 (length r.link_target))
    && is_member r.selected_reason valid_reasons
    && r.has_binary_metadata

module _ {V : Type 0} (codec : Codec V) where
  abbrev pub valid_record : FileRecord → Bool
  valid_record r =
      within_value_limits r
      && codec.is_base64 r.path_b64
      && (if has_content r then valid_hex_digest r.sha256 else is_empty r.sha256)

  abbrev checked : Option FileRecord → Option FileRecord
  checked none = none
  checked (some r) = if valid_record r then some r else none

  -- ValidateManifestRecord.
  unfoldable pub validate_manifest_record : V → Option FileRecord
  validate_manifest_record v =
      if not (length (codec.keys v) == length manifest_keys)
      then none
      else if not (all (λ k. is_member k manifest_keys) (codec.keys v))
      then none
      else checked (codec.decode v)

-- A Go map from strings to strings; a key that is missing reads as the empty string.
abbrev pub hash_at : List (Bytes × Bytes) → Bytes → Bytes
hash_at [] path = []
hash_at ((p, h) ∷ hs) path = if bytes_eq p path then h else hash_at hs path

module _ {V : Type 0} (codec : Codec V) where
  unfoldable pub add_hashes : List (Bytes × Bytes) → List V → Option (List (Bytes × Bytes))
  unfolding validate_manifest_record
  add_hashes result [] = some result
  add_hashes result (v ∷ vs) = elim (validate_manifest_record codec v) [
    | none ↦ none
    | some r ↦ elim (codec.entry_hash v) [
      | none ↦ none
      | some h ↦
          let rest = add_hashes ((r.path, h) ∷ result) vs in
          if not (is_empty (hash_at result r.path)) then none else rest
    ]
  ]

  -- manifestEntryHashes.
  unfoldable pub manifest_entry_hashes : List V → Option (List (Bytes × Bytes))
  manifest_entry_hashes = add_hashes []
