-- ===== src/Audit/Marker.antt =====
-- internal/audit/policy.go: decision markers, markerLocation, writeMarker and loadLiveMarkerReport.
-- `World` is what they take from the system: the identity of this transaction and of running
-- processes, the canonical form of a directory's path, the digest of a key, whether the marker
-- directory is private, and the stored reports with their manifests. `json` is the marker that
-- ReadJSONFile decodes from what AtomicWriteJSON has encoded.
pub mod Live
use prolewatch.Prelude.{
  ◌>>=◌, ℕ, Bool, true, false, not, ◌&&◌, ◌||◌, List, [], ◌∷◌, ◌++◌, Option, none, some, ltb, ◌==◌,
  if◌then◌else◌, length, Bytes, bytes_eq, codes, is_empty, is_member, decimal,
}
use prolewatch.Brief.Findings.{Finding}
use prolewatch.Brief.Manifest.{Codec, hash_at, manifest_entry_hashes}
use prolewatch.Audit.Types.{
  Report, ProcessIdentity, Inventory, CarriedDecision, CarriedFindingBinding, allow, override,
  deterministic,
}
use prolewatch.Audit.Severity.{severity_at_least}
use prolewatch.Audit.Assess.{structural_block}
use prolewatch.Audit.Evaluate.Review.{prompt_injection}

abbrev pub marker_schema_version : ℕ
marker_schema_version = 8

pub record Marker : Type 0 where
  pub schema_version : ℕ
  pub root : Bytes
  pub phase : Bytes
  pub package_base : Bytes
  pub report_id : Bytes
  pub content_hash : Bytes
  pub policy_fingerprint : Bytes
  pub decision : Bytes
  pub disposition : Bytes
  pub transaction : ProcessIdentity

pub record World (V : Type 0) : Type 0 where
  pub transaction : Option ProcessIdentity
  pub identity_for_pid : ℕ → Option ProcessIdentity
  pub canonical : Bytes → Option Bytes
  pub sha256 : Bytes → Bytes
  pub private_dir : Bool
  pub json : Marker → Option Marker
  pub load_report : Bytes → Option (Report × List V)

-- The marker directory: what was encoded, by file name, the newest write first.
abbrev pub Markers : Type 0
Markers = List (Bytes × Marker)

abbrev pub read_marker : Markers → Bytes → Option Marker
read_marker [] name = none
read_marker ((n, m) ∷ ms) name = if bytes_eq n name then some m else read_marker ms name

-- Equality of identities.
unfoldable pub same_identity : ProcessIdentity → ProcessIdentity → Bool
same_identity p q =
    p.pid == q.pid
    && bytes_eq p.start_time q.start_time
    && bytes_eq p.boot_id q.boot_id
    && p.uid == q.uid

abbrev pub is_current : Option ProcessIdentity → ProcessIdentity → Bool
is_current none p = false
is_current (some q) p = same_identity q p

abbrev pub marker_key : Bytes → ProcessIdentity → Bytes
marker_key root t = root ++ (0 ∷ (decimal t.pid ++ (0 ∷ (t.start_time ++ (0 ∷ t.boot_id)))))

unfoldable pub marker_fits : Bytes → Bytes → Marker → Bool
marker_fits c phase m =
    m.schema_version == marker_schema_version
    && bytes_eq m.root c
    && bytes_eq m.phase phase
    && bytes_eq m.decision allow

unfoldable pub marker_matches : Marker → Report → Bool
marker_matches m r =
    bytes_eq m.package_base r.package_base
    && bytes_eq m.content_hash r.content_hash
    && bytes_eq m.policy_fingerprint r.policy_fingerprint
    && bytes_eq m.decision r.decision
    && bytes_eq m.disposition r.disposition

abbrev pub marker_of : Bytes → Bytes → Report → Marker
marker_of c phase r = record {
  schema_version = marker_schema_version;
  root = c;
  phase = phase;
  package_base = r.package_base;
  report_id = r.report_id;
  content_hash = r.content_hash;
  policy_fingerprint = r.policy_fingerprint;
  decision = r.decision;
  disposition = r.disposition;
  transaction = r.transaction;
}

module _ {V : Type 0} (w : World V) where
  -- IdentityIsLive.
  abbrev pub identity_is_live : ProcessIdentity → Bool
  identity_is_live p = is_current (w.identity_for_pid p.pid) p

  -- markerLocation: the canonical root and the file name.
  unfoldable pub marker_location : Bytes → Bytes → ProcessIdentity → Option (Bytes × Bytes)
  marker_location root phase t =
      if not (bytes_eq phase (codes "pre")) && not (bytes_eq phase (codes "post"))
      then none
      else elim (w.canonical root) [
        | none ↦ none
        | some c ↦
            if ltb 8192 (length c) || t.pid == 0 || is_empty t.start_time || is_empty t.boot_id
            then none
            else some (c, w.sha256 (marker_key c t) ++ (b'-' ∷ (phase ++ codes ".json")))
      ]

  -- writeMarker, for a report that is not nil; `write_ok` is the outcome of AtomicWriteJSON.
  unfoldable pub write_marker : Bool → Bytes → Bytes → Report → Markers → Option Markers
  unfolding marker_location
  write_marker write_ok root phase r ms = elim (marker_location root phase r.transaction) [
    | none ↦ none
    | some (c, name) ↦ if write_ok then some ((name, marker_of c phase r) ∷ ms) else none
  ]

  unfoldable pub is_of_transaction : ProcessIdentity → Marker → Report → Bool
  is_of_transaction current m r =
      same_identity m.transaction current
      && same_identity r.transaction current
      && identity_is_live m.transaction

  -- loadLiveMarkerReport: the report, its manifest and the canonical root.
  unfoldable pub load_live_marker_report :
      Bytes → Bytes → Bytes → Markers → Option (Report × List V × Bytes)
  unfolding marker_location marker_fits marker_matches is_of_transaction
  load_live_marker_report policy_fingerprint root phase ms = do
    current ← w.transaction
    (c, name) ← marker_location root phase current
    written ← (if w.private_dir then read_marker ms name else none)
    m ← w.json written
    (r, manifest) ← (if marker_fits c phase m then w.load_report m.report_id else none)
    if marker_matches m r
          && bytes_eq m.policy_fingerprint policy_fingerprint
          && is_of_transaction current m r
        then some (r, manifest, c)
        else none
