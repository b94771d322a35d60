-- ===== src/Tests/Markers.antt =====
-- Examples for the decision markers and the carried decisions of internal/audit.
use prolewatch.Prelude.{
  ◌≡◌, refl, true, [], ◌∷◌, some, List, Bytes, codes, bytes_eq, replicate, All, pos, has_prefix,
}
use prolewatch.Brief.Findings.{Finding}
use prolewatch.Brief.Manifest.{
  FileRecord, Codec, manifest_keys, within_value_limits, validate_manifest_record, add_hashes,
  manifest_entry_hashes,
}
use prolewatch.Safe.Content.{scan, read_rune, rune_length}
use prolewatch.Safe.Digest.{valid_hex_digest}
use prolewatch.Audit.Types.{Report, ProcessIdentity, Inventory, CarriedDecision, deterministic}
use prolewatch.Audit.Severity.{severity_at_least, severity_rank, valid_severity}
use prolewatch.Audit.Assess.{is_structural, structural_block, assess}
use prolewatch.Audit.Marker.{
  World, Markers, same_identity, marker_location, marker_of, marker_fits, marker_matches,
  write_marker, is_of_transaction, load_live_marker_report,
}
use prolewatch.Audit.Carry.{
  carry_eligible_finding, is_carry_source, approved_findings, carries, bindings, carried_decision,
}
use prolewatch.Audit.Marker.Live.{write_marker-load}
use prolewatch.Audit.Carry.Evidence.{IsCarried, carried_decision-IsCarried}
use prolewatch.Audit.Carry.Settled.{IsAccepted, assess-carried_decision}
use prolewatch.Tests.Briefs.{finding}
use prolewatch.Tests.Policies.{overridden}

abbrev pub running : ProcessIdentity
running = record { pid = 7; start_time = codes "12345"; boot_id = codes "b"; uid = 1000 }

abbrev risky : Finding
risky = record (finding (codes "high")) { source = deterministic; file = codes "PKGBUILD" }

abbrev pub id_of : Finding → Bytes
id_of f = f.file

abbrev pub approved : Report
approved = record overridden {
  transaction = running;
  phase = codes "pre";
  findings = risky ∷ [];
  coverage_complete = true;
}

abbrev pkgbuild : FileRecord
pkgbuild = record {
  path = codes "PKGBUILD";
  path_b64 = [];
  kind = codes "file";
  mode = 420;
  size = pos 10;
  sha256 = replicate 64 b'a';
  link_target = [];
  archive_entries = pos 0;
  selected_reason = codes "mandatory";
  has_binary_metadata = true;
}

abbrev codec : Codec FileRecord
codec = record {
  keys = λ v. manifest_keys;
  decode = λ v. some v;
  entry_hash = λ v. some v.sha256;
  is_base64 = λ s. true;
}

abbrev pub world : World FileRecord
world = record {
  transaction = some running;
  identity_for_pid = λ pid. some running;
  canonical = λ s. some s;
  sha256 = λ s. codes "key";
  private_dir = true;
  json = λ m. some m;
  load_report = λ id. some (approved, pkgbuild ∷ []);
}

abbrev root : Bytes
root = codes "/aur/yay"

abbrev markers : Markers
markers = (codes "key-pre.json", marker_of root (codes "pre") approved) ∷ []

write_marker-load_example :
    load_live_marker_report world approved.policy_fingerprint root (codes "pre") markers
    ≡ some (approved, pkgbuild ∷ [], root)
unfolding write_marker marker_location same_identity bytes_eq scan read_rune rune_length
write_marker-load_example =
    write_marker-load world (λ m t. refl) root (codes "pre") approved [] markers (pkgbuild ∷ [])
      root refl refl refl refl refl refl refl refl

-- The sources bring a harmless file.
abbrev sources : Inventory
sources = record {
  findings = risky ∷ [];
  manifest_hash = replicate 64 b'c';
  coverage_complete = true;
}

abbrev new_manifest : List FileRecord
new_manifest = record pkgbuild { path = codes "notes"; sha256 = replicate 64 b'd' } ∷ pkgbuild ∷ []

abbrev carried : CarriedDecision
carried = record {
  source_report_id = approved.report_id;
  source_phase = codes "pre";
  source_content_hash = approved.content_hash;
  findings =
      record {
        finding_id = codes "PKGBUILD";
        path = codes "PKGBUILD";
        manifest_entry_hash = replicate 64 b'a';
      }
      ∷ [];
}

carried_test :
    carried_decision codec world id_of
      (codes "medium")
      approved.policy_fingerprint
      markers
      root
      (codes "yay")
      sources
      new_manifest
    ≡ some carried
unfolding carried_decision load_live_marker_report marker_location marker_fits marker_matches
    is_of_transaction same_identity is_carry_source structural_block is_structural
    manifest_entry_hashes add_hashes validate_manifest_record within_value_limits valid_hex_digest
    approved_findings bindings carries carry_eligible_finding severity_at_least severity_rank
    bytes_eq has_prefix
carried_test = refl

carried_decision-IsCarried_example :
    IsCarried id_of
      (codes "medium")
      codec
      world
      approved.policy_fingerprint
      root
      (codes "yay")
      sources
      new_manifest
      carried
carried_decision-IsCarried_example =
    carried_decision-IsCarried id_of (codes "medium") codec world approved.policy_fingerprint
      markers root (codes "yay") sources new_manifest carried carried_test

assess-carried_decision_example :
    All
      (IsAccepted id_of
        (codes "medium")
        codec
        world
        approved.policy_fingerprint
        markers
        root
        (codes "yay")
        sources
        new_manifest)
      sources.findings
unfolding assess structural_block is_structural severity_at_least severity_rank valid_severity
    bytes_eq has_prefix
assess-carried_decision_example =
    assess-carried_decision id_of (codes "medium") codec world approved.policy_fingerprint markers
      root (codes "yay") sources new_manifest (rw carried_test refl)
