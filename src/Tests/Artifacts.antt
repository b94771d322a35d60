-- ===== src/Tests/Artifacts.antt =====
-- Examples for the gate of internal/ui and for auditAndBind of internal/audit.
use prolewatch.Prelude.{
  ◌≡◌, refl, ◌⊎◌, true, false, List, [], ◌∷◌, some, pos, Bytes, codes, bytes_eq, replicate,
  trim_space, atoi, parse_uint, value,
}
use prolewatch.Safe.Digest.{valid_hex_digest}
use prolewatch.Safe.Prompt.{
  Event, key, read_choice_or_line, valid_line_choices, valid_choices, line_loop, line_key,
}
use prolewatch.Brief.Manifest.{
  FileRecord, Codec, manifest_keys, within_value_limits, validate_manifest_record,
}
use prolewatch.Brief.Surfaces.Registry.{hook, automatic}
use prolewatch.Brief.Surfaces.{PrivilegedSurface, requiring_decision}
use prolewatch.Egress.Acquire.{path_base}
use prolewatch.Ui.Gate.{
  keep_all, strips, decided, surface_at, merely_listed, order_surfaces, position, numbered,
  parse_gate_choice, read_answer, gate_attempts, prompt_gate,
}
use prolewatch.Ui.Gate.Answered.{IsAnswered, prompt_gate-IsAnswered}
use prolewatch.Audit.Evaluate.{exit_ok}
use prolewatch.Audit.Artifact.{
  ArtifactReport, Gateway, Surroundings, handed, check_hash, check_all, expected_in,
  expected_artifact_hash, put_in_place, follow, gate_package, gate_loop, bind_packages,
  scan_packages, audit_and_bind,
}
use prolewatch.Audit.Artifact.Scans.{IsScan}
use prolewatch.Audit.Artifact.Bound.{AreBound, audit_and_bind-IsBound}
use prolewatch.Tests.Policies.{report, config, empty_store}

abbrev surface : Bytes → PrivilegedSurface
surface name = record {
  member = name;
  kind = hook;
  activation = automatic;
  link_target = [];
  when = [];
  body = [];
  truncated = false;
  size = 0;
}

abbrev two : List PrivilegedSurface
two = surface (codes "a.hook") ∷ surface (codes "b.hook") ∷ []

-- An answer that is not recognised, and then the second surface.
abbrev attempts : List (List Event)
attempts = (key b'7' ∷ key b'\n' ∷ []) ∷ (key b'2' ∷ key b'\n' ∷ []) ∷ []

second_stripped : prompt_gate true two attempts ≡ decided (strips (codes "b.hook" ∷ []))
unfolding prompt_gate gate_attempts order_surfaces requiring_decision merely_listed read_answer
    read_choice_or_line valid_line_choices valid_choices line_loop line_key parse_gate_choice
    numbered position surface_at trim_space atoi parse_uint value bytes_eq
second_stripped = refl

prompt_gate-IsAnswered_example :
    ((two ≡ []) × (strips (codes "b.hook" ∷ []) ≡ keep_all))
    ⊎ ((true ≡ true) × IsAnswered 5 (order_surfaces two) attempts (strips (codes "b.hook" ∷ [])))
prompt_gate-IsAnswered_example =
    prompt_gate-IsAnswered true two attempts (strips (codes "b.hook" ∷ [])) second_stripped

abbrev old_digest : Bytes
old_digest = replicate 64 b'a'

abbrev new_digest : Bytes
new_digest = replicate 64 b'b'

abbrev package_path : Bytes
package_path = codes "/build/p.pkg.tar.zst"

abbrev codec : Codec FileRecord
codec = record {
  keys = λ v. manifest_keys;
  decode = λ v. some v;
  entry_hash = λ v. some v.sha256;
  is_base64 = λ s. true;
}

abbrev entry : FileRecord
entry = record {
  path = codes "p.pkg.tar.zst";
  path_b64 = [];
  kind = codes "file";
  mode = 0o644;
  size = pos 1;
  sha256 = old_digest;
  link_target = [];
  archive_entries = pos 0;
  selected_reason = [];
  has_binary_metadata = true;
}

abbrev scanned_report : ArtifactReport FileRecord
scanned_report = record { report = report; manifest = entry ∷ []; bindings = []; stripped = [] }

-- A package with two hooks, of which the user has the second stripped.
abbrev gateway : Gateway
gateway = record {
  terminal = true;
  enumerate = λ p. some two;
  attempts = λ p. attempts;
  target_ok = λ p. true;
  filter = λ p strip. some (record { stripped = strip; sha256 = new_digest });
  rename_ok = λ p. true;
  hash_after = λ p. some new_digest;
}

abbrev surroundings : Surroundings FileRecord
surroundings = record {
  config = config;
  scan = λ s. (s, some (scanned_report, exit_ok));
  terminal = true;
  previews = λ a. record { decision = false; all = false; review = false };
  rounds = [];
  reviewed = λ x. x;
  dirs_ok = true;
  write_ok = true;
  cancel_ok = true;
  hash = λ p. some old_digest;
  gateway = gateway;
  quarantine_ok = true;
  is_regular = λ p. true;
  move_ok = λ p. true;
  replace_artifact_ok = true;
  replace_post_ok = true;
}

abbrev bound_report : ArtifactReport FileRecord
bound_report = record {
  report = report;
  manifest = entry ∷ [];
  bindings = (package_path, new_digest) ∷ [];
  stripped =
      record {
        package_name = codes "p.pkg.tar.zst";
        members = codes "b.hook" ∷ [];
        sha256 = new_digest;
      }
      ∷ [];
}

handed_test :
    audit_and_bind codec surroundings (package_path ∷ []) empty_store
    ≡ handed empty_store bound_report ((package_path, new_digest) ∷ [])
unfolding audit_and_bind scan_packages bind_packages check_all check_hash expected_artifact_hash
    expected_in validate_manifest_record within_value_limits valid_hex_digest path_base gate_loop
    gate_package follow put_in_place prompt_gate gate_attempts order_surfaces requiring_decision
    merely_listed read_answer read_choice_or_line valid_line_choices valid_choices line_loop
    line_key parse_gate_choice numbered position surface_at trim_space atoi parse_uint value
    bytes_eq
handed_test = refl

audit_and_bind-IsBound_example :
    (a : ArtifactReport FileRecord) × IsScan codec surroundings a exit_ok
    × (bound_report.bindings ≡ (package_path, new_digest) ∷ [])
    × AreBound codec surroundings a (package_path ∷ []) ((package_path, new_digest) ∷ [])
audit_and_bind-IsBound_example =
    audit_and_bind-IsBound codec surroundings (package_path ∷ []) empty_store empty_store
      bound_report ((package_path, new_digest) ∷ []) handed_test
