-- ===== src/Tests/Reports.antt =====
-- Examples for the report store of internal/audit.
use prolewatch.Prelude.{
  Bytes, some, ◌++◌, cut, take, ℕ, zero, suc, ◌+◌, ◌/◌, ◌%◌, ◌≡◌, refl, sym, ◌∙◌, Bool, true, false,
  [], ◌∷◌, none, List, codes, IsIn, here, there, bytes_eq, any, any-IsIn, replicate, bytes_lt,
  has_prefix, has_suffix, not, ◌&&◌, arith,
}
use prolewatch.Brief.Findings.{sort_findings, insert_finding, finding_less}
use prolewatch.Audit.Severity.{
  severity_at_least, severity_rank, valid_severity, confidence_at_least, confidence_rank,
}
use prolewatch.Audit.Assess.{assess, structural_block, is_structural}
use prolewatch.Audit.Types.{Inventory, Report, ReviewFinding, Verdict, block}
use prolewatch.Audit.Evaluate.{Basis, make_report, allowed}
use prolewatch.Audit.Evaluate.Review.{model_findings, unseen, same_content, verdict_blocks}
use prolewatch.Audit.Reports.{valid_outcome}
use prolewatch.Audit.Reports.Outcome.{made, model_structural, valid_outcome-made}
use prolewatch.Audit.Approvals.Create.{valid_report_id}
use prolewatch.Audit.Retention.{
  File, MarkerFile, History, newest_first, insert_newest, ids, live_marker_reports,
  pending_approval_reports, expired_names, prune_used, prune,
}
use prolewatch.Audit.Retention.Newest.{IsExpired, prune-IsExpired}
use prolewatch.Audit.Marker.{marker_of, same_identity}
use prolewatch.Tests.Markers.{approved, world, id_of, running}
use prolewatch.Tests.Policies.{config, env}

abbrev digit : ℕ → ℕ
digit n = b'0' + n % 10

abbrev file : ℕ → File
file n = record {
  name =
      digit (n / 100) ∷ digit (n / 10) ∷ digit n ∷ codes "00101T000000Z-aaaaaaaaaaaa-bbbbbbbb.json";
  is_dir = false;
}

abbrev files : ℕ → List File
files zero = []
files (suc n) = file n ∷ files n

abbrev id_at : ℕ → Bytes
id_at n = take 38 (file n).name

-- A marker of a running transaction holds the third oldest report, an approval the second oldest.
abbrev live_marker : MarkerFile
live_marker = record {
  name = codes "key-pre.json";
  is_regular = true;
  document = some (record (marker_of [] (codes "pre") approved) { report_id = id_at 2 });
}

abbrev history : History
history = record {
  reports = files 203;
  markers = live_marker ∷ [];
  pending = (codes "approval-" ++ (file 1).name) ∷ [];
  used = [];
}

abbrev is_file : ℕ → File → Bool
is_file n f = bytes_eq f.name (file n).name

abbrev is_oldest : File → Bool
is_oldest f = bytes_eq f.name (file 0).name

removed_test : any is_oldest (prune world history).reports ≡ false
unfolding prune ids newest_first insert_newest live_marker_reports pending_approval_reports
    expired_names prune_used valid_report_id same_identity cut bytes_eq bytes_lt has_prefix
    has_suffix
removed_test = refl

-- The protected reports stay.
kept_test :
    (any (is_file 1) (prune world history).reports && any (is_file 2) (prune world history).reports)
    ≡ true
unfolding prune ids newest_first insert_newest live_marker_reports pending_approval_reports
    expired_names prune_used valid_report_id same_identity cut bytes_eq bytes_lt has_prefix
    has_suffix
kept_test = refl

oldest_there : (n : ℕ) → IsIn (file 0) (files (suc n))
oldest_there zero = here refl
oldest_there (suc n) = there (oldest_there n)

oldest_gone : ¬ IsIn (file 0) (prune world history).reports
unfolding bytes_eq
oldest_gone i =
    let still = any-IsIn is_oldest (prune world history).reports i refl in
    false_true (sym removed_test ∙ still)
  where
    false_true : ¬ (false ≡ true)
    false_true e = absurd (ground arith)

prune-IsExpired_example : IsExpired world history (file 0)
prune-IsExpired_example = prune-IsExpired world history (file 0) (oldest_there 202) oldest_gone

-- A model may report a finding of the category `archive_escape`; the report is then eligible for
-- approval and refused.
abbrev escape : ReviewFinding
escape = record {
  severity = codes "high";
  category = codes "archive_escape";
  file = codes "PKGBUILD";
  line = none;
  evidence = [];
  rationale = codes "extracts outside its directory";
}

abbrev verdict : Verdict
verdict = record {
  schema_version = 3;
  verdict = block;
  confidence = codes "high";
  prompt_injection_detected = false;
  findings = escape ∷ [];
  coverage_notes = [];
}

abbrev blocking : Basis
blocking = record {
  overridden = false;
  carried = none;
  verdicts = verdict ∷ [];
  review_error = [];
  skipped = [];
  trigger = [];
}

abbrev inventory : Inventory
inventory = record { findings = []; manifest_hash = replicate 64 b'a'; coverage_complete = true }

abbrev refused : Report
refused =
    made id_of config (replicate 64 b'b') env (codes "yay") (codes "pre") inventory [] blocking
      (codes "20260101T000000Z-aaaaaaaaaaaa-bbbbbbbb") running

valid_outcome-made_example :
    valid_outcome refused
    ≡ not (
        refused.approval_eligible
        && model_structural id_of config
            (replicate 64 b'b')
            env
            (codes "yay")
            (codes "pre")
            inventory
            []
            blocking
            (codes "20260101T000000Z-aaaaaaaaaaaa-bbbbbbbb")
            running)
valid_outcome-made_example =
    valid_outcome-made id_of config (replicate 64 b'b') env (codes "yay") (codes "pre") inventory []
      blocking (codes "20260101T000000Z-aaaaaaaaaaaa-bbbbbbbb") running

self_refused_test : valid_outcome refused ≡ false
unfolding valid_outcome make_report allowed assess structural_block is_structural model_findings
    unseen same_content sort_findings insert_finding finding_less verdict_blocks severity_at_least
    severity_rank valid_severity confidence_at_least confidence_rank bytes_eq has_prefix
self_refused_test = refl
