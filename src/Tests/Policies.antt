-- ===== src/Tests/Policies.antt =====
-- Examples for internal/audit.
use prolewatch.Prelude.{
  ◌≡◌, ◌≢◌, refl, true, false, [], ◌∷◌, none, some, replicate, Bytes, bytes_eq, codes, has_prefix,
  has_suffix, trim_space,
}
use prolewatch.Brief.PackageBase.{valid_package_base}
use prolewatch.Brief.Findings.{Finding, sort_findings}
use prolewatch.Safe.Digest.{valid_hex_digest}
use prolewatch.Audit.Types.{
  Inventory, Report, ReviewConfig, ProcessIdentity, approval, allow, block, mode_ai,
  report_schema_version, deterministic,
}
use prolewatch.Audit.Severity.{severity_rank, valid_severity, severity_at_least}
use prolewatch.Audit.Assess.{is_structural, structural_block, assess}
use prolewatch.Audit.Approvals.{
  ApprovalToken, ApprovalStore, Files, moved, token, nothing, token_matches, entry_matches,
  consume_entries, consume,
}
use prolewatch.Audit.Approvals.Once.{IsSpent, consume-IsSpent}
use prolewatch.Audit.Approvals.Create.{
  valid_report_id, report_can_authorize, create, wanted_of, token_of, entry_of, create-consume,
}
use prolewatch.Audit.Evaluate.Review.{answered}
use prolewatch.Audit.Evaluate.{
  Env, reported, with_source, authorization_source, authorize, allowed, make_report, conclude,
  basis, evaluate, exit_ok, exit_policy_block,
}
use prolewatch.Audit.Evaluate.Laws.{IsJustified, evaluate-allow, evaluate_structural}
use prolewatch.Tests.Briefs.{finding}

-- The digest of a finding, for which its severity stands here.
abbrev id_of : Finding → Bytes
id_of f = f.severity

abbrev low_inventory : Inventory
low_inventory = record {
  findings = finding (codes "low") ∷ [];
  manifest_hash = replicate 64 b'a';
  coverage_complete = true;
}

abbrev hard_finding : Finding
hard_finding = record (finding (codes "high")) { hard_block = true }

abbrev hard_inventory : Inventory
hard_inventory = record low_inventory { findings = hard_finding ∷ [] }

abbrev owner : ProcessIdentity
owner = record { pid = 7; start_time = []; boot_id = []; uid = 1000 }

abbrev pub report : Report
report = record {
  schema_version = report_schema_version;
  report_id = codes "20260101T000000Z-aaaaaaaaaaaa-bbbbbbbb";
  transaction = owner;
  package_base = codes "yay";
  phase = codes "pre";
  decision = block;
  disposition = block;
  content_hash = replicate 64 b'a';
  policy_fingerprint = replicate 64 b'b';
  reviewer = record { mode = deterministic; error = []; trigger = []; skipped = []; verdicts = [] };
  coverage_complete = true;
  findings = [];
  overridden = false;
  approval_eligible = true;
  network_eligible = false;
  carried_decision = none;
}

abbrev files : Files
files = record { list_ok = true; used_ok = true; rename = λ n. moved; write_ok = true }

abbrev pub empty_store : ApprovalStore
empty_store = record { pending = []; used = [] }

abbrev reason : Bytes
reason = codes "checked"

abbrev granted : ApprovalToken
granted = token_of report approval reason

abbrev full_store : ApprovalStore
full_store = record { pending = entry_of report approval reason ∷ []; used = [] }

abbrev spent : ApprovalToken
spent = record granted { consumed = true }

consumed_test : (consume (wanted_of report) files full_store).1 ≡ token spent
unfolding consume consume_entries entry_matches token_matches bytes_eq has_prefix has_suffix
consumed_test = refl

consume-IsSpent_example :
    IsSpent (wanted_of report) full_store (consume (wanted_of report) files full_store).0 spent
consume-IsSpent_example = consume-IsSpent (wanted_of report) files full_store spent consumed_test

created_test : (create true true report approval reason empty_store).1 ≡ none
unfolding create report_can_authorize valid_report_id valid_package_base valid_hex_digest bytes_eq
created_test = refl

create-consume_example :
    (report.approval_eligible ≡ true)
    × ((consume (wanted_of report) files (create true true report approval reason empty_store).0).1
        ≢ nothing)
create-consume_example =
    create-consume true true report approval reason empty_store files created_test (λ n. refl)

abbrev pub config : ReviewConfig
config = record {
  mode = mode_ai;
  minimum_confidence = codes "high";
  manual_review_minimum_severity = codes "low";
  phases = codes "recipe" ∷ [];
}

abbrev pub env : Env
env = record {
  cancelled = false;
  cancelled_in_review = false;
  files = files;
  load_report = λ id. some report;
  review = answered true [];
  initialization_error = [];
  coverage_error = [];
  random_report_id = some report.report_id;
  transaction = some owner;
  save_ok = true;
}

abbrev pre : Bytes
pre = codes "pre"

-- The report under the approval: the low finding reaches the threshold, and the token is spent on it.
abbrev pub overridden : Report
overridden = record report {
  decision = allow;
  disposition = codes "override";
  reviewer = record { mode = mode_ai; error = []; trigger = []; skipped = []; verdicts = [] };
  findings = finding (codes "low") ∷ [];
  overridden = true;
  approval_eligible = false;
}

overridden_test :
    (evaluate id_of config
      (replicate 64 b'b')
      env
      (codes "yay")
      pre
      low_inventory
      none
      false
      full_store).1
    ≡ reported overridden exit_ok
unfolding evaluate authorize consume consume_entries entry_matches token_matches
    authorization_source assess structural_block is_structural severity_at_least valid_severity
    severity_rank conclude make_report allowed sort_findings
    prolewatch.Brief.Findings.insert_finding prolewatch.Audit.Evaluate.Review.model_findings
    prolewatch.Audit.Evaluate.Review.unseen prolewatch.Audit.Evaluate.Review.skipped_text
    prolewatch.Audit.Evaluate.Review.phase_enabled prolewatch.Audit.Evaluate.Review.phase_name
    bytes_eq has_prefix has_suffix valid_package_base
overridden_test = refl

evaluate-allow_example :
    (exit_ok ≡ exit_ok)
    × IsJustified id_of config
        (replicate 64 b'b')
        env
        (codes "yay")
        pre
        low_inventory
        none
        full_store
        (evaluate id_of config
          (replicate 64 b'b')
          env
          (codes "yay")
          pre
          low_inventory
          none
          false
          full_store).0
        overridden
evaluate-allow_example =
    evaluate-allow id_of config (replicate 64 b'b') env (codes "yay") pre low_inventory none false
      full_store overridden exit_ok overridden_test refl

abbrev refused_report : Report
refused_report = record overridden {
  decision = block;
  disposition = block;
  findings = hard_finding ∷ [];
  overridden = false;
}

refused_test :
    (evaluate id_of config
      (replicate 64 b'b')
      env
      (codes "yay")
      pre
      hard_inventory
      none
      false
      full_store).1
    ≡ reported refused_report exit_policy_block
unfolding evaluate authorize consume consume_entries entry_matches token_matches
    authorization_source assess structural_block is_structural severity_at_least valid_severity
    severity_rank conclude make_report allowed basis
    prolewatch.Audit.Evaluate.Review.reviewed_verdicts
    prolewatch.Audit.Evaluate.Review.reviewed_error
    prolewatch.Audit.Evaluate.Review.join_degradations sort_findings
    prolewatch.Brief.Findings.insert_finding prolewatch.Audit.Evaluate.Review.model_findings
    prolewatch.Audit.Evaluate.Review.unseen prolewatch.Audit.Evaluate.Review.skipped_text
    prolewatch.Audit.Evaluate.Review.phase_enabled prolewatch.Audit.Evaluate.Review.phase_name
    bytes_eq has_prefix has_suffix trim_space valid_package_base
refused_test = refl

evaluate_structural_example :
    ((evaluate id_of config
        (replicate 64 b'b')
        env
        (codes "yay")
        pre
        hard_inventory
        none
        false
        full_store).0
      ≡ full_store)
    × (refused_report.overridden ≡ false)
    × (refused_report.approval_eligible ≡ false)
    × (refused_report.disposition ≡ refused_report.decision)
unfolding structural_block is_structural
evaluate_structural_example =
    evaluate_structural id_of config (replicate 64 b'b') env (codes "yay") pre hard_inventory none
      false full_store refused_report exit_policy_block refl refused_test
