-- ===== src/Audit/Reports.antt =====
-- internal/audit/reports.go: the part of Report.Validate on the decision: its words and the invariants
-- of approval and network eligibility, which Save checks before a report is written and Load after it
-- is read. The checks on the other parts of a report are left out.
pub mod Outcome
use prolewatch.Prelude.{
  ℕ, Bool, true, false, not, ◌&&◌, ◌||◌, [], ◌∷◌, ◌++◌, ◌==◌, if◌then◌else◌, take, Bytes, bytes_eq,
  codes, is_empty, is_member, has_prefix,
}
use prolewatch.Brief.PackageBase.{valid_package_base}
use prolewatch.Safe.Digest.{valid_hex_digest}
use prolewatch.Audit.Types.{Report, ProcessIdentity, allow, block, override, report_schema_version}
use prolewatch.Audit.Assess.{structural_block}
use prolewatch.Audit.Approvals.Create.{valid_report_id}
use prolewatch.Audit.Evaluate.Review.{prompt_injection}

abbrev pub same : Bool → Bool → Bool
same true b = b
same false b = not b

abbrev pub report_structural : Report → Bool
report_structural r =
    structural_block (record {
      findings = r.findings;
      manifest_hash = [];
      coverage_complete = r.coverage_complete;
    })

-- The decision words and the invariants that are computed again from the evidence.
unfoldable pub valid_outcome : Report → Bool
valid_outcome r =
    is_member r.decision (allow ∷ block ∷ [])
    && is_member r.disposition (allow ∷ block ∷ override ∷ [])
    && not (
        r.approval_eligible
        && (is_empty r.content_hash || report_structural r || prompt_injection r.reviewer.verdicts))
    && not (r.approval_eligible && not (bytes_eq r.decision block))
    && same r.overridden (bytes_eq r.disposition override)
    && same r.network_eligible (
        bytes_eq r.decision allow
        && bytes_eq r.phase (codes "post")
        && not (is_empty r.content_hash))
