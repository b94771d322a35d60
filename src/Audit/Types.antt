-- ===== src/Audit/Types.antt =====
-- The records of internal/audit and internal/brief that a decision reads or writes. A string is the
-- list of its bytes, and a Go map from strings to true the list of its keys. The fields of a report
-- that only describe it (versions, summary text, provider identity, times) are left out.
use prolewatch.Brief.Findings.{Finding}
use prolewatch.Prelude.{ℕ, Bool, List, Option, Bytes, codes}

-- internal/audit/models.go.
pub record ReviewFinding : Type 0 where
  pub severity : Bytes
  pub category : Bytes
  pub file : Bytes
  pub line : Option ℕ
  pub evidence : Bytes
  pub rationale : Bytes

pub record Verdict : Type 0 where
  pub schema_version : ℕ
  pub verdict : Bytes
  pub confidence : Bytes
  pub prompt_injection_detected : Bool
  pub findings : List ReviewFinding
  pub coverage_notes : List Bytes

-- The part of brief.Inventory that policy reads.
pub record Inventory : Type 0 where
  pub findings : List Finding
  pub manifest_hash : Bytes
  pub coverage_complete : Bool

-- internal/audit/reports.go.
pub record CarriedFindingBinding : Type 0 where
  pub finding_id : Bytes
  pub path : Bytes
  pub manifest_entry_hash : Bytes

pub record CarriedDecision : Type 0 where
  pub source_report_id : Bytes
  pub source_phase : Bytes
  pub source_content_hash : Bytes
  pub findings : List CarriedFindingBinding

pub record ReviewerReport : Type 0 where
  pub mode : Bytes
  pub error : Bytes
  pub trigger : Bytes
  pub skipped : Bytes
  pub verdicts : List Verdict

pub record ProcessIdentity : Type 0 where
  pub pid : ℕ
  pub start_time : Bytes
  pub boot_id : Bytes
  pub uid : ℕ

pub record Report : Type 0 where
  pub schema_version : ℕ
  pub report_id : Bytes
  pub transaction : ProcessIdentity
  pub package_base : Bytes
  pub phase : Bytes
  pub decision : Bytes
  pub disposition : Bytes
  pub content_hash : Bytes
  pub policy_fingerprint : Bytes
  pub reviewer : ReviewerReport
  pub coverage_complete : Bool
  pub findings : List Finding
  pub overridden : Bool
  pub approval_eligible : Bool
  pub network_eligible : Bool
  pub carried_decision : Option CarriedDecision

-- The settings that policy reads: review.mode, review.minimum_confidence,
-- review.manual_review_minimum_severity and review.phases.
pub record ReviewConfig : Type 0 where
  pub mode : Bytes
  pub minimum_confidence : Bytes
  pub manual_review_minimum_severity : Bytes
  pub phases : List Bytes

abbrev pub allow : Bytes
allow = codes "allow"

abbrev pub block : Bytes
block = codes "block"

abbrev pub override : Bytes
override = codes "override"

abbrev pub approval : Bytes
approval = codes "approval"

abbrev pub mode_ai : Bytes
mode_ai = codes "ai"

abbrev pub deterministic : Bytes
deterministic = codes "deterministic"

abbrev pub report_schema_version : ℕ
report_schema_version = 16

abbrev pub approval_schema_version : ℕ
approval_schema_version = 7
