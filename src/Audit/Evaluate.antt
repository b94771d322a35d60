-- ===== src/Audit/Evaluate.antt =====
-- internal/audit/policy.go: evaluate, from the inventory of a scan to the report and its exit status.
-- What comes from outside (the reviewer, the report store, the clock and process identity, the file
-- operations, cancellation) is the record `Env`.
pub mod Review
pub mod Override
pub mod Laws
use prolewatch.Prelude.{
  ℕ, Bool, true, false, not, ◌&&◌, ◌||◌, List, [], ◌∷◌, ◌++◌, map, Option, none, some, ltb, ◌==◌,
  if◌then◌else◌, length, any, take, Bytes, bytes_eq, codes, is_empty,
}
use prolewatch.Brief.PackageBase.{valid_package_base}
use prolewatch.Brief.Findings.{Finding, sort_findings}
use prolewatch.Audit.Types.{
  Verdict, Inventory, CarriedDecision, ReviewerReport, ProcessIdentity, Report, ReviewConfig, allow,
  block, override, approval, mode_ai, deterministic, report_schema_version,
}
use prolewatch.Audit.Assess.{Assessment, assess}
use prolewatch.Audit.Approvals.{
  ApprovalToken, ApprovalStore, Wanted, Files, Consumed, nothing, token, error, consume,
}
use prolewatch.Audit.Evaluate.Review.{
  ReviewAnswer, failed, answered, join_degradations, phase_enabled, skipped_text, model_blocks,
  model_findings, prompt_injection, carried_ids, reviewed_error, reviewed_verdicts,
}

-- internal/audit/status.go.
abbrev pub exit_ok : ℕ
exit_ok = 0

abbrev pub exit_policy_block : ℕ
exit_policy_block = 10

abbrev pub exit_invalid_invocation : ℕ
exit_invalid_invocation = 20

abbrev pub exit_review_unavailable : ℕ
exit_review_unavailable = 22

abbrev pub exit_state_failure : ℕ
exit_state_failure = 23

abbrev pub exit_execution_failure : ℕ
exit_execution_failure = 24

pub record Env : Type 0 where
  pub cancelled : Bool
  pub cancelled_in_review : Bool
  pub files : Files
  pub load_report : Bytes → Option Report
  pub review : ReviewAnswer
  pub initialization_error : Bytes
  pub coverage_error : Bytes
  pub random_report_id : Option Bytes
  pub transaction : Option ProcessIdentity
  pub save_ok : Bool

pub data Outcome : Type 0 where
  reported : Report → ℕ → Outcome
  stopped : ℕ → Outcome

-- What the approval store says about this content.
pub data Authorization : Type 0 where
  unauthorized : Authorization
  authorized_by : Report → Authorization
  state_failure : Authorization

-- AuditService.authorizationSource.
unfoldable pub authorization_source : Env → ApprovalToken → Bytes → Option Report
authorization_source env t kind =
    if not (bytes_eq t.kind kind) then none else elim (env.load_report t.source_report_id) [
      | none ↦ none
      | some r ↦
          if not (bytes_eq r.package_base t.package_base)
            || not (bytes_eq r.phase t.phase)
            || not (bytes_eq r.content_hash t.content_hash)
            || not (bytes_eq r.policy_fingerprint t.policy_fingerprint)
          then none
          else if not (bytes_eq kind approval) || not r.approval_eligible
          then none
          else some r
    ]

-- NewReportID: the time and the random suffix come from outside.
abbrev report_id_of : Env → Bytes → Option Bytes
report_id_of env hash = if ltb (length hash) 12 then none else env.random_report_id

abbrev pub error_limit : ℕ
error_limit = 4096

-- The findings with their source set, as evaluate sets it.
abbrev sourced : Finding → Finding
sourced f = record f { source = deterministic }

abbrev pub with_source : Inventory → Inventory
with_source inv = record inv { findings = map sourced inv.findings }

-- What the decision is taken from, once authorization and review are done.
pub record Basis : Type 0 where
  pub overridden : Bool
  pub carried : Option CarriedDecision
  pub verdicts : List Verdict
  pub review_error : Bytes
  pub skipped : Bytes
  pub trigger : Bytes

module _ (guidance_id : Finding → Bytes) (cfg : ReviewConfig) (policy_fingerprint : Bytes) where
  abbrev pub is_ai : Bool
  is_ai = bytes_eq cfg.mode mode_ai

  -- The step that asks the approval store; a structural block never asks it.
  unfoldable pub authorize :
      Env → Bytes → Bytes → Inventory → Assessment → ApprovalStore → ApprovalStore × Authorization
  unfolding authorization_source
  authorize env package_base phase inv a s =
      let wanted : Wanted = record {
        kind = approval;
        package_base = package_base;
        phase = phase;
        content_hash = inv.manifest_hash;
        policy_fingerprint = policy_fingerprint;
      } in
      let (after, result) = consume wanted env.files s in
      if a.structural then (s, unauthorized) else elim result [
        | error ↦ (after, state_failure)
        | nothing ↦ (after, unauthorized)
        | token t ↦
            if is_empty inv.manifest_hash
            then (after, unauthorized)
            else elim (authorization_source env t approval) [
              | none ↦ (after, state_failure)
              | some r ↦ (after, authorized_by r)
            ]
      ]

  -- The final decision.
  unfoldable pub allowed : Assessment → Basis → Bool
  allowed a b =
      (b.overridden || bytes_eq a.decision allow)
      && not (is_ai && not b.overridden && model_blocks cfg b.verdicts)

  unfoldable pub make_report :
      Env → Bytes → Bytes → Inventory → Assessment → Basis → Bytes → ProcessIdentity → Report
  unfolding allowed
  make_report env package_base phase inv a b report_id transaction =
      let ok = allowed a b in
      record {
        schema_version = report_schema_version;
        report_id = report_id;
        transaction = transaction;
        package_base = package_base;
        phase = phase;
        decision = if ok then allow else block;
        disposition = if ok then (if b.overridden then override else allow) else block;
        content_hash = inv.manifest_hash;
        policy_fingerprint = policy_fingerprint;
        reviewer = record {
          mode = cfg.mode;
          error = b.review_error;
          trigger = b.trigger;
          skipped = b.skipped;
          verdicts = b.verdicts;
        };
        coverage_complete = inv.coverage_complete;
        findings = sort_findings (inv.findings ++ model_findings inv.findings b.verdicts);
        overridden = b.overridden;
        approval_eligible =
            not ok
            && not (is_empty inv.manifest_hash)
            && not a.structural
            && is_empty env.coverage_error
            && not (prompt_injection b.verdicts);
        network_eligible = ok && bytes_eq phase (codes "post") && not (is_empty inv.manifest_hash);
        carried_decision = b.carried;
      }

  -- The end of evaluate: the report is made, saved, and turned into a status.
  unfoldable pub conclude : Env → Bytes → Bytes → Inventory → Assessment → Basis → Outcome
  unfolding make_report
  conclude env package_base phase inv a b = elim (report_id_of env inv.manifest_hash) [
    | none ↦ stopped exit_state_failure
    | some report_id ↦ elim env.transaction [
      | none ↦ stopped exit_state_failure
      | some transaction ↦
          if not env.save_ok
          then stopped exit_state_failure
          else reported (make_report env package_base phase inv a b report_id transaction) (
              if allowed a b
              then exit_ok
              else if not (is_empty b.review_error)
              then exit_review_unavailable
              else exit_policy_block)
    ]
  ]

  -- Without an authorization: the reviewer is asked where the mode, the phase and the state allow it.
  abbrev asks_reviewer : Env → Bytes → Assessment → Bool → Bool
  asks_reviewer env phase a force =
      is_ai
      && not a.hard_block
      && is_empty (join_degradations env.initialization_error env.coverage_error)
      && is_empty (skipped_text cfg phase force)

  abbrev pub trigger_of : Bool → Bytes
  trigger_of force = if force then codes "on-demand" else []

  unfoldable pub basis : Env → Bytes → Assessment → Option CarriedDecision → Bool → Basis
  basis env phase a carried force =
      let asks = asks_reviewer env phase a force in
      let before = join_degradations env.initialization_error env.coverage_error in
      record {
        overridden = false;
        carried = carried;
        verdicts = if asks then reviewed_verdicts env.review else [];
        review_error = take error_limit (if asks then reviewed_error env.review else before);
        skipped = skipped_text cfg phase force;
        trigger = trigger_of force;
      }

  abbrev basis_by : Report → Bytes → Bool → Basis
  basis_by r phase force = record {
    overridden = true;
    carried = none;
    verdicts = r.reviewer.verdicts;
    review_error = take error_limit r.reviewer.error;
    skipped = skipped_text cfg phase force;
    trigger = trigger_of force;
  }

  unfoldable pub evaluate :
      Env
      → Bytes
      → Bytes
      → Inventory
      → Option CarriedDecision
      → Bool
      → ApprovalStore
      → ApprovalStore × Outcome
  evaluate env package_base phase inv carried force s =
      let found = with_source inv in
      let a = assess guidance_id found cfg.manual_review_minimum_severity (carried_ids carried) in
      let (after, authorization) = authorize env package_base phase found a s in
      if env.cancelled
      then (s, stopped exit_execution_failure)
      else if not (valid_package_base package_base)
      then (s, stopped exit_invalid_invocation)
      else elim authorization [
        | state_failure ↦ (after, stopped exit_state_failure)
        | authorized_by r ↦
            (after, conclude env package_base phase found a (basis_by r phase force))
        | unauthorized ↦
            if asks_reviewer env phase a force && env.cancelled_in_review
            then (after, stopped exit_execution_failure)
            else (after, conclude env package_base phase found a (basis env phase a carried force))
      ]
