-- ===== src/Audit/Assess.antt =====
-- internal/audit/policy.go: structuralBlock and assessDeterministicAt, which decide without a model.
-- `guidance_id` is findingGuidanceID, the digest of a finding's JSON; the inventory is not nil.
pub mod Laws
use prolewatch.Prelude.{
  ℕ, ◌≡◌, ◌≢◌, refl, ap, sym, ◌∙◌, ◌⊎◌, inl, inr, Bool, true, false, not, ◌&&◌, ◌||◌, List, [], ◌∷◌,
  ◌++◌, if◌then◌else◌, any, Bytes, bytes_eq, bytes_eq_iff, codes, has_prefix, is_empty, is_member,
  arith, IsIn, any-IsIn, Bool-cases, All,
}
use prolewatch.Brief.Findings.{Finding}
use prolewatch.Audit.Types.{Inventory, allow, block}
use prolewatch.Audit.Severity.{
  severity_at_least, valid_severity, severity_rank, severity_at_least_mono, valid_severity-rank,
}

abbrev pub structural_rule_ids : List Bytes
structural_rule_ids =
    codes "special-file"
    ∷ codes "symlink-escape"
    ∷ codes "source-reference-escape"
    ∷ codes "binary-header-invalid"
    ∷ codes "archive-depth-limit"
    ∷ []

-- A finding of the loop in structuralBlock; `severeCategory` there needs HardBlock, which has
-- returned already.
unfoldable pub is_structural : Finding → Bool
is_structural f =
    f.hard_block
    || bytes_eq f.category (codes "archive_escape")
    || (f.hard_block
        && (bytes_eq f.category (codes "credential_access")
            || bytes_eq f.category (codes "process_injection")
            || bytes_eq f.category (codes "persistence")))
    || is_member f.rule_id structural_rule_ids
    || has_prefix (codes "TOCTOU") f.rationale

unfoldable pub structural_block : Inventory → Bool
structural_block inv = not inv.coverage_complete || any is_structural inv.findings

pub record Assessment : Type 0 where
  pub decision : Bytes
  pub approval_eligible : Bool
  pub hard_block : Bool
  pub decision_block : Bool
  pub structural : Bool

module _ (guidance_id : Finding → Bytes) where
  -- A finding that needs a decision and was not carried over from the recipe gate.
  abbrev pub needs_decision : Bytes → List Bytes → Finding → Bool
  needs_decision minimum carried f =
      not (is_member (guidance_id f) carried) && severity_at_least f.severity minimum

  -- The early return leaves HardBlock, DecisionBlock and ApprovalEligible false.
  unfoldable pub assess : Inventory → Bytes → List Bytes → Assessment
  assess inv minimum carried =
      let structural = structural_block inv in
      let hard = any (λ f. f.hard_block) inv.findings in
      let decisive = any (needs_decision minimum carried) inv.findings in
      let allowed = inv.coverage_complete && not hard && not decisive in
      if not (valid_severity minimum)
      then record {
        decision = block;
        approval_eligible = false;
        hard_block = false;
        decision_block = false;
        structural = structural;
      }
      else record {
        decision = if allowed then allow else block;
        approval_eligible = not allowed && not (is_empty inv.manifest_hash) && not structural;
        hard_block = hard;
        decision_block = decisive;
        structural = structural;
      }
