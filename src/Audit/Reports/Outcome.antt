-- ===== src/Audit/Reports/Outcome.antt =====
-- The reports of evaluate, as Validate reads them.
use prolewatch.Prelude.{
  ◌≡◌, refl, ◌∙◌, Bool, true, not, ◌&&◌, ◌||◌, List, [], ◌∷◌, ◌++◌, any, Bytes, bytes_eq, arith,
  Bool-cases, inl, inr,
}
use prolewatch.Brief.Findings.{Finding, insert_finding, sort_findings}
use prolewatch.Audit.Types.{Inventory, Report, ReviewConfig, ProcessIdentity}
use prolewatch.Audit.Assess.{is_structural, structural_block, assess}
use prolewatch.Audit.Evaluate.Review.{model_findings}
use prolewatch.Audit.Evaluate.{Env, Basis, allowed, make_report}
use prolewatch.Audit.Reports.{report_structural, valid_outcome}

any-append : (p : Finding → Bool) (xs ys : List Finding) → any p (xs ++ ys) ≡ (any p xs || any p ys)
any-append p [] ys = refl
any-append p (x ∷ xs) ys = ground (arith, any-append p xs ys)

any-insert_finding :
    (p : Finding → Bool) (x : Finding) (ys : List Finding)
    → any p (insert_finding x ys) ≡ (p x || any p ys)
unfolding insert_finding
any-insert_finding p x [] = refl
any-insert_finding p x (y ∷ ys) = ground (arith, any-insert_finding p x ys)

any-sort_findings : (p : Finding → Bool) (xs : List Finding) → any p (sort_findings xs) ≡ any p xs
unfolding sort_findings
any-sort_findings p [] = refl
any-sort_findings p (x ∷ xs) =
    any-insert_finding p x (sort_findings xs) ∙ ground (arith, any-sort_findings p xs)

module _ (guidance_id : Finding → Bytes) (cfg : ReviewConfig) (policy_fingerprint : Bytes)
    (env : Env) (package_base phase : Bytes) (inv : Inventory) (carried : List Bytes) (b : Basis)
    (report_id : Bytes) (transaction : ProcessIdentity) where
  -- The report that evaluate makes after the deterministic assessment.
  abbrev pub made : Report
  made =
      make_report guidance_id cfg policy_fingerprint env package_base phase inv
        (assess guidance_id inv cfg.manual_review_minimum_severity carried) b report_id transaction

  -- A finding of the model that Validate takes for structural.
  abbrev pub model_structural : Bool
  model_structural = any is_structural (model_findings inv.findings b.verdicts)

  -- The structural test of the report sees the findings of the model too.
  made-structural : report_structural made ≡ (structural_block inv || model_structural)
  unfolding make_report structural_block
  made-structural =
      let found =
        any-sort_findings is_structural (inv.findings ++ model_findings inv.findings b.verdicts) in
      let parts = any-append is_structural inv.findings (model_findings inv.findings b.verdicts) in
      ground arith

  abbrev ok : Bool
  ok =
      allowed guidance_id cfg policy_fingerprint
        (assess guidance_id inv cfg.manual_review_minimum_severity carried) b

  overridden_ok : b.overridden ≡ true → ok ≡ true
  unfolding allowed
  overridden_ok h = ground arith

  structural-assess :
      (assess guidance_id inv cfg.manual_review_minimum_severity carried).structural
      ≡ structural_block inv
  unfolding assess
  structural-assess = ground arith

  -- Of a report that evaluate makes, the check of the outcome in Validate refuses exactly the one that
  -- is eligible for approval although a finding of the model reads as structural; every other one
  -- keeps all invariants of decision, disposition, approval and network eligibility.
  pub valid_outcome-made : valid_outcome made ≡ not (made.approval_eligible && model_structural)
  unfolding valid_outcome make_report bytes_eq
  valid_outcome-made = elim (Bool-cases ok) [
    | inl good ↦ elim (Bool-cases b.overridden) [
      | inl overridden ↦ rw (good, overridden) (ground arith)
      | inr deterministic ↦ rw (good, deterministic) (ground arith)
    ]
    | inr bad ↦ elim (Bool-cases b.overridden) [
      | inl overridden ↦ absurd (ground (arith, overridden_ok overridden))
      | inr deterministic ↦
          rw (bad, deterministic) (rw (made-structural, structural-assess) (ground arith))
    ]
  ]
