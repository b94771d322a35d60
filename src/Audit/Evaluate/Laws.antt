-- ===== src/Audit/Evaluate/Laws.antt =====
-- Why evaluate allows a package, and what it does on a structural block.
use prolewatch.Prelude.{
  ℕ, ◌≡◌, ◌≢◌, refl, ◌∙◌, ◌⊎◌, inl, inr, Bool, true, false, List, Option, none, take, Bytes,
  bytes_eq, bytes_eq_iff, arith, Bool-cases,
}
use prolewatch.Brief.Findings.{Finding}
use prolewatch.Audit.Types.{Inventory, CarriedDecision, Report, ReviewConfig, allow}
use prolewatch.Audit.Assess.{Assessment, assess, structural_block}
use prolewatch.Audit.Approvals.{ApprovalStore}
use prolewatch.Audit.Evaluate.Review.{model_blocks, carried_ids, skipped_text}
use prolewatch.Audit.Evaluate.{
  Env, Outcome, reported, Authorization, unauthorized, authorized_by, state_failure, with_source,
  Basis, is_ai, authorize, allowed, make_report, conclude, basis, evaluate, exit_ok, error_limit,
  trigger_of,
}
use prolewatch.Audit.Evaluate.Override.{IsOverride, authorize-by}

module _ (guidance_id : Finding → Bytes) (cfg : ReviewConfig) (policy_fingerprint : Bytes) where
  conclude-reported :
      (env : Env) (package_base phase : Bytes) (inv : Inventory) (a : Assessment) (b : Basis)
      (r : Report) (status : ℕ)
      → conclude guidance_id cfg policy_fingerprint env package_base phase inv a b
        ≡ reported r status
      → r.decision ≡ allow
      → (allowed guidance_id cfg policy_fingerprint a b ≡ true)
        × (status ≡ exit_ok)
        × (r.reviewer.verdicts ≡ b.verdicts)
  unfolding conclude make_report
  conclude-reported env package_base phase inv a b r status h d = ground arith

  assess-structural :
      (inv : Inventory) (minimum : Bytes) (carried : List Bytes)
      → (assess guidance_id inv minimum carried).structural ≡ structural_block inv
  unfolding assess
  assess-structural inv minimum carried = ground arith

  allowed_parts :
      (a : Assessment) (b : Basis)
      → b.overridden ≡ false
      → allowed guidance_id cfg policy_fingerprint a b ≡ true
      → (a.decision ≡ allow)
        × ((is_ai guidance_id cfg policy_fingerprint ≡ false)
            ⊎ (model_blocks cfg b.verdicts ≡ false))
  unfolding allowed
  allowed_parts a b no_override h =
      let is_allow : bytes_eq a.decision allow ≡ true = ground arith in
      (
        (bytes_eq_iff a.decision allow).0 is_allow,
        by_mode (Bool-cases (is_ai guidance_id cfg policy_fingerprint)),
      )
    where
      by_mode :
          (is_ai guidance_id cfg policy_fingerprint ≡ true)
            ⊎ (is_ai guidance_id cfg policy_fingerprint ≡ false)
          → (is_ai guidance_id cfg policy_fingerprint ≡ false)
            ⊎ (model_blocks cfg b.verdicts ≡ false)
      by_mode (inl ai) = inr (ground arith)
      by_mode (inr off) = inl off

  -- Why a package is allowed.
  abbrev pub IsJustified :
      Env
      → Bytes
      → Bytes
      → Inventory
      → Option CarriedDecision
      → ApprovalStore
      → ApprovalStore
      → Report
      → Type 0
  IsJustified env package_base phase inv carried before after r =
      IsOverride guidance_id cfg policy_fingerprint env package_base phase (with_source inv) before
        after
      ⊎ (((assess guidance_id (with_source inv) cfg.manual_review_minimum_severity
              (carried_ids carried)).decision
            ≡ allow)
          × ((is_ai guidance_id cfg policy_fingerprint ≡ false)
              ⊎ (model_blocks cfg r.reviewer.verdicts ≡ false)))

  module _ (env : Env) (package_base phase : Bytes) (inv : Inventory)
      (carried : Option CarriedDecision) (force : Bool) (s : ApprovalStore) where
    abbrev result : ApprovalStore × Outcome
    result = evaluate guidance_id cfg policy_fingerprint env package_base phase inv carried force s

    abbrev assessment : Assessment
    assessment =
        assess guidance_id (with_source inv) cfg.manual_review_minimum_severity
          (carried_ids carried)

    abbrev authorization : ApprovalStore × Authorization
    authorization =
        authorize guidance_id cfg policy_fingerprint env package_base phase (with_source inv)
          assessment s

    allowed-basis :
        (r : Report) (status : ℕ)
        → conclude guidance_id cfg policy_fingerprint env package_base phase
            (with_source inv)
            assessment
            (basis guidance_id cfg policy_fingerprint env phase assessment carried force)
          ≡ reported r status
        → r.decision ≡ allow
        → (status ≡ exit_ok)
          × (assessment.decision ≡ allow)
          × ((is_ai guidance_id cfg policy_fingerprint ≡ false)
              ⊎ (model_blocks cfg r.reviewer.verdicts ≡ false))
    allowed-basis r status h d =
        let b = basis guidance_id cfg policy_fingerprint env phase assessment carried force in
        let (ok, is_zero, verdicts_are) =
          conclude-reported env package_base phase (with_source inv) assessment b r status h d in
        let (decided, model) = allowed_parts assessment b (unfold basis in refl) ok in
        (is_zero, decided, rw verdicts_are model)

    abbrev override_basis : Report → Basis
    override_basis q = record {
      overridden = true;
      carried = none;
      verdicts = q.reviewer.verdicts;
      review_error = take error_limit q.reviewer.error;
      skipped = skipped_text cfg phase force;
      trigger = trigger_of guidance_id cfg policy_fingerprint force;
    }

    evaluate-store :
        (r : Report) (status : ℕ) → result.1 ≡ reported r status → result.0 ≡ authorization.0
    unfolding evaluate
    evaluate-store r status h = ground arith

    evaluate-overridden :
        (r q : Report) (status : ℕ)
        → result.1 ≡ reported r status
        → authorization.1 ≡ authorized_by q
        → conclude guidance_id cfg policy_fingerprint env package_base phase
            (with_source inv)
            assessment
            (override_basis q)
          ≡ reported r status
    unfolding evaluate
    evaluate-overridden r q status h e = ground arith

    evaluate-unauthorized :
        (r : Report) (status : ℕ)
        → result.1 ≡ reported r status
        → authorization.1 ≡ unauthorized
        → conclude guidance_id cfg policy_fingerprint env package_base phase
            (with_source inv)
            assessment
            (basis guidance_id cfg policy_fingerprint env phase assessment carried force)
          ≡ reported r status
    unfolding evaluate
    evaluate-unauthorized r status h e = ground arith

    evaluate-failed :
        (r : Report) (status : ℕ) → result.1 ≡ reported r status → authorization.1 ≢ state_failure
    unfolding evaluate
    evaluate-failed r status h e = ground arith

    -- An allowing report comes with status 0, and is justified in one of two ways: by the approval of
    -- an eligible report about this very content under this policy, which is spent and which no
    -- structural block can be crossed with; or by the deterministic decision, with no verdict of a
    -- model against it where the mode asks one.
    pub evaluate-allow :
        (r : Report) (status : ℕ)
        → (evaluate guidance_id cfg policy_fingerprint env package_base phase inv carried force s).1
          ≡ reported r status
        → r.decision ≡ allow
        → (status ≡ exit_ok)
          × IsJustified env package_base phase inv carried s
              (evaluate guidance_id cfg policy_fingerprint env package_base phase inv carried force
                s).0
              r
    evaluate-allow r status h d = by_authorization authorization.1 refl
      where
        by_authorization :
            (z : Authorization)
            → authorization.1 ≡ z
            → (status ≡ exit_ok) × IsJustified env package_base phase inv carried s result.0 r
        by_authorization state_failure e = absurd (evaluate-failed r status h e)
        by_authorization (authorized_by q) e =
            let (ok, is_zero, verdicts_are) =
              conclude-reported env package_base phase (with_source inv) assessment
                (override_basis q) r status (evaluate-overridden r q status h e) d in
            let after_is = evaluate-store r status h in
            (
              is_zero,
              inl (
                  rw after_is (
                    authorize-by guidance_id cfg policy_fingerprint env package_base phase
                      (with_source inv) assessment s q
                      (assess-structural (with_source inv) cfg.manual_review_minimum_severity
                        (carried_ids carried))
                      e)),
            )
        by_authorization unauthorized e =
            let (is_zero, decided, model) =
              allowed-basis r status (evaluate-unauthorized r status h e) d in
            (is_zero, inr (decided, model))

    conclude-sealed :
        (b : Basis) (r : Report) (status : ℕ)
        → conclude guidance_id cfg policy_fingerprint env package_base phase
            (with_source inv)
            assessment
            b
          ≡ reported r status
        → b.overridden ≡ false
        → assessment.structural ≡ true
        → (r.overridden ≡ false) × (r.approval_eligible ≡ false) × (r.disposition ≡ r.decision)
    unfolding conclude make_report
    conclude-sealed b r status h o st = (ground arith, ground arith, ground arith)

    authorize-sealed :
        assessment.structural ≡ true → (authorization.0 ≡ s) × (authorization.1 ≡ unauthorized)
    unfolding authorize
    authorize-sealed st = (ground arith, ground arith)

    -- Where the scan found a structural block, a reported evaluation has not touched the approval
    -- store, and its report is neither an override nor one that an approval can be created from.
    pub evaluate_structural :
        (r : Report) (status : ℕ)
        → structural_block (with_source inv) ≡ true
        → (evaluate guidance_id cfg policy_fingerprint env package_base phase inv carried force s).1
          ≡ reported r status
        → ((evaluate guidance_id cfg policy_fingerprint env package_base phase inv carried force
              s).0
            ≡ s)
          × (r.overridden ≡ false)
          × (r.approval_eligible ≡ false)
          × (r.disposition ≡ r.decision)
    evaluate_structural r status st h =
        let sealed =
          assess-structural (with_source inv) cfg.manual_review_minimum_severity
            (carried_ids carried)
          ∙ st in
        let (same, none_found) = authorize-sealed sealed in
        let b = basis guidance_id cfg policy_fingerprint env phase assessment carried force in
        let (plain, not_eligible, same_text) =
          conclude-sealed b r status (evaluate-unauthorized r status h none_found)
            (unfold basis in refl) sealed in
        (evaluate-store r status h ∙ same, plain, not_eligible, same_text)
