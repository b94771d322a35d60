-- ===== src/Audit/Assess/Laws.antt =====
-- What the deterministic decision follows from.
use prolewatch.Prelude.{
  ◌≡◌, ◌≤◌, refl, ◌⊎◌, true, false, List, [], ◌∷◌, any, Bytes, is_member, arith, IsIn, any-IsIn,
  All,
}
use prolewatch.Brief.Findings.{Finding}
use prolewatch.Audit.Types.{Inventory, allow, block}
use prolewatch.Audit.Severity.{
  severity_at_least, valid_severity, severity_rank, severity_at_least_mono,
}
use prolewatch.Audit.Assess.{is_structural, structural_block, needs_decision, assess}

module _ (guidance_id : Finding → Bytes) where
  -- The findings of an allowed package: none is hard, and each that reaches the threshold is carried.
  abbrev pub IsSettled : Bytes → List Bytes → Finding → Type 0
  IsSettled minimum carried f =
      (f.hard_block ≡ false)
      × ((is_member (guidance_id f) carried ≡ true)
          ⊎ (severity_at_least f.severity minimum ≡ false))

  IsSettled-of_any :
      (minimum : Bytes) (carried : List Bytes) (fs : List Finding)
      → any (λ f. f.hard_block) fs ≡ false
      → any (needs_decision guidance_id minimum carried) fs ≡ false
      → All (IsSettled minimum carried) fs
  IsSettled-of_any minimum carried [] h d = tt
  IsSettled-of_any minimum carried (f ∷ fs) h d =
      let rest = IsSettled-of_any minimum carried fs (ground arith) (ground arith) in
      ((ground arith, ground arith), rest)

  -- A package is allowed without a decision only if its coverage is complete, the threshold is a
  -- known severity, no finding is a hard block, and each finding that reaches the threshold was
  -- carried over from the recipe gate; it is then not offered for approval.
  pub assess-allow :
      (inv : Inventory) (minimum : Bytes) (carried : List Bytes)
      → (assess guidance_id inv minimum carried).decision ≡ allow
      → (inv.coverage_complete ≡ true)
        × (valid_severity minimum ≡ true)
        × All (IsSettled minimum carried) inv.findings
        × ((assess guidance_id inv minimum carried).approval_eligible ≡ false)
  unfolding assess
  assess-allow inv minimum carried h = (
    ground arith,
    ground arith,
    IsSettled-of_any minimum carried inv.findings (ground arith) (ground arith),
    ground arith,
  )

  structural_of_IsIn :
      (inv : Inventory) {f : Finding}
      → IsIn f inv.findings
      → f.hard_block ≡ true
      → structural_block inv ≡ true
  unfolding structural_block is_structural
  structural_of_IsIn inv {f} i h = ground (arith, any-IsIn is_structural inv.findings i)

  -- A package with a hard-block finding is blocked and not eligible for approval, whatever the
  -- threshold is and whatever decisions are carried over.
  pub assess_hard :
      (inv : Inventory) (minimum : Bytes) (carried : List Bytes) (f : Finding)
      → IsIn f inv.findings
      → f.hard_block ≡ true
      → ((assess guidance_id inv minimum carried).decision ≡ block)
        × ((assess guidance_id inv minimum carried).approval_eligible ≡ false)
        × ((assess guidance_id inv minimum carried).structural ≡ true)
  unfolding assess
  assess_hard inv minimum carried f i h =
      let hard = any-IsIn (λ g. g.hard_block) inv.findings i h in
      let structural = structural_of_IsIn inv i h in (ground arith, ground arith, ground arith)

  needs_decision_mono :
      (low high : Bytes) (carried : List Bytes) (fs : List Finding)
      → valid_severity low ≡ true
      → severity_rank low ≤ severity_rank high
      → any (needs_decision guidance_id low carried) fs ≡ false
      → any (needs_decision guidance_id high carried) fs ≡ false
  needs_decision_mono low high carried [] v le h = refl
  needs_decision_mono low high carried (f ∷ fs) v le h = ground (
    arith,
    severity_at_least_mono f.severity low high v le,
    needs_decision_mono low high carried fs v le,
  )

  -- Raising the threshold never blocks what a lower one allowed.
  pub assess_mono :
      (inv : Inventory) (low high : Bytes) (carried : List Bytes)
      → valid_severity high ≡ true
      → severity_rank low ≤ severity_rank high
      → (assess guidance_id inv low carried).decision ≡ allow
      → (assess guidance_id inv high carried).decision ≡ allow
  unfolding assess
  assess_mono inv low high carried v le h =
      let known : valid_severity low ≡ true = ground arith in
      ground (arith, needs_decision_mono low high carried inv.findings known le)
