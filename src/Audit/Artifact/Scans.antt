-- ===== src/Audit/Artifact/Scans.antt =====
-- The report that the packages are bound by comes from a scan.
use prolewatch.Prelude.{
  ◌||◌, ℕ, ◌≡◌, refl, ap, ◌⊎◌, inl, inr, Bool, true, false, not, Option, none, some, ◌==◌, Bytes,
  is_empty, Bool-cases,
}
use prolewatch.Brief.Manifest.{Codec}
use prolewatch.Audit.Approvals.{ApprovalStore}
use prolewatch.Audit.Evaluate.{exit_ok}
use prolewatch.Audit.Artifact.{
  ArtifactReport, Surroundings, Scanned, scanned, scan_packages, on_second, on_token, on_confirmed,
  confirm_scan, on_first,
}
use prolewatch.Audit.Approvals.Create.{CreateError}
use prolewatch.Audit.Confirm.{classify_inline_decision}

module _ {V : Type 0} (codec : Codec V) (w : Surroundings V) where
  -- A report that a scan, or a review that was asked for, gave with this status.
  abbrev pub IsScan : ArtifactReport V → ℕ → Type 0
  IsScan a status =
      ((s : ApprovalStore) × ((w.scan s).1 ≡ some (a, status)))
      ⊎ ((x : ArtifactReport V × ℕ) × (w.reviewed x ≡ (a, status)))

  -- A report with its status is one of a scan.
  abbrev pub FromScan : Scanned V → Type 0
  FromScan (scanned after a status) = IsScan a status
  FromScan other = Unit

  on_second-FromScan :
      (s : ApprovalStore) (cleared : Option ApprovalStore) (after : ApprovalStore)
      (result : Option (ArtifactReport V × ℕ))
      → (w.scan s).1 ≡ result
      → FromScan (on_second codec w cleared after result)
  on_second-FromScan s none after result e = tt
  on_second-FromScan s (some cleared) after none e = tt
  on_second-FromScan s (some cleared) after (some (a, status)) e = inl (s, e)

  on_token-FromScan :
      (name : Bytes) (r : ApprovalStore × Option CreateError) → FromScan (on_token codec w name r)
  on_token-FromScan name (made, some e) = tt
  on_token-FromScan name (made, none) =
      on_second-FromScan made _ (w.scan made).0 (w.scan made).1 refl

  on_confirmed-FromScan :
      (mode : Bytes) (x y : ArtifactReport V × ℕ) (s : ApprovalStore) (answer : Option Bool)
      → w.reviewed x ≡ y
      → FromScan (on_confirmed codec w mode y s answer)
  on_confirmed-FromScan mode x (a, status) s none e = tt
  on_confirmed-FromScan mode x (a, status) s (some false) e = inr (x, e)
  on_confirmed-FromScan mode x (a, status) s (some true) e = on_token-FromScan _ _

  confirm_scan-FromScan :
      (s : ApprovalStore) (a : ArtifactReport V) (status : ℕ) (after : ApprovalStore)
      → (w.scan s).1 ≡ some (a, status)
      → FromScan (confirm_scan codec w a status after)
  unfolding confirm_scan
  confirm_scan-FromScan s a status after e =
      let mode = classify_inline_decision w.config (some a.report) in
      elim (Bool-cases (is_empty mode || not w.terminal)) [
        | inl unasked ↦ rw unasked (inl (s, e))
        | inr asked' ↦
            rw asked' (on_confirmed-FromScan mode (a, status) (w.reviewed (a, status)) after _ refl)
      ]

  on_first-FromScan :
      (s : ApprovalStore) (r : ApprovalStore × Option (ArtifactReport V × ℕ))
      → w.scan s ≡ r
      → FromScan (on_first codec w r)
  on_first-FromScan s (after, none) e = tt
  on_first-FromScan s (after, some (a, status)) e =
      let result : (w.scan s).1 ≡ some (a, status) =
        ap (λ (x : ApprovalStore × Option (ArtifactReport V × ℕ)). x.1) e in
      elim (Bool-cases (status == exit_ok)) [
        | inl fine ↦ rw fine (inl (s, result))
        | inr other ↦ rw other (confirm_scan-FromScan s a status after result)
      ]

  pub scan_packages-FromScan : (s : ApprovalStore) → FromScan (scan_packages codec w s)
  unfolding scan_packages
  scan_packages-FromScan s = on_first-FromScan s (w.scan s) refl
