-- ===== src/Audit/Artifact/Bound.antt =====
-- What the packages are bound to that are handed over.
use prolewatch.Prelude.{
  ◌≡◌, refl, sym, ap, ◌∙◌, ◌⊎◌, inl, inr, ◌&&◌, List, [], ◌∷◌, ◌++◌, some, ◌==◌, ==_iff, Bytes,
  arith, Bool-cases, Option-cases, IsIn, here, there,
}
use mathlib.Core.Path.{subst}
use prolewatch.Brief.Manifest.{Codec, hash_at}
use prolewatch.Audit.Approvals.{ApprovalStore}
use prolewatch.Audit.Evaluate.{exit_ok}
use prolewatch.Audit.Artifact.{
  ArtifactReport, Surroundings, Scanned, waiting, failed, scanned, Gated, on_gated, passed, stopped,
  kept, rewritten, blocked, broken, asked, gate_loop, bindings_of, Handed, handed, check_all,
  scan_packages, bind_packages, audit_and_bind, on_scanned,
}
use prolewatch.Audit.Artifact.Kept.{IsKept, IsRewritten}
use prolewatch.Audit.Artifact.Gate.{gate_loop-IsGated}
use prolewatch.Audit.Artifact.Scans.{IsScan, FromScan, scan_packages-FromScan}
use prolewatch.Audit.Artifact.Reviewed.{IsReviewed, check_all-IsReviewed}

IsIn-bindings :
    (p : Bytes) (ps : List Bytes) (verified : List (Bytes × Bytes))
    → IsIn p ps
    → IsIn (p, hash_at verified p) (bindings_of verified ps)
IsIn-bindings p [] verified i = elim i [ ]
IsIn-bindings p (q ∷ ps) verified (here e) = here (ap (λ x. (x, hash_at verified x)) e)
IsIn-bindings p (q ∷ ps) verified (there i) = there (IsIn-bindings p ps verified i)

IsIn-append_right : {A : Type 0} (x : A) (xs ys : List A) → IsIn x ys → IsIn x (xs ++ ys)
IsIn-append_right x [] ys i = i
IsIn-append_right x (z ∷ xs) ys i = there (IsIn-append_right x xs ys i)

module _ {V : Type 0} (codec : Codec V) (w : Surroundings V) where
  -- A package was kept, and is bound to the digest of the file and of the reviewed manifest, or was
  -- such a file and is bound to the digest of the rewrite that the user asked for.
  abbrev pub IsBound : ArtifactReport V → Bytes → Bytes → Type 0
  IsBound a p h =
      (reviewed : Bytes) × IsReviewed codec w.hash a p reviewed
      × ((IsKept w.gateway p × (h ≡ reviewed)) ⊎ IsRewritten w.gateway p h)

  abbrev pub AreBound : ArtifactReport V → List Bytes → List (Bytes × Bytes) → Type 0
  AreBound a ps bound = (p : Bytes) → IsIn p ps → (h : Bytes) × IsIn (p, h) bound × IsBound a p h

  handed-parts :
      {s after : ApprovalStore} {a b : ArtifactReport V} {x y : List (Bytes × Bytes)}
      → handed s a x ≡ handed after b y
      → (s ≡ after) × (a ≡ b) × (x ≡ y)
  handed-parts {s} {after} {a} {b} {x} {y} h = (ap store_of h, ap report_of h, ap bound_of h)
    where
      store_of : Handed V → ApprovalStore
      store_of (handed t c z) = t
      store_of other = s

      report_of : Handed V → ArtifactReport V
      report_of (handed t c z) = c
      report_of other = a

      bound_of : Handed V → List (Bytes × Bytes)
      bound_of (handed t c z) = z
      bound_of other = x

  on_gated-AreBound :
      (ps : List Bytes) (a b : ArtifactReport V) (s after : ApprovalStore)
      (verified bound : List (Bytes × Bytes)) (r : Gated)
      → check_all codec w.hash a ps ≡ some verified
      → gate_loop w.gateway ps verified a.stripped ≡ r
      → on_gated codec w ps a s r ≡ handed after b bound
      → (s ≡ after) × (b.bindings ≡ bound) × AreBound a ps bound
  on_gated-AreBound ps a b s after verified bound (stopped asked) c e h = absurd (cc)
  on_gated-AreBound ps a b s after verified bound (stopped blocked) c e h = absurd (cc)
  on_gated-AreBound ps a b s after verified bound (stopped kept) c e h = absurd (cc)
  on_gated-AreBound ps a b s after verified bound (stopped broken) c e h = absurd (cc)
  on_gated-AreBound ps a b s after verified bound (stopped (rewritten x m)) c e h = absurd (cc)
  on_gated-AreBound ps a b s after verified bound (passed final out) c e h =
      elim (Bool-cases (w.replace_artifact_ok && w.replace_post_ok)) [
        | inr unsaved ↦ absurd (ground arith)
        | inl saved ↦
            let (same, report, joined) = handed-parts (rw saved at h) in
            (
              same,
              ap ArtifactReport.bindings (sym report) ∙ joined,
              λ p i. (
                hash_at final p,
                subst (IsIn (p, hash_at final p)) joined (
                    IsIn-append_right (p, hash_at final p) a.bindings (bindings_of final ps)
                      (IsIn-bindings p ps final i)),
                (
                  hash_at verified p,
                  check_all-IsReviewed codec w.hash a ps verified p c i,
                  gate_loop-IsGated w.gateway ps verified final a.stripped out p e i,
                ),
              ),
            )
      ]

  bind_packages-AreBound :
      (ps : List Bytes) (a b : ArtifactReport V) (s after : ApprovalStore)
      (bound : List (Bytes × Bytes))
      → bind_packages codec w ps a s ≡ handed after b bound
      → (s ≡ after) × (b.bindings ≡ bound) × AreBound a ps bound
  unfolding bind_packages
  bind_packages-AreBound ps a b s after bound h =
      elim (Option-cases (check_all codec w.hash a ps)) [
        | inl bad ↦ absurd (ground arith)
        | inr (verified, good) ↦
            on_gated-AreBound ps a b s after verified bound
              (gate_loop w.gateway ps verified a.stripped) good refl (rw (good, bind_packages) at h)
      ]

  on_scanned-AreBound :
      (ps : List Bytes) (after : ApprovalStore) (b : ArtifactReport V)
      (bound : List (Bytes × Bytes)) (r : Scanned V)
      → FromScan codec w r
      → on_scanned codec w ps r ≡ handed after b bound
      → (a : ArtifactReport V) × IsScan codec w a exit_ok
        × (b.bindings ≡ bound)
        × AreBound a ps bound
  on_scanned-AreBound ps after b bound waiting f h = absurd (cc)
  on_scanned-AreBound ps after b bound (failed s) f h = absurd (cc)
  on_scanned-AreBound ps after b bound (scanned s a status) f h =
      elim (Bool-cases (status == exit_ok)) [
        | inr other ↦ absurd (ground arith)
        | inl fine ↦
            let (_, bindings, are) = bind_packages-AreBound ps a b s after bound (rw fine at h) in
            (a, subst (IsScan codec w a) ((==_iff status exit_ok).0 fine) f, bindings, are)
      ]

  -- Packages that auditAndBind hands over were allowed, with status 0, by a scan or by a review that
  -- was asked for, and both reports bind each of them to a digest: its file has the digest of a valid
  -- file record of that name in the reviewed manifest, and either it has no surface that needs a
  -- decision or the user kept all, and it is bound to that digest, or the user asked for members to
  -- be stripped, and it is bound to the digest of the rewrite, which is in place.
  pub audit_and_bind-IsBound :
      (ps : List Bytes) (s after : ApprovalStore) (b : ArtifactReport V)
      (bound : List (Bytes × Bytes))
      → audit_and_bind codec w ps s ≡ handed after b bound
      → (a : ArtifactReport V) × IsScan codec w a exit_ok
        × (b.bindings ≡ bound)
        × AreBound a ps bound
  unfolding audit_and_bind
  audit_and_bind-IsBound ps s after b bound h =
      on_scanned-AreBound ps after b bound (scan_packages codec w s)
        (scan_packages-FromScan codec w s) h
