-- ===== src/Audit/Carry/Bindings.antt =====
-- What a carried binding rests on.
use prolewatch.Prelude.{
  ◌≡◌, refl, sym, ap, ◌∙◌, ◌⊎◌, inl, inr, true, false, List, [], ◌∷◌, some, Bytes, bytes_eq,
  bytes_eq_iff, is_empty, is_member, arith, Bool-cases, Option-cases, some_injective, All, IsIn,
  here, there,
}
use mathlib.Core.Path.{subst}
use prolewatch.Brief.Findings.{Finding}
use prolewatch.Brief.Manifest.{Codec, hash_at, manifest_entry_hashes}
use prolewatch.Brief.Manifest.Hashes.{HasHash, manifest_entry_hashes-HasHash}
use prolewatch.Audit.Types.{CarriedFindingBinding}
use prolewatch.Audit.Carry.{
  carry_eligible_finding, finding_at, approved_findings, carries, bindings,
}

-- No digest is bound twice.
abbrev pub IsDistinct : List Bytes → List CarriedFindingBinding → Type 0
IsDistinct seen [] = Unit
IsDistinct seen (b ∷ bs) =
    (is_member b.finding_id seen ≡ false) × IsDistinct (b.finding_id ∷ seen) bs

module _ (guidance_id : Finding → Bytes) (minimum : Bytes) where
  -- An eligible finding of the list with this digest.
  abbrev pub HasEligible : Bytes → Finding → List Finding → Type 0
  HasEligible id f fs = IsIn f fs × (guidance_id f ≡ id) × (carry_eligible_finding minimum f ≡ true)

  finding_at-HasEligible :
      (result : List (Bytes × Finding)) (fs : List Finding) (id : Bytes) (g : Finding)
      → finding_at (approved_findings guidance_id minimum result fs) id ≡ some g
      → (finding_at result id ≡ some g) ⊎ HasEligible id g fs
  unfolding approved_findings
  finding_at-HasEligible result [] id g h = inl h
  finding_at-HasEligible result (f ∷ fs) id g h =
      elim (Bool-cases (carry_eligible_finding minimum f)) [
        | inr not_eligible ↦ elim (finding_at-HasEligible result fs id g (rw not_eligible at h)) [
          | inl same ↦ inl same
          | inr (i, digest, eligible) ↦ inr (there i, digest, eligible)
        ]
        | inl is_eligible ↦
            elim (finding_at-HasEligible ((guidance_id f, f) ∷ result) fs id g
              (rw is_eligible at h)) [
                | inr (i, digest, eligible) ↦ inr (there i, digest, eligible)
                | inl same ↦ elim (Bool-cases (bytes_eq (guidance_id f) id)) [
                  | inr other ↦ inl (rw other at same)
                  | inl this ↦ inr (
                      found ((bytes_eq_iff (guidance_id f) id).0 this) is_eligible
                        (rw this at same))
                ]
              ]
      ]
    where
      found :
          guidance_id f ≡ id
          → carry_eligible_finding minimum f ≡ true
          → some f ≡ some g
          → HasEligible id g (f ∷ fs)
      found digest eligible e =
          let same = some_injective e in
          subst (λ x. HasEligible id x (f ∷ fs)) same (here refl, digest, eligible)

  module _ {V : Type 0} (codec : Codec V) where
    -- A binding whose finding stands in both phases, with the same file and the same digest of the
    -- file's entry in both manifests.
    pub record IsBound (old new : List Finding) (old_manifest new_manifest : List V)
        (b : CarriedFindingBinding) : Type 0 where
      pub before : Finding
      pub after : Finding
      pub approved_before : HasEligible b.finding_id before old
      pub found_after : HasEligible b.finding_id after new
      pub file_before : before.file ≡ b.path
      pub file_after : after.file ≡ b.path
      pub entry_before : HasHash codec b.path b.manifest_entry_hash old_manifest
      pub entry_after : HasHash codec b.path b.manifest_entry_hash new_manifest

    module _ (old : List Finding) (old_manifest new_manifest : List V)
        (before after : List (Bytes × Bytes))
        (is_before : manifest_entry_hashes codec old_manifest ≡ some before)
        (is_after : manifest_entry_hashes codec new_manifest ≡ some after) where
      carries-IsBound :
          (seen : List Bytes) (f : Finding) (new : List Finding)
          → IsIn f new
          → carries guidance_id minimum
              (approved_findings guidance_id minimum [] old)
              before
              after
              seen
              f
            ≡ true
          → IsBound old new old_manifest new_manifest (record {
            finding_id = guidance_id f;
            path = f.file;
            manifest_entry_hash = hash_at after f.file;
          })
      unfolding carries
      carries-IsBound seen f new i h =
          elim (Option-cases
            (finding_at (approved_findings guidance_id minimum [] old) (guidance_id f))) [
              | inl missing ↦ absurd (ground arith)
              | inr (g, at) ↦ elim (finding_at-HasEligible [] old (guidance_id f) g at) [
                | inl none' ↦ absurd (ground arith)
                | inr eligible ↦
                    let same : bytes_eq g.file f.file ≡ true = ground arith in
                    let hashes =
                      (bytes_eq_iff (hash_at before f.file) (hash_at after f.file)).0
                        (ground arith) in
                    let full : is_empty (hash_at before f.file) ≡ false = ground arith in
                    record {
                      before = g;
                      after = f;
                      approved_before = eligible;
                      found_after = (i, refl, ground arith);
                      file_before = (bytes_eq_iff g.file f.file).0 same;
                      file_after = refl;
                      entry_before =
                          subst (λ x. HasHash codec f.file x old_manifest) hashes
                            (manifest_entry_hashes-HasHash codec old_manifest before f.file
                              is_before full);
                      entry_after =
                          manifest_entry_hashes-HasHash codec new_manifest after f.file is_after
                            (ap is_empty (sym hashes) ∙ full);
                    }
              ]
            ]

      carries-fresh :
          (seen : List Bytes) (f : Finding)
          → carries guidance_id minimum
              (approved_findings guidance_id minimum [] old)
              before
              after
              seen
              f
            ≡ true
          → is_member (guidance_id f) seen ≡ false
      unfolding carries
      carries-fresh seen f h = ground arith

      pub bindings-IsBound :
          (seen : List Bytes) (fs new : List Finding)
          → ((f : Finding) → IsIn f fs → IsIn f new)
          → (All (IsBound old new old_manifest new_manifest) (
              bindings guidance_id minimum
                (approved_findings guidance_id minimum [] old)
                before
                after
                seen
                fs))
            × IsDistinct seen (
                bindings guidance_id minimum
                  (approved_findings guidance_id minimum [] old)
                  before
                  after
                  seen
                  fs)
      unfolding bindings
      bindings-IsBound seen [] new sub = (tt, tt)
      bindings-IsBound seen (f ∷ fs) new sub =
          let carried =
            carries guidance_id minimum (approved_findings guidance_id minimum [] old) before after
              seen f in
          elim (Bool-cases carried) [
            | inl is_carried ↦
                let (bound, distinct) =
                  bindings-IsBound (guidance_id f ∷ seen) fs new (λ g i. sub g (there i)) in
                rw is_carried (
                  (carries-IsBound seen f new (sub f (here refl)) is_carried, bound),
                  (carries-fresh seen f is_carried, distinct),
                )
            | inr skipped ↦ rw skipped (bindings-IsBound seen fs new (λ g i. sub g (there i)))
          ]
