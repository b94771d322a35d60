-- ===== src/Audit/Artifact/Reviewed.antt =====
-- The digests of the packages are those of the reviewed manifest.
use prolewatch.Prelude.{
  ◌||◌, ◌≡◌, refl, sym, ap, ◌∙◌, ◌⊎◌, inl, inr, false, not, ◌&&◌, List, [], ◌∷◌, Option, some,
  Bytes, bytes_eq, bytes_eq_iff, codes, is_empty, arith, Bool-cases, Option-cases, some_injective,
  IsIn, here, there,
}
use mathlib.Core.Path.{subst}
use prolewatch.Brief.Manifest.{Codec, FileRecord, validate_manifest_record, hash_at}
use prolewatch.Egress.Acquire.{path_base}
use prolewatch.Audit.Artifact.{
  ArtifactReport, expected_in, expected_artifact_hash, check_hash, check_all,
}

module _ {V : Type 0} (codec : Codec V) where
  -- A valid file record of the manifest with this path and digest.
  abbrev pub HasFile : Bytes → Bytes → List V → Type 0
  HasFile name h vs =
      (v : V) × (r : FileRecord) × IsIn v vs
      × (validate_manifest_record codec v ≡ some r)
      × (r.kind ≡ codes "file")
      × (r.path ≡ name)
      × (r.sha256 ≡ h)

  later : {name h : Bytes} {v : V} {vs : List V} → HasFile name h vs → HasFile name h (v ∷ vs)
  later (v, r, i, valid, file, named, e) = (v, r, there i, valid, file, named, e)

  expected_in-HasFile :
      (name result h : Bytes) (vs : List V)
      → expected_in codec name result vs ≡ some h
      → ((result ≡ h) × (is_empty result ≡ false)) ⊎ HasFile name h vs
  unfolding expected_in
  expected_in-HasFile name result h [] e = elim (Bool-cases (is_empty result)) [
    | inl blank ↦ absurd (ground arith)
    | inr full ↦ inl (some_injective (rw full at e), full)
  ]
  expected_in-HasFile name result h (v ∷ vs) e =
      elim (Option-cases (validate_manifest_record codec v)) [
        | inl invalid ↦ absurd (ground arith)
        | inr (r, valid) ↦
            elim (Bool-cases (bytes_eq r.kind (codes "file") && bytes_eq r.path name)) [
              | inr other ↦
                  elim (expected_in-HasFile name result h vs
                    (rw (valid, other, expected_in) at e)) [
                      | inl old ↦ inl old
                      | inr found ↦ inr (later found)
                    ]
              | inl this ↦ elim (Bool-cases (is_empty result)) [
                | inr full ↦ absurd (ground arith)
                | inl blank ↦
                    elim (expected_in-HasFile name r.sha256 h vs
                      (rw (valid, this, blank, expected_in) at e)) [
                        | inr found ↦ inr (later found)
                        | inl (same, _) ↦ inr (
                          v,
                          r,
                          here refl,
                          valid,
                          (bytes_eq_iff r.kind (codes "file")).0 (ground arith),
                          (bytes_eq_iff r.path name).0 (ground arith),
                          same,
                        )
                      ]
              ]
            ]
      ]

  -- The digest of the file at hand is that of the reviewed manifest.
  abbrev pub IsReviewed : (Bytes → Option Bytes) → ArtifactReport V → Bytes → Bytes → Type 0
  IsReviewed hash a p h = (hash p ≡ some h) × HasFile (path_base p) h a.manifest

  check_hash-IsReviewed :
      (hash : Bytes → Option Bytes) (a : ArtifactReport V) (p h : Bytes)
      → check_hash codec hash a p ≡ some h
      → IsReviewed hash a p h
  unfolding check_hash expected_artifact_hash
  check_hash-IsReviewed hash a p h e = elim (Option-cases (hash p)) [
    | inl unread ↦ absurd (ground arith)
    | inr (before, read) ↦ elim (Option-cases (expected_artifact_hash codec a (path_base p))) [
      | inl missing ↦ absurd (ground arith)
      | inr (expected, found) ↦ elim (Bool-cases (bytes_eq before expected)) [
        | inr changed ↦ absurd (ground arith)
        | inl same ↦
            let e' : before ≡ h = some_injective (rw (read, found, same, check_hash) at e) in
            let is_expected = sym ((bytes_eq_iff before expected).0 same) ∙ e' in
            (read ∙ ap some e', in_manifest (found ∙ ap some is_expected))
      ]
    ]
  ]
    where
      in_manifest :
          expected_artifact_hash codec a (path_base p) ≡ some h → HasFile (path_base p) h a.manifest
      in_manifest f =
          elim (Bool-cases
            (not (bytes_eq (path_base (path_base p)) (path_base p)) || is_empty (path_base p))) [
              | inl bad ↦ absurd (ground arith)
              | inr good ↦
                  elim (expected_in-HasFile (path_base p) [] h a.manifest
                    (rw (good, expected_artifact_hash) at f)) [
                      | inl (_, full) ↦ absurd (cc)
                      | inr found ↦ found
                    ]
            ]

  pub check_all-IsReviewed :
      (hash : Bytes → Option Bytes) (a : ArtifactReport V) (ps : List Bytes)
      (verified : List (Bytes × Bytes)) (p : Bytes)
      → check_all codec hash a ps ≡ some verified
      → IsIn p ps
      → IsReviewed hash a p (hash_at verified p)
  unfolding check_all
  check_all-IsReviewed hash a [] verified p e i = elim i [ ]
  check_all-IsReviewed hash a (q ∷ ps) verified p e i =
      elim (Option-cases (check_hash codec hash a q)) [
        | inl bad ↦ absurd (ground arith)
        | inr (h, good) ↦ elim (Option-cases (check_all codec hash a ps)) [
          | inl bad ↦ absurd (ground arith)
          | inr (rest, others) ↦
              let joined : ((q, h) ∷ rest) ≡ verified =
                some_injective (rw (good, others, check_all) at e) in
              subst (λ v. IsReviewed hash a p (hash_at v p)) joined
                (at_path h rest good (check_all-IsReviewed hash a ps rest p others) i)
        ]
      ]
    where
      at_path :
          (h : Bytes) (rest : List (Bytes × Bytes))
          → check_hash codec hash a q ≡ some h
          → (IsIn p ps → IsReviewed hash a p (hash_at rest p))
          → IsIn p (q ∷ ps)
          → IsReviewed hash a p (hash_at ((q, h) ∷ rest) p)
      at_path h rest good f j = elim (Bool-cases (bytes_eq q p)) [
        | inl same ↦
            let e' = ap (check_hash codec hash a) (sym ((bytes_eq_iff q p).0 same)) ∙ good in
            rw same (check_hash-IsReviewed hash a p h e')
        | inr differ ↦ rw differ (f (behind differ j))
      ]
        where
          behind : bytes_eq q p ≡ false → IsIn p (q ∷ ps) → IsIn p ps
          behind d (here s) = let yes' = (bytes_eq_iff q p).1 (sym s) in absurd (cc)
          behind d (there k) = k
