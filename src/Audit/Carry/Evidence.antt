-- ===== src/Audit/Carry/Evidence.antt =====
-- The report behind a carried decision.
use prolewatch.Prelude.{
  ◌≡◌, ◌≢◌, refl, inl, inr, true, false, List, [], ◌∷◌, some, Bytes, bytes_eq_iff, codes, arith,
  Bool-cases, Option-cases, some_injective, All,
}
use mathlib.Core.Path.{subst}
use prolewatch.Brief.Findings.{Finding}
use prolewatch.Brief.Manifest.{Codec, manifest_entry_hashes}
use prolewatch.Audit.Types.{Report, Inventory, CarriedDecision, CarriedFindingBinding, override}
use prolewatch.Audit.Assess.{structural_block}
use prolewatch.Audit.Marker.{World, Markers, load_live_marker_report}
use prolewatch.Audit.Carry.{
  is_carry_source, approved_findings, bindings, decision_of, carried_decision,
}
use prolewatch.Audit.Marker.Live.{IsLive, load_live_marker_report-IsLive}
use prolewatch.Audit.Carry.Bindings.{IsDistinct, IsBound, bindings-IsBound}

-- A report that the user overrode, whose decisions may be carried.
pub record IsOverride (package_base : Bytes) (r : Report) : Type 0 where
  pub of_package : r.package_base ≡ package_base
  pub at_pre : r.phase ≡ codes "pre"
  pub by_user : (r.disposition ≡ override) × (r.overridden ≡ true)
  pub whole : r.coverage_complete ≡ true
  pub unstructural :
      structural_block (record {
        findings = r.findings;
        manifest_hash = [];
        coverage_complete = r.coverage_complete;
      })
      ≡ false

is_carry_source-IsOverride :
    (package_base : Bytes) (r : Report)
    → is_carry_source package_base r ≡ true
    → IsOverride package_base r
unfolding is_carry_source
is_carry_source-IsOverride package_base r h = record {
  of_package = (bytes_eq_iff r.package_base package_base).0 (ground arith);
  at_pre = (bytes_eq_iff r.phase (codes "pre")).0 (ground arith);
  by_user = ((bytes_eq_iff r.disposition override).0 (ground arith), ground arith);
  whole = ground arith;
  unstructural = ground arith;
}

module _ (guidance_id : Finding → Bytes) (minimum : Bytes) {V : Type 0} (codec : Codec V) where
  -- The evidence behind a carried decision.
  pub record IsCarried (w : World V) (policy_fingerprint root package_base : Bytes)
      (inv : Inventory) (current : List V) (c : CarriedDecision) : Type 0 where
    pub source : Report
    pub manifest : List V
    pub canonical : Bytes
    pub live : IsLive w policy_fingerprint root source manifest canonical
    pub overridden : IsOverride package_base source
    pub bound :
        All
          (IsBound guidance_id minimum codec source.findings inv.findings manifest current)
          c.findings
    pub distinct : IsDistinct [] c.findings
    pub nonempty : c.findings ≢ []
    pub names_source :
        (c.source_report_id ≡ source.report_id) × (c.source_content_hash ≡ source.content_hash)

  decision_of-IsCarried :
      (w : World V) (policy_fingerprint root package_base : Bytes) (inv : Inventory)
      (current : List V) (c : CarriedDecision) (source : Report) (manifest : List V)
      (canonical : Bytes)
      → IsLive w policy_fingerprint root source manifest canonical
      → IsOverride package_base source
      → (bs : List CarriedFindingBinding)
      → (All (IsBound guidance_id minimum codec source.findings inv.findings manifest current) bs)
        × IsDistinct [] bs
      → decision_of source bs ≡ some c
      → IsCarried w policy_fingerprint root package_base inv current c
  decision_of-IsCarried w policy_fingerprint root package_base inv current c source manifest
        canonical l o [] b h =
      absurd (ground arith)
  decision_of-IsCarried w policy_fingerprint root package_base inv current c source manifest
        canonical l o (b ∷ bs) (bound, distinct) h =
      subst (IsCarried w policy_fingerprint root package_base inv current) (some_injective h)
        (record {
          source = source;
          manifest = manifest;
          canonical = canonical;
          live = l;
          overridden = o;
          bound = bound;
          distinct = distinct;
          nonempty = λ e. ground arith;
          names_source = (refl, refl);
        })

  -- A carried decision goes back to a stored report of this running transaction, under the same
  -- policy, that allows, is an override of the user at the recipe gate of this package and has no
  -- structural block. Each of its bindings, at least one and no two with one digest, is for an
  -- eligible finding of both phases on the same file, whose entry has one digest in both manifests.
  pub carried_decision-IsCarried :
      (w : World V) (policy_fingerprint : Bytes) (ms : Markers) (root package_base : Bytes)
      (inv : Inventory) (current : List V) (c : CarriedDecision)
      → carried_decision codec w guidance_id minimum policy_fingerprint ms root package_base inv
          current
        ≡ some c
      → IsCarried w policy_fingerprint root package_base inv current c
  unfolding carried_decision
  carried_decision-IsCarried w policy_fingerprint ms root package_base inv current c h =
      elim (Option-cases (load_live_marker_report w policy_fingerprint root (codes "pre") ms)) [
        | inl none' ↦ absurd (ground arith)
        | inr ((source, manifest, canonical), loaded) ↦
            elim (Bool-cases (is_carry_source package_base source)) [
              | inr refused ↦ absurd (ground arith)
              | inl is_source ↦ elim (Option-cases (manifest_entry_hashes codec manifest)) [
                | inl none' ↦ absurd (ground arith)
                | inr (before, is_before) ↦
                    elim (Option-cases (manifest_entry_hashes codec current)) [
                      | inl none' ↦ absurd (ground arith)
                      | inr (after, is_after) ↦
                          decision_of-IsCarried w policy_fingerprint root package_base inv current c
                            source manifest canonical
                            (load_live_marker_report-IsLive w policy_fingerprint root (codes "pre")
                              ms source manifest canonical loaded)
                            (is_carry_source-IsOverride package_base source is_source)
                            (bindings guidance_id minimum
                              (approved_findings guidance_id minimum [] source.findings) before
                              after [] inv.findings)
                            (bindings-IsBound guidance_id minimum codec source.findings manifest
                              current before after is_before is_after [] inv.findings inv.findings
                              (λ f i. i))
                            (rw (loaded, is_source, is_before, is_after) at h)
                    ]
              ]
            ]
      ]
