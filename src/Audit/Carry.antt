-- ===== src/Audit/Carry.antt =====
-- internal/audit/policy.go: carriedDecision, which carries the user's decisions at the recipe gate over
-- to the scan of the sources.
pub mod Bindings
pub mod Evidence
pub mod Settled
use prolewatch.Prelude.{
  ◌>>=◌, ℕ, Bool, true, false, not, ◌&&◌, ◌||◌, List, [], ◌∷◌, ◌++◌, Option, none, some, ltb, ◌==◌,
  if◌then◌else◌, length, Bytes, bytes_eq, codes, is_empty, is_member, decimal,
}
use prolewatch.Brief.Findings.{Finding}
use prolewatch.Brief.Manifest.{Codec, hash_at, manifest_entry_hashes}
use prolewatch.Audit.Types.{
  Report, ProcessIdentity, Inventory, CarriedDecision, CarriedFindingBinding, allow, override,
  deterministic,
}
use prolewatch.Audit.Severity.{severity_at_least}
use prolewatch.Audit.Assess.{structural_block}
use prolewatch.Audit.Evaluate.Review.{prompt_injection}
use prolewatch.Audit.Marker.{World, Markers, load_live_marker_report}

-- carryEligibleFinding, at the threshold.
unfoldable pub carry_eligible_finding : Bytes → Finding → Bool
carry_eligible_finding minimum f =
    bytes_eq f.source deterministic
    && severity_at_least f.severity minimum
    && not f.hard_block
    && not (bytes_eq f.category (codes "coverage"))

-- What a report has to be for its decisions to be carried.
unfoldable pub is_carry_source : Bytes → Report → Bool
is_carry_source package_base r =
    bytes_eq r.package_base package_base
    && bytes_eq r.phase (codes "pre")
    && bytes_eq r.decision allow
    && bytes_eq r.disposition override
    && r.overridden
    && r.coverage_complete
    && not (
        structural_block (record {
          findings = r.findings;
          manifest_hash = [];
          coverage_complete = r.coverage_complete;
        }))
    && not (prompt_injection r.reviewer.verdicts)

-- A Go map from digests to findings.
abbrev pub finding_at : List (Bytes × Finding) → Bytes → Option Finding
finding_at [] id = none
finding_at ((i, f) ∷ fs) id = if bytes_eq i id then some f else finding_at fs id

module _ (guidance_id : Finding → Bytes) (minimum : Bytes) where
  -- The findings that were approved; a later one takes the place of an earlier one.
  unfoldable pub approved_findings : List (Bytes × Finding) → List Finding → List (Bytes × Finding)
  approved_findings result [] = result
  approved_findings result (f ∷ fs) =
      let added = approved_findings ((guidance_id f, f) ∷ result) fs in
      let left_out = approved_findings result fs in
      if carry_eligible_finding minimum f then added else left_out

  abbrev same_file : Finding → Option Finding → Bool
  same_file f none = false
  same_file f (some g) = bytes_eq g.file f.file

  module _ (approved : List (Bytes × Finding)) (before after : List (Bytes × Bytes)) where
    -- Whether the decision on a finding is carried; `seen` holds the digests that were.
    unfoldable pub carries : List Bytes → Finding → Bool
    carries seen f =
        carry_eligible_finding minimum f
        && not (is_member (guidance_id f) seen)
        && same_file f (finding_at approved (guidance_id f))
        && not (is_empty (hash_at before f.file))
        && bytes_eq (hash_at before f.file) (hash_at after f.file)

    unfoldable pub bindings : List Bytes → List Finding → List CarriedFindingBinding
    unfolding carries
    bindings seen [] = []
    bindings seen (f ∷ fs) =
        let id = guidance_id f in
        let binding : CarriedFindingBinding = record {
          finding_id = id;
          path = f.file;
          manifest_entry_hash = hash_at after f.file;
        } in
        let kept = binding ∷ bindings (id ∷ seen) fs in
        let skipped = bindings seen fs in if carries seen f then kept else skipped

abbrev pub decision_of : Report → List CarriedFindingBinding → Option CarriedDecision
decision_of r [] = none
decision_of r (b ∷ bs) = some (record {
  source_report_id = r.report_id;
  source_phase = r.phase;
  source_content_hash = r.content_hash;
  findings = b ∷ bs;
})

-- AuditService.carriedDecision.
unfoldable pub carried_decision :
    {V : Type 0}
    → Codec V
    → World V
    → (Finding → Bytes)
    → Bytes
    → Bytes
    → Markers
    → Bytes
    → Bytes
    → Inventory
    → List V
    → Option CarriedDecision
unfolding bindings approved_findings is_carry_source
carried_decision codec w guidance_id minimum policy_fingerprint ms root package_base inv current =
    do
      (source, manifest, _) ← load_live_marker_report w policy_fingerprint root (codes "pre") ms
      before ←
          (if is_carry_source package_base source
            then manifest_entry_hashes codec manifest
            else none)
      after ← manifest_entry_hashes codec current
      decision_of source (
          bindings guidance_id minimum (approved_findings guidance_id minimum [] source.findings)
            before after [] inv.findings)
