-- ===== src/Audit/Artifact.antt =====
-- internal/audit/build.go: auditAndBind with expectedArtifactHash, quarantinePackages and
-- artifactFailure, the last step before yay gets the packages, and CancelPending of approvals.go. What
-- the scans, the user, the gate's container and the file operations give comes from outside; for a
-- package it is a function of its path, the packages being distinct files. Progress and all output
-- on the terminal are left out.
pub mod Kept
pub mod Steps
pub mod Reviewed
pub mod Scans
pub mod Gate
pub mod Bound
use prolewatch.Prelude.{
  ℕ, Bool, true, false, not, ◌&&◌, ◌||◌, List, [], ◌∷◌, ◌++◌, map, Option, none, some, ◌==◌,
  if◌then◌else◌, all, Bytes, bytes_eq, codes, is_empty,
}
use prolewatch.Brief.Manifest.{Codec, FileRecord, validate_manifest_record, hash_at}
use prolewatch.Brief.Surfaces.{PrivilegedSurface, requiring_decision}
use prolewatch.Egress.Acquire.{path_base}
use prolewatch.Ui.Gate.{GateDecision, Answer, decided, refused, asking, prompt_gate}
use prolewatch.Safe.Prompt.{Event}
use prolewatch.Audit.Types.{Report, ReviewConfig, approval}
use prolewatch.Audit.Approvals.{ApprovalStore, Entry, remove_entry}
use prolewatch.Audit.Approvals.Create.{CreateError, entry_of}
use prolewatch.Audit.Confirm.{
  Previews, Round, classify_inline_decision, confirm_inline_decision_input, create_inline_token,
}
use prolewatch.Audit.Evaluate.{exit_ok, exit_policy_block}
pub use prolewatch.Audit.Artifact.Steps.{
  FilterResult, GateStep, Gated, Gateway, StrippedSurfaces, asked, blocked, broken, kept, on_answer,
  on_listing, on_required, on_step, passed, rewritten, stopped,
}
unfoldable pub use prolewatch.Audit.Artifact.Steps.{follow, gate_loop, gate_package, put_in_place}

abbrev pub exit_artifact_failure : ℕ
exit_artifact_failure = 25

-- A report on packages; a binding is a path and a digest.
pub record ArtifactReport (V : Type 0) : Type 0 where
  pub report : Report
  pub manifest : List V
  pub bindings : List (Bytes × Bytes)
  pub stripped : List StrippedSurfaces

-- `reviewed` is what the AI reviews that are asked for at the prompt leave.
pub record Surroundings (V : Type 0) : Type 0 where
  pub config : ReviewConfig
  pub scan : ApprovalStore → ApprovalStore × Option (ArtifactReport V × ℕ)
  pub terminal : Bool
  pub previews : ArtifactReport V → Previews
  pub rounds : List Round
  pub reviewed : ArtifactReport V × ℕ → ArtifactReport V × ℕ
  pub dirs_ok : Bool
  pub write_ok : Bool
  pub cancel_ok : Bool
  pub hash : Bytes → Option Bytes
  pub gateway : Gateway
  pub quarantine_ok : Bool
  pub is_regular : Bytes → Bool
  pub move_ok : Bytes → Bool
  pub replace_artifact_ok : Bool
  pub replace_post_ok : Bool

-- CancelPending of a token that Create has made.
unfoldable pub cancel_pending : Bool → Bytes → ApprovalStore → Option ApprovalStore
cancel_pending ok name s =
    if ok then some (record s { pending = remove_entry name s.pending }) else none

-- What the scans and the user give: a report and a status, or a failure in front of quarantine.
pub data Scanned (V : Type 0) : Type 0 where
  waiting : Scanned V
  failed : ApprovalStore → Scanned V
  scanned : ApprovalStore → ArtifactReport V → ℕ → Scanned V

-- The bindings in the order of the packages.
abbrev pub bindings_of : List (Bytes × Bytes) → List Bytes → List (Bytes × Bytes)
bindings_of verified = map (λ p. (p, hash_at verified p))

-- How it ends: with a status and whether the archives were to be moved to quarantine, or with the
-- reports that bind the packages.
pub data Handed (V : Type 0) : Type 0 where
  asking_user : Handed V
  exits : ℕ → ApprovalStore → Bool → Handed V
  handed : ApprovalStore → ArtifactReport V → List (Bytes × Bytes) → Handed V

module _ {V : Type 0} (codec : Codec V) where
  -- expectedArtifactHash: the digest of the one file record of this name.
  unfoldable pub expected_in : Bytes → Bytes → List V → Option Bytes
  expected_in name result [] = if is_empty result then none else some result
  expected_in name result (v ∷ vs) = elim (validate_manifest_record codec v) [
    | none ↦ none
    | some r ↦
        let more = expected_in name r.sha256 vs in
        let rest = expected_in name result vs in
        if bytes_eq (FileRecord.kind r) (codes "file") && bytes_eq (FileRecord.path r) name
        then (if is_empty result then more else none)
        else rest
  ]

  unfoldable pub expected_artifact_hash : ArtifactReport V → Bytes → Option Bytes
  unfolding expected_in
  expected_artifact_hash a name =
      if not (bytes_eq (path_base name) name) || is_empty name
      then none
      else expected_in name [] a.manifest

  -- The check of one package against the reviewed manifest.
  unfoldable pub check_hash : (Bytes → Option Bytes) → ArtifactReport V → Bytes → Option Bytes
  unfolding expected_artifact_hash
  check_hash hash a p = elim (hash p) [
    | none ↦ none
    | some before ↦ elim (expected_artifact_hash a (path_base p)) [
      | none ↦ none
      | some expected ↦ if bytes_eq before expected then some before else none
    ]
  ]

  unfoldable pub check_all :
      (Bytes → Option Bytes) → ArtifactReport V → List Bytes → Option (List (Bytes × Bytes))
  unfolding check_hash
  check_all hash a [] = some []
  check_all hash a (p ∷ ps) = elim (check_hash hash a p) [
    | none ↦ none
    | some h ↦ elim (check_all hash a ps) [ none ↦ none | some rest ↦ some ((p, h) ∷ rest) ]
  ]

module _ {V : Type 0} (codec : Codec V) (w : Surroundings V) where
  open w use {config, scan, rounds, previews, reviewed}

  abbrev pub on_second :
      Option ApprovalStore → ApprovalStore → Option (ArtifactReport V × ℕ) → Scanned V
  on_second none after result = failed after
  on_second (some cleared) after none = failed cleared
  on_second (some cleared) after (some (a, status)) = scanned cleared a status

  -- With a token the packages are scanned again; it is cancelled behind that if it is still there.
  abbrev pub on_token : Bytes → ApprovalStore × Option CreateError → Scanned V
  on_token name (made, some e) = failed made
  on_token name (made, none) =
      let (after, result) = scan made in
      on_second (cancel_pending w.cancel_ok name after) after result

  abbrev pub scan_again : Bytes → ArtifactReport V → ApprovalStore → Scanned V
  scan_again mode a s =
      on_token (Entry.name (entry_of a.report approval []))
        (create_inline_token w.dirs_ok w.write_ok mode a.report s)

  abbrev pub on_confirmed : Bytes → ArtifactReport V × ℕ → ApprovalStore → Option Bool → Scanned V
  on_confirmed mode (a, status) s none = waiting
  on_confirmed mode (a, status) s (some false) = scanned s a status
  on_confirmed mode (a, status) s (some true) = scan_again mode a s

  unfoldable pub confirm_scan : ArtifactReport V → ℕ → ApprovalStore → Scanned V
  unfolding cancel_pending
  confirm_scan a status s =
      let mode = classify_inline_decision config (some a.report) in
      if is_empty mode || not w.terminal
      then scanned s a status
      else on_confirmed mode (reviewed (a, status)) s
          (confirm_inline_decision_input mode (previews a) rounds)

  abbrev pub on_first : ApprovalStore × Option (ArtifactReport V × ℕ) → Scanned V
  on_first (after, none) = failed after
  on_first (after, some (a, status)) =
      if status == exit_ok then scanned after a status else confirm_scan a status after

  unfoldable pub scan_packages : ApprovalStore → Scanned V
  unfolding confirm_scan
  scan_packages s = on_first (scan s)

  -- quarantinePackages: whether every archive was accounted for.
  unfoldable pub quarantine_packages : List Bytes → Bool
  quarantine_packages ps = w.quarantine_ok && all (λ p. not (w.is_regular p) || w.move_ok p) ps

  abbrev pub on_gated : List Bytes → ArtifactReport V → ApprovalStore → Gated → Handed V
  on_gated ps a s (stopped asked) = asking_user
  on_gated ps a s (stopped blocked) = exits exit_policy_block s false
  on_gated ps a s (stopped other) = exits exit_artifact_failure s true
  on_gated ps a s (passed final out) =
      let bound = a.bindings ++ bindings_of final ps in
      if w.replace_artifact_ok && w.replace_post_ok
      then handed s (record a { bindings = bound; stripped = out }) bound
      else exits exit_artifact_failure s true

  abbrev pub on_checked :
      List Bytes → ArtifactReport V → ApprovalStore → Option (List (Bytes × Bytes)) → Handed V
  on_checked ps a s none = exits exit_artifact_failure s true
  on_checked ps a s (some verified) = on_gated ps a s (gate_loop w.gateway ps verified a.stripped)

  -- The packages of an allowing report.
  unfoldable pub bind_packages : List Bytes → ArtifactReport V → ApprovalStore → Handed V
  unfolding check_all gate_loop
  bind_packages ps a s = on_checked ps a s (check_all codec w.hash a ps)

  abbrev pub on_scanned : List Bytes → Scanned V → Handed V
  on_scanned ps waiting = asking_user
  on_scanned ps (failed after) = exits exit_artifact_failure after false
  on_scanned ps (scanned after a status) =
      if status == exit_ok
      then bind_packages ps a after
      else exits
          (if quarantine_packages ps && status == exit_policy_block
            then exit_policy_block
            else exit_artifact_failure)
          after true

  -- auditAndBind.
  unfoldable pub audit_and_bind : List Bytes → ApprovalStore → Handed V
  unfolding scan_packages quarantine_packages bind_packages
  audit_and_bind ps s = on_scanned ps (scan_packages s)
