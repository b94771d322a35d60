-- ===== src/Audit/Evaluate/Review.antt =====
-- internal/audit/policy.go: what evaluate takes from the model's review, and the phases in which it
-- is asked.
use prolewatch.Prelude.{
  ℕ, Bool, true, false, not, ◌&&◌, ◌||◌, List, [], ◌∷◌, ◌++◌, map, Option, none, some, ◌==◌,
  if◌then◌else◌, length, any, Bytes, bytes_eq, codes, is_empty, trim_space, is_member,
}
use prolewatch.Brief.Findings.{Finding}
use prolewatch.Audit.Types.{Verdict, ReviewFinding, CarriedDecision, ReviewConfig, allow, mode_ai}
use prolewatch.Audit.Severity.{severity_at_least, confidence_at_least}

-- Reviewer.Review: an error with its text, or verdicts, with whether the provider's metadata is that
-- of the compatibility probe.
pub data ReviewAnswer : Type 0 where
  failed : Bytes → ReviewAnswer
  answered : Bool → List Verdict → ReviewAnswer

unfoldable pub reviewed_error : ReviewAnswer → Bytes
reviewed_error (failed text) = text
reviewed_error (answered false vs) =
    codes "provider metadata changed between compatibility probe and review"
reviewed_error (answered true []) = codes "provider review returned no verdict"
reviewed_error (answered true (v ∷ vs)) = []

unfoldable pub reviewed_verdicts : ReviewAnswer → List Verdict
reviewed_verdicts (failed text) = []
reviewed_verdicts (answered false vs) = []
reviewed_verdicts (answered true vs) = vs

-- joinDegradations of two texts.
unfoldable pub join_degradations : Bytes → Bytes → Bytes
join_degradations a b =
    let s = trim_space a in
    let t = trim_space b in
    if is_empty s then t else if is_empty t then s else s ++ (codes "; " ++ t)

-- The name of a phase in review.phases; an unknown phase has none.
unfoldable pub phase_name : Bytes → Bytes
phase_name phase =
    if bytes_eq phase (codes "pre")
    then codes "recipe"
    else if bytes_eq phase (codes "post")
    then codes "sources"
    else if bytes_eq phase (codes "artifact")
    then codes "artifact"
    else []

-- Config.ReviewPhaseEnabled.
unfoldable pub phase_enabled : ReviewConfig → Bytes → Bool
unfolding phase_name
phase_enabled cfg phase = is_member (phase_name phase) cfg.phases

unfoldable pub skipped_text : ReviewConfig → Bytes → Bool → Bytes
unfolding phase_enabled phase_name
skipped_text cfg phase force =
    if bytes_eq cfg.mode mode_ai && not force && not (phase_enabled cfg phase)
    then phase_name phase
      ++ (codes " phase is not included in AI review "
          ++ (0xc2 ∷ 0xb7 ∷ codes " set review.phases to add it"))
    else []

-- A verdict that stands against the package.
unfoldable pub verdict_blocks : ReviewConfig → Verdict → Bool
verdict_blocks cfg v =
    not (bytes_eq v.verdict allow)
    || not (confidence_at_least v.confidence cfg.minimum_confidence)
    || v.prompt_injection_detected
    || not (length v.coverage_notes == 0)
    || any (λ f. severity_at_least (ReviewFinding.severity f) cfg.manual_review_minimum_severity)
        v.findings

abbrev pub model_blocks : ReviewConfig → List Verdict → Bool
model_blocks cfg = any (verdict_blocks cfg)

-- verdictsHavePromptInjection.
abbrev pub prompt_injection : List Verdict → Bool
prompt_injection = any (λ v. Verdict.prompt_injection_detected v)

abbrev same_line : Option ℕ → Option ℕ → Bool
same_line none none = true
same_line (some m) (some n) = m == n
same_line _ _ = false

-- Equality of the keys that contentKeyForFinding makes.
unfoldable pub same_content : Finding → Finding → Bool
same_content f g =
    bytes_eq f.severity g.severity
    && bytes_eq f.category g.category
    && bytes_eq f.file g.file
    && bytes_eq f.evidence g.evidence
    && bytes_eq f.rationale g.rationale
    && same_line f.line g.line

abbrev pub as_finding : ReviewFinding → Finding
as_finding f = record {
  source = codes "ai";
  severity = f.severity;
  category = f.category;
  file = f.file;
  line = f.line;
  evidence = f.evidence;
  rationale = f.rationale;
  rule_id = codes "ai-review";
  hard_block = false;
}

-- The findings that no earlier one repeats; `seen` holds those met so far.
unfoldable pub unseen : List Finding → List Finding → List Finding
unfolding same_content
unseen seen [] = []
unseen seen (f ∷ fs) =
    let rest = f ∷ unseen (f ∷ seen) fs in
    let skip = unseen seen fs in if any (same_content f) seen then skip else rest

abbrev all_findings : List Verdict → List Finding
all_findings [] = []
all_findings (v ∷ vs) = map as_finding v.findings ++ all_findings vs

unfoldable pub model_findings : List Finding → List Verdict → List Finding
unfolding unseen
model_findings found verdicts = unseen found (all_findings verdicts)

-- carriedFindingIDSet.
abbrev pub carried_ids : Option CarriedDecision → List Bytes
carried_ids none = []
carried_ids (some c) = map (λ b. b.finding_id) c.findings
