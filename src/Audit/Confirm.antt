-- ===== src/Audit/Confirm.antt =====
-- internal/audit/approvals.go: the decision that is asked for in the terminal, classifyInlineDecision,
-- confirmInlineDecisionInput and createInlineToken. What the user types, and what an AI review that
-- was asked for gives, comes from outside round by round; the text on the screen is left out.
pub mod Answered
use prolewatch.Prelude.{
  ℕ, Bool, true, false, not, ◌&&◌, ◌||◌, List, [], ◌∷◌, ◌++◌, Option, none, some, ◌==◌,
  if◌then◌else◌, length, any, all, Bytes, bytes_eq, codes, is_empty, is_member, to_lower,
  trim_space,
}
use prolewatch.Safe.Prompt.{Event, Read, got, error, waiting, read_choice}
use prolewatch.Audit.Types.{
  Report, ReviewConfig, Verdict, ReviewFinding, allow, block, mode_ai, approval,
}
use prolewatch.Audit.Severity.{severity_at_least, confidence_at_least}
use prolewatch.Audit.Evaluate.Review.{prompt_injection}
use prolewatch.Audit.Approvals.{ApprovalStore}
use prolewatch.Audit.Approvals.Create.{create, CreateError}

abbrev pub inline_confidence : Bytes
inline_confidence = codes "confidence"

abbrev pub inline_override : Bytes
inline_override = codes "override"

-- verdictsHaveCoverageNotes.
abbrev pub verdicts_have_coverage_notes : List Verdict → Bool
verdicts_have_coverage_notes = any (λ v. not (length (Verdict.coverage_notes v) == 0))

-- What the loop over the verdicts lets pass.
unfoldable pub verdict_allows : ReviewConfig → Verdict → Bool
verdict_allows cfg v =
    bytes_eq v.verdict allow
    && not (
        any (λ f. severity_at_least (ReviewFinding.severity f) cfg.manual_review_minimum_severity)
          v.findings)

abbrev pub is_below : ReviewConfig → Verdict → Bool
is_below cfg v = not (confidence_at_least v.confidence cfg.minimum_confidence)

unfoldable pub confidence_only_block : ReviewConfig → Report → Bool
confidence_only_block cfg r =
    bytes_eq r.reviewer.mode mode_ai
    && is_empty r.reviewer.error
    && not (length r.reviewer.verdicts == 0)
    && not (prompt_injection r.reviewer.verdicts)
    && not (verdicts_have_coverage_notes r.reviewer.verdicts)
    && all (verdict_allows cfg) r.reviewer.verdicts
    && any (is_below cfg) r.reviewer.verdicts

unfoldable pub classify_inline_decision : ReviewConfig → Option Report → Bytes
classify_inline_decision cfg none = []
classify_inline_decision cfg (some r) =
    if not (bytes_eq r.decision block)
    then []
    else if r.approval_eligible && confidence_only_block cfg r
    then inline_confidence
    else if r.approval_eligible
    then inline_override
    else []

-- Which of the previews there are: inlineFindingPreviews.
pub record Previews : Type 0 where
  pub decision : Bool
  pub all : Bool
  pub review : Bool

-- What the user gives in a round: keys at a terminal, or a line of another reader.
pub data Input : Type 0 where
  typed : List Event → Input
  line : Bytes → Input

-- A round: the input and, for an AI review that is asked for in it, whether the prompt stays and the
-- previews that a refresh gives, if there is a refresh.
pub record Round : Type 0 where
  pub input : Input
  pub keep_prompt : Bool
  pub refreshed : Option Previews

abbrev pub menu : Previews → Bytes
menu p =
    codes "yn"
    ++ (if p.decision then b'i' ∷ [] else [])
    ++ (if p.all then b'a' ∷ [] else [])
    ++ (if p.review then b'r' ∷ [] else [])

-- The choice that a line stands for.
unfoldable pub line_choice : Bytes → ℕ
line_choice text =
    let answer = to_lower (trim_space text) in
    if is_member answer (codes "y" ∷ codes "yes" ∷ [])
    then b'y'
    else if is_member answer (codes "i" ∷ codes "inspect" ∷ [])
    then b'i'
    else if is_member answer (codes "a" ∷ codes "all" ∷ [])
    then b'a'
    else if is_member answer (codes "r" ∷ codes "review" ∷ [])
    then b'r'
    else b'n'

unfoldable pub choice_of : Previews → Input → Read ℕ
unfolding line_choice
choice_of p (typed es) = read_choice false (menu p) b'n' es
choice_of p (line text) = got (line_choice text)

-- How a round ends: with the answer, or with the previews of the next round.
pub data Turn : Type 0 where
  answered : Bool → Turn
  again : Previews → Turn
  asking : Turn

abbrev without_review : Previews → Previews
without_review p = record p { review = false }

abbrev after_review : Previews → Option Previews → Previews
after_review p none = without_review p
after_review p (some q) = q

abbrev pub act : Previews → Round → Read ℕ → Turn
act p r waiting = asking
act p r (error e) = answered false
act p r (got c) =
    if c == b'y'
    then answered true
    else if c == b'i'
    then (if p.decision then again p else answered false)
    else if c == b'a'
    then (if p.all then again p else answered false)
    else if c == b'r'
    then (if p.review && r.keep_prompt then again (after_review p r.refreshed) else answered false)
    else answered false

unfoldable pub turn : Previews → Round → Turn
unfolding choice_of
turn p r = act p r (choice_of p r.input)

-- The loop; `none` while it waits for a round.
unfoldable pub confirm_loop : Previews → List Round → Option Bool
unfolding turn
confirm_loop p [] = none
confirm_loop p (r ∷ rs) = elim (turn p r) [
  | answered b ↦ some b
  | again q ↦ confirm_loop q rs
  | asking ↦ none
]

-- confirmInlineDecisionInput.
unfoldable pub confirm_inline_decision_input : Bytes → Previews → List Round → Option Bool
confirm_inline_decision_input mode p rs =
    if bytes_eq mode inline_confidence || bytes_eq mode inline_override
    then confirm_loop p rs
    else some false

-- createInlineToken.
unfoldable pub create_inline_token :
    Bool → Bool → Bytes → Report → ApprovalStore → ApprovalStore × Option CreateError
create_inline_token dirs_ok write_ok mode r = create dirs_ok write_ok r approval (
    if bytes_eq mode inline_override
    then codes "inline explicit OVERRIDE"
    else codes "inline confidence approval")
