-- ===== src/Tests/Prompts.antt =====
-- Examples for the terminal prompts of internal/safe and internal/audit.
use prolewatch.Prelude.{
  ◌≡◌, refl, true, false, [], ◌∷◌, some, none, codes, IsIn, bytes_eq, bytes_lt, trim_space, List,
}
use prolewatch.Safe.Prompt.{
  Event, key, interrupted, got, valid_choices, choice_key, choice_loop, read_choice,
  valid_line_choices, line_key, line_loop, read_choice_or_line, read_yes_no,
}
use prolewatch.Safe.Prompt.Line.{IsAnswer, read_choice_or_line-IsAnswer}
use prolewatch.Brief.PackageBase.{valid_package_base}
use prolewatch.Safe.Digest.{valid_hex_digest}
use prolewatch.Audit.Types.{block}
use prolewatch.Audit.Approvals.Create.{create, report_can_authorize, valid_report_id, insert_entry}
use prolewatch.Audit.Confirm.{
  classify_inline_decision, confidence_only_block, Previews, Round, typed, line, line_choice,
  choice_of, turn, confirm_loop, confirm_inline_decision_input, create_inline_token,
  inline_override,
}
use prolewatch.Audit.Confirm.Answered.{IsYes, confirm_inline_decision_input-IsYes}
use prolewatch.Tests.Policies.{config, report, empty_store}

abbrev keys : List Event
keys = key b'x' ∷ interrupted ∷ key b'Y' ∷ key b'n' ∷ []

-- The second 5 does not fit, and a backspace removes the first.
abbrev line_keys : List Event
line_keys = key b'4' ∷ key b'5' ∷ key 8 ∷ key b'2' ∷ key b'5' ∷ key b'\r' ∷ []

read_choice_or_line-IsAnswer_example :
    IsAnswer (codes "iq") b'q' (codes "0123456789") 2 (codes "42")
unfolding read_choice_or_line valid_line_choices valid_choices line_loop line_key
read_choice_or_line-IsAnswer_example =
    read_choice_or_line-IsAnswer (codes "iq") b'q' (codes "0123456789") 2 true (codes "42")
      line_keys refl

abbrev previews : Previews
previews = record { decision = true; all = true; review = true }

-- The findings are inspected, an AI review runs, and the answer is yes.
abbrev rounds : List Round
rounds =
    record { input = typed (key b'i' ∷ []); keep_prompt = true; refreshed = none }
    ∷ record { input = line (codes " review "); keep_prompt = true; refreshed = some previews }
    ∷ record { input = typed keys; keep_prompt = true; refreshed = none }
    ∷ []

confirm_inline_decision_input-IsYes_example :
    (report.decision ≡ block)
    × (report.approval_eligible ≡ true)
    × ((s : Round) × IsIn s rounds × IsYes s.input)
unfolding confirm_inline_decision_input classify_inline_decision confidence_only_block confirm_loop
    turn choice_of line_choice read_choice valid_choices choice_loop choice_key trim_space bytes_eq
confirm_inline_decision_input-IsYes_example =
    confirm_inline_decision_input-IsYes config report previews rounds refl

yes_test : read_yes_no false keys ≡ got true
unfolding read_yes_no read_choice valid_choices choice_loop choice_key
yes_test = refl

inline_token_test : (create_inline_token true true inline_override report empty_store).1 ≡ none
unfolding create_inline_token create report_can_authorize valid_report_id valid_package_base
    valid_hex_digest insert_entry bytes_eq bytes_lt
inline_token_test = refl
