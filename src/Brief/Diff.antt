-- ===== src/Brief/Diff.antt =====
-- internal/brief/diff.go: unifiedDiffBehaviorText, the text of a patch with its removed lines blank.
-- Whether a name is that of a patch (unifiedDiffPath) is the flag `is_patch`.
pub mod Header
pub mod Lines
pub mod Masked
pub mod Hunks
pub mod Plain
pub mod Steps
use prolewatch.Prelude.{
  ℕ, ◌+◌, ◌-◌, Bool, true, false, not, ◌&&◌, ◌||◌, List, [], ◌∷◌, ◌++◌, map, Option, none, some,
  ltb, ◌==◌, if◌then◌else◌, length, Bytes, bytes_eq, codes, has_prefix, first_is,
}
use Header.{hunk_counts}
use Lines.{Line, lines_of, join_lines}

-- The variables of the loop over the lines.
pub record Scan : Type 0 where
  pub old_remaining : ℕ
  pub new_remaining : ℕ
  pub in_hunk : Bool
  pub last_hunk_data : Bool
  pub old_header : Bool
  pub header_pair : Bool
  pub pending_hunk : Bool
  pub saw_hunk : Bool

abbrev pub initial : Scan
initial = record {
  old_remaining = 0;
  new_remaining = 0;
  in_hunk = false;
  last_hunk_data = false;
  old_header = false;
  header_pair = false;
  pending_hunk = false;
  saw_hunk = false;
}

abbrev pub no_newline : Bytes
no_newline = codes "\\ No newline at end of file"

-- A line without the carriage return before its line feed.
abbrev pub content_of : Bytes → Bytes
content_of [] = []
content_of (c ∷ []) = if c == b'\r' then [] else c ∷ []
content_of (c ∷ d ∷ s) = c ∷ content_of (d ∷ s)

-- What a line does: give the patch up, or go on, with the line blank (`true`) or as it stands.
pub data Step : Type 0 where
  give_up : Step
  go_on : Bool → Scan → Step

-- A line inside a hunk that still wants lines, by its first byte.
unfoldable pub hunk_line : Scan → Bytes → Step
hunk_line s [] = give_up
hunk_line s (c ∷ _) =
    if c == b' '
    then if s.old_remaining == 0 || s.new_remaining == 0
      then give_up
      else go_on false (record s {
        old_remaining = s.old_remaining - 1;
        new_remaining = s.new_remaining - 1;
        last_hunk_data = true;
      })
    else if c == b'-'
    then if s.old_remaining == 0
      then give_up
      else go_on true (record s { old_remaining = s.old_remaining - 1; last_hunk_data = true })
    else if c == b'+'
    then if s.new_remaining == 0
      then give_up
      else go_on false (record s { new_remaining = s.new_remaining - 1; last_hunk_data = true })
    else give_up

-- The hunk header `line`, which starts with `@@`.
unfoldable pub open_hunk : Scan → Bytes → Step
open_hunk s line = elim (hunk_counts line) [
  | none ↦ give_up
  | some (old, new) ↦
      if old == 0 && new == 0
      then give_up
      else go_on false (record s {
        old_remaining = old;
        new_remaining = new;
        in_hunk = true;
        last_hunk_data = false;
        pending_hunk = false;
        saw_hunk = true;
      })
]

-- The switch on a line outside a hunk.
unfoldable pub outside_line : Scan → Bytes → Step
unfolding open_hunk
outside_line s line =
    if has_prefix (codes "@@@") line
      || has_prefix (codes "diff --combined ") line
      || has_prefix (codes "diff --cc ") line
    then give_up
    else if has_prefix (codes "@@") line
    then if s.header_pair then open_hunk s line else give_up
    else if has_prefix (codes "--- ") line
    then if s.old_header || s.pending_hunk
      then give_up
      else go_on false (record s { old_header = true; header_pair = false })
    else if has_prefix (codes "+++ ") line
    then if s.old_header
      then go_on false (record s { old_header = false; header_pair = true; pending_hunk = true })
      else give_up
    else if s.old_header
    then give_up
    else if bytes_eq line no_newline
        || bytes_eq line (codes "GIT binary patch")
        || has_prefix (codes "Binary files ") line
    then give_up
    else if first_is b'-' line || first_is b'+' line || first_is b' ' line
    then give_up
    else go_on false s

abbrev pub exhausted : Scan → Bool
exhausted s = s.old_remaining == 0 && s.new_remaining == 0

unfoldable pub step : Scan → Bytes → Step
unfolding hunk_line outside_line
step s line =
    if s.in_hunk && bytes_eq line no_newline
    then if s.last_hunk_data then go_on false (record s { last_hunk_data = false }) else give_up
    else if s.in_hunk && not (exhausted s)
    then hunk_line s line
    else if s.in_hunk
    then outside_line (record s { in_hunk = false; last_hunk_data = false }) line
    else outside_line s line

abbrev pub blank : Bytes → Bytes
blank = map (λ _. b' ')

-- The test behind the loop: what is still open makes the patch ambiguous.
abbrev pub is_complete : Scan → Bool
is_complete s =
    not (s.old_header || s.pending_hunk || not s.saw_hunk || (s.in_hunk && not (exhausted s)))

abbrev pub cons_masked : Bool → Line → Option (List Line) → Option (List Line)
cons_masked masked l none = none
cons_masked masked l (some ls) = some ((if masked then record l { raw = blank l.raw } else l) ∷ ls)

-- The loop; `none` is the early return of the text as it is.
unfoldable pub mask_lines : Scan → List Line → Option (List Line)
mask_lines s [] = if is_complete s then some [] else none
mask_lines s (l ∷ ls) = elim (step s (content_of l.raw)) [
  | give_up ↦ none
  | go_on masked next ↦ cons_masked masked l (mask_lines next ls)
]

-- The text to scan for behaviour, and whether it is the masked view.
unfoldable pub behavior_text : Bool → Bytes → Bytes × Bool
unfolding mask_lines lines_of
behavior_text is_patch text =
    if not is_patch || length text == 0
    then (text, false)
    else elim (mask_lines initial (lines_of text)) [
      | none ↦ (text, false)
      | some ls ↦ (join_lines ls, true)
    ]
