-- ===== src/Audit/Batches/Pieces.antt =====
-- internal/audit/review.go: the pieces of the selected text, with selectedFilePiece, and
-- ValidUTF8OrReplacement of internal/safe.
use prolewatch.Prelude.{
  ℕ, zero, suc, ◌+◌, ◌-◌, min, Bool, true, false, not, ◌&&◌, ◌||◌, List, [], ◌∷◌, ◌++◌, map, Option,
  none, some, ◌==◌, ltb, if◌then◌else◌, length, take, drop, Bytes, bytes_lt, codes, is_empty,
  is_member,
}
use prolewatch.Safe.Content.{Rune, rune, read_rune}

-- internal/safe: ValidUTF8OrReplacement, in which a run of invalid bytes is replaced once. A round
-- takes a byte at least; `bad` says that the byte before was invalid.
abbrev pub replacement : Bytes
replacement = 0xef ∷ 0xbf ∷ 0xbd ∷ []

abbrev pub on_rune : (Bool → Bytes → Bytes) → Bool → Bytes → Rune → Bytes
on_rune loop bad [] r = []
on_rune loop bad (c ∷ s) (rune true rest) =
    take (length (c ∷ s) - length rest) (c ∷ s) ++ loop false rest
on_rune loop bad (c ∷ s) other = (if bad then [] else replacement) ++ loop true s

unfoldable pub to_valid : ℕ → Bool → Bytes → Bytes
unfolding read_rune
to_valid zero bad s = []
to_valid (suc n) bad s = on_rune (λ b rest. to_valid n b rest) bad s (read_rune s)

unfoldable pub valid_utf8_or_replacement : Bytes → Bytes
unfolding to_valid
valid_utf8_or_replacement s = to_valid (length s) false s

pub record SelectedFile : Type 0 where
  pub file : Bytes
  pub byte_offset : ℕ
  pub line_start : ℕ
  pub line_end : ℕ
  pub content : Bytes

-- A file of the inventory.
pub record ScannedFile : Type 0 where
  pub path : Bytes
  pub path_b64 : Bytes
  pub selected_text : Bytes

unfoldable pub count_lines : Bytes → ℕ
count_lines [] = 0
count_lines (c ∷ s) = (if c == b'\n' then 1 else 0) + count_lines s

abbrev pub slice : Bytes → ℕ × ℕ → Bytes
slice text (from, to) = take (to - from) (drop from text)

-- selectedFilePiece.
unfoldable pub selected_file_piece : Bytes → Bytes → ℕ × ℕ → SelectedFile
unfolding count_lines valid_utf8_or_replacement
selected_file_piece path text (from, to) =
    let start = 1 + count_lines (take from text) in
    record {
      file = path;
      byte_offset = from;
      line_start = start;
      line_end = if ltb from to then start + count_lines (slice text (from, to - 1)) else start;
      content = valid_utf8_or_replacement (slice text (from, to));
    }

-- The loop over the offsets; with a size that is not 0 it takes at most as many rounds as bytes.
unfoldable pub cuts : ℕ → ℕ → ℕ → ℕ → List (ℕ × ℕ)
cuts zero size len from = []
cuts (suc n) size len from =
    let rest = cuts n size len (from + size) in
    if ltb from len then (from, min len (from + size)) ∷ rest else []

abbrev pub cuts_of : ℕ → ScannedFile → List (ℕ × ℕ)
cuts_of size r = cuts (length r.selected_text) size (length r.selected_text) 0

unfoldable pub pieces_of : ℕ → ScannedFile → List SelectedFile
unfolding cuts selected_file_piece
pieces_of size r = map (selected_file_piece r.path r.selected_text) (cuts_of size r)

-- What changed is reviewed first, and the rest by path.
abbrev pub comes_before : List Bytes → ScannedFile → ScannedFile → Bool
comes_before changed a b =
    if is_member a.path changed
    then not (is_member b.path changed) || bytes_lt a.path_b64 b.path_b64
    else not (is_member b.path changed) && bytes_lt a.path_b64 b.path_b64

unfoldable pub insert_file : List Bytes → ScannedFile → List ScannedFile → List ScannedFile
insert_file changed r [] = r ∷ []
insert_file changed r (q ∷ qs) =
    let rest = insert_file changed r qs in if comes_before changed q r then q ∷ rest else r ∷ q ∷ qs

-- sort.SliceStable.
unfoldable pub sort_files : List Bytes → List ScannedFile → List ScannedFile
unfolding insert_file
sort_files changed [] = []
sort_files changed (r ∷ rs) = insert_file changed r (sort_files changed rs)

abbrev pub and_more : List SelectedFile → Option (List SelectedFile) → Option (List SelectedFile)
and_more ps none = none
and_more ps (some qs) = some (ps ++ qs)

-- The pieces of all files, as long as their text is within the limit.
unfoldable pub all_pieces : ℕ → ℕ → ℕ → List ScannedFile → Option (List SelectedFile)
unfolding pieces_of
all_pieces size limit total [] = some []
all_pieces size limit total (r ∷ rs) =
    let rest = all_pieces size limit total rs in
    let more =
      and_more (pieces_of size r)
        (all_pieces size limit (total + length (ScannedFile.selected_text r)) rs) in
    if is_empty (ScannedFile.selected_text r)
    then rest
    else if ltb limit (total + length (ScannedFile.selected_text r))
    then none
    else more

abbrev pub no_text : SelectedFile
no_text = record {
  file = codes "<none>";
  byte_offset = 0;
  line_start = 1;
  line_end = 1;
  content = codes "No text selected.";
}

abbrev pub or_no_text : List SelectedFile → List SelectedFile
or_no_text [] = no_text ∷ []
or_no_text (p ∷ ps) = p ∷ ps
