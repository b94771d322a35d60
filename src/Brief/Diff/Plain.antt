-- ===== src/Brief/Diff/Plain.antt =====
-- A patch of one file with plain hunks is masked.
use prolewatch.Prelude.{
  ℕ, ◌≡◌, refl, true, false, ◌&&◌, List, [], ◌∷◌, some, ◌==◌, arith, Bytes, codes, has_prefix,
  length,
}
use prolewatch.Brief.Diff.Header.{hunk_counts}
use prolewatch.Brief.Diff.Lines.{Line, lines_of, join_lines}
use prolewatch.Brief.Diff.{
  Scan, initial, go_on, outside_line, step, content_of, mask_lines, behavior_text,
}
use prolewatch.Brief.Diff.Steps.{
  Hunks, done, header, opened, open_line, mask_lines-step, mask_lines-Hunks,
}

-- The text of a patch of one file: the two names, and hunks of which there is one at least.
pub record IsPatch (text : Bytes) (old_name new_name : Line) (ls ms : List Line) : Type 0 where
  pub lines : lines_of text ≡ (old_name ∷ new_name ∷ ls)
  pub minus : has_prefix (codes "--- ") (content_of old_name.raw) ≡ true
  pub plus : has_prefix (codes "+++ ") (content_of new_name.raw) ≡ true
  pub some_hunk : (length ls == 0) ≡ false
  pub hunks : Hunks 0 0 ls ms

minus_prefix :
    (line : Bytes)
    → has_prefix (codes "--- ") line ≡ true
    → (has_prefix (codes "@@@") line ≡ false)
      × (has_prefix (codes "diff --combined ") line ≡ false)
      × (has_prefix (codes "diff --cc ") line ≡ false)
      × (has_prefix (codes "@@") line ≡ false)
unfolding has_prefix
minus_prefix [] h = absurd (cc)
minus_prefix (x ∷ s) h = ground arith

plus_prefix :
    (line : Bytes)
    → has_prefix (codes "+++ ") line ≡ true
    → (has_prefix (codes "@@@") line ≡ false)
      × (has_prefix (codes "diff --combined ") line ≡ false)
      × (has_prefix (codes "diff --cc ") line ≡ false)
      × (has_prefix (codes "@@") line ≡ false)
      × (has_prefix (codes "--- ") line ≡ false)
unfolding has_prefix
plus_prefix [] h = absurd (cc)
plus_prefix (x ∷ s) h = ground arith

abbrev old_named : Scan
old_named = record initial { old_header = true; header_pair = false }

abbrev new_named : Scan
new_named = record old_named { old_header = false; header_pair = true; pending_hunk = true }

step-minus :
    (line : Bytes)
    → has_prefix (codes "--- ") line ≡ true
    → step initial line ≡ go_on false old_named
unfolding step outside_line
step-minus line h = let (a, b, c, d) = minus_prefix line h in ground arith

step-plus :
    (line : Bytes)
    → has_prefix (codes "+++ ") line ≡ true
    → step old_named line ≡ go_on false new_named
unfolding step outside_line
step-plus line h = let (a, b, c, d, e) = plus_prefix line h in ground arith

step-first :
    (line : Bytes) (old new : ℕ)
    → has_prefix (codes "@@ ") line ≡ true
    → hunk_counts line ≡ some (old, new)
    → (old == 0 && new == 0) ≡ false
    → step new_named line ≡ go_on false (opened new_named old new)
unfolding step
step-first line old new h counts some_lines =
    open_line new_named line old new refl h counts some_lines

mask_lines-first :
    (ls ms : List Line)
    → (length ls == 0) ≡ false
    → Hunks 0 0 ls ms
    → mask_lines new_named ls ≡ some ms
mask_lines-first [] ms n done = absurd (cc)
mask_lines-first ls ms n
      (header {old} {new} {l} {ls = rest} {ms = shown} h counts some_lines hunks) =
    mask_lines-step new_named (opened new_named old new) false l rest shown
      (step-first (content_of l.raw) old new h counts some_lines)
      (mask_lines-Hunks (opened new_named old new)
        (record {
          inside = refl;
          old_left = refl;
          new_left = refl;
          pair = refl;
          no_old = refl;
          not_pending = refl;
          saw = refl;
        })
        hunks)

not_empty :
    (s : Bytes) {l : Line} {rest : List Line} → lines_of s ≡ (l ∷ rest) → (length s == 0) ≡ false
unfolding lines_of
not_empty [] e = absurd (cc)
not_empty (c ∷ s) e = ground arith

-- A patch of one file, with its two names and then hunks, each with a header and the old and new
-- lines that the header announces, is masked: the view is the text with exactly the removed lines
-- of the hunks blank.
pub behavior_text-Hunks :
    (text : Bytes) (old_name new_name : Line) (ls ms : List Line)
    → IsPatch text old_name new_name ls ms
    → behavior_text true text ≡ (join_lines (old_name ∷ new_name ∷ ms), true)
unfolding behavior_text
behavior_text-Hunks text old_name new_name ls ms p =
    let masked =
      mask_lines-step initial old_named false old_name (new_name ∷ ls) (new_name ∷ ms)
        (step-minus (content_of old_name.raw) p.minus)
        (mask_lines-step old_named new_named false new_name ls ms
          (step-plus (content_of new_name.raw) p.plus)
          (mask_lines-first ls ms p.some_hunk p.hunks)) in
    let lines = p.lines in rw (not_empty text lines, lines, masked) refl
