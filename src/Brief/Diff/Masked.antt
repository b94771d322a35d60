-- ===== src/Brief/Diff/Masked.antt =====
-- unifiedDiffBehaviorText: a text that counts as masked is a patch, and its view follows the hunks.
use prolewatch.Prelude.{
  ℕ, suc, ◌≡◌, refl, sym, ap, ◌∙◌, Bool, true, false, not, ◌||◌, List, [], ◌∷◌, ◌++◌, ◌==◌, Option,
  none, arith, Bytes, length, length-append, Bool-cases, Option-cases, inl, inr,
}
use prolewatch.Brief.Diff.Lines.{Line, lines_of, join_lines, line_end, join_lines-lines_of}
use prolewatch.Brief.Diff.Hunks.{
  View, done, outside, header, closed, context, removed, added, unended, mask_lines-View,
}
use prolewatch.Brief.Diff.{initial, blank, mask_lines, behavior_text}

length-blank : (s : Bytes) → length (blank s) ≡ length s
length-blank [] = refl
length-blank (c ∷ s) = ap suc (length-blank s)

length-cons :
    (l : Line) (raw : Bytes) (ls ms : List Line)
    → length raw ≡ length l.raw
    → length (join_lines ms) ≡ length (join_lines ls)
    → length (join_lines (record l { raw = raw } ∷ ms)) ≡ length (join_lines (l ∷ ls))
length-cons l raw ls ms same h = ground (
  arith,
  length-append l.raw (line_end l.ended ++ join_lines ls),
  length-append raw (line_end l.ended ++ join_lines ms),
  length-append (line_end l.ended) (join_lines ls),
  length-append (line_end l.ended) (join_lines ms),
)

View-length :
    {m : Option (ℕ × ℕ)} {ls ms : List Line}
    → View m ls ms
    → length (join_lines ms) ≡ length (join_lines ls)
View-length done = refl
View-length (closed v) = View-length v
View-length (outside {l} {ls} {ms} _ v) = length-cons l l.raw ls ms refl (View-length v)
View-length (header {l = l} {ls} {ms} _ v) = length-cons l l.raw ls ms refl (View-length v)
View-length (context {l = l} {ls} {ms} _ v) = length-cons l l.raw ls ms refl (View-length v)
View-length (added {l = l} {ls} {ms} _ v) = length-cons l l.raw ls ms refl (View-length v)
View-length (unended {l = l} {ls} {ms} _ v) = length-cons l l.raw ls ms refl (View-length v)
View-length (removed {l = l} {ls} {ms} _ v) =
    length-cons l (blank l.raw) ls ms (length-blank l.raw) (View-length v)

-- The lines of `text` with exactly the removed lines of its hunks blank, written out as `view`.
pub record IsView (text view : Bytes) : Type 0 where
  pub shown : List Line
  pub follows : View none (lines_of text) shown
  pub written : view ≡ join_lines shown

-- If the text of a file counts as masked, then the file is a patch, its lines are lines outside the
-- hunks, hunk headers and the lines of each hunk, of which there are as many old and new ones as its
-- header says, with marks of a missing line feed between them, and the view is the text in which
-- exactly the removed lines of the hunks are blank. The view is as long as the text.
pub behavior_text-IsView :
    (is_patch : Bool) (text view : Bytes)
    → behavior_text is_patch text ≡ (view, true)
    → (is_patch ≡ true) × IsView text view × (length view ≡ length text)
unfolding behavior_text
behavior_text-IsView is_patch text view h = elim (Bool-cases (not is_patch || length text == 0)) [
  | inl skipped ↦ absurd (ground arith)
  | inr read ↦ elim (Option-cases (mask_lines initial (lines_of text))) [
    | inl none_left ↦ absurd (differ (ap (λ x. x.1) (rw (read, none_left) at h)))
    | inr (ms, found) ↦
        let written : join_lines ms ≡ view = ap (λ x. x.0) (rw (read, found) at h) in
        let follows = mask_lines-View initial (lines_of text) ms found in
        (
          patch_name is_patch read,
          record { shown = ms; follows = follows; written = sym written },
          sym (ap length written) ∙ (View-length follows ∙ ap length (join_lines-lines_of text)),
        )
  ]
]
  where
    differ : ¬ (false ≡ true)
    differ e = cc

    patch_name : (b : Bool) → (not b || length text == 0) ≡ false → b ≡ true
    patch_name true e = refl
    patch_name false e = absurd (cc)
