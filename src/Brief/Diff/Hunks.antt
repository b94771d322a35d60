-- ===== src/Brief/Diff/Hunks.antt =====
-- The masked view of a patch follows the grammar of unified diffs.
use prolewatch.Prelude.{
  if◌then◌else◌, ℕ, suc, ◌≡◌, ◌⊎◌, inl, inr, refl, sym, ap, Bool, true, false, not, ◌||◌, List, [],
  ◌∷◌, Option, none, some, some_injective, arith, Bytes, bytes_eq, codes, first_is, has_prefix,
  Bool-cases, Option-cases,
}
use mathlib.Core.Path.{subst}
use prolewatch.Brief.Diff.Header.{hunk_counts}
use prolewatch.Brief.Diff.Lines.{Line}
use prolewatch.Brief.Diff.{
  Scan, Step, give_up, go_on, hunk_line, open_hunk, outside_line, is_complete, step, content_of,
  blank, no_newline, cons_masked, mask_lines,
}

-- A line outside the hunks: a file header, or what looks like no part of a hunk.
abbrev pub is_outside : Bytes → Bool
is_outside line =
    has_prefix (codes "--- ") line
    || has_prefix (codes "+++ ") line
    || not (
        first_is b'-' line
        || first_is b'+' line
        || first_is b' ' line
        || has_prefix (codes "@@") line)

-- The lines of a patch and their masked form, outside a hunk or with the old and new lines that a hunk
-- still wants: a header says how many follow, and exactly the removed lines are blank.
pub data View : Option (ℕ × ℕ) → List Line → List Line → Type 0 where
  done : View none [] []
  outside :
      {l : Line} {ls ms : List Line}
      → is_outside (content_of l.raw) ≡ true
      → View none ls ms
      → View none (l ∷ ls) (l ∷ ms)
  header :
      {old new : ℕ} {l : Line} {ls ms : List Line}
      → hunk_counts (content_of l.raw) ≡ some (old, new)
      → View (some (old, new)) ls ms
      → View none (l ∷ ls) (l ∷ ms)
  closed : {ls ms : List Line} → View none ls ms → View (some (0, 0)) ls ms
  context :
      {old new : ℕ} {l : Line} {ls ms : List Line}
      → first_is b' ' (content_of l.raw) ≡ true
      → View (some (old, new)) ls ms
      → View (some (suc old, suc new)) (l ∷ ls) (l ∷ ms)
  removed :
      {old new : ℕ} {l : Line} {ls ms : List Line}
      → first_is b'-' (content_of l.raw) ≡ true
      → View (some (old, new)) ls ms
      → View (some (suc old, new)) (l ∷ ls) (record l { raw = blank l.raw } ∷ ms)
  added :
      {old new : ℕ} {l : Line} {ls ms : List Line}
      → first_is b'+' (content_of l.raw) ≡ true
      → View (some (old, new)) ls ms
      → View (some (old, suc new)) (l ∷ ls) (l ∷ ms)
  unended :
      {old new : ℕ} {l : Line} {ls ms : List Line}
      → bytes_eq (content_of l.raw) no_newline ≡ true
      → View (some (old, new)) ls ms
      → View (some (old, new)) (l ∷ ls) (l ∷ ms)

-- What the loop is in.
abbrev pub mode : Scan → Option (ℕ × ℕ)
mode s = if s.in_hunk then some (s.old_remaining, s.new_remaining) else none

abbrev shown : Bool → Line → Line
shown masked l = if masked then record l { raw = blank l.raw } else l

-- A line outside a hunk is kept, and is a header or no part of a hunk.
outside_line-moves :
    (s : Scan) (line : Bytes) (masked : Bool) (next : Scan)
    → s.in_hunk ≡ false
    → outside_line s line ≡ go_on masked next
    → (masked ≡ false)
      × (((is_outside line ≡ true) × (next.in_hunk ≡ false))
          ⊎ ((hunk_counts line ≡ some (next.old_remaining, next.new_remaining))
              × (next.in_hunk ≡ true)))
unfolding outside_line open_hunk
outside_line-moves s line masked next i h = elim (Option-cases (hunk_counts line)) [
  | inl none' ↦ ground arith
  | inr ((old, new), counts) ↦ ground arith
]

hunk_line-moves :
    (s : Scan) (line : Bytes) (masked : Bool) (next : Scan)
    → s.in_hunk ≡ true
    → hunk_line s line ≡ go_on masked next
    → (next.in_hunk ≡ true)
      × (((masked ≡ false)
            × (first_is b' ' line ≡ true)
            × (s.old_remaining ≡ suc next.old_remaining)
            × (s.new_remaining ≡ suc next.new_remaining))
          ⊎ (((masked ≡ true)
                × (first_is b'-' line ≡ true)
                × (s.old_remaining ≡ suc next.old_remaining)
                × (s.new_remaining ≡ next.new_remaining))
              ⊎ ((masked ≡ false)
                  × (first_is b'+' line ≡ true)
                  × (s.old_remaining ≡ next.old_remaining)
                  × (s.new_remaining ≡ suc next.new_remaining))))
unfolding hunk_line
hunk_line-moves s [] masked next i h = absurd (cc)
hunk_line-moves s (c ∷ line) masked next i h = ground arith

outside-View :
    (t : Scan) (l : Line) (masked : Bool) (next : Scan) (ls ms : List Line)
    → t.in_hunk ≡ false
    → outside_line t (content_of l.raw) ≡ go_on masked next
    → View (mode next) ls ms
    → View none (l ∷ ls) (shown masked l ∷ ms)
outside-View t l masked next ls ms i h v =
    let (kept, what) = outside_line-moves t (content_of l.raw) masked next i h in
    elim what [
      | inl (plain, o) ↦ rw kept (outside plain (subst (λ b. View b ls ms) (rw o refl) v))
      | inr (counts, o) ↦ rw kept (header counts (subst (λ b. View b ls ms) (rw o refl) v))
    ]

hunk-View :
    (s : Scan) (l : Line) (masked : Bool) (next : Scan) (ls ms : List Line)
    → s.in_hunk ≡ true
    → hunk_line s (content_of l.raw) ≡ go_on masked next
    → View (mode next) ls ms
    → View (some (s.old_remaining, s.new_remaining)) (l ∷ ls) (shown masked l ∷ ms)
hunk-View s l masked next ls ms i h v =
    let (o, what) = hunk_line-moves s (content_of l.raw) masked next i h in
    let inside = subst (λ b. View b ls ms) (rw o refl) v in
    elim what [
      | inl (k, f, a, b) ↦ rw (k, a, b) (context f inside)
      | inr (inl (k, f, a, b)) ↦ rw (k, a, b) (removed f inside)
      | inr (inr (k, f, a, b)) ↦ rw (k, a, b) (added f inside)
    ]

-- The scan behind a hunk whose lines are all there.
abbrev closed_scan : Scan → Scan
closed_scan s = record s { in_hunk = false; last_hunk_data = false }

step-cases :
    (s : Scan) (line : Bytes) (masked : Bool) (next : Scan)
    → step s line ≡ go_on masked next
    → ((s.in_hunk ≡ false) × (outside_line s line ≡ go_on masked next))
      ⊎ (((s.in_hunk ≡ true)
            × (bytes_eq line no_newline ≡ true)
            × (masked ≡ false)
            × (next.in_hunk ≡ true)
            × (next.old_remaining ≡ s.old_remaining)
            × (next.new_remaining ≡ s.new_remaining))
          ⊎ (((s.in_hunk ≡ true) × (hunk_line s line ≡ go_on masked next))
              ⊎ ((s.in_hunk ≡ true)
                  × (s.old_remaining ≡ 0)
                  × (s.new_remaining ≡ 0)
                  × (outside_line (closed_scan s) line ≡ go_on masked next))))
unfolding step
step-cases s line masked next h = ground arith

step-View :
    (s : Scan) (l : Line) (masked : Bool) (next : Scan) (ls ms : List Line)
    → step s (content_of l.raw) ≡ go_on masked next
    → View (mode next) ls ms
    → View (mode s) (l ∷ ls) (shown masked l ∷ ms)
step-View s l masked next ls ms h v = elim (step-cases s (content_of l.raw) masked next h) [
  | inl (out, e) ↦
      subst (λ b. View b (l ∷ ls) (shown masked l ∷ ms)) (sym (ap (mode_as s) out))
        (outside-View s l masked next ls ms out e v)
  | inr (inl (inside, mark, k, o, a, b)) ↦
      subst (λ x. View x (l ∷ ls) (shown masked l ∷ ms)) (sym (ap (mode_as s) inside))
        (rw k (unended mark (subst (λ x. View x ls ms) (rw (o, a, b) refl) v)))
  | inr (inr (inl (inside, e))) ↦
      subst (λ b. View b (l ∷ ls) (shown masked l ∷ ms)) (sym (ap (mode_as s) inside))
        (hunk-View s l masked next ls ms inside e v)
  | inr (inr (inr (inside, a, b, e))) ↦
      subst (λ x. View x (l ∷ ls) (shown masked l ∷ ms)) (sym (ap (mode_as s) inside))
        (rw (a, b) (closed (outside-View (closed_scan s) l masked next ls ms refl e v)))
]
  where
    mode_as : Scan → Bool → Option (ℕ × ℕ)
    mode_as t b = if b then some (t.old_remaining, t.new_remaining) else none

complete-View : (s : Scan) → is_complete s ≡ true → View (mode s) [] []
complete-View s h = elim (Bool-cases s.in_hunk) [
  | inr out ↦ rw out done
  | inl inside ↦
      let a : s.old_remaining ≡ 0 = ground arith in
      let b : s.new_remaining ≡ 0 = ground arith in rw (inside, a, b) (closed done)
]

cons_masked-some :
    (masked : Bool) (l : Line) (o : Option (List Line)) (ms : List Line)
    → cons_masked masked l o ≡ some ms
    → (rest : List Line) × (o ≡ some rest) × ((shown masked l ∷ rest) ≡ ms)
cons_masked-some masked l none ms h = absurd (ground arith)
cons_masked-some masked l (some rest) ms h = (rest, refl, some_injective h)

Step-cases :
    (r : Step) → (r ≡ give_up) ⊎ ((masked : Bool) × (next : Scan) × (r ≡ go_on masked next))
Step-cases give_up = inl refl
Step-cases (go_on masked next) = inr (masked, next, refl)

pub mask_lines-View :
    (s : Scan) (ls ms : List Line) → mask_lines s ls ≡ some ms → View (mode s) ls ms
unfolding mask_lines
mask_lines-View s [] ms h = elim (Bool-cases (is_complete s)) [
  | inr open' ↦ absurd (ground arith)
  | inl whole ↦
      subst (λ x. View (mode s) [] x) (some_injective (rw whole at h)) (complete-View s whole)
]
mask_lines-View s (l ∷ ls) ms h = elim (Step-cases (step s (content_of l.raw))) [
  | inl up ↦ absurd (ground arith)
  | inr (masked, next, e) ↦
      let (rest, r, same) =
        cons_masked-some masked l (mask_lines next ls) ms (rw (e, mask_lines) at h) in
      subst (λ x. View (mode s) (l ∷ ls) x) same
        (step-View s l masked next ls rest e (mask_lines-View next ls rest r))
]
