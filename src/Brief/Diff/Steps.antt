-- ===== src/Brief/Diff/Steps.antt =====
-- What a scan does on the lines of plain hunks.
use prolewatch.Prelude.{
  ℕ, suc, ◌-◌, ◌≡◌, refl, Bool, true, false, ◌&&◌, List, [], ◌∷◌, some, ◌==◌, arith, Bytes,
  bytes_eq, codes, first_is, has_prefix, if◌then◌else◌,
}
use prolewatch.Brief.Diff.Header.{hunk_counts}
use prolewatch.Brief.Diff.Lines.{Line}
use prolewatch.Brief.Diff.{
  Scan, go_on, hunk_line, open_hunk, outside_line, step, content_of, blank, no_newline, mask_lines,
}

-- Hunks one after the other, with the old and new lines that the current one still wants, and their
-- masked form.
pub data Hunks : ℕ → ℕ → List Line → List Line → Type 0 where
  done : Hunks 0 0 [] []
  header :
      {old new : ℕ} {l : Line} {ls ms : List Line}
      → has_prefix (codes "@@ ") (content_of l.raw) ≡ true
      → hunk_counts (content_of l.raw) ≡ some (old, new)
      → (old == 0 && new == 0) ≡ false
      → Hunks old new ls ms
      → Hunks 0 0 (l ∷ ls) (l ∷ ms)
  context :
      {old new : ℕ} {l : Line} {ls ms : List Line}
      → first_is b' ' (content_of l.raw) ≡ true
      → Hunks old new ls ms
      → Hunks (suc old) (suc new) (l ∷ ls) (l ∷ ms)
  removed :
      {old new : ℕ} {l : Line} {ls ms : List Line}
      → first_is b'-' (content_of l.raw) ≡ true
      → Hunks old new ls ms
      → Hunks (suc old) new (l ∷ ls) (record l { raw = blank l.raw } ∷ ms)
  added :
      {old new : ℕ} {l : Line} {ls ms : List Line}
      → first_is b'+' (content_of l.raw) ≡ true
      → Hunks old new ls ms
      → Hunks old (suc new) (l ∷ ls) (l ∷ ms)

header_prefix :
    (line : Bytes)
    → has_prefix (codes "@@ ") line ≡ true
    → (has_prefix (codes "@@@") line ≡ false)
      × (has_prefix (codes "diff --combined ") line ≡ false)
      × (has_prefix (codes "diff --cc ") line ≡ false)
      × (has_prefix (codes "@@") line ≡ true)
      × (bytes_eq line no_newline ≡ false)
unfolding has_prefix bytes_eq
header_prefix [] h = absurd (cc)
header_prefix (x ∷ []) h = absurd (ground arith)
header_prefix (x ∷ y ∷ []) h = absurd (ground arith)
header_prefix (x ∷ y ∷ z ∷ s) h = ground arith

data_line :
    (c : ℕ) (line : Bytes)
    → (c == b'\\') ≡ false
    → first_is c line ≡ true
    → bytes_eq line no_newline ≡ false
unfolding bytes_eq
data_line c [] d h = absurd (cc)
data_line c (x ∷ line) d h = ground arith

-- A scan in the hunks of a file, with these lines left.
pub record IsReady (s : Scan) (old new : ℕ) : Type 0 where
  pub inside : s.in_hunk ≡ true
  pub old_left : s.old_remaining ≡ old
  pub new_left : s.new_remaining ≡ new
  pub pair : s.header_pair ≡ true
  pub no_old : s.old_header ≡ false
  pub not_pending : s.pending_hunk ≡ false
  pub saw : s.saw_hunk ≡ true

-- The scan behind a line of each kind.
abbrev pub opened : Scan → ℕ → ℕ → Scan
opened s old new = record s {
  old_remaining = old;
  new_remaining = new;
  in_hunk = true;
  last_hunk_data = false;
  pending_hunk = false;
  saw_hunk = true;
}

pub open_line :
    (t : Scan) (line : Bytes) (old new : ℕ)
    → t.header_pair ≡ true
    → has_prefix (codes "@@ ") line ≡ true
    → hunk_counts line ≡ some (old, new)
    → (old == 0 && new == 0) ≡ false
    → outside_line t line ≡ go_on false (opened t old new)
unfolding outside_line open_hunk
open_line t line old new p h counts some_lines =
    let (a, b, c, d, e) = header_prefix line h in ground arith

abbrev closed_scan : Scan → Scan
closed_scan s = record s { in_hunk = false; last_hunk_data = false }

step-header :
    (s : Scan) (line : Bytes) (old new : ℕ)
    → IsReady s 0 0
    → has_prefix (codes "@@ ") line ≡ true
    → hunk_counts line ≡ some (old, new)
    → (old == 0 && new == 0) ≡ false
    → step s line ≡ go_on false (opened (closed_scan s) old new)
unfolding step
step-header s line old new r h counts some_lines =
    let (a, b, c, d, e) = header_prefix line h in
    let inside = r.inside in
    let old_left = r.old_left in
    let new_left = r.new_left in
    let opens = open_line (closed_scan s) line old new r.pair h counts some_lines in ground arith

pub step-context :
    (s : Scan) (line : Bytes) (old new : ℕ)
    → IsReady s (suc old) (suc new)
    → first_is b' ' line ≡ true
    → (next : Scan) × (step s line ≡ go_on false next) × IsReady next old new
unfolding step hunk_line
step-context s [] old new r h = absurd (cc)
step-context s (c ∷ line) old new r h =
    let mark = data_line b' ' (c ∷ line) refl h in
    let inside = r.inside in
    let old_left = r.old_left in
    let new_left = r.new_left in
    (
      record s {
        old_remaining = s.old_remaining - 1;
        new_remaining = s.new_remaining - 1;
        last_hunk_data = true;
      },
      ground arith,
      record {
        inside = inside;
        old_left = omega arith;
        new_left = omega arith;
        pair = r.pair;
        no_old = r.no_old;
        not_pending = r.not_pending;
        saw = r.saw;
      },
    )

pub step-removed :
    (s : Scan) (line : Bytes) (old new : ℕ)
    → IsReady s (suc old) new
    → first_is b'-' line ≡ true
    → (next : Scan) × (step s line ≡ go_on true next) × IsReady next old new
unfolding step hunk_line
step-removed s [] old new r h = absurd (cc)
step-removed s (c ∷ line) old new r h =
    let mark = data_line b'-' (c ∷ line) refl h in
    let inside = r.inside in
    let old_left = r.old_left in
    let new_left = r.new_left in
    (
      record s { old_remaining = s.old_remaining - 1; last_hunk_data = true },
      ground arith,
      record {
        inside = inside;
        old_left = omega arith;
        new_left = new_left;
        pair = r.pair;
        no_old = r.no_old;
        not_pending = r.not_pending;
        saw = r.saw;
      },
    )

pub step-added :
    (s : Scan) (line : Bytes) (old new : ℕ)
    → IsReady s old (suc new)
    → first_is b'+' line ≡ true
    → (next : Scan) × (step s line ≡ go_on false next) × IsReady next old new
unfolding step hunk_line
step-added s [] old new r h = absurd (cc)
step-added s (c ∷ line) old new r h =
    let mark = data_line b'+' (c ∷ line) refl h in
    let inside = r.inside in
    let old_left = r.old_left in
    let new_left = r.new_left in
    (
      record s { new_remaining = s.new_remaining - 1; last_hunk_data = true },
      ground arith,
      record {
        inside = inside;
        old_left = old_left;
        new_left = omega arith;
        pair = r.pair;
        no_old = r.no_old;
        not_pending = r.not_pending;
        saw = r.saw;
      },
    )

pub mask_lines-step :
    (s next : Scan) (masked : Bool) (l : Line) (ls ms : List Line)
    → step s (content_of l.raw) ≡ go_on masked next
    → mask_lines next ls ≡ some ms
    → mask_lines s (l ∷ ls) ≡ some ((if masked then record l { raw = blank l.raw } else l) ∷ ms)
unfolding mask_lines
mask_lines-step s next masked l ls ms e rest = rw (e, mask_lines, rest) refl

pub mask_lines-Hunks :
    {old new : ℕ} {ls ms : List Line} (s : Scan)
    → IsReady s old new
    → Hunks old new ls ms
    → mask_lines s ls ≡ some ms
unfolding mask_lines
mask_lines-Hunks {ls = []} s r done =
    let a = r.old_left in
    let b = r.new_left in let c = r.no_old in let d = r.not_pending in let e = r.saw in ground arith
mask_lines-Hunks s r (header {old} {new} {l} {ls} {ms} h counts some_lines rest) =
    mask_lines-step s (opened (closed_scan s) old new) false l ls ms
      (step-header s (content_of l.raw) old new r h counts some_lines)
      (mask_lines-Hunks (opened (closed_scan s) old new)
        (record {
          inside = refl;
          old_left = refl;
          new_left = refl;
          pair = r.pair;
          no_old = r.no_old;
          not_pending = refl;
          saw = refl;
        })
        rest)
mask_lines-Hunks s r (context {old} {new} {l} {ls} {ms} h rest) =
    let (next, e, ready) = step-context s (content_of l.raw) old new r h in
    mask_lines-step s next false l ls ms e (mask_lines-Hunks next ready rest)
mask_lines-Hunks s r (removed {old} {new} {l} {ls} {ms} h rest) =
    let (next, e, ready) = step-removed s (content_of l.raw) old new r h in
    mask_lines-step s next true l ls ms e (mask_lines-Hunks next ready rest)
mask_lines-Hunks s r (added {old} {new} {l} {ls} {ms} h rest) =
    let (next, e, ready) = step-added s (content_of l.raw) old new r h in
    mask_lines-step s next false l ls ms e (mask_lines-Hunks next ready rest)
