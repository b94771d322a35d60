-- ===== src/Brief/Filter/Lines.antt =====
-- The rewritten .MTREE, line by line.
use prolewatch.Prelude.{
  Option, if◌then◌else◌, concat, ℕ, ◌≡◌, refl, sym, ap, ◌∙◌, ◌⊎◌, inl, inr, true, false, List, [],
  ◌∷◌, ◌++◌, none, some, ◌==◌, Bytes, is_member, arith, Bool-cases, Option-cases, All, All-append,
  append-nil,
}
use mathlib.Core.Path.{subst}
use prolewatch.Brief.Filter.{split_after, line_name, is_kept, keep_lines, filter_mtree}

-- A text with one line feed, at its end, and a text with none.
abbrev IsClosed : Bytes → Type 0
IsClosed [] = ⊥
IsClosed (c ∷ []) = (c == b'\n') ≡ true
IsClosed (c ∷ d ∷ s) = ((c == b'\n') ≡ false) × IsClosed (d ∷ s)

abbrev IsOpen : Bytes → Type 0
IsOpen [] = Unit
IsOpen (c ∷ s) = ((c == b'\n') ≡ false) × IsOpen s

abbrev IsLines : List Bytes → Type 0
IsLines [] = ⊥
IsLines (l ∷ []) = IsOpen l
IsLines (l ∷ k ∷ ls) = IsClosed l × IsLines (k ∷ ls)

closed_line : (c : ℕ) (ls : List Bytes) → (c == b'\n') ≡ true → IsLines ls → IsLines ((c ∷ []) ∷ ls)
closed_line c [] e h = absurd h
closed_line c (l ∷ ls) e h = (e, h)

longer_line :
    (c : ℕ) (l : Bytes) (ls : List Bytes)
    → (c == b'\n') ≡ false
    → IsLines (l ∷ ls)
    → IsLines ((c ∷ l) ∷ ls)
longer_line c l [] e h = (e, h)
longer_line c [] (k ∷ ls) e h = absurd h.0
longer_line c (d ∷ l) (k ∷ ls) e h = ((e, h.0), h.1)

split_after-IsLines : (s : Bytes) → IsLines (split_after s)
unfolding split_after
split_after-IsLines [] = tt
split_after-IsLines (c ∷ s) = elim (Bool-cases (c == b'\n')) [
  | inl feed ↦ rw feed (closed_line c (split_after s) feed (split_after-IsLines s))
  | inr other ↦ rw other (grown (split_after s) other (split_after-IsLines s))
]
  where
    grown :
        (ls : List Bytes)
        → (c == b'\n') ≡ false
        → IsLines ls
        → IsLines (elim ls [ [] ↦ (c ∷ []) ∷ [] | w ∷ ws ↦ (c ∷ w) ∷ ws ])
    grown [] e h = absurd h
    grown (w ∷ ws) e h = longer_line c w ws e h

split_after-closed : (l t : Bytes) → IsClosed l → split_after (l ++ t) ≡ l ∷ split_after t
unfolding split_after
split_after-closed [] t h = absurd h
split_after-closed (c ∷ []) t h = rw h refl
split_after-closed (c ∷ d ∷ l) t (h, hs) = rw (h, split_after-closed (d ∷ l) t hs) refl

split_after-open : (l : Bytes) → IsOpen l → split_after l ≡ l ∷ []
unfolding split_after
split_after-open [] h = refl
split_after-open (c ∷ l) (h, hs) = rw (h, split_after-open l hs) refl

-- The lines of a text that is put together from the kept lines; if the last line is dropped, an empty
-- one takes its place.
abbrev IsRejoined : List Bytes → Type 0
IsRejoined ls = (split_after (concat ls) ≡ ls) ⊎ (split_after (concat ls) ≡ ls ++ [] ∷ [])

with_line : (l : Bytes) (ls : List Bytes) → IsClosed l → IsRejoined ls → IsRejoined (l ∷ ls)
with_line l ls h (inl e) = inl (split_after-closed l (concat ls) h ∙ ap (λ x. l ∷ x) e)
with_line l ls h (inr e) = inr (split_after-closed l (concat ls) h ∙ ap (λ x. l ∷ x) e)

keep_lines-IsRejoined : (drop ls : List Bytes) → IsLines ls → IsRejoined (keep_lines drop ls)
unfolding keep_lines split_after
keep_lines-IsRejoined drop [] h = absurd h
keep_lines-IsRejoined drop (l ∷ []) h = elim (Bool-cases (is_kept drop (line_name l))) [
  | inl kept ↦ rw kept (inl (ap split_after (append-nil l) ∙ split_after-open l h))
  | inr dropped ↦ rw dropped (inr refl)
]
keep_lines-IsRejoined drop (l ∷ k ∷ ls) (h, hs) =
    let ih = keep_lines-IsRejoined drop (k ∷ ls) hs in
    elim (Bool-cases (is_kept drop (line_name l))) [
      | inl kept ↦ rw kept (with_line l (keep_lines drop (k ∷ ls)) h ih)
      | inr dropped ↦ rw dropped ih
    ]

-- A line that names no member of the list.
abbrev pub IsFree : List Bytes → Bytes → Type 0
IsFree drop l =
    (line_name l ≡ none) ⊎ ((n : Bytes) × (line_name l ≡ some n) × (is_member n drop ≡ false))

kept-IsFree : (drop : List Bytes) (l : Bytes) → is_kept drop (line_name l) ≡ true → IsFree drop l
kept-IsFree drop l h = elim (Option-cases (line_name l)) [
  | inl none' ↦ inl none'
  | inr (n, names) ↦ inr (n, names, ground arith)
]

keep_lines-IsFree : (drop ls : List Bytes) → All (IsFree drop) (keep_lines drop ls)
unfolding keep_lines
keep_lines-IsFree drop [] = tt
keep_lines-IsFree drop (l ∷ ls) = elim (Bool-cases (is_kept drop (line_name l))) [
  | inl kept ↦ rw kept ((kept-IsFree drop l kept, keep_lines-IsFree drop ls))
  | inr dropped ↦ rw dropped (keep_lines-IsFree drop ls)
]

empty-IsFree : (drop : List Bytes) → IsFree drop []
unfolding line_name
empty-IsFree drop = inl refl

pub filter_mtree-IsFree :
    (drop : List Bytes) (text : Bytes) → All (IsFree drop) (split_after (filter_mtree drop text))
unfolding filter_mtree
filter_mtree-IsFree drop text =
    let ls = keep_lines drop (split_after text) in
    let free = keep_lines-IsFree drop (split_after text) in
    elim (keep_lines-IsRejoined drop (split_after text) (split_after-IsLines text)) [
      | inl e ↦ subst (All (IsFree drop)) (sym e) free
      | inr e ↦
          subst (All (IsFree drop)) (sym e)
            (All-append (IsFree drop) ls ([] ∷ []) free (empty-IsFree drop, tt))
    ]

-- The lines that name no member of the list.
abbrev free_line : List Bytes → Option Bytes → Bytes → List Bytes → List Bytes
free_line drop none l rest = l ∷ rest
free_line drop (some n) l rest = if is_member n drop then rest else l ∷ rest

abbrev pub free_lines : List Bytes → List Bytes → List Bytes
free_lines drop [] = []
free_lines drop (l ∷ ls) = free_line drop (line_name l) l (free_lines drop ls)

kept-free_line :
    (drop : List Bytes) (o : Option Bytes) (l : Bytes) (rest : List Bytes)
    → (if is_kept drop o then l ∷ rest else rest) ≡ free_line drop o l rest
kept-free_line drop none l rest = refl
kept-free_line drop (some n) l rest = ground arith

keep_lines-free_lines : (drop ls : List Bytes) → keep_lines drop ls ≡ free_lines drop ls
unfolding keep_lines
keep_lines-free_lines drop [] = refl
keep_lines-free_lines drop (l ∷ ls) =
    kept-free_line drop (line_name l) l (keep_lines drop ls)
    ∙ ap (free_line drop (line_name l) l) (keep_lines-free_lines drop ls)

-- The lines of the new text are those of the old one that name no dropped member, with an empty line
-- at the end where the last line goes.
abbrev pub AreFreeLines : List Bytes → Bytes → Bytes → Type 0
AreFreeLines drop old new =
    (split_after new ≡ free_lines drop (split_after old))
    ⊎ (split_after new ≡ free_lines drop (split_after old) ++ [] ∷ [])

pub filter_mtree-AreFreeLines :
    (drop : List Bytes) (text : Bytes) → AreFreeLines drop text (filter_mtree drop text)
unfolding filter_mtree
filter_mtree-AreFreeLines drop text =
    let same = keep_lines-free_lines drop (split_after text) in
    elim (keep_lines-IsRejoined drop (split_after text) (split_after-IsLines text)) [
      | inl e ↦ inl (e ∙ same)
      | inr e ↦ inr (e ∙ ap (λ x. x ++ [] ∷ []) same)
    ]
