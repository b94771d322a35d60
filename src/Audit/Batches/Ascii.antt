-- ===== src/Audit/Batches/Ascii.antt =====
-- The replacement of invalid bytes leaves the ASCII bytes of a text, in order.
use prolewatch.Prelude.{
  ℕ, zero, suc, ◌-◌, ◌≤◌, ◌<◌, ◌≡◌, refl, sym, ap, ◌∙◌, inl, inr, Bool, true, false, List, [], ◌∷◌,
  ◌++◌, map, leb, ◌==◌, if◌then◌else◌, length, length-append, take, drop, take-append-drop,
  append_assoc, Bytes, arith, Bool-cases,
}
use mathlib.Core.Path.{subst}
use prolewatch.Safe.Content.{
  Rune, partial, rune, is_continuation, second_ok, rune_length, fourth, third, second, read_rune,
}
use prolewatch.Audit.Batches.{
  SelectedFile, ScannedFile, slice, to_valid, valid_utf8_or_replacement, selected_file_piece,
  cuts_of, pieces_of,
}
use prolewatch.Audit.Batches.Pieces.{on_rune, replacement}
use prolewatch.Audit.Batches.Cuts.{join, cuts-cover}

abbrev pub ascii : Bytes → Bytes
ascii [] = []
ascii (c ∷ s) = if leb c 0x7f then c ∷ ascii s else ascii s

ascii-append : (s t : Bytes) → ascii (s ++ t) ≡ ascii s ++ ascii t
ascii-append [] t = refl
ascii-append (c ∷ s) t = elim (Bool-cases (leb c 0x7f)) [
  | inl small ↦ rw small (ap (λ x. c ∷ x) (ascii-append s t))
  | inr large ↦ rw large (ascii-append s t)
]

-- Behind a valid rune stands the rest of the text.
abbrev Splits : Bytes → Rune → Type 0
Splits whole (rune true rest) = (front : Bytes) × (whole ≡ front ++ rest) × (0 < length front)
Splits whole other = Unit

length-more : (front : Bytes) (c : ℕ) → 0 < length (front ++ c ∷ [])
length-more front c = omega (arith, length-append front (c ∷ []))

fourth-Splits : (front tail s : Bytes) → Splits (front ++ s) (fourth tail s)
unfolding fourth
fourth-Splits front tail [] = tt
fourth-Splits front tail (z ∷ s) = elim (Bool-cases (is_continuation z)) [
  | inl ok ↦ rw ok (front ++ z ∷ [], sym (append_assoc front (z ∷ []) s), length-more front z)
  | inr bad ↦ rw bad tt
]

third-Splits : (n : ℕ) (front tail s : Bytes) → Splits (front ++ s) (third n tail s)
unfolding third
third-Splits n front tail [] = tt
third-Splits n front tail (y ∷ s) =
    let moved = append_assoc front (y ∷ []) s in
    elim (Bool-cases (is_continuation y)) [
      | inr bad ↦ rw bad tt
      | inl ok ↦ elim (Bool-cases (n == 3)) [
        | inl done ↦ rw (ok, done) (front ++ y ∷ [], sym moved, length-more front y)
        | inr more ↦
            rw (ok, more)
              (subst (λ w. Splits w (fourth tail s)) moved (fourth-Splits (front ++ y ∷ []) tail s))
      ]
    ]

second-Splits : (n c : ℕ) (front tail s : Bytes) → Splits (front ++ s) (second n c tail s)
unfolding second
second-Splits n c front tail [] = tt
second-Splits n c front tail (x ∷ s) =
    let moved = append_assoc front (x ∷ []) s in
    elim (Bool-cases (second_ok c x)) [
      | inr bad ↦ rw bad tt
      | inl ok ↦ elim (Bool-cases (n == 2)) [
        | inl done ↦ rw (ok, done) (front ++ x ∷ [], sym moved, length-more front x)
        | inr more ↦
            rw (ok, more)
              (subst (λ w. Splits w (third n tail s)) moved
                (third-Splits n (front ++ x ∷ []) tail s))
      ]
    ]

read_rune-Splits : (c : ℕ) (s : Bytes) → Splits (c ∷ s) (read_rune (c ∷ s))
unfolding read_rune
read_rune-Splits c s = elim (Bool-cases (rune_length c == 0)) [
  | inl bad ↦ rw bad tt
  | inr some_length ↦ elim (Bool-cases (rune_length c == 1)) [
    | inl one ↦ rw (some_length, one) (c ∷ [], refl, omega arith)
    | inr long ↦ rw (some_length, long) (second-Splits (rune_length c) c (c ∷ []) s s)
  ]
]

read_rune-ascii : (c : ℕ) (s : Bytes) → leb c 0x7f ≡ true → read_rune (c ∷ s) ≡ rune true s
unfolding read_rune rune_length
read_rune-ascii c s small = rw small refl

drop-front :
    (front rest : Bytes) → drop (length (front ++ rest) - length rest) (front ++ rest) ≡ rest
drop-front front rest =
    let n : length (front ++ rest) - length rest ≡ length front =
      omega (arith, length-append front rest) in
    rw n (behind front)
  where
    behind : (f : Bytes) → drop (length f) (f ++ rest) ≡ rest
    behind [] = refl
    behind (c ∷ f) = behind f

replaced-ascii : (bad : Bool) (t : Bytes) → ascii ((if bad then [] else replacement) ++ t) ≡ ascii t
replaced-ascii true t = refl
replaced-ascii false t = refl

taken-ascii :
    (loop : Bool → Bytes → Bytes) (whole rest front : Bytes)
    → whole ≡ front ++ rest
    → ascii (loop false rest) ≡ ascii rest
    → ascii (take (length whole - length rest) whole ++ loop false rest) ≡ ascii whole
taken-ascii loop whole rest front e keeps =
    let n = length whole - length rest in
    let behind : drop n whole ≡ rest =
      ap (λ w. drop (length w - length rest) w) e ∙ drop-front front rest in
    ascii-append (take n whole) (loop false rest)
    ∙ ap (λ x. ascii (take n whole) ++ x) (keeps ∙ ap ascii (sym behind))
    ∙ sym (ascii-append (take n whole) (drop n whole))
    ∙ ap ascii (take-append-drop n whole)

-- What a round gives if the rest of the loop keeps the ASCII bytes.
on_rune-ascii :
    (loop : Bool → Bytes → Bytes) (bad : Bool) (c : ℕ) (s : Bytes) (r : Rune)
    → ((b : Bool) (t : Bytes) → length t ≤ length s → ascii (loop b t) ≡ ascii t)
    → Splits (c ∷ s) r
    → (leb c 0x7f ≡ true → r ≡ rune true s)
    → ascii (on_rune loop bad (c ∷ s) r) ≡ ascii (c ∷ s)
on_rune-ascii loop bad c s (rune true rest) keeps (front, e, some_front) small =
    let lengths = ap length e in
    taken-ascii loop (c ∷ s) rest front e
      (keeps false rest (omega (arith, lengths, length-append front rest)))
on_rune-ascii loop bad c s (rune false rest) keeps split small = elim (Bool-cases (leb c 0x7f)) [
  | inl is_small ↦ let e = small is_small in absurd (cc)
  | inr large ↦ rw large (replaced-ascii bad (loop true s) ∙ keeps true s (omega arith))
]
on_rune-ascii loop bad c s partial keeps split small = elim (Bool-cases (leb c 0x7f)) [
  | inl is_small ↦ let e = small is_small in absurd (cc)
  | inr large ↦ rw large (replaced-ascii bad (loop true s) ∙ keeps true s (omega arith))
]

to_valid-ascii :
    (n : ℕ) (bad : Bool) (s : Bytes) → length s ≤ n → ascii (to_valid n bad s) ≡ ascii s
unfolding to_valid
to_valid-ascii n bad [] h = none_left n
  where
    none_left : (k : ℕ) → ascii (to_valid k bad []) ≡ []
    none_left zero = refl
    none_left (suc k) = refl
to_valid-ascii zero bad (c ∷ s) h = absurd (omega arith)
to_valid-ascii (suc n) bad (c ∷ s) h =
    on_rune-ascii (λ b rest. to_valid n b rest) bad c s (read_rune (c ∷ s))
      (λ b t le. to_valid-ascii n b t (omega arith)) (read_rune-Splits c s) (read_rune-ascii c s)

valid-ascii : (s : Bytes) → ascii (valid_utf8_or_replacement s) ≡ ascii s
unfolding valid_utf8_or_replacement
valid-ascii s = to_valid-ascii (length s) false s (omega arith)

contents-ascii :
    (path text : Bytes) (cs : List (ℕ × ℕ))
    → ascii (join (map SelectedFile.content (map (selected_file_piece path text) cs)))
      ≡ ascii (join (map (slice text) cs))
unfolding selected_file_piece
contents-ascii path text [] = refl
contents-ascii path text ((from, to) ∷ cs) =
    ascii-append (valid_utf8_or_replacement (slice text (from, to)))
      (join (map SelectedFile.content (map (selected_file_piece path text) cs)))
    ∙ ap
        (λ x. x ++ ascii (join (map SelectedFile.content (map (selected_file_piece path text) cs))))
        (valid-ascii (slice text (from, to)))
    ∙ ap (λ x. ascii (slice text (from, to)) ++ x) (contents-ascii path text cs)
    ∙ sym (ascii-append (slice text (from, to)) (join (map (slice text) cs)))

-- Where a piece comes from.
abbrev pub place : SelectedFile → Bytes × ℕ
place p = (p.file, p.byte_offset)

places :
    (path text : Bytes) (cs : List (ℕ × ℕ))
    → map place (map (selected_file_piece path text) cs) ≡ map (λ c. (path, c.0)) cs
unfolding selected_file_piece
places path text [] = refl
places path text (c ∷ cs) = ap (λ x. (path, c.0) ∷ x) (places path text cs)

-- The pieces of a file stand at the starts of consecutive slices that make up its text, and their
-- contents have the ASCII bytes of the text, in order.
abbrev pub MakeUp : ℕ → ScannedFile → Type 0
MakeUp size r =
    (join (map (slice r.selected_text) (cuts_of size r)) ≡ r.selected_text)
    × (map place (pieces_of size r) ≡ map (λ c. (r.path, c.0)) (cuts_of size r))
    × (ascii (join (map SelectedFile.content (pieces_of size r))) ≡ ascii r.selected_text)

pub pieces_of-MakeUp : (size : ℕ) (r : ScannedFile) → 0 < size → MakeUp size r
unfolding pieces_of
pieces_of-MakeUp size r positive =
    let whole = cuts-cover size r.selected_text positive in
    (
      whole,
      places r.path r.selected_text (cuts_of size r),
      contents-ascii r.path r.selected_text (cuts_of size r) ∙ ap ascii whole,
    )
