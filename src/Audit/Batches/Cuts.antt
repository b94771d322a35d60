-- ===== src/Audit/Batches/Cuts.antt =====
-- The cuts of a text are contiguous.
use prolewatch.Prelude.{
  ℕ, zero, suc, ◌+◌, ◌-◌, ◌≤◌, ◌<◌, ◌≡◌, refl, sym, ap, ◌∙◌, inl, inr, List, [], ◌∷◌, ◌++◌, map,
  ltb, min, length, take, drop, Bytes, arith, Bool-cases, length-drop, take-append-drop, append-nil,
}
use prolewatch.Audit.Batches.{slice, cuts}

abbrev pub join {ℓ} : {A : Type ℓ} → List (List A) → List A
join [] = []
join (xs ∷ xss) = xs ++ join xss

drop-empty : (n : ℕ) → drop {A = ℕ} n [] ≡ []
drop-empty zero = refl
drop-empty (suc n) = refl

drop-add : (m n : ℕ) (s : Bytes) → drop (m + n) s ≡ drop n (drop m s)
drop-add zero n s = ap (λ k. drop k s) (omega arith)
drop-add (suc m) n [] = drop-empty (suc m + n) ∙ sym (drop-empty n)
drop-add (suc m) n (c ∷ s) = ap (λ k. drop k (c ∷ s)) later ∙ drop-add m n s
  where
    later : suc m + n ≡ suc (m + n)
    later = omega arith

drop-all : (n : ℕ) (s : Bytes) → length s ≤ n → drop n s ≡ []
drop-all zero [] h = refl
drop-all zero (c ∷ s) h = absurd (omega arith)
drop-all (suc n) [] h = refl
drop-all (suc n) (c ∷ s) h = drop-all n s (omega arith)

take-all : (n : ℕ) (s : Bytes) → length s ≤ n → take n s ≡ s
take-all zero [] h = refl
take-all zero (c ∷ s) h = absurd (omega arith)
take-all (suc n) [] h = refl
take-all (suc n) (c ∷ s) h = ap (λ t. c ∷ t) (take-all n s (omega arith))

-- A piece from the front and what the next one starts with.
take-drop_next : (size : ℕ) (s : Bytes) → take (min (length s) size) s ++ drop size s ≡ s
take-drop_next size s = elim (Bool-cases (ltb (length s) size)) [
  | inl short ↦
      let whole : min (length s) size ≡ length s = ground arith in
      rw (whole, take-all (length s) s (omega arith), drop-all size s (ground arith)) (append-nil s)
  | inr long ↦
      let part : min (length s) size ≡ size = ground arith in rw part (take-append-drop size s)
]

cuts-slice :
    (n size from : ℕ) (text : Bytes)
    → 0 < size
    → length text ≤ from + n
    → join (map (slice text) (cuts n size (length text) from)) ≡ drop from text
unfolding cuts
cuts-slice zero size from text pos h = sym (drop-all from text (omega arith))
cuts-slice (suc n) size from text pos h = elim (Bool-cases (ltb from (length text))) [
  | inr done ↦ rw done (sym (drop-all from text (ground arith)))
  | inl more ↦
      let rest = cuts-slice n size (from + size) text pos (omega arith) in
      let width : min (length text) (from + size) - from ≡ min (length (drop from text)) size =
        ground (arith, length-drop from text) in
      rw more (
        ap
          (λ k.
            take k (drop from text)
            ++ join (map (slice text) (cuts n size (length text) (from + size))))
          width
        ∙ ap (λ r. take (min (length (drop from text)) size) (drop from text) ++ r)
            (rest ∙ drop-add from size text)
        ∙ take-drop_next size (drop from text))
]

-- The slices of a text that is cut in pieces of a positive size are the text.
pub cuts-cover :
    (size : ℕ) (text : Bytes)
    → 0 < size
    → join (map (slice text) (cuts (length text) size (length text) 0)) ≡ text
cuts-cover size text pos = cuts-slice (length text) size 0 text pos (omega arith)
