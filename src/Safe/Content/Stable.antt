-- ===== src/Safe/Content/Stable.antt =====
-- A rune that is read stays the same when more data follows.
use prolewatch.Prelude.{
  ℕ, ◌≤◌, ◌≡◌, refl, [], ◌∷◌, ◌++◌, ◌==◌, length, Bytes, arith, Bool-cases, inl, inr,
}
use prolewatch.Safe.Content.{
  rune_length, second_ok, is_continuation, Rune, partial, rune, fourth, third, second, read_rune,
}

-- Reading goes on in the same way with more data, and takes a byte at least.
abbrev pub IsStable : ℕ → Rune → Bytes → Rune → Type 0
IsStable n partial t r = Unit
IsStable n (rune ok rest) t r = (r ≡ rune ok (rest ++ t)) × (length rest ≤ n)

fourth-IsStable :
    (tail s t : Bytes) (n : ℕ)
    → length tail ≤ n
    → length s ≤ n
    → IsStable n (fourth tail s) t (fourth (tail ++ t) (s ++ t))
unfolding fourth
fourth-IsStable tail [] t n h g = tt
fourth-IsStable tail (z ∷ s) t n h g = elim (Bool-cases (is_continuation z)) [
  | inl yes' ↦ rw yes' ((refl, omega arith))
  | inr no' ↦ rw no' ((refl, h))
]

third-IsStable :
    (k : ℕ) (tail s t : Bytes) (n : ℕ)
    → length tail ≤ n
    → length s ≤ n
    → IsStable n (third k tail s) t (third k (tail ++ t) (s ++ t))
unfolding third
third-IsStable k tail [] t n h g = tt
third-IsStable k tail (y ∷ s) t n h g = elim (Bool-cases (is_continuation y)) [
  | inr no' ↦ rw no' ((refl, h))
  | inl yes' ↦ elim (Bool-cases (k == 3)) [
    | inl whole ↦ rw (yes', whole) ((refl, omega arith))
    | inr more ↦ rw (yes', more) (fourth-IsStable tail s t n h (omega arith))
  ]
]

second-IsStable :
    (k c : ℕ) (tail s t : Bytes) (n : ℕ)
    → length tail ≤ n
    → length s ≤ n
    → IsStable n (second k c tail s) t (second k c (tail ++ t) (s ++ t))
unfolding second
second-IsStable k c tail [] t n h g = tt
second-IsStable k c tail (x ∷ s) t n h g = elim (Bool-cases (second_ok c x)) [
  | inr no' ↦ rw no' ((refl, h))
  | inl yes' ↦ elim (Bool-cases (k == 2)) [
    | inl whole ↦ rw (yes', whole) ((refl, omega arith))
    | inr more ↦ rw (yes', more) (third-IsStable k tail s t n h (omega arith))
  ]
]

pub read_rune-IsStable :
    (c : ℕ) (s t : Bytes) → IsStable (length s) (read_rune (c ∷ s)) t (read_rune ((c ∷ s) ++ t))
unfolding read_rune
read_rune-IsStable c s t = elim (Bool-cases (rune_length c == 0)) [
  | inl bad ↦ rw bad ((refl, omega arith))
  | inr some_length ↦ elim (Bool-cases (rune_length c == 1)) [
    | inl ascii ↦ rw (some_length, ascii) ((refl, omega arith))
    | inr long ↦
        rw (some_length, long)
          (second-IsStable (rune_length c) c s s t (length s) (omega arith) (omega arith))
  ]
]
