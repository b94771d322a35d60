-- ===== src/Prelude/Lists.antt =====
-- Lists measured by native numbers, under the library's names, and predicates over lists.
use Prim.Native.Nat.{ℕ, zero, suc, ◌+◌, ◌-◌, min}
use mathlib.Core.Path.{◌≡◌, refl, sym, ap, subst}
use mathlib.Core.Bool.{Bool, true, false, ◌&&◌, ◌||◌}
use mathlib.Core.Logic.{◌⊎◌, inl, inr}
use mathlib.Core.List.{List, [], ◌∷◌, ◌++◌}
use native.Mathlib.Omega.{arith}

module _ {ℓ} {A : Type ℓ} where
  abbrev pub length : List A → ℕ
  length [] = 0
  length (x ∷ xs) = suc (length xs)

  abbrev pub take : ℕ → List A → List A
  take zero xs = []
  take (suc n) [] = []
  take (suc n) (x ∷ xs) = x ∷ take n xs

  abbrev pub drop : ℕ → List A → List A
  drop zero xs = xs
  drop (suc n) [] = []
  drop (suc n) (x ∷ xs) = drop n xs

  abbrev pub replicate : ℕ → A → List A
  replicate zero a = []
  replicate (suc n) a = a ∷ replicate n a

  pub length-append : (xs ys : List A) → length (xs ++ ys) ≡ length xs + length ys
  length-append [] ys = omega arith
  length-append (x ∷ xs) ys = omega (arith, length-append xs ys)

  pub length-drop : (n : ℕ) (xs : List A) → length (drop n xs) ≡ length xs - n
  length-drop zero xs = omega arith
  length-drop (suc n) [] = omega arith
  length-drop (suc n) (x ∷ xs) = omega (arith, length-drop n xs)

  pub length-take : (n : ℕ) (xs : List A) → length (take n xs) ≡ min n (length xs)
  length-take zero xs = omega arith
  length-take (suc n) [] = omega arith
  length-take (suc n) (x ∷ xs) = omega (arith, length-take n xs)

  pub take-append-drop : (n : ℕ) (xs : List A) → take n xs ++ drop n xs ≡ xs
  take-append-drop zero xs = refl
  take-append-drop (suc n) [] = refl
  take-append-drop (suc n) (x ∷ xs) = rw (take-append-drop n xs)

-- `any` and `all` that run, and the predicate that an `all` test decides.
module _ {ℓ} {A : Type ℓ} where
  abbrev pub any : (A → Bool) → List A → Bool
  any p [] = false
  any p (x ∷ xs) = p x || any p xs

  abbrev pub all : (A → Bool) → List A → Bool
  all p [] = true
  all p (x ∷ xs) = p x && all p xs

  abbrev pub All {κ} : (A → Type κ) → List A → Type κ
  All P [] = Unit
  All P (x ∷ xs) = P x × All P xs

  pub All-append {κ} : (P : A → Type κ) (xs ys : List A) → All P xs → All P ys → All P (xs ++ ys)
  All-append P [] ys hx hy = hy
  All-append P (x ∷ xs) ys hx hy = (hx.0, All-append P xs ys hx.1 hy)

  -- Membership as a family, which a proof can match.
  pub data IsIn (a : A) : List A → Type ℓ where
    here : {x : A} {xs : List A} → a ≡ x → IsIn a (x ∷ xs)
    there : {x : A} {xs : List A} → IsIn a xs → IsIn a (x ∷ xs)

module _ {ℓ} {A : Type ℓ} where
  pub All-IsIn {κ} : (P : A → Type κ) {x : A} (xs : List A) → All P xs → IsIn x xs → P x
  All-IsIn P [] h i = elim i [ ]
  All-IsIn P (y ∷ ys) (h, hs) (here e) = subst P (sym e) h
  All-IsIn P (y ∷ ys) (h, hs) (there i) = All-IsIn P ys hs i

  pub all-IsIn : (p : A → Bool) {x : A} (xs : List A) → IsIn x xs → all p xs ≡ true → p x ≡ true
  all-IsIn p [] i h = elim i [ ]
  all-IsIn p (y ∷ ys) (here e) h = ground (arith, ap p e)
  all-IsIn p (y ∷ ys) (there i) h = all-IsIn p ys i (ground arith)

  pub any-IsIn : (p : A → Bool) {x : A} (xs : List A) → IsIn x xs → p x ≡ true → any p xs ≡ true
  any-IsIn p [] i h = elim i [ ]
  any-IsIn p (y ∷ ys) (here e) h = ground (arith, ap p e)
  any-IsIn p (y ∷ ys) (there i) h = ground (arith, any-IsIn p ys i h)

  pub IsIn-any : (p : A → Bool) (xs : List A) → any p xs ≡ true → (x : A) × IsIn x xs × (p x ≡ true)
  IsIn-any p [] h = absurd (cc)
  IsIn-any p (y ∷ ys) h = elim (cases (p y)) [
    | inl e ↦ (y, here refl, e)
    | inr e ↦ let r = IsIn-any p ys (ground arith) in (r.0, there r.1, r.2)
  ]
    where
      cases : (b : Bool) → (b ≡ true) ⊎ (b ≡ false)
      cases true = inl refl
      cases false = inr refl
