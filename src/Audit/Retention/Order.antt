-- ===== src/Audit/Retention/Order.antt =====
-- The order of report identifiers: by name, which is by age.
use prolewatch.Prelude.{
  ℕ, suc, ◌≡◌, refl, true, false, List, [], ◌∷◌, length, take, drop, Bytes, bytes_lt, arith,
  Bool-cases, All, IsIn, there, inl, inr, All-IsIn,
}
use prolewatch.Audit.Retention.{insert_newest, newest_first}

bytes_lt_trans : (a b c : Bytes) → bytes_lt a b ≡ true → bytes_lt b c ≡ true → bytes_lt a c ≡ true
unfolding bytes_lt
bytes_lt_trans a b [] h g = absurd (ground arith)
bytes_lt_trans a [] (z ∷ c) h g = absurd (ground arith)
bytes_lt_trans [] (y ∷ b) (z ∷ c) h g = refl
bytes_lt_trans (x ∷ a) (y ∷ b) (z ∷ c) h g = ground (arith, bytes_lt_trans a b c)

-- No name of the list is newer.
abbrev pub IsNewest : Bytes → List Bytes → Type 0
IsNewest x = All (λ y. bytes_lt x y ≡ false)

abbrev pub IsNewestFirst : List Bytes → Type 0
IsNewestFirst [] = Unit
IsNewestFirst (x ∷ xs) = IsNewest x xs × IsNewestFirst xs

IsNewest-over :
    (x y : Bytes) (ys : List Bytes) → bytes_lt y x ≡ true → IsNewest y ys → IsNewest x ys
IsNewest-over x y [] h n = tt
IsNewest-over x y (z ∷ ys) h (n, ns) =
    (ground (arith, bytes_lt_trans y x z), IsNewest-over x y ys h ns)

IsNewest-insert_newest :
    (x y : Bytes) (ys : List Bytes)
    → bytes_lt y x ≡ false
    → IsNewest y ys
    → IsNewest y (insert_newest x ys)
unfolding insert_newest
IsNewest-insert_newest x y [] h n = (h, tt)
IsNewest-insert_newest x y (z ∷ ys) h (n, ns) = elim (Bool-cases (bytes_lt z x)) [
  | inl before ↦ rw before ((h, (n, ns)))
  | inr after ↦ rw after ((n, IsNewest-insert_newest x y ys h ns))
]

bytes_lt_asym : (a b : Bytes) → bytes_lt a b ≡ true → bytes_lt b a ≡ false
unfolding bytes_lt
bytes_lt_asym a [] h = absurd (ground arith)
bytes_lt_asym [] (y ∷ b) h = refl
bytes_lt_asym (x ∷ a) (y ∷ b) h = ground (arith, bytes_lt_asym a b)

insert_newest-IsNewestFirst :
    (x : Bytes) (ys : List Bytes) → IsNewestFirst ys → IsNewestFirst (insert_newest x ys)
unfolding insert_newest
insert_newest-IsNewestFirst x [] s = (tt, tt)
insert_newest-IsNewestFirst x (y ∷ ys) (n, ns) = elim (Bool-cases (bytes_lt y x)) [
  | inl before ↦ rw before (((bytes_lt_asym y x before, IsNewest-over x y ys before n), (n, ns)))
  | inr after ↦
      rw after ((IsNewest-insert_newest x y ys after n, insert_newest-IsNewestFirst x ys ns))
]

pub newest_first-IsNewestFirst : (xs : List Bytes) → IsNewestFirst (newest_first xs)
unfolding newest_first
newest_first-IsNewestFirst [] = tt
newest_first-IsNewestFirst (x ∷ xs) =
    insert_newest-IsNewestFirst x (newest_first xs) (newest_first-IsNewestFirst xs)

pub drop-IsIn : (n : ℕ) (xs : List Bytes) (id : Bytes) → IsIn id (drop n xs) → IsIn id xs
drop-IsIn ℕ.zero xs id i = i
drop-IsIn (suc n) [] id i = i
drop-IsIn (suc n) (x ∷ xs) id i = there (drop-IsIn n xs id i)

-- What stands behind the first names is no newer than any of them, and these are all there.
pub old-IsNewest :
    (n : ℕ) (xs : List Bytes) (id : Bytes)
    → IsNewestFirst xs
    → IsIn id (drop n xs)
    → All (λ y. bytes_lt y id ≡ false) (take n xs) × (length (take n xs) ≡ n)
old-IsNewest ℕ.zero xs id s i = (tt, omega arith)
old-IsNewest (suc n) [] id s i = elim i [ ]
old-IsNewest (suc n) (x ∷ xs) id (m, s) i =
    let (all_newer, count) = old-IsNewest n xs id s i in
    ((All-IsIn (λ y. bytes_lt x y ≡ false) xs m (drop-IsIn n xs id i), all_newer), omega arith)
