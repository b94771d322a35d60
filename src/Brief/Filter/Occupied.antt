-- ===== src/Brief/Filter/Occupied.antt =====
-- Directories of an archive, and the files that stay under them.
use prolewatch.Prelude.{
  has_prefix-append, ◌≡◌, refl, sym, ap, ◌∙◌, inl, inr, true, ◌||◌, List, [], ◌∷◌, ◌++◌, Bytes,
  is_member, has_prefix, is_empty, append_assoc, false, arith, Bool-cases, IsIn, here, there,
  any-IsIn, IsIn-any, ||-eq_false,
}
use prolewatch.Brief.Filter.{Member, is_dir, member_name, directories, surviving_files, is_occupied}

-- A directory of the archive.
abbrev pub IsDirectory : List Member → Bytes → Type 0
IsDirectory ms n = (m : Member) × IsIn m ms × (is_dir m ≡ true) × (member_name m ≡ n)

-- A name under a directory; every name is under the root.
abbrev pub IsBelow : Bytes → Bytes → Type 0
IsBelow [] name = Unit
IsBelow (c ∷ directory) name = (rest : Bytes) × (name ≡ (c ∷ directory) ++ (b'/' ∷ rest))

-- A file under this directory that is not stripped.
abbrev pub HoldsFile : List Member → List Bytes → Bytes → Type 0
HoldsFile ms stripped n =
    (m : Member) × IsIn m ms
    × (is_dir m ≡ false)
    × (is_member (member_name m) stripped ≡ false)
    × IsBelow n (member_name m)

pub IsIn-directories : (n : Bytes) (ms : List Member) → IsIn n (directories ms) → IsDirectory ms n
unfolding directories
IsIn-directories n [] i = elim i [ ]
IsIn-directories n (m ∷ ms) i = elim (Bool-cases (is_dir m)) [
  | inl d ↦ head d (rw d at i) (IsIn-directories n ms)
  | inr f ↦ let (x, is_in, d, e) = IsIn-directories n ms (rw f at i) in (x, there is_in, d, e)
]
  where
    head :
        is_dir m ≡ true
        → IsIn n (member_name m ∷ directories ms)
        → (IsIn n (directories ms) → IsDirectory ms n)
        → IsDirectory (m ∷ ms) n
    head d (here e) f = (m, here refl, d, sym e)
    head d (there j) f = let (x, is_in, y, e) = f j in (x, there is_in, y, e)

pub directories-IsIn :
    (m : Member) (ms : List Member)
    → IsIn m ms
    → is_dir m ≡ true
    → IsIn (member_name m) (directories ms)
unfolding directories
directories-IsIn m [] i d = elim i [ ]
directories-IsIn m (x ∷ ms) (here e) d = rw (ap is_dir (sym e) ∙ d) (here (ap member_name e))
directories-IsIn m (x ∷ ms) (there i) d = elim (Bool-cases (is_dir x)) [
  | inl y ↦ rw y (there (directories-IsIn m ms i d))
  | inr f ↦ rw f (directories-IsIn m ms i d)
]

IsIn-surviving_files :
    (stripped : List Bytes) (n : Bytes) (ms : List Member)
    → IsIn n (surviving_files stripped ms)
    → (m : Member) × IsIn m ms
      × (is_dir m ≡ false)
      × (is_member (member_name m) stripped ≡ false)
      × (member_name m ≡ n)
unfolding surviving_files
IsIn-surviving_files stripped n [] i = elim i [ ]
IsIn-surviving_files stripped n (m ∷ ms) i =
    elim (Bool-cases (is_dir m || is_member (member_name m) stripped)) [
      | inl left_out ↦
          let (x, is_in, d, f, e) = IsIn-surviving_files stripped n ms (rw left_out at i) in
          (x, there is_in, d, f, e)
      | inr stays ↦
          head (||-eq_false _ _ stays) (rw stays at i) (IsIn-surviving_files stripped n ms)
    ]
  where
    Survives : List Member → Type 0
    Survives xs =
        (x : Member) × IsIn x xs
        × (is_dir x ≡ false)
        × (is_member (member_name x) stripped ≡ false)
        × (member_name x ≡ n)

    head :
        (is_dir m ≡ false) × (is_member (member_name m) stripped ≡ false)
        → IsIn n (member_name m ∷ surviving_files stripped ms)
        → (IsIn n (surviving_files stripped ms) → Survives ms)
        → Survives (m ∷ ms)
    head (d, f) (here e) g = (m, here refl, d, f, sym e)
    head (d, f) (there j) g = let (x, is_in, y, z, e) = g j in (x, there is_in, y, z, e)

surviving_files-IsIn :
    (stripped : List Bytes) (m : Member) (ms : List Member)
    → IsIn m ms
    → is_dir m ≡ false
    → is_member (member_name m) stripped ≡ false
    → IsIn (member_name m) (surviving_files stripped ms)
unfolding surviving_files
surviving_files-IsIn stripped m [] i d f = elim i [ ]
surviving_files-IsIn stripped m (x ∷ ms) (here e) d f =
    let at_x : (is_dir x || is_member (member_name x) stripped) ≡ false =
      ap (λ y. is_dir y || is_member (member_name y) stripped) (sym e) ∙ ground arith in
    rw at_x (here (ap member_name e))
surviving_files-IsIn stripped m (x ∷ ms) (there i) d f =
    let ih = surviving_files-IsIn stripped m ms i d f in
    elim (Bool-cases (is_dir x || is_member (member_name x) stripped)) [
      | inl y ↦ rw y ih
      | inr n ↦ rw n (there ih)
    ]

prefix-rest : (p name : Bytes) → has_prefix p name ≡ true → (rest : Bytes) × (name ≡ p ++ rest)
unfolding has_prefix
prefix-rest [] name h = (name, refl)
prefix-rest (c ∷ p) [] h = absurd (cc)
prefix-rest (c ∷ p) (d ∷ name) h =
    let (rest, e) = prefix-rest p name (ground arith) in (rest, ground (arith, e))

prefix-IsBelow :
    (n name : Bytes) → is_empty n ≡ false → has_prefix (n ++ b'/' ∷ []) name ≡ true → IsBelow n name
prefix-IsBelow [] name some_name h = tt
prefix-IsBelow (c ∷ n) name some_name h =
    let (rest, e) = prefix-rest ((c ∷ n) ++ b'/' ∷ []) name h in
    (rest, e ∙ append_assoc (c ∷ n) (b'/' ∷ []) rest)

IsBelow-prefix :
    (n name : Bytes) → is_empty n ≡ false → IsBelow n name → has_prefix (n ++ b'/' ∷ []) name ≡ true
IsBelow-prefix [] name some_name h = absurd (ground arith)
IsBelow-prefix (c ∷ n) name some_name (rest, e) =
    ap (has_prefix ((c ∷ n) ++ b'/' ∷ [])) (e ∙ sym (append_assoc (c ∷ n) (b'/' ∷ []) rest))
    ∙ has_prefix-append ((c ∷ n) ++ b'/' ∷ []) rest

pub occupied-HoldsFile :
    (stripped : List Bytes) (n : Bytes) (ms : List Member)
    → is_empty n ≡ false
    → is_occupied (surviving_files stripped ms) n ≡ true
    → HoldsFile ms stripped n
occupied-HoldsFile stripped n ms named h =
    let (x, i, under) = IsIn-any (has_prefix (n ++ b'/' ∷ [])) (surviving_files stripped ms) h in
    let (m, is_in, d, f, e) = IsIn-surviving_files stripped x ms i in
    let here' = ap (has_prefix (n ++ b'/' ∷ [])) e ∙ under in
    (m, is_in, d, f, prefix-IsBelow n (member_name m) named here')

pub HoldsFile-occupied :
    (stripped : List Bytes) (n : Bytes) (ms : List Member)
    → is_empty n ≡ false
    → HoldsFile ms stripped n
    → is_occupied (surviving_files stripped ms) n ≡ true
HoldsFile-occupied stripped n ms named (m, i, d, f, under) =
    any-IsIn (has_prefix (n ++ b'/' ∷ [])) (surviving_files stripped ms)
      (surviving_files-IsIn stripped m ms i d f) (IsBelow-prefix n (member_name m) named under)
