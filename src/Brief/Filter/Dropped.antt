-- ===== src/Brief/Filter/Dropped.antt =====
-- Which names a rewrite drops.
use prolewatch.Prelude.{
  is_empty, insert_key, is_member-IsIn, IsIn-is_member, is_member-append, ◌≡◌, refl, sym, ap, ◌↔◌,
  ◌⊎◌, inl, inr, true, false, not, ◌&&◌, ◌||◌, List, [], ◌∷◌, map, Bytes, bytes_eq, bytes_eq_iff,
  is_member, arith, Bool-cases, IsIn, here, there,
}
use mathlib.Core.Path.{subst}
use prolewatch.Brief.Path.{normalize_member}
use prolewatch.Brief.Filter.Occupied.{
  IsDirectory, HoldsFile, IsIn-directories, directories-IsIn, occupied-HoldsFile,
  HoldsFile-occupied,
}
use prolewatch.Brief.Filter.{
  Member, strip_set, directories, surviving_files, is_occupied, empty_directories, drop_set,
}

IsIn-map :
    (n : Bytes) (ss : List Bytes)
    → IsIn n (map normalize_member ss)
    → (s : Bytes) × IsIn s ss × (normalize_member s ≡ n)
IsIn-map n [] i = elim i [ ]
IsIn-map n (s ∷ ss) (here e) = (s, here refl, sym e)
IsIn-map n (s ∷ ss) (there i) = let (t, is_in, e) = IsIn-map n ss i in (t, there is_in, e)

map-IsIn :
    (s : Bytes) (ss : List Bytes) → IsIn s ss → IsIn (normalize_member s) (map normalize_member ss)
map-IsIn s [] i = elim i [ ]
map-IsIn s (t ∷ ss) (here e) = here (ap normalize_member e)
map-IsIn s (t ∷ ss) (there i) = there (map-IsIn s ss i)

is_member-insert_key :
    (n k : Bytes) (ns : List Bytes)
    → is_member n (insert_key k ns) ≡ (bytes_eq n k || is_member n ns)
unfolding insert_key
is_member-insert_key n k [] = ground arith
is_member-insert_key n k (x ∷ ns) = elim (Bool-cases (bytes_eq k x)) [
  | inl same ↦ rw ((bytes_eq_iff k x).0 same, same_self x) (ground arith)
  | inr differ ↦ ground (arith, is_member-insert_key n k ns)
]
  where
    same_self : (x : Bytes) → bytes_eq x x ≡ true
    same_self x = (bytes_eq_iff x x).1 refl

is_member-empty_directories :
    (files : List Bytes) (n : Bytes) (ds : List Bytes)
    → is_member n (empty_directories files ds) ≡ (is_member n ds && not (is_occupied files n))
unfolding empty_directories
is_member-empty_directories files n [] = refl
is_member-empty_directories files n (d ∷ ds) =
    let ih = is_member-empty_directories files n ds in
    elim (Bool-cases (bytes_eq n d)) [
      | inl same ↦
          let e = (bytes_eq_iff n d).0 same in
          let alike : is_occupied files n ≡ is_occupied files d = ap (is_occupied files) e in
          ground (arith, is_member-insert_key n d (empty_directories files ds))
      | inr differ ↦ ground (arith, is_member-insert_key n d (empty_directories files ds))
    ]

-- A name that was asked for.
abbrev pub IsStripped : List Bytes → Bytes → Type 0
IsStripped strip n = (s : Bytes) × IsIn s strip × (normalize_member s ≡ n)

-- A directory with no file under it that stays.
abbrev pub IsEmptied : List Member → List Bytes → Bytes → Type 0
IsEmptied ms strip n = IsDirectory ms n × ¬ HoldsFile ms (strip_set strip) n

pruned-IsEmptied :
    (ms : List Member) (strip : List Bytes) (n : Bytes)
    → is_empty n ≡ false
    → (is_member n (drop_set ms strip).1 ≡ true) ↔ IsEmptied ms strip n
unfolding drop_set
pruned-IsEmptied ms strip n named =
    let files = surviving_files (strip_set strip) ms in
    let both = is_member-empty_directories files n (directories ms) in
    (
      λ h.
          let is_directory : is_member n (directories ms) ≡ true = ground arith in
          let unoccupied : is_occupied files n ≡ false = ground arith in
          (
            IsIn-directories n ms (is_member-IsIn n (directories ms) is_directory),
            λ holds.
                let yes' = HoldsFile-occupied (strip_set strip) n ms named holds in ground arith,
          ),
      λ e.
          let (m, i, d, same) = e.0 in
          let in_directories =
            IsIn-is_member n (directories ms)
              (subst (λ x. IsIn x (directories ms)) same (directories-IsIn m ms i d)) in
          elim (Bool-cases (is_occupied files n)) [
            | inl y ↦ absurd (e.1 (occupied-HoldsFile (strip_set strip) n ms named y))
            | inr unoccupied ↦ ground arith
          ],
    )

-- A name other than the empty name of the root is dropped by a rewrite exactly if it is one of the names
-- that were asked for, or that of a directory of the archive under which no file stays; the pruned names
-- other than the root's are these directories.
pub drop_set-IsDropped :
    (ms : List Member) (strip : List Bytes) (n : Bytes)
    → is_empty n ≡ false
    → ((is_member n (drop_set ms strip).0 ≡ true) ↔ (IsStripped strip n ⊎ IsEmptied ms strip n))
      × ((is_member n (drop_set ms strip).1 ≡ true) ↔ IsEmptied ms strip n)
unfolding drop_set strip_set
drop_set-IsDropped ms strip n named =
    let pruned = (drop_set ms strip).1 in
    let split = is_member-append n (strip_set strip) pruned in
    (
      (
        λ h. elim (Bool-cases (is_member n (strip_set strip))) [
          | inl asked ↦ inl (IsIn-map n strip (is_member-IsIn n (strip_set strip) asked))
          | inr not_asked ↦ inr ((pruned-IsEmptied ms strip n named).0 (ground arith))
        ],
        λ e. elim e [
          | inl (s, i, same) ↦
              let asked =
                IsIn-is_member n (strip_set strip)
                  (subst (λ x. IsIn x (strip_set strip)) same (map-IsIn s strip i)) in
              ground arith
          | inr emptied ↦
              let is_pruned = (pruned-IsEmptied ms strip n named).1 emptied in ground arith
        ],
      ),
      pruned-IsEmptied ms strip n named,
    )
