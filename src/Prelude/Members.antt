-- ===== src/Prelude/Members.antt =====
-- Lists of texts that stand for Go maps to true.
use mathlib.Core.Path.{◌≡◌, refl}
use mathlib.Core.Bool.{true, ◌||◌}
use mathlib.Core.Logic.{inl, inr}
use mathlib.Core.List.{List, [], ◌∷◌, ◌++◌}
use native.Mathlib.Omega.{arith}
use prolewatch.Prelude.Tests.{Bool-cases, if◌then◌else◌}
use prolewatch.Prelude.Lists.{IsIn, here, there}
use prolewatch.Prelude.Text.{Bytes, bytes_eq, bytes_eq_iff, bytes_lt, is_member}

-- Membership of a text in the two ways to say it.
pub is_member-IsIn : (n : Bytes) (ns : List Bytes) → is_member n ns ≡ true → IsIn n ns
is_member-IsIn n [] h = absurd (ground arith)
is_member-IsIn n (x ∷ ns) h = elim (Bool-cases (bytes_eq n x)) [
  | inl this ↦ here ((bytes_eq_iff n x).0 this)
  | inr other ↦ there (is_member-IsIn n ns (ground arith))
]

pub IsIn-is_member : (n : Bytes) (ns : List Bytes) → IsIn n ns → is_member n ns ≡ true
IsIn-is_member n [] i = elim i [ ]
IsIn-is_member n (x ∷ ns) (here e) = ground (arith, (bytes_eq_iff n x).1 e)
IsIn-is_member n (x ∷ ns) (there i) = ground (arith, IsIn-is_member n ns i)

pub is_member-append :
    (n : Bytes) (a b : List Bytes) → is_member n (a ++ b) ≡ (is_member n a || is_member n b)
is_member-append n [] b = refl
is_member-append n (x ∷ a) b = ground (arith, is_member-append n a b)

-- A new key in the list of a map's keys, in the order of sort.Strings.
unfoldable pub insert_key : Bytes → List Bytes → List Bytes
insert_key k [] = k ∷ []
insert_key k (n ∷ ns) =
    let rest = insert_key k ns in
    if bytes_eq k n then n ∷ ns else if bytes_lt n k then n ∷ rest else k ∷ n ∷ ns
