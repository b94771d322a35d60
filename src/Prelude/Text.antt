-- ===== src/Prelude/Text.antt =====
-- Go strings that the program walks, as lists of bytes, with the functions of package strings
-- that it uses on them.
use Prim.Native.Nat.{ℕ, suc, ◌+◌, ◌-◌}
use Prim.Native.Char.{code}
use Prim.Native.String.{String}
use mathlib.Core.Path.{◌≡◌, refl}
use mathlib.Core.Logic.{◌↔◌}
use mathlib.Core.Bool.{Bool, true, false, ◌&&◌, ◌||◌}
use mathlib.Core.List.{List, [], ◌∷◌, ◌++◌, map}
use mathlib.Core.Option.{Option, none, some}
use native.Mathlib.Omega.{arith}
use prolewatch.Prelude.Tests.{leb, ◌==◌, if◌then◌else◌}

abbrev pub Bytes : Type 0
Bytes = List ℕ

abbrev pub concat : List Bytes → Bytes
concat [] = []
concat (s ∷ ss) = s ++ concat ss

-- The bytes of an ASCII literal.
abbrev pub codes : String → Bytes
codes String.[] = []
codes (String.◌∷◌ c s) = code c ∷ codes s

unfoldable pub bytes_eq : Bytes → Bytes → Bool
bytes_eq [] [] = true
bytes_eq (x ∷ xs) (y ∷ ys) = x == y && bytes_eq xs ys
bytes_eq _ _ = false

pub bytes_eq_iff : (a b : Bytes) → (bytes_eq a b ≡ true) ↔ (a ≡ b)
unfolding bytes_eq
bytes_eq_iff (x ∷ a) (y ∷ b) = ground (arith, bytes_eq_iff a b)
bytes_eq_iff _ _ = ground arith

-- strings.HasPrefix, with the prefix first.
unfoldable pub has_prefix : Bytes → Bytes → Bool
has_prefix [] s = true
has_prefix (x ∷ p) [] = false
has_prefix (x ∷ p) (y ∷ s) = x == y && has_prefix p s

-- strings.ToLower on ASCII bytes.
abbrev pub lower : ℕ → ℕ
lower c = if leb b'A' c && leb c b'Z' then c + 32 else c

abbrev pub to_lower : Bytes → Bytes
to_lower = map lower

-- strings.TrimSuffix for a suffix of one byte.
abbrev pub trim_last : ℕ → Bytes → Bytes
trim_last c [] = []
trim_last c (x ∷ []) = if x == c then [] else x ∷ []
trim_last c (x ∷ y ∷ s) = x ∷ trim_last c (y ∷ s)

-- strings.Split at one byte: never empty.
abbrev pub cons_head : ℕ → List Bytes → List Bytes
cons_head x [] = (x ∷ []) ∷ []
cons_head x (w ∷ ws) = (x ∷ w) ∷ ws

abbrev pub split_at : ℕ → Bytes → List Bytes
split_at c [] = [] ∷ []
split_at c (x ∷ s) = let rest = split_at c s in if x == c then [] ∷ rest else cons_head x rest

-- The byte of a suffix test, and the text without its last byte.
abbrev pub last_is : ℕ → Bytes → Bool
last_is c [] = false
last_is c (x ∷ []) = x == c
last_is c (x ∷ y ∷ s) = last_is c (y ∷ s)

abbrev pub init : Bytes → Bytes
init [] = []
init (x ∷ []) = []
init (x ∷ y ∷ s) = x ∷ init (y ∷ s)

abbrev pub first_is : ℕ → Bytes → Bool
first_is c [] = false
first_is c (x ∷ s) = x == c

-- strings.Trim with a set of bytes, given by its test.
abbrev pub trim_left : (ℕ → Bool) → Bytes → Bytes
trim_left p [] = []
trim_left p (x ∷ s) = let rest = trim_left p s in if p x then rest else x ∷ s

abbrev pub unless_blank : (ℕ → Bool) → ℕ → Bytes → Bytes
unless_blank p x [] = if p x then [] else x ∷ []
unless_blank p x (y ∷ s) = x ∷ y ∷ s

abbrev pub trim_right : (ℕ → Bool) → Bytes → Bytes
trim_right p [] = []
trim_right p (x ∷ s) = unless_blank p x (trim_right p s)

abbrev pub trim : (ℕ → Bool) → Bytes → Bytes
trim p s = trim_right p (trim_left p s)

-- strings.Cut at one byte: what stands in front of it and behind it.
abbrev pub cut_cons : ℕ → Option (Bytes × Bytes) → Option (Bytes × Bytes)
cut_cons x none = none
cut_cons x (some (a, b)) = some (x ∷ a, b)

unfoldable pub cut : ℕ → Bytes → Option (Bytes × Bytes)
cut c [] = none
cut c (x ∷ s) = let rest = cut_cons x (cut c s) in if x == c then some ([], s) else rest

-- strings.HasSuffix, with the suffix first.
abbrev drop_bytes : ℕ → Bytes → Bytes
drop_bytes ℕ.zero s = s
drop_bytes (suc n) [] = []
drop_bytes (suc n) (x ∷ s) = drop_bytes n s

abbrev count_bytes : Bytes → ℕ
count_bytes [] = 0
count_bytes (x ∷ s) = suc (count_bytes s)

unfoldable pub has_suffix : Bytes → Bytes → Bool
unfolding bytes_eq
has_suffix p s = bytes_eq (drop_bytes (count_bytes s - count_bytes p) s) p

abbrev pub is_empty : Bytes → Bool
is_empty [] = true
is_empty (x ∷ s) = false

-- Membership of a text in a list of texts: a Go map from strings to true.
abbrev pub is_member : Bytes → List Bytes → Bool
is_member s [] = false
is_member s (t ∷ ts) = bytes_eq s t || is_member s ts

-- The order of Go strings: by bytes.
unfoldable pub bytes_lt : Bytes → Bytes → Bool
bytes_lt s [] = false
bytes_lt [] (y ∷ t) = true
bytes_lt (x ∷ s) (y ∷ t) = let rest = bytes_lt s t in if x == y then rest else leb x y

pub bytes_eq_refl : (s : Bytes) → bytes_eq s s ≡ true
bytes_eq_refl s = (bytes_eq_iff s s).1 refl

pub has_prefix-append : (p s : Bytes) → has_prefix p (p ++ s) ≡ true
unfolding has_prefix
has_prefix-append [] s = refl
has_prefix-append (x ∷ p) s = ground (arith, has_prefix-append p s)

count_bytes-append : (s p : Bytes) → count_bytes (s ++ p) ≡ count_bytes s + count_bytes p
count_bytes-append [] p = omega arith
count_bytes-append (x ∷ s) p = omega (arith, count_bytes-append s p)

drop_bytes-append : (s p : Bytes) → drop_bytes (count_bytes s) (s ++ p) ≡ p
drop_bytes-append [] p = refl
drop_bytes-append (x ∷ s) p = drop_bytes-append s p

pub has_suffix-append : (p s : Bytes) → has_suffix p (s ++ p) ≡ true
unfolding has_suffix
has_suffix-append p s =
    let rest : count_bytes (s ++ p) - count_bytes p ≡ count_bytes s =
      omega (arith, count_bytes-append s p) in
    rw (rest, drop_bytes-append s p) (bytes_eq_refl p)
