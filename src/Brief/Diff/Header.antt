-- ===== src/Brief/Diff/Header.antt =====
-- internal/brief/diff.go: unifiedDiffHunkCounts and unifiedDiffCount, with the pattern
-- `^@@ -([0-9]+)(?:,([0-9]+))? \+([0-9]+)(?:,([0-9]+))? @@(?: .*)?$` read from left to right: no
-- digit may follow a group of digits, so that the pattern matches in one way at most.
use prolewatch.Prelude.{
  ◌>>=◌, ℕ, ◌+◌, ◌-◌, ◌*◌, ◌^◌, Bool, true, false, [], ◌∷◌, Option, none, some, ltb, ◌==◌,
  if◌then◌else◌, length, Bytes, codes, is_digit,
}

abbrev uint64_mod : ℕ
uint64_mod = 2 ^ 64

-- The digits in front, and what follows them.
unfoldable pub span_digits : Bytes → Bytes × Bytes
span_digits [] = ([], [])
span_digits (c ∷ s) =
    let (digits, rest) = span_digits s in if is_digit c then (c ∷ digits, rest) else ([], c ∷ s)

abbrev digits_value : ℕ → Bytes → ℕ
digits_value acc [] = acc
digits_value acc (c ∷ s) = digits_value (acc * 10 + (c - b'0')) s

-- strconv.ParseUint(digits, 10, 64) on a text of digits.
unfoldable pub parse_uint64 : Bytes → Option ℕ
parse_uint64 digits =
    let n = digits_value 0 digits in
    if length digits == 0 then none else if ltb n uint64_mod then some n else none

-- What follows an expected text.
unfoldable pub expect : Bytes → Bytes → Option Bytes
expect [] s = some s
expect (x ∷ p) [] = none
expect (x ∷ p) (y ∷ s) = let rest = expect p s in if x == y then rest else none

-- A group of digits that must be there.
unfoldable pub digits : Bytes → Option (Bytes × Bytes)
unfolding span_digits
digits s = let (d, rest) = span_digits s in if length d == 0 then none else some (d, rest)

-- `(?:,([0-9]+))?`: the empty text where the group is absent.
abbrev optional_count : Option Bytes → Bytes → Option (Bytes × Bytes)
optional_count (some behind) s = digits behind
optional_count none s = some ([], s)

-- unifiedDiffCount: an absent count is 1.
unfoldable pub diff_count : Bytes → Option ℕ
unfolding parse_uint64
diff_count [] = some 1
diff_count (c ∷ s) = parse_uint64 (c ∷ s)

abbrev ends_header : Bytes → Bool
ends_header [] = true
ends_header (c ∷ s) = c == b' '

abbrev guard : Bool → Option (Unit {0})
guard true = some tt
guard false = none

unfoldable pub hunk_counts : Bytes → Option (ℕ × ℕ)
unfolding expect digits diff_count
hunk_counts line = do
  s ← expect (codes "@@ -") line
  (old_start, s) ← digits s
  (old_count, s) ← optional_count (expect (codes ",") s) s
  s ← expect (codes " +") s
  (new_start, s) ← digits s
  (new_count, s) ← optional_count (expect (codes ",") s) s
  s ← expect (codes " @@") s
  _ ← guard (ends_header s)
  _ ← parse_uint64 old_start
  _ ← parse_uint64 new_start
  old ← diff_count old_count
  new ← diff_count new_count
  some (old, new)
