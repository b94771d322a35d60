-- ===== src/Prelude/Decimal.antt =====
-- strconv.Itoa on a number that is not negative, and what a reader of its digits finds.
use Prim.Native.Nat.{ℕ, zero, suc, ◌+◌, ◌-◌, ◌*◌, ◌/◌, ◌%◌, ◌^◌, ◌<◌}
use mathlib.Core.Path.{◌≡◌, refl, ap, sym, ◌∙◌}
use mathlib.Core.Logic.{inl, inr}
use mathlib.Core.Bool.{Bool, true, not, ◌&&◌}
use mathlib.Core.Option.{Option, none, some}
use mathlib.Core.List.{[], ◌∷◌, ◌++◌}
use native.Mathlib.Omega.{arith}
use prolewatch.Prelude.Tests.{ltb, leb, ◌==◌, if◌then◌else◌, Bool-cases}
use prolewatch.Prelude.Lists.{all}
use prolewatch.Prelude.Text.{Bytes, is_empty}
use prolewatch.Prelude.Integers.{ℤ, pos, negsuc}

abbrev pub is_digit : ℕ → Bool
is_digit c = leb b'0' c && leb c b'9'

-- A round makes the last digit; a number has at most as many digits as it counts, so that
-- `suc n` rounds are enough for `n`.
decimal_fuel : ℕ → ℕ → Bytes
decimal_fuel zero n = []
decimal_fuel (suc fuel) n =
    let rest = decimal_fuel fuel (n / 10) ++ (b'0' + n % 10) ∷ [] in
    if ltb n 10 then (b'0' + n) ∷ [] else rest

unfoldable pub decimal : ℕ → Bytes
unfolding decimal_fuel
decimal n = decimal_fuel (suc n) n

-- The number that digits stand for, behind those that are read already.
unfoldable pub value : ℕ → Bytes → ℕ
value acc [] = acc
value acc (c ∷ s) = value (acc * 10 + (c - b'0')) s

value-append : (acc : ℕ) (s t : Bytes) → value acc (s ++ t) ≡ value (value acc s) t
unfolding value
value-append acc [] t = refl
value-append acc (c ∷ s) t = value-append (acc * 10 + (c - b'0')) s t

value_last : (m r : ℕ) → value m ((b'0' + r) ∷ []) ≡ m * 10 + r
unfolding value
value_last m r = omega arith

value-decimal_fuel : (fuel n : ℕ) → n < fuel → value 0 (decimal_fuel fuel n) ≡ n
unfolding decimal_fuel
value-decimal_fuel zero n h = elim h [ ]
value-decimal_fuel (suc fuel) n h = elim (Bool-cases (ltb n 10)) [
  | inl small ↦ rw small (value_last 0 n ∙ omega arith)
  | inr big ↦ rw big (
      value-append 0 (decimal_fuel fuel (n / 10)) ((b'0' + n % 10) ∷ [])
      ∙ value_last (value 0 (decimal_fuel fuel (n / 10))) (n % 10)
      ∙ last (value-decimal_fuel fuel (n / 10) (ground arith)))
]
  where
    last : {m : ℕ} → m ≡ n / 10 → m * 10 + n % 10 ≡ n
    last e = omega arith

all_append :
    (s : Bytes) (c : ℕ)
    → all is_digit s ≡ true
    → is_digit c ≡ true
    → all is_digit (s ++ c ∷ []) ≡ true
all_append [] c h g = ground arith
all_append (x ∷ s) c h g = ground (arith, all_append s c)

all-decimal_fuel : (fuel n : ℕ) → all is_digit (decimal_fuel fuel n) ≡ true
unfolding decimal_fuel
all-decimal_fuel zero n = refl
all-decimal_fuel (suc fuel) n =
    ground (
      arith,
      all-decimal_fuel fuel (n / 10),
      all_append (decimal_fuel fuel (n / 10)) (b'0' + n % 10),
    )

-- strconv.ParseUint in base 10, for the numbers below the limit.
unfoldable pub parse_uint : ℕ → Bytes → Option ℕ
unfolding value
parse_uint limit s =
    if not (is_empty s) && all is_digit s && ltb (value 0 s) limit then some (value 0 s) else none

abbrev pos_of : Option ℕ → Option ℤ
pos_of none = none
pos_of (some n) = some (pos n)

abbrev negative_of : Option ℕ → Option ℤ
negative_of none = none
negative_of (some zero) = some (pos 0)
negative_of (some (suc n)) = some (negsuc n)

-- strconv.Atoi, where an int has 64 bits.
unfoldable pub atoi : Bytes → Option ℤ
unfolding parse_uint
atoi [] = none
atoi (c ∷ s) =
    if c == b'-'
    then negative_of (parse_uint (2 ^ 63 + 1) s)
    else if c == b'+'
    then pos_of (parse_uint (2 ^ 63) s)
    else pos_of (parse_uint (2 ^ 63) (c ∷ s))

pub parse_uint-lt : (limit : ℕ) (s : Bytes) (n : ℕ) → parse_uint limit s ≡ some n → n < limit
unfolding parse_uint
parse_uint-lt limit s n h = ground arith

pub decimal-digits : (n : ℕ) → all is_digit (decimal n) ≡ true
unfolding decimal
decimal-digits n = all-decimal_fuel (suc n) n

pub decimal_injective : (m n : ℕ) → decimal m ≡ decimal n → m ≡ n
unfolding decimal
decimal_injective m n e =
    sym (value-decimal_fuel (suc m) m (omega arith))
    ∙ ap (value 0) e
    ∙ value-decimal_fuel (suc n) n (omega arith)
