-- ===== src/Egress/Tunnel/Cursor.antt =====
-- internal/egress/broker.go: byteCursor, which takes bytes off the front and remembers a failure.
use prolewatch.Prelude.{
  ℕ, ◌+◌, ◌*◌, Bool, true, false, ◌||◌, ◌∷◌, Option, none, some, ltb, if◌then◌else◌, length, take,
  drop, Bytes,
}

pub record Cursor : Type 0 where
  pub rest : Bytes
  pub failed : Bool

abbrev pub start : Bytes → Cursor
start s = record { rest = s; failed = false }

unfoldable pub take_bytes : ℕ → Cursor → Option Bytes × Cursor
take_bytes n c =
    if c.failed || ltb (length c.rest) n
    then (none, record c { failed = true })
    else (some (take n c.rest), record c { rest = drop n c.rest })

abbrev byte_or_zero : Option Bytes → ℕ
byte_or_zero (some (x ∷ s)) = x
byte_or_zero _ = 0

-- Big-endian, and 0 where nothing was taken.
abbrev word_or_zero : Option Bytes → ℕ
word_or_zero (some (x ∷ y ∷ s)) = x * 256 + y
word_or_zero _ = 0

unfoldable pub take_u8 : Cursor → ℕ × Cursor
unfolding take_bytes
take_u8 c = let (value, after) = take_bytes 1 c in (byte_or_zero value, after)

unfoldable pub take_u16 : Cursor → ℕ × Cursor
unfolding take_bytes
take_u16 c = let (value, after) = take_bytes 2 c in (word_or_zero value, after)

-- `c.take(c.u8())` and `c.take(c.u16())`.
unfoldable pub take_u8_bytes : Cursor → Option Bytes × Cursor
unfolding take_bytes take_u8
take_u8_bytes c = let (n, after) = take_u8 c in take_bytes n after

unfoldable pub take_u16_bytes : Cursor → Option Bytes × Cursor
unfolding take_bytes take_u16
take_u16_bytes c = let (n, after) = take_u16 c in take_bytes n after
