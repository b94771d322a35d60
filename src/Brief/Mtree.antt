-- ===== src/Brief/Mtree.antt =====
-- internal/brief/mtree.go: DecodeMTreePath.
use prolewatch.Prelude.{
  ℕ, ◌+◌, ◌-◌, ◌*◌, Bool, ◌&&◌, ◌∷◌, leb, ltb, ◌==◌, if◌then◌else◌, any, Bytes,
}

abbrev is_octal : ℕ → Bool
is_octal c = leb b'0' c && leb c b'7'

abbrev octal_value : ℕ → ℕ → ℕ → ℕ
octal_value x y z = (x - b'0') * 64 + (y - b'0') * 8 + (z - b'0')

-- strconv.ParseUint in base 8 with 8 bits, on three bytes.
abbrev is_octal_byte : ℕ → ℕ → ℕ → Bool
is_octal_byte x y z = is_octal x && is_octal y && is_octal z && ltb (octal_value x y z) 256

-- The loop; three bytes have to follow a backslash. Base 8 is given to ParseUint, so that it takes no
-- underscore.
unfoldable pub decode_bytes : Bytes → Bytes
decode_bytes (c ∷ x ∷ y ∷ z ∷ s) =
    let plain = c ∷ decode_bytes (x ∷ y ∷ z ∷ s) in
    let decoded = octal_value x y z ∷ decode_bytes s in
    if c == b'\\' && is_octal_byte x y z then decoded else plain
decode_bytes s = s

unfoldable pub decode_mtree_path : Bytes → Bytes
unfolding decode_bytes
decode_mtree_path token = if any (λ c. c == b'\\') token then decode_bytes token else token
