-- ===== src/Safe/Content.antt =====
-- internal/safe/safe.go: ContentValidator, with utf8.FullRune and utf8.DecodeRune of Go as one reader of
-- the first rune.
pub mod Stable
pub mod Chunks
use prolewatch.Prelude.{
  ℕ, suc, Bool, true, false, not, ◌&&◌, ◌||◌, List, [], ◌∷◌, ◌++◌, leb, ◌==◌, if◌then◌else◌, length,
  any, Bytes, is_empty,
}

-- How many bytes a rune has that starts with this byte; 0 if none does.
unfoldable pub rune_length : ℕ → ℕ
rune_length c =
    if leb c 0x7f
    then 1
    else if leb c 0xc1
    then 0
    else if leb c 0xdf
    then 2
    else if leb c 0xef
    then 3
    else if leb c 0xf4
    then 4
    else 0

-- The range of the second byte, and the continuation bytes.
unfoldable pub second_ok : ℕ → ℕ → Bool
second_ok c x =
    leb (if c == 0xe0 then 0xa0 else if c == 0xf0 then 0x90 else 0x80) x
    && leb x (if c == 0xed then 0x9f else if c == 0xf4 then 0x8f else 0xbf)

abbrev pub is_continuation : ℕ → Bool
is_continuation y = leb 0x80 y && leb y 0xbf

-- The first rune of the data: not yet whole, or read, valid or not, with the data behind it. An invalid
-- one is a byte long.
pub data Rune : Type 0 where
  partial : Rune
  rune : Bool → Bytes → Rune

unfoldable pub fourth : Bytes → Bytes → Rune
fourth tail [] = partial
fourth tail (z ∷ s) = if is_continuation z then rune true s else rune false tail

unfoldable pub third : ℕ → Bytes → Bytes → Rune
unfolding fourth
third n tail [] = partial
third n tail (y ∷ s) =
    if not (is_continuation y)
    then rune false tail
    else if n == 3
    then rune true s
    else fourth tail s

unfoldable pub second : ℕ → ℕ → Bytes → Bytes → Rune
unfolding third second_ok
second n c tail [] = partial
second n c tail (x ∷ s) =
    if not (second_ok c x) then rune false tail else if n == 2 then rune true s else third n tail s

unfoldable pub read_rune : Bytes → Rune
unfolding second rune_length
read_rune [] = partial
read_rune (c ∷ s) =
    let n = rune_length c in
    if n == 0 then rune false s else if n == 1 then rune true s else second n c s s

pub record ContentValidator : Type 0 where
  pub carry : Bytes
  pub nul : Bool
  pub invalid : Bool

abbrev pub mark : Bool → Bytes × Bool → Bytes × Bool
mark ok (carry, invalid) = (carry, not ok || invalid)

-- A round: the loop ends, or goes on behind the rune.
abbrev pub scan_rune : (Bytes → Bytes × Bool) → Bytes → Rune → Bytes × Bool
scan_rune loop bytes partial = (bytes, false)
scan_rune loop bytes (rune ok rest) = mark ok (loop rest)

-- The loop: what is left over, and whether a rune was invalid. A round takes a byte at least.
unfoldable pub scan : ℕ → Bytes → Bytes × Bool
unfolding read_rune
scan ℕ.zero bytes = (bytes, false)
scan (suc fuel) bytes = scan_rune (λ rest. scan fuel rest) bytes (read_rune bytes)

unfoldable pub write : ContentValidator → Bytes → ContentValidator
unfolding scan
write v value =
    let bytes = v.carry ++ value in
    let (carry, invalid) = scan (length bytes) bytes in
    record { carry = carry; nul = any (λ c. c == 0) value || v.nul; invalid = v.invalid || invalid }

unfoldable pub write_all : ContentValidator → List Bytes → ContentValidator
unfolding write
write_all v [] = v
write_all v (c ∷ cs) = write_all (write v c) cs

unfoldable pub finish : ContentValidator → ContentValidator
finish v = record v { invalid = v.invalid || not (is_empty v.carry) }

abbrev pub fresh : ContentValidator
fresh = record { carry = []; nul = false; invalid = false }
