-- ===== src/Tests/Contents.antt =====
-- Examples for the content validator of internal/safe.
use prolewatch.Prelude.{◌≡◌, refl, true, [], ◌∷◌, List, Bytes}
use prolewatch.Safe.Content.{
  fresh, finish, write_all, write, scan, read_rune, second, third, fourth, second_ok, rune_length,
}
use prolewatch.Safe.Content.Chunks.{write_all-cut}

-- The letter a and the euro sign, which is cut after its first byte; in the other list, not at all.
abbrev cut_apart : List Bytes
cut_apart = (b'a' ∷ 0xe2 ∷ []) ∷ [] ∷ (0x82 ∷ 0xac ∷ []) ∷ []

abbrev in_one : List Bytes
in_one = (b'a' ∷ 0xe2 ∷ 0x82 ∷ 0xac ∷ []) ∷ []

write_all-cut_example : finish (write_all fresh cut_apart) ≡ finish (write_all fresh in_one)
write_all-cut_example = write_all-cut cut_apart in_one refl

valid_test : finish (write_all fresh cut_apart) ≡ fresh
unfolding finish write_all write scan read_rune second third fourth second_ok rune_length
valid_test = refl

-- A surrogate, and a rune that does not end.
invalid_test : (finish (write_all fresh ((0xed ∷ 0xa0 ∷ 0x80 ∷ []) ∷ []))).invalid ≡ true
unfolding finish write_all write scan read_rune second third fourth second_ok rune_length
invalid_test = refl

unfinished_test : (finish (write_all fresh ((0xf0 ∷ 0x9f ∷ []) ∷ []))).invalid ≡ true
unfolding finish write_all write scan read_rune second third fourth second_ok rune_length
unfinished_test = refl
