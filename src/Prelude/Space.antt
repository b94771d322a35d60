-- ===== src/Prelude/Space.antt =====
-- strings.TrimSpace: it removes the white space of Unicode, in its UTF-8 form, from both ends.
use Prim.Native.Nat.{ℕ, zero, suc}
use mathlib.Core.Bool.{Bool, ◌&&◌, ◌||◌}
use mathlib.Core.List.{List, [], ◌∷◌, reverse}
use mathlib.Core.Option.{Option, none, some}
use prolewatch.Prelude.Tests.{leb, ◌==◌, if◌then◌else◌}
use prolewatch.Prelude.Lists.{length}
use prolewatch.Prelude.Text.{Bytes}

abbrev is_blank : ℕ → Bool
is_blank c = c == 32 || (leb 9 c && leb c 13)

abbrev is_blank_pair : ℕ → ℕ → Bool
is_blank_pair x y = x == 194 && (y == 133 || y == 160)

abbrev is_blank_triple : ℕ → ℕ → ℕ → Bool
is_blank_triple x y z =
    (x == 225 && y == 154 && z == 128)
    || (x == 226 && y == 128 && ((leb 128 z && leb z 138) || z == 168 || z == 169 || z == 175))
    || (x == 226 && y == 129 && z == 159)
    || (x == 227 && y == 128 && z == 128)

-- The text behind a white space character in front; in the second, the bytes stand backwards.
abbrev after_space : Bytes → Option Bytes
after_space [] = none
after_space (x ∷ []) = if is_blank x then some [] else none
after_space (x ∷ y ∷ []) =
    if is_blank x then some (y ∷ []) else if is_blank_pair x y then some [] else none
after_space (x ∷ y ∷ z ∷ s) =
    if is_blank x
    then some (y ∷ z ∷ s)
    else if is_blank_pair x y
    then some (z ∷ s)
    else if is_blank_triple x y z
    then some s
    else none

abbrev before_space : Bytes → Option Bytes
before_space [] = none
before_space (x ∷ []) = if is_blank x then some [] else none
before_space (x ∷ y ∷ []) =
    if is_blank x then some (y ∷ []) else if is_blank_pair y x then some [] else none
before_space (x ∷ y ∷ z ∷ s) =
    if is_blank x
    then some (y ∷ z ∷ s)
    else if is_blank_pair y x
    then some (z ∷ s)
    else if is_blank_triple z y x
    then some s
    else none

-- Each turn removes a byte at least, so the length is fuel enough.
abbrev strip : (Bytes → Option Bytes) → ℕ → Bytes → Bytes
strip next zero s = s
strip next (suc n) s = elim (next s) [ none ↦ s | some rest ↦ strip next n rest ]

unfoldable pub trim_space : Bytes → Bytes
trim_space s =
    let front = strip after_space (length s) s in
    reverse (strip before_space (length front) (reverse front))

-- strings.Fields; `word` is the field that is being read, backwards. Each turn takes a byte at least.
abbrev flush : Bytes → List Bytes → List Bytes
flush [] rest = rest
flush (c ∷ w) rest = reverse (c ∷ w) ∷ rest

abbrev fields_from : ℕ → Bytes → Bytes → List Bytes
fields_from zero word s = flush word []
fields_from (suc n) word [] = flush word []
fields_from (suc n) word (c ∷ s) = elim (after_space (c ∷ s)) [
  | some rest ↦ flush word (fields_from n [] rest)
  | none ↦ fields_from n (c ∷ word) s
]

unfoldable pub fields : Bytes → List Bytes
fields s = fields_from (length s) [] s
