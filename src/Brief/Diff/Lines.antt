-- ===== src/Brief/Diff/Lines.antt =====
-- The lines of a text with their line ends, in which the loop of unifiedDiffBehaviorText walks.
use prolewatch.Prelude.{
  ℕ, Bool, true, false, List, [], ◌∷◌, ◌++◌, ◌≡◌, refl, ◌==◌, if◌then◌else◌, Bytes, arith,
  Bool-cases, inl, inr, ==_iff,
}

-- A line up to its line feed, and whether it has one: the last line may have none.
pub record Line : Type 0 where
  pub raw : Bytes
  pub ended : Bool

abbrev pub push : ℕ → List Line → List Line
push c [] = record { raw = c ∷ []; ended = false } ∷ []
push c (l ∷ ls) = record l { raw = c ∷ l.raw } ∷ ls

unfoldable pub lines_of : Bytes → List Line
lines_of [] = []
lines_of (c ∷ s) =
    let rest = lines_of s in
    if c == b'\n' then record { raw = []; ended = true } ∷ rest else push c rest

abbrev pub line_end : Bool → Bytes
line_end true = b'\n' ∷ []
line_end false = []

abbrev pub join_lines : List Line → Bytes
join_lines [] = []
join_lines (l ∷ ls) = l.raw ++ (line_end l.ended ++ join_lines ls)

join_lines-push : (c : ℕ) (ls : List Line) → join_lines (push c ls) ≡ c ∷ join_lines ls
join_lines-push c [] = refl
join_lines-push c (l ∷ ls) = refl

pub join_lines-lines_of : (s : Bytes) → join_lines (lines_of s) ≡ s
unfolding lines_of
join_lines-lines_of [] = refl
join_lines-lines_of (c ∷ s) = elim (Bool-cases (c == b'\n')) [
  | inl e ↦ rw e (ground (arith, join_lines-lines_of s, (==_iff c b'\n').0 e))
  | inr e ↦ rw e (ground (arith, join_lines-lines_of s, join_lines-push c (lines_of s)))
]
