-- ===== src/Brief/Findings.antt =====
-- internal/brief/models.go: findings, and SortFindings. A string is the list of its bytes; a line is a
-- positive number or nil. A word that is no key of a rank map has rank 0.
pub mod Sorted
use prolewatch.Prelude.{
  ℕ, Bool, true, false, not, ◌&&◌, ◌||◌, List, [], ◌∷◌, Option, none, some, ltb, ◌==◌,
  if◌then◌else◌, Bytes, bytes_eq, bytes_lt, codes,
}

pub record Finding : Type 0 where
  pub source : Bytes
  pub severity : Bytes
  pub category : Bytes
  pub file : Bytes
  pub line : Option ℕ
  pub evidence : Bytes
  pub rationale : Bytes
  pub rule_id : Bytes
  pub hard_block : Bool

unfoldable pub sort_severity_rank : Bytes → ℕ
sort_severity_rank s =
    if bytes_eq s (codes "high")
    then 1
    else if bytes_eq s (codes "medium")
    then 2
    else if bytes_eq s (codes "low")
    then 3
    else if bytes_eq s (codes "info")
    then 4
    else 0

unfoldable pub source_rank : Bytes → ℕ
source_rank s = if bytes_eq s (codes "ai") then 1 else 0

abbrev pub line_number : Option ℕ → ℕ
line_number none = 0
line_number (some n) = n

-- The comparison that SortFindings hands to sort.SliceStable.
unfoldable pub finding_less : Finding → Finding → Bool
finding_less a b =
    let severity_a = sort_severity_rank a.severity in
    let severity_b = sort_severity_rank b.severity in
    let source_a = source_rank a.source in
    let source_b = source_rank b.source in
    if not (severity_a == severity_b)
    then ltb severity_a severity_b
    else if not (source_a == source_b)
    then ltb source_a source_b
    else if not (bytes_eq a.file b.file)
    then bytes_lt a.file b.file
    else if not (line_number a.line == line_number b.line)
    then ltb (line_number a.line) (line_number b.line)
    else if not (bytes_eq a.category b.category)
    then bytes_lt a.category b.category
    else bytes_lt a.rule_id b.rule_id

-- A stable sort: an element goes in front of those that are not less than it.
unfoldable pub insert_finding : Finding → List Finding → List Finding
insert_finding x [] = x ∷ []
insert_finding x (y ∷ ys) = if finding_less y x then y ∷ insert_finding x ys else x ∷ y ∷ ys

unfoldable pub sort_findings : List Finding → List Finding
unfolding insert_finding
sort_findings [] = []
sort_findings (x ∷ xs) = insert_finding x (sort_findings xs)
