-- ===== src/Brief/Findings/Sorted.antt =====
-- SortFindings keeps every finding, and puts the more severe ones first.
use mathlib.Core.List.{Perm}
use mathlib.Core.List.Perm
use prolewatch.Prelude.{ℕ, ◌≤◌, ◌≡◌, true, false, List, [], ◌∷◌, arith, Bool-cases, inl, inr, All}
use prolewatch.Brief.Findings.{
  Finding, sort_severity_rank, finding_less, insert_finding, sort_findings,
}

-- By rank: critical findings have rank 0, and those that only inform rank 4.
abbrev pub BySeverity : List Finding → Type 0
BySeverity [] = Unit
BySeverity (x ∷ xs) =
    All (λ y. sort_severity_rank x.severity ≤ sort_severity_rank y.severity) xs × BySeverity xs

insert_finding-Perm : (x : Finding) (ys : List Finding) → Perm (insert_finding x ys) (x ∷ ys)
unfolding insert_finding
insert_finding-Perm x [] = Perm.refl (x ∷ [])
insert_finding-Perm x (y ∷ ys) = elim (Bool-cases (finding_less y x)) [
  | inl less ↦ rw less (Perm.trans (Perm.cons y (insert_finding-Perm x ys)) (Perm.swap x y ys))
  | inr other ↦ rw other (Perm.refl (x ∷ y ∷ ys))
]

sort_findings-Perm : (xs : List Finding) → Perm (sort_findings xs) xs
unfolding sort_findings
sort_findings-Perm [] = Perm.refl []
sort_findings-Perm (x ∷ xs) =
    Perm.trans (insert_finding-Perm x (sort_findings xs)) (Perm.cons x (sort_findings-Perm xs))

finding_less-rank :
    (a b : Finding)
    → finding_less a b ≡ true
    → sort_severity_rank a.severity ≤ sort_severity_rank b.severity
unfolding finding_less
finding_less-rank a b h = ground arith

not_finding_less-rank :
    (a b : Finding)
    → finding_less a b ≡ false
    → sort_severity_rank b.severity ≤ sort_severity_rank a.severity
unfolding finding_less
not_finding_less-rank a b h = ground arith

abbrev Below : ℕ → List Finding → Type 0
Below n = All (λ y. n ≤ sort_severity_rank y.severity)

Below-le : (m n : ℕ) (xs : List Finding) → m ≤ n → Below n xs → Below m xs
Below-le m n [] h b = tt
Below-le m n (x ∷ xs) h b = (omega (arith, b.0), Below-le m n xs h b.1)

Below-insert :
    (n : ℕ) (x : Finding) (ys : List Finding)
    → n ≤ sort_severity_rank x.severity
    → Below n ys
    → Below n (insert_finding x ys)
unfolding insert_finding
Below-insert n x [] h b = (h, tt)
Below-insert n x (y ∷ ys) h b = elim (Bool-cases (finding_less y x)) [
  | inl less ↦ rw less (b.0, Below-insert n x ys h b.1)
  | inr other ↦ rw other (h, b)
]

BySeverity-insert :
    (x : Finding) (ys : List Finding) → BySeverity ys → BySeverity (insert_finding x ys)
unfolding insert_finding
BySeverity-insert x [] b = (tt, tt)
BySeverity-insert x (y ∷ ys) b = elim (Bool-cases (finding_less y x)) [
  | inl less ↦ rw less (
    Below-insert (sort_severity_rank y.severity) x ys (finding_less-rank y x less) b.0,
    BySeverity-insert x ys b.1,
  )
  | inr other ↦
      let le = not_finding_less-rank y x other in
      rw other (
        (le, Below-le (sort_severity_rank x.severity) (sort_severity_rank y.severity) ys le b.0),
        b,
      )
]

sort_findings-BySeverity : (xs : List Finding) → BySeverity (sort_findings xs)
unfolding sort_findings
sort_findings-BySeverity [] = tt
sort_findings-BySeverity (x ∷ xs) =
    BySeverity-insert x (sort_findings xs) (sort_findings-BySeverity xs)

-- Sorting the findings of a report loses none, adds none and repeats none, and leaves them by
-- falling severity.
pub sort_findings-IsSorted :
    (xs : List Finding) → Perm (sort_findings xs) xs × BySeverity (sort_findings xs)
sort_findings-IsSorted xs = (sort_findings-Perm xs, sort_findings-BySeverity xs)
