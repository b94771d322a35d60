-- ===== src/Ui/Gate/Numbered.antt =====
-- The comma lists that the gate takes, and what they name.
use prolewatch.Prelude.{
  ℕ, zero, suc, ◌≡◌, refl, ap, inl, inr, false, List, [], ◌∷◌, map, Option, none, some, Bytes,
  arith, Bool-cases, Option-cases, some_injective, trim_space, atoi, ℤ, pos, negsuc,
}
use mathlib.Core.Path.{subst}
use prolewatch.Brief.Surfaces.{PrivilegedSurface}
use prolewatch.Ui.Gate.{surface_at, is_seen, position, prepended, numbered}

-- The number that a field gives.
abbrev pub read_number : Bytes → Option ℤ
read_number field = atoi (trim_space field)

-- The number under which a position is shown.
abbrev pub shown : ℕ → Option ℤ
shown n = some (pos (suc n))

abbrev pub member_at : List PrivilegedSurface → ℕ → Option Bytes
member_at ss n = elim (surface_at n ss) [ none ↦ none | some s ↦ some (PrivilegedSurface.member s) ]

-- No position stands twice, and none is one of these.
abbrev pub AreNew : List ℕ → List ℕ → Type 0
AreNew seen [] = Unit
AreNew seen (n ∷ ns) = (is_seen n seen ≡ false) × AreNew (n ∷ seen) ns

-- Positions that the fields give by their numbers, and at which these members stand.
abbrev pub AreNumbered : List ℕ → List PrivilegedSurface → List Bytes → List Bytes → Type 0
AreNumbered seen ss fields members =
    (ns : List ℕ) × AreNew seen ns
    × (map read_number fields ≡ map shown ns)
    × (map (member_at ss) ns ≡ map some members)

position-some :
    (o : Option ℤ) (seen : List ℕ) (ss : List PrivilegedSurface) (n : ℕ) (m : Bytes)
    → position o seen ss ≡ some (n, m)
    → (o ≡ shown n) × (is_seen n seen ≡ false) × (member_at ss n ≡ some m)
unfolding position
position-some none seen ss n m h = absurd (ground arith)
position-some (some (pos zero)) seen ss n m h = absurd (ground arith)
position-some (some (negsuc k)) seen ss n m h = absurd (ground arith)
position-some (some (pos (suc k))) seen ss n m h = elim (Bool-cases (is_seen k seen)) [
  | inl old ↦ absurd (ground arith)
  | inr new ↦ elim (Option-cases (surface_at k ss)) [
    | inl none' ↦ absurd (ground arith)
    | inr (s, at_k) ↦
        let e = some_injective (rw (new, at_k, position) at h) in
        let same : k ≡ n = ap (λ (p : ℕ × Bytes). p.0) e in
        let named : PrivilegedSurface.member s ≡ m = ap (λ (p : ℕ × Bytes). p.1) e in
        subst (λ x. (shown k ≡ shown x) × (is_seen x seen ≡ false) × (member_at ss x ≡ some m)) same
          (refl, new, rw (at_k, member_at) (ap some named))
  ]
]

prepended-some :
    (m : Bytes) (o : Option (List Bytes)) (members : List Bytes)
    → prepended m o ≡ some members
    → (ms : List Bytes) × (o ≡ some ms) × ((m ∷ ms) ≡ members)
prepended-some m none members h = absurd (ground arith)
prepended-some m (some ms) members h = (ms, refl, some_injective h)

pub numbered-AreNumbered :
    (seen : List ℕ) (ss : List PrivilegedSurface) (fields members : List Bytes)
    → numbered seen ss fields ≡ some members
    → AreNumbered seen ss fields members
unfolding numbered
numbered-AreNumbered seen ss [] members h =
    subst (AreNumbered seen ss []) (some_injective h) ([], tt, refl, refl)
numbered-AreNumbered seen ss (field ∷ fields) members h =
    elim (Option-cases (position (read_number field) seen ss)) [
      | inl none' ↦ absurd (ground arith)
      | inr ((n, m), at_field) ↦
          let (ms, rest, joined) =
            prepended-some m (numbered (n ∷ seen) ss fields) members
              (rw (at_field, numbered) at h) in
          let (number, new, at_n) = position-some (read_number field) seen ss n m at_field in
          let (ns, news, numbers, at_ns) = numbered-AreNumbered (n ∷ seen) ss fields ms rest in
          subst (AreNumbered seen ss (field ∷ fields)) joined
            (n ∷ ns, (new, news), rw (number, numbers) refl, rw (at_n, at_ns) refl)
    ]
