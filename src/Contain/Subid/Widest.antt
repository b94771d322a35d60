-- ===== src/Contain/Subid/Widest.antt =====
-- The entries of an account and the widest of its ranges.
use prolewatch.Prelude.{
  ℕ, ◌≤◌, ◌≡◌, refl, sym, ap, ◌∙◌, ◌⊎◌, inl, inr, Bool, true, false, List, [], ◌∷◌, some, ltb,
  arith, Bool-cases, some_injective, IsIn, here, there,
}
use mathlib.Core.Path.{subst}
use prolewatch.Contain.Subid.{SubIdRange, SubIdEntry, own_entries, is_in, widest}

pub own_entries-IsIn :
    (mine : SubIdEntry → Bool) (e : SubIdEntry) (es : List SubIdEntry)
    → IsIn e es
    → mine e ≡ true
    → IsIn e (own_entries mine es)
unfolding own_entries
own_entries-IsIn mine e [] i m = elim i [ ]
own_entries-IsIn mine e (x ∷ es) (here same) m =
    let at_x : mine x ≡ true = ap mine (sym same) ∙ m in rw at_x (here same)
own_entries-IsIn mine e (x ∷ es) (there i) m = elim (Bool-cases (mine x)) [
  | inl own ↦ rw own (there (own_entries-IsIn mine e es i m))
  | inr other ↦ rw other (own_entries-IsIn mine e es i m)
]

pub IsIn-own_entries :
    (mine : SubIdEntry → Bool) (e : SubIdEntry) (es : List SubIdEntry)
    → IsIn e (own_entries mine es)
    → IsIn e es × (mine e ≡ true)
unfolding own_entries
IsIn-own_entries mine e [] i = elim i [ ]
IsIn-own_entries mine e (x ∷ es) i = elim (Bool-cases (mine x)) [
  | inl own ↦ first own (rw own at i) (IsIn-own_entries mine e es)
  | inr other ↦ let (j, m) = IsIn-own_entries mine e es (rw other at i) in (there j, m)
]
  where
    first :
        mine x ≡ true
        → IsIn e (x ∷ own_entries mine es)
        → (IsIn e (own_entries mine es) → IsIn e es × (mine e ≡ true))
        → IsIn e (x ∷ es) × (mine e ≡ true)
    first own (here same) f = (here same, ap mine same ∙ own)
    first own (there j) f = let (k, m) = f j in (there k, m)

-- The widest of these, and none holds the ID.
abbrev IsWidest : ℕ → SubIdRange → List SubIdEntry → SubIdRange → Type 0
IsWidest id best es r =
    ((r ≡ best) ⊎ ((e : SubIdEntry) × IsIn e es × (e.ids ≡ r)))
    × (best.count ≤ r.count)
    × ((e : SubIdEntry) → IsIn e es → (SubIdRange.count e.ids ≤ r.count) × (is_in id e.ids ≡ false))

pub widest-IsWidest :
    (id : ℕ) (best : SubIdRange) (es : List SubIdEntry) (r : SubIdRange)
    → widest id best es ≡ some r
    → IsWidest id best es r
unfolding widest
widest-IsWidest id best [] r h =
    let same = some_injective h in (inl (sym same), rw same (omega arith), λ e i. elim i [ ])
widest-IsWidest id best (x ∷ es) r h = elim (Bool-cases (is_in id x.ids)) [
  | inl held ↦ absurd (ground arith)
  | inr free ↦ elim (Bool-cases (ltb best.count (SubIdRange.count x.ids))) [
    | inl wider ↦
        let (from, le, all') = widest-IsWidest id x.ids es r (rw (free, wider) at h) in
        (
          elim from [
            | inl same ↦ inr (x, here refl, sym same)
            | inr (e, i, same) ↦ inr (e, there i, same)
          ],
          ground arith,
          λ e i. at_entry le all' free i,
        )
    | inr narrower ↦
        let (from, le, all') = widest-IsWidest id best es r (rw (free, narrower) at h) in
        (
          elim from [ inl same ↦ inl same | inr (e, i, same) ↦ inr (e, there i, same) ],
          le,
          λ e i. at_entry (ground arith) all' free i,
        )
  ]
]
  where
    Fits : SubIdEntry → Type 0
    Fits e = (SubIdRange.count e.ids ≤ r.count) × (is_in id e.ids ≡ false)

    at_entry :
        SubIdRange.count x.ids ≤ r.count
        → ((e : SubIdEntry) → IsIn e es → Fits e)
        → is_in id x.ids ≡ false
        → {e : SubIdEntry} → IsIn e (x ∷ es)
        → Fits e
    at_entry le f free (here same) = subst Fits (sym same) (le, free)
    at_entry le f free {e} (there i) = f e i
