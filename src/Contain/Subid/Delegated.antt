-- ===== src/Contain/Subid/Delegated.antt =====
-- The range that LookupSubIDs selects from a file.
use prolewatch.Prelude.{
  ℕ, ◌+◌, ◌^◌, ◌≤◌, ◌≡◌, refl, sym, ap, inl, inr, Bool, true, false, List, [], ◌∷◌, Option, none,
  some, ltb, any, Bytes, parse_uint, arith, Bool-cases, IsIn, any-IsIn, All, All-IsIn,
}
use mathlib.Core.Path.{subst}
use prolewatch.Contain.Subid.{
  SubIdRange, SubIdEntry, bad_id, content, Result, ok, err, parse_entries, is_owner, own_entries,
  conflicts, is_in, widest, wide_enough, no_range, select_range, on_entries, lookup_sub_id_file,
  min_delegation, max_sub_id_exclusive,
}
use prolewatch.Contain.Subid.Entries.{
  Holds, Mappable, shared_id_overlaps, Satisfies, parse_entries-Mappable,
}
use prolewatch.Contain.Subid.Widest.{own_entries-IsIn, IsIn-own_entries, widest-IsWidest}

-- The range of a lookup: one that is delegated to this account, the widest and wide enough; no range
-- of the account holds its own ID or shares an ID with a range of another account.
abbrev pub IsDelegated : (SubIdEntry → Bool) → ℕ → List SubIdEntry → SubIdRange → Type 0
IsDelegated mine id es r =
    ((e : SubIdEntry) × IsIn e es × (mine e ≡ true) × (e.ids ≡ r))
    × (min_delegation ≤ r.count)
    × (r.start + r.count ≤ max_sub_id_exclusive)
    × ((e : SubIdEntry)
        → IsIn e es
        → mine e ≡ true
        → (SubIdRange.count e.ids ≤ r.count)
          × (¬ Holds e.ids id)
          × ((o : SubIdEntry) (x : ℕ)
              → IsIn o es
              → mine o ≡ false
              → Holds e.ids x
              → ¬ Holds o.ids x))

wide_enough-ok :
    (o : Option SubIdRange) (r : SubIdRange)
    → wide_enough o ≡ ok r
    → (o ≡ some r) × (min_delegation ≤ r.count)
wide_enough-ok none r h = absurd (cc)
wide_enough-ok (some best) r h = elim (Bool-cases (ltb best.count min_delegation)) [
  | inl narrow ↦ absurd (ground arith)
  | inr wide ↦
      let same : best ≡ r = ok-injective (rw wide at h) in
      (ap some same, subst (λ (x : SubIdRange). min_delegation ≤ x.count) same (ground arith))
]
  where
    ok-injective : {x y : SubIdRange} → ok x ≡ ok y → x ≡ y
    ok-injective {x} p = ap (λ (z : Result SubIdRange). elim z [ ok y ↦ y | err w ↦ x ]) p

select_range-IsDelegated :
    (mine : SubIdEntry → Bool) (mapped : Option ℕ) (es os : List SubIdEntry) (r : SubIdRange)
    → All Mappable es
    → own_entries mine es ≡ os
    → select_range mine mapped es os ≡ ok r
    → (id : ℕ) × (mapped ≡ some id) × IsDelegated mine id es r
unfolding select_range
select_range-IsDelegated mine mapped es [] r valid own h = absurd (cc)
select_range-IsDelegated mine mapped es (o ∷ os) r valid own h =
    elim (Bool-cases (any (λ c. any (conflicts mine c) es) (o ∷ os))) [
      | inl overlap ↦ absurd (ground arith)
      | inr apart ↦ at_id mapped (rw apart at h) apart
    ]
  where
    in_own : (e : SubIdEntry) → IsIn e es → mine e ≡ true → IsIn e (o ∷ os)
    in_own e i m = subst (IsIn e) own (own_entries-IsIn mine e es i m)

    at_id :
        (m : Option ℕ)
        → (elim m [ none ↦ err bad_id | some id ↦ wide_enough (widest id no_range (o ∷ os)) ])
          ≡ ok r
        → any (λ c. any (conflicts mine c) es) (o ∷ os) ≡ false
        → (id : ℕ) × (m ≡ some id) × IsDelegated mine id es r
    at_id none e apart = absurd (cc)
    at_id (some id) e apart =
        let (found, wide) = wide_enough-ok (widest id no_range (o ∷ os)) r e in
        let (from, _, others) = widest-IsWidest id no_range (o ∷ os) r found in
        let delegated : (x : SubIdEntry) × IsIn x es × (mine x ≡ true) × (x.ids ≡ r) = elim from [
          | inl nothing ↦ absurd (empty nothing wide)
          | inr (x, i, same) ↦
              let (j, m) = IsIn-own_entries mine x es (subst (IsIn x) (sym own) i) in
              (x, j, m, same)
        ] in
        (
          id,
          refl,
          (
            delegated,
            wide,
            subst (λ (y : SubIdRange). y.start + y.count ≤ max_sub_id_exclusive) delegated.3
                (All-IsIn Mappable es valid delegated.1).1,
            λ x i m.
                let (le, free) = others x (in_own x i m) in
                (le, λ held. held_free x held free, λ y z j n a b. shared x y z i m j n a b apart),
          ),
        )
      where
        empty : {y : SubIdRange} → y ≡ no_range → min_delegation ≤ y.count → ⊥
        empty p q = let zero' = ap SubIdRange.count p in absurd (omega arith)

        held_free : (x : SubIdEntry) → Holds x.ids id → is_in id x.ids ≡ false → ⊥
        held_free x a b = ground arith

        shared :
            (x y : SubIdEntry) (z : ℕ)
            → IsIn x es
            → mine x ≡ true
            → IsIn y es
            → mine y ≡ false
            → Holds x.ids z
            → Holds y.ids z
            → any (λ c. any (conflicts mine c) es) (o ∷ os) ≡ false
            → ⊥
        shared x y z i m j n a b apart' =
            let overlap =
              shared_id_overlaps x.ids y.ids z (All-IsIn Mappable es valid i)
                (All-IsIn Mappable es valid j) a b in
            let conflict : conflicts mine x y ≡ true = ground arith in
            let some_y = any-IsIn (conflicts mine x) es j conflict in
            let some_x = any-IsIn (λ c. any (conflicts mine c) es) (o ∷ os) (in_own x i m) some_y in
            absurd (ground arith)

-- A lookup in a file that gives a range has read every line of it, and the range is delegated to the
-- account by an entry: it is the widest of its ranges, covers the 65536 IDs of the namespace and
-- stays below the reserved ID, and no range of the account holds the mapped ID or shares an ID with
-- a range of another account.
pub lookup_sub_id_file-IsDelegated :
    (ls : List Bytes) (whole : Bool) (username uid mapped_id : Bytes) (r : SubIdRange)
    → lookup_sub_id_file (content ls whole) username uid mapped_id ≡ ok r
    → (es : List SubIdEntry) × (id : ℕ) × (parse_entries ls whole ≡ ok es)
      × (parse_uint (2 ^ 32) mapped_id ≡ some id)
      × IsDelegated (is_owner username uid) id es r
unfolding lookup_sub_id_file
lookup_sub_id_file-IsDelegated ls whole username uid mapped_id r h =
    parsed (parse_entries ls whole) refl h
  where
    mine : SubIdEntry → Bool
    mine = is_owner username uid

    parsed :
        (p : Result (List SubIdEntry))
        → parse_entries ls whole ≡ p
        → on_entries mine mapped_id p ≡ ok r
        → (es : List SubIdEntry) × (id : ℕ) × (parse_entries ls whole ≡ ok es)
          × (parse_uint (2 ^ 32) mapped_id ≡ some id)
          × IsDelegated mine id es r
    parsed (err x) e g = absurd (cc)
    parsed (ok es) e g =
        let valid : All Mappable es =
          subst (Satisfies (All Mappable)) e (parse_entries-Mappable ls whole) in
        let (id, m, d) =
          select_range-IsDelegated mine (parse_uint (2 ^ 32) mapped_id) es (own_entries mine es) r
            valid refl g in
        (es, id, e, m, d)
