-- ===== src/Brief/Surfaces/Stripped.antt =====
-- A package from which the surfaces that need a decision were stripped.
use prolewatch.Prelude.{
  ℕ, ◌≡◌, refl, sym, ap, ◌∙◌, inl, inr, true, false, List, [], ◌∷◌, Option, some, if◌then◌else◌,
  Bytes, is_member, length, arith, Bool-cases, Option-cases, some_injective, IsIn, here, there,
  is_member-append,
}
use mathlib.Core.Path.{subst}
use prolewatch.Brief.Filter.{
  Member, member_name, is_mtree, copied, filter_mtree, rewrite_mtree, write_members, strip_set,
  drop_set, filter_archive,
}
use prolewatch.Brief.Filter.Archive.{prepend-some}
use prolewatch.Brief.Surfaces.Registry.{requires_decision}
use prolewatch.Brief.Surfaces.{
  PrivilegedSurface, requiring_decision, enumerate_surfaces, examine, surface_of, classify_surface,
}
use prolewatch.Brief.Surfaces.Listed.{
  is_link, surface_of-IsIn, IsIn-surface_of, surface_of-class, surface_of-some, examine-member,
  IsIn-requiring, requiring-IsIn,
}

-- The same name and kind of member.
abbrev Alike : Member → Member → Type 0
Alike m n = (n.name ≡ m.name) × (n.typeflag ≡ m.typeflag)

-- A member that stays, and that is alike.
abbrev ComesFrom : List Bytes → List Member → Member → Type 0
ComesFrom drop ms n =
    (m : Member) × IsIn m ms × (is_member (member_name m) drop ≡ false) × Alike m n

module _ (gunzip : Bytes → Option Bytes) (gzip : Bytes → Bytes) where
  rewrite_mtree-Alike :
      (drop : List Bytes) (m n : Member) → rewrite_mtree gunzip gzip drop m ≡ some n → Alike m n
  unfolding rewrite_mtree
  rewrite_mtree-Alike drop m n h = elim (Option-cases (gunzip m.content)) [
    | inl none' ↦ absurd (ground arith)
    | inr (text, read) ↦
        let blob = gzip (filter_mtree drop text) in
        let written : Member = record m { size = length blob; content = blob } in
        let e : written ≡ n = some_injective (rw (read, rewrite_mtree) at h) in
        (ap Member.name (sym e), ap Member.typeflag (sym e))
  ]

  write_members-ComesFrom :
      (drop : List Bytes) (ms out : List Member) (n : Member)
      → write_members gunzip gzip drop ms ≡ some out
      → IsIn n out
      → ComesFrom drop ms n
  unfolding write_members
  write_members-ComesFrom drop [] out n h i =
      let none' : IsIn n [] = subst (IsIn n) (sym (some_injective h)) i in elim none' [ ]
  write_members-ComesFrom drop (m ∷ ms) out n h i =
      elim (Bool-cases (is_member (member_name m) drop)) [
        | inl dropped ↦
            let (x, j, f, a) = write_members-ComesFrom drop ms out n (rw dropped at h) i in
            (x, there j, f, a)
        | inr stays ↦ elim (Bool-cases (is_mtree m)) [
          | inl mtree ↦
              let (w, rest, written, e, joined) =
                prepend-some gunzip gzip (rewrite_mtree gunzip gzip drop m)
                  (write_members gunzip gzip drop ms) out (rw (stays, mtree) at h) in
              first stays w rest (rewrite_mtree-Alike drop m w written)
                (write_members-ComesFrom drop ms rest n e) (subst (IsIn n) (sym joined) i)
          | inr plain ↦
              let (w, rest, written, e, joined) =
                prepend-some gunzip gzip (some (copied m)) (write_members gunzip gzip drop ms) out
                  (rw (stays, plain) at h) in
              let same = some_injective written in
              first stays w rest (ap Member.name (sym same), ap Member.typeflag (sym same))
                (write_members-ComesFrom drop ms rest n e) (subst (IsIn n) (sym joined) i)
        ]
      ]
    where
      first :
          is_member (member_name m) drop ≡ false
          → (w : Member) (rest : List Member) → Alike m w
          → (IsIn n rest → ComesFrom drop ms n)
          → IsIn n (w ∷ rest)
          → ComesFrom drop (m ∷ ms) n
      first stays w rest (name, flag) f (here e) =
          (m, here refl, stays, (ap Member.name e ∙ name, ap Member.typeflag e ∙ flag))
      first stays w rest alike f (there j) = let (x, k, g, a) = f j in (x, there k, g, a)

  filter_archive-ComesFrom :
      (ms out : List Member) (strip pruned : List Bytes) (n : Member)
      → filter_archive gunzip gzip ms strip ≡ some (out, pruned)
      → IsIn n out
      → ComesFrom (drop_set ms strip).0 ms n
  unfolding filter_archive
  filter_archive-ComesFrom ms out strip pruned n h i =
      elim (Option-cases (write_members gunzip gzip (drop_set ms strip).0 ms)) [
        | inl none' ↦ absurd (ground arith)
        | inr (rest, written) ↦
            let same : rest ≡ out = ground arith in
            write_members-ComesFrom (drop_set ms strip).0 ms out n (written ∙ ap some same) i
      ]

stripped-dropped :
    (ms : List Member) (strip : List Bytes) (n : Bytes)
    → is_member n (strip_set strip) ≡ true
    → is_member n (drop_set ms strip).0 ≡ true
unfolding drop_set
stripped-dropped ms strip n h =
    ground (arith, is_member-append n (strip_set strip) (drop_set ms strip).1)

module _ (text inline : Bytes → ℕ → Bytes) where
  -- Members that are alike are asked about alike.
  Alike-surface_of :
      (m n : Member) (s : PrivilegedSurface)
      → Alike m n
      → surface_of text inline n ≡ some s
      → (t : PrivilegedSurface) × (surface_of text inline m ≡ some t)
        × (t.member ≡ member_name m)
        × (requires_decision t.activation ≡ requires_decision s.activation)
  Alike-surface_of m n s (name, flag) e =
      let (c, file, class, made) = surface_of-some text inline n s e in
      let (_, asked_m) = examine-member text inline m c in
      let (_, asked_n) = examine-member text inline n c in
      let linked : is_link n ≡ is_link m = ground arith in
      let asked = ap (λ (x : PrivilegedSurface). requires_decision x.activation) made in
      (
        examine text inline m c,
        surface_of-class text inline m c (ground arith) (ap classify_surface (sym name) ∙ class),
        (examine-member text inline m c).0,
        asked_m
            ∙ ap (λ l. if l then true else requires_decision c.activation) (sym linked)
            ∙ sym asked_n
            ∙ asked,
      )

  -- If every surface of a package that needs a decision is among the names that FilterArchive was
  -- asked to strip, no surface of the rewritten package needs one.
  pub filter_archive-settles :
      (gunzip : Bytes → Option Bytes) (gzip : Bytes → Bytes) (ms out : List Member)
      (strip pruned : List Bytes)
      → filter_archive gunzip gzip ms strip ≡ some (out, pruned)
      → ((s : PrivilegedSurface)
          → IsIn s (requiring_decision (enumerate_surfaces text inline ms))
          → is_member s.member (strip_set strip) ≡ true)
      → requiring_decision (enumerate_surfaces text inline out) ≡ []
  filter_archive-settles gunzip gzip ms out strip pruned h every =
      nothing (requiring_decision (enumerate_surfaces text inline out)) refl
    where
      asked_none :
          (s : PrivilegedSurface)
          → IsIn s (requiring_decision (enumerate_surfaces text inline out))
          → ⊥
      asked_none s i =
          let (is_in, asked) = IsIn-requiring s (enumerate_surfaces text inline out) i in
          let (n, at_n, e) = IsIn-surface_of text inline out s is_in in
          let (m, at_m, stays, alike) =
            filter_archive-ComesFrom gunzip gzip ms out strip pruned n h at_n in
          let (t, listed, named, same) = Alike-surface_of m n s alike e in
          let required =
            requiring-IsIn t (enumerate_surfaces text inline ms)
              (surface_of-IsIn text inline m ms t at_m listed) (same ∙ asked) in
          let gone = stripped-dropped ms strip t.member (every t required) in
          let gone' = ap (λ x. is_member x (drop_set ms strip).0) (sym named) ∙ gone in ground arith

      nothing :
          (ss : List PrivilegedSurface)
          → requiring_decision (enumerate_surfaces text inline out) ≡ ss
          → ss ≡ []
      nothing [] e = refl
      nothing (s ∷ ss) e = absurd (asked_none s (subst (IsIn s) (sym e) (here refl)))
