-- ===== src/Brief/Filter/Archive.antt =====
-- The rewritten archive and its .MTREE together.
use prolewatch.Prelude.{
  ◌≡◌, refl, ap, ◌∙◌, ◌⊎◌, inl, inr, false, List, [], ◌∷◌, map, Option, none, some, if◌then◌else◌,
  Bytes, is_member, arith, Bool-cases, Option-cases, some_injective, All, length,
}
use mathlib.Core.Path.{subst}
use prolewatch.Brief.Filter.{
  Member, TypeFlag, dir, reg, symlink, link, other, content_of, member_name, is_mtree, copied,
  prepend, split_after, filter_mtree, rewrite_mtree, write_members, drop_set, filter_archive,
}
use prolewatch.Brief.Filter.Lines.{
  AreFreeLines, filter_mtree-AreFreeLines, IsFree, filter_mtree-IsFree,
}

-- The members that stay.
abbrev remaining : List Bytes → List Member → List Member
remaining drop [] = []
remaining drop (m ∷ ms) =
    let rest = remaining drop ms in if is_member (member_name m) drop then rest else m ∷ rest

-- The bytes of a regular file are the same.
abbrev pub SameData : TypeFlag → Bytes → Bytes → Type 0
SameData reg old new = old ≡ new
SameData _ old new = Unit

module _ (gunzip : Bytes → Option Bytes) (gzip : Bytes → Bytes) where
  -- A member of the new archive: its name is not dropped, and if it is .MTREE, no line of its text
  -- names a member that is.
  abbrev pub IsFreeMember : List Bytes → Member → Type 0
  IsFreeMember drop m =
      (is_member (member_name m) drop ≡ false)
      × ((is_mtree m ≡ false)
          ⊎ ((text : Bytes) × (gunzip m.content ≡ some text)
              × All (IsFree drop) (split_after text)))

  -- What a member that stays becomes: .MTREE with the lines that name no dropped member, and each other
  -- member itself, with the bytes of a regular file.
  abbrev pub IsCopy : List Bytes → Member → Member → Type 0
  IsCopy drop m n =
      (n.name ≡ m.name)
      × (n.typeflag ≡ m.typeflag)
      × (n.linkname ≡ m.linkname)
      × ((((is_mtree m ≡ false) × (n.size ≡ m.size)) × SameData m.typeflag m.content n.content)
          ⊎ ((old : Bytes) × (new : Bytes) × (gunzip m.content ≡ some old)
              × (gunzip n.content ≡ some new)
              × AreFreeLines drop old new))

  abbrev pub CopyAll : List Bytes → List Member → List Member → Type 0
  CopyAll drop [] [] = Unit
  CopyAll drop (m ∷ ms) (n ∷ ns) = IsCopy drop m n × CopyAll drop ms ns
  CopyAll drop _ _ = ⊥

  pub record IsRest (drop : List Bytes) (ms out : List Member) : Type 0 where
    pub names : map Member.name out ≡ map Member.name (remaining drop ms)
    pub free : All (IsFreeMember drop) out
    pub copies : CopyAll drop (remaining drop ms) out

  content_of-SameData : (t : TypeFlag) (s : Bytes) → SameData t s (content_of t s)
  content_of-SameData reg s = refl
  content_of-SameData dir s = tt
  content_of-SameData symlink s = tt
  content_of-SameData link s = tt
  content_of-SameData other s = tt

  copied-free :
      (drop : List Bytes) (m n : Member)
      → is_member (member_name m) drop ≡ false
      → is_mtree m ≡ false
      → copied m ≡ n
      → IsCopy drop m n × IsFreeMember drop n
  copied-free drop m n stays plain e =
      subst (λ x. IsCopy drop m x × IsFreeMember drop x) e
        (
          (refl, refl, refl, inl ((plain, refl), content_of-SameData m.typeflag m.content)),
          (stays, inl plain),
        )

  pub prepend-some :
      (o : Option Member) (rest : Option (List Member)) (out : List Member)
      → prepend o rest ≡ some out
      → (m : Member) × (ms : List Member) × (o ≡ some m) × (rest ≡ some ms) × ((m ∷ ms) ≡ out)
  prepend-some none rest out h = absurd (ground arith)
  prepend-some (some m) none out h = absurd (ground arith)
  prepend-some (some m) (some ms) out h = (m, ms, refl, refl, some_injective h)

  rewrite_mtree-free :
      (drop : List Bytes) (m n : Member)
      → ((s : Bytes) → gunzip (gzip s) ≡ some s)
      → is_member (member_name m) drop ≡ false
      → rewrite_mtree gunzip gzip drop m ≡ some n
      → IsCopy drop m n × IsFreeMember drop n
  unfolding rewrite_mtree
  rewrite_mtree-free drop m n inverse stays h = elim (Option-cases (gunzip m.content)) [
    | inl none' ↦ absurd (ground arith)
    | inr (text, read) ↦
        let blob = gzip (filter_mtree drop text) in
        let written : Member = record m { size = length blob; content = blob } in
        let e : written ≡ n = some_injective (rw (read, rewrite_mtree) at h) in
        let undone = inverse (filter_mtree drop text) in
        subst (λ x. IsCopy drop m x × IsFreeMember drop x) e
          (
            (
              refl,
              refl,
              refl,
              inr (text, filter_mtree drop text, read, undone, filter_mtree-AreFreeLines drop text),
            ),
            (stays, inr (filter_mtree drop text, undone, filter_mtree-IsFree drop text)),
          )
  ]

  one_more :
      (drop : List Bytes) (m n : Member) (ms out : List Member)
      → is_member (member_name m) drop ≡ false
      → IsCopy drop m n × IsFreeMember drop n
      → IsRest drop ms out
      → IsRest drop (m ∷ ms) (n ∷ out)
  one_more drop m n ms out stays (copy, f) r = record {
    names = rw (stays, copy.0, r.names) refl;
    free = (f, r.free);
    copies = rw stays (copy, r.copies);
  }

  write_members-IsRest :
      (drop : List Bytes) (ms out : List Member)
      → ((s : Bytes) → gunzip (gzip s) ≡ some s)
      → write_members gunzip gzip drop ms ≡ some out
      → IsRest drop ms out
  unfolding write_members
  write_members-IsRest drop [] out inverse h =
      subst (IsRest drop []) (some_injective h) (record { names = refl; free = tt; copies = tt })
  write_members-IsRest drop (m ∷ ms) out inverse h =
      elim (Bool-cases (is_member (member_name m) drop)) [
        | inl dropped ↦
            let r = write_members-IsRest drop ms out inverse (rw dropped at h) in
            record { names = rw dropped r.names; free = r.free; copies = rw dropped r.copies }
        | inr stays ↦ elim (Bool-cases (is_mtree m)) [
          | inl mtree ↦
              let (n, rest, written, e, joined) =
                prepend-some (rewrite_mtree gunzip gzip drop m) (write_members gunzip gzip drop ms)
                  out (rw (stays, mtree) at h) in
              subst (IsRest drop (m ∷ ms)) joined (
                one_more drop m n ms rest stays (rewrite_mtree-free drop m n inverse stays written)
                  (write_members-IsRest drop ms rest inverse e))
          | inr plain ↦
              let (n, rest, written, e, joined) =
                prepend-some (some (copied m)) (write_members gunzip gzip drop ms) out
                  (rw (stays, plain) at h) in
              subst (IsRest drop (m ∷ ms)) joined (
                one_more drop m n ms rest stays
                  (copied-free drop m n stays plain (some_injective written))
                  (write_members-IsRest drop ms rest inverse e))
        ]
      ]

  -- Where gzip is undone by its reader, the new archive of FilterArchive holds the members whose names
  -- are not dropped, in their order: each with its name, type and link target, the bytes of a regular
  -- file and its size, and .MTREE with those of its lines that, as the writer reads a line from its
  -- first byte to a space, name no dropped member.
  pub filter_archive-IsRest :
      (ms out : List Member) (strip pruned : List Bytes)
      → ((s : Bytes) → gunzip (gzip s) ≡ some s)
      → filter_archive gunzip gzip ms strip ≡ some (out, pruned)
      → IsRest (drop_set ms strip).0 ms out
  unfolding filter_archive
  filter_archive-IsRest ms out strip pruned inverse h =
      elim (Option-cases (write_members gunzip gzip (drop_set ms strip).0 ms)) [
        | inl none' ↦ absurd (ground arith)
        | inr (rest, written) ↦
            let same : rest ≡ out = ground arith in
            write_members-IsRest (drop_set ms strip).0 ms out inverse (written ∙ ap some same)
      ]
