-- ===== src/Brief/Surfaces/Listed.antt =====
-- What the enumeration of a package lists.
use prolewatch.Prelude.{
  ℕ, ◌≡◌, refl, sym, ap, ◌∙◌, inl, inr, Bool, true, false, List, [], ◌∷◌, some, if◌then◌else◌,
  Bytes, bytes_lt, arith, Bool-cases, Option-cases, some_injective, IsIn, here, there,
}
use mathlib.Core.Path.{subst}
use prolewatch.Brief.Filter.{Member, symlink, link, is_dir, member_name}
use prolewatch.Brief.Surfaces.Registry.{Surface, requires_decision}
use prolewatch.Brief.Surfaces.{
  PrivilegedSurface, insert_surface, requiring_decision, classify_surface, examine, surface_of,
  enumerate_surfaces,
}

abbrev pub is_link : Member → Bool
is_link m = elim m.typeflag [ symlink ↦ true | link ↦ true | _ ↦ false ]

insert_surface-self :
    (s : PrivilegedSurface) (ts : List PrivilegedSurface) → IsIn s (insert_surface s ts)
unfolding insert_surface
insert_surface-self s [] = here refl
insert_surface-self s (t ∷ ts) = elim (Bool-cases (bytes_lt t.member s.member)) [
  | inl less ↦ rw less (there (insert_surface-self s ts))
  | inr not_less ↦ rw not_less (here refl)
]

insert_surface-others :
    (x s : PrivilegedSurface) (ts : List PrivilegedSurface)
    → IsIn x ts
    → IsIn x (insert_surface s ts)
unfolding insert_surface
insert_surface-others x s [] i = there i
insert_surface-others x s (t ∷ ts) i = elim (Bool-cases (bytes_lt t.member s.member)) [
  | inl less ↦ rw less (behind i (insert_surface-others x s ts))
  | inr not_less ↦ rw not_less (there i)
]
  where
    behind :
        IsIn x (t ∷ ts)
        → (IsIn x ts → IsIn x (insert_surface s ts))
        → IsIn x (t ∷ insert_surface s ts)
    behind (here e) f = here e
    behind (there j) f = there (f j)

IsIn-insert_surface :
    (P : PrivilegedSurface → Type 0) (x s : PrivilegedSurface) (ts : List PrivilegedSurface)
    → IsIn x (insert_surface s ts)
    → P s
    → (IsIn x ts → P x)
    → P x
unfolding insert_surface
IsIn-insert_surface P x s [] (here e) at_s f = subst P (sym e) at_s
IsIn-insert_surface P x s [] (there i) at_s f = f i
IsIn-insert_surface P x s (t ∷ ts) i at_s f = elim (Bool-cases (bytes_lt t.member s.member)) [
  | inl less ↦ behind (rw less at i) (λ j. IsIn-insert_surface P x s ts j at_s (λ k. f (there k)))
  | inr not_less ↦ front (rw not_less at i)
]
  where
    behind : IsIn x (t ∷ insert_surface s ts) → (IsIn x (insert_surface s ts) → P x) → P x
    behind (here e) g = f (here e)
    behind (there j) g = g j

    front : IsIn x (s ∷ t ∷ ts) → P x
    front (here e) = subst P (sym e) at_s
    front (there j) = f j

module _ (text inline : Bytes → ℕ → Bytes) where
  -- A member of the archive for which this is listed.
  abbrev pub IsListed : List Member → PrivilegedSurface → Type 0
  IsListed ms s = (m : Member) × IsIn m ms × (surface_of text inline m ≡ some s)

  pub surface_of-IsIn :
      (m : Member) (ms : List Member) (s : PrivilegedSurface)
      → IsIn m ms
      → surface_of text inline m ≡ some s
      → IsIn s (enumerate_surfaces text inline ms)
  unfolding enumerate_surfaces
  surface_of-IsIn m [] s i e = elim i [ ]
  surface_of-IsIn m (x ∷ ms) s (here same) e =
      let at_x : surface_of text inline x ≡ some s = ap (surface_of text inline) (sym same) ∙ e in
      rw (at_x, enumerate_surfaces) (insert_surface-self s (enumerate_surfaces text inline ms))
  surface_of-IsIn m (x ∷ ms) s (there i) e =
      let ih = surface_of-IsIn m ms s i e in
      elim (Option-cases (surface_of text inline x)) [
        | inl none' ↦ rw (none', enumerate_surfaces) ih
        | inr (t, at_x) ↦
            rw (at_x, enumerate_surfaces)
              (insert_surface-others s t (enumerate_surfaces text inline ms) ih)
      ]

  pub IsIn-surface_of :
      (ms : List Member) (s : PrivilegedSurface)
      → IsIn s (enumerate_surfaces text inline ms)
      → IsListed ms s
  unfolding enumerate_surfaces
  IsIn-surface_of [] s i = elim i [ ]
  IsIn-surface_of (x ∷ ms) s i =
      let ih : IsIn s (enumerate_surfaces text inline ms) → IsListed (x ∷ ms) s =
        λ j. let (m, is_in, e) = IsIn-surface_of ms s j in (m, there is_in, e) in
      elim (Option-cases (surface_of text inline x)) [
        | inl none' ↦ ih (rw (none', enumerate_surfaces) at i)
        | inr (t, at_x) ↦
            IsIn-insert_surface (IsListed (x ∷ ms)) s t (enumerate_surfaces text inline ms)
              (rw (at_x, enumerate_surfaces) at i) (x, here refl, at_x) ih
      ]

  -- What is listed for a member that is classified.
  pub surface_of-class :
      (m : Member) (c : Surface)
      → is_dir m ≡ false
      → classify_surface m.name ≡ some c
      → surface_of text inline m ≡ some (examine text inline m c)
  unfolding surface_of
  surface_of-class m c file e = rw (file, e, surface_of) refl

  pub surface_of-some :
      (m : Member) (s : PrivilegedSurface)
      → surface_of text inline m ≡ some s
      → (c : Surface) × (is_dir m ≡ false)
        × (classify_surface m.name ≡ some c)
        × (examine text inline m c ≡ s)
  unfolding surface_of
  surface_of-some m s e = elim (Bool-cases (is_dir m)) [
    | inl d ↦ absurd (ground arith)
    | inr file ↦ elim (Option-cases (classify_surface m.name)) [
      | inl none' ↦ absurd (ground arith)
      | inr (c, class) ↦ (c, file, class, some_injective (rw (file, class, surface_of) at e))
    ]
  ]

  pub examine-member :
      (m : Member) (c : Surface)
      → ((examine text inline m c).member ≡ member_name m)
        × (requires_decision (examine text inline m c).activation
            ≡ (if is_link m then true else requires_decision c.activation))
  examine-member m c = ground arith

pub IsIn-requiring :
    (s : PrivilegedSurface) (ts : List PrivilegedSurface)
    → IsIn s (requiring_decision ts)
    → IsIn s ts × (requires_decision s.activation ≡ true)
unfolding requiring_decision
IsIn-requiring s [] i = elim i [ ]
IsIn-requiring s (t ∷ ts) i = elim (Bool-cases (requires_decision t.activation)) [
  | inl asked ↦ front asked (rw asked at i) (IsIn-requiring s ts)
  | inr not_asked ↦ let (j, a) = IsIn-requiring s ts (rw not_asked at i) in (there j, a)
]
  where
    front :
        requires_decision t.activation ≡ true
        → IsIn s (t ∷ requiring_decision ts)
        → (IsIn s (requiring_decision ts) → IsIn s ts × (requires_decision s.activation ≡ true))
        → IsIn s (t ∷ ts) × (requires_decision s.activation ≡ true)
    front asked (here e) f =
        (here e, ap (λ (x : PrivilegedSurface). requires_decision x.activation) e ∙ asked)
    front asked (there j) f = let (k, a) = f j in (there k, a)

pub requiring-IsIn :
    (s : PrivilegedSurface) (ts : List PrivilegedSurface)
    → IsIn s ts
    → requires_decision s.activation ≡ true
    → IsIn s (requiring_decision ts)
unfolding requiring_decision
requiring-IsIn s [] i a = elim i [ ]
requiring-IsIn s (t ∷ ts) (here e) a =
    let at_t : requires_decision t.activation ≡ true =
      ap (λ (x : PrivilegedSurface). requires_decision x.activation) (sym e) ∙ a in
    rw at_t (here e)
requiring-IsIn s (t ∷ ts) (there i) a =
    let ih = requiring-IsIn s ts i a in
    elim (Bool-cases (requires_decision t.activation)) [
      | inl asked ↦ rw asked (there ih)
      | inr not_asked ↦ rw not_asked ih
    ]
