-- ===== src/Brief/Surfaces/Covered.antt =====
-- What is registered is enumerated.
use prolewatch.Prelude.{
  ◌||◌, ◌≡◌, refl, sym, ap, ◌∙◌, inl, inr, ℕ, true, false, not, List, [], ◌∷◌, ◌++◌, some, ◌==◌,
  all, Bytes, bytes_eq, codes, is_empty, has_prefix, cut, arith, Bool-cases, Option-cases, IsIn,
  here, there, all-IsIn,
}
use mathlib.Core.Path.{subst}
use prolewatch.Brief.Filter.{Member, is_dir, member_name}
use prolewatch.Brief.Surfaces.Registry.{
  Surface, automatic, requires_decision, systemd_roots, privileged_surfaces, registered_surfaces,
  searched_surfaces,
}
use prolewatch.Brief.Surfaces.{
  covers, registered, nested_unit, below_unit, unit_activation, classify_name, classify_surface,
  PrivilegedSurface, enumerate_surfaces, examine,
}
use prolewatch.Brief.Surfaces.Listed.{is_link, surface_of-IsIn, surface_of-class, examine-member}

registered-total :
    (ss : List Surface) (s : Surface) (name : Bytes)
    → IsIn s ss
    → covers s name ≡ true
    → (t : Surface) × (registered ss name ≡ some t)
unfolding registered
registered-total [] s name i h = elim i [ ]
registered-total (x ∷ ss) s name (here e) h =
    let at_x : covers x name ≡ true = ap (λ y. covers y name) (sym e) ∙ h in (x, rw at_x refl)
registered-total (x ∷ ss) s name (there i) h =
    let (t, e) = registered-total ss s name i h in
    elim (Bool-cases (covers x name)) [ inl this ↦ (x, rw this refl) | inr other ↦ (t, rw other e) ]

none_blank : all (λ s. not (covers s [])) privileged_surfaces ≡ true
unfolding privileged_surfaces registered_surfaces searched_surfaces has_prefix bytes_eq
none_blank = refl

-- A name that an entry of the registry covers is classified.
pub classify_name-total :
    (s : Surface) (name : Bytes)
    → IsIn s privileged_surfaces
    → covers s name ≡ true
    → (t : Surface) × (classify_name name ≡ some t)
unfolding classify_name
classify_name-total s [] i h =
    let blank = all-IsIn (λ x. not (covers x [])) privileged_surfaces i none_blank in
    absurd (ground arith)
classify_name-total s (c ∷ name) i h =
    elim (Option-cases (unit_activation systemd_roots (c ∷ name))) [
      | inl none' ↦
          let (t, e) = registered-total privileged_surfaces s (c ∷ name) i h in
          (t, rw (none', classify_name) e)
      | inr (t, e) ↦ (t, rw (e, classify_name) refl)
    ]

cut-append :
    (directory rest : Bytes)
    → all (λ c. not (c == b'/')) directory ≡ true
    → cut b'/' (directory ++ b'/' ∷ rest) ≡ some (directory, rest)
unfolding cut
cut-append [] rest h = refl
cut-append (c ∷ directory) rest h = ground (arith, cut-append directory rest)

nested_unit-automatic :
    (prefix directory : Bytes) → (nested_unit prefix directory).activation ≡ automatic
unfolding nested_unit
nested_unit-automatic prefix directory = ground arith

below_unit-nested :
    (prefix directory rest : Bytes)
    → all (λ c. not (c == b'/')) directory ≡ true
    → is_empty directory ≡ false
    → below_unit prefix (directory ++ b'/' ∷ rest) ≡ some (nested_unit prefix directory)
unfolding below_unit
below_unit-nested prefix directory rest plain full =
    rw (cut-append directory rest plain, full, below_unit) refl

-- What lies in a directory below a unit directory.
abbrev pub nested_name : Bytes → Bytes → Bytes → Bytes
nested_name root directory rest = root ++ (codes "system/" ++ (directory ++ b'/' ∷ rest))

unit_activation-nested :
    (root directory rest : Bytes)
    → IsIn root systemd_roots
    → all (λ c. not (c == b'/')) directory ≡ true
    → is_empty directory ≡ false
    → unit_activation systemd_roots (nested_name root directory rest)
      ≡ some (nested_unit (root ++ codes "system/") directory)
unfolding unit_activation has_prefix
unit_activation-nested root directory rest i plain full = at_root i
  where
    Holds : Bytes → Type 0
    Holds r =
        unit_activation systemd_roots (nested_name r directory rest)
        ≡ some (nested_unit (r ++ codes "system/") directory)

    at_root : IsIn root systemd_roots → Holds root
    at_root (here e) = subst Holds (sym e) (below_unit-nested _ directory rest plain full)
    at_root (there (here e)) = subst Holds (sym e) (below_unit-nested _ directory rest plain full)
    at_root (there (there (here e))) =
        subst Holds (sym e) (below_unit-nested _ directory rest plain full)
    at_root (there (there (there (here e)))) =
        subst Holds (sym e) (below_unit-nested _ directory rest plain full)
    at_root (there (there (there (there last)))) = elim last [ ]

nested_name-filled : (root tail : Bytes) → is_empty (root ++ (codes "system/" ++ tail)) ≡ false
nested_name-filled [] tail = refl
nested_name-filled (c ∷ root) tail = refl

-- A file in a directory below a directory of system units counts as automatic: a link that enables
-- a unit, a drop-in, or a structure that is not known.
pub classify_name-nested :
    (root directory rest : Bytes)
    → IsIn root systemd_roots
    → all (λ c. not (c == b'/')) directory ≡ true
    → is_empty directory ≡ false
    → (s : Surface) × (classify_name (nested_name root directory rest) ≡ some s)
      × (s.activation ≡ automatic)
unfolding classify_name
classify_name-nested root directory rest i plain full = (
  nested_unit (root ++ codes "system/") directory,
  rw
      (
        nested_name-filled root (directory ++ b'/' ∷ rest),
        unit_activation-nested root directory rest i plain full,
        classify_name,
      )
      refl,
  nested_unit-automatic (root ++ codes "system/") directory,
)

module _ (text inline : Bytes → ℕ → Bytes) where
  -- A file or link of a package that lies under a registered path is enumerated, under its name, and
  -- if it is a link it is asked about.
  pub enumerate_surfaces-IsComplete :
      (ms : List Member) (m : Member) (e : Surface)
      → IsIn m ms
      → is_dir m ≡ false
      → IsIn e privileged_surfaces
      → covers e (member_name m) ≡ true
      → (s : PrivilegedSurface) × IsIn s (enumerate_surfaces text inline ms)
        × (s.member ≡ member_name m)
        × ((not (is_link m) || requires_decision s.activation) ≡ true)
  unfolding classify_surface
  enumerate_surfaces-IsComplete ms m e i file registered' h =
      let (c, class) = classify_name-total e (member_name m) registered' h in
      let (named, asked) = examine-member text inline m c in
      (
        examine text inline m c,
        surface_of-IsIn text inline m ms (examine text inline m c) i
            (surface_of-class text inline m c file class),
        named,
        ground arith,
      )

  -- A file or link in a directory below a directory of system units is enumerated, and asked about.
  enumerate_surfaces-nested :
      (ms : List Member) (m : Member) (root directory rest : Bytes)
      → IsIn m ms
      → is_dir m ≡ false
      → IsIn root systemd_roots
      → all (λ c. not (c == b'/')) directory ≡ true
      → is_empty directory ≡ false
      → member_name m ≡ nested_name root directory rest
      → (s : PrivilegedSurface) × IsIn s (enumerate_surfaces text inline ms)
        × (s.member ≡ member_name m)
        × (requires_decision s.activation ≡ true)
  unfolding classify_surface
  enumerate_surfaces-nested ms m root directory rest i file at_root plain full same =
      let (c, nested, auto) = classify_name-nested root directory rest at_root plain full in
      let (named, asked) = examine-member text inline m c in
      (
        examine text inline m c,
        surface_of-IsIn text inline m ms (examine text inline m c) i
            (surface_of-class text inline m c file (ap classify_name same ∙ nested)),
        named,
        ground arith,
      )
