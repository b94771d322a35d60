-- ===== src/Brief/Surfaces.antt =====
-- internal/brief/surfaces.go and integration.go: ClassifySurface with systemdUnitActivation,
-- EnumerateSurfaces and SurfacesRequiringDecision. The archive is the list of its members. The
-- rendering of texts for a terminal (safe.Text and safe.Inline) decides nothing and is an argument;
-- the order of surfaces with one name is that of the archive.
pub mod Registry
pub mod Listed
pub mod Covered
pub mod Stripped
use prolewatch.Prelude.{
  ℕ, ◌+◌, ◌-◌, ◌*◌, Bool, true, false, not, ◌&&◌, ◌||◌, List, [], ◌∷◌, ◌++◌, Option, none, some,
  if◌then◌else◌, length, take, drop, ltb, Bytes, bytes_eq, bytes_lt, codes, is_empty, has_prefix,
  has_suffix, trim_last, cut,
}
use prolewatch.Brief.Path.{normalize_member}
use prolewatch.Brief.Filter.{Member, TypeFlag, dir, reg, symlink, link, is_dir}
use prolewatch.Brief.Surfaces.Registry.{
  SurfaceKind, systemd_unit, SurfaceActivation, automatic, requires_decision, Surface, under,
  systemd_roots, privileged_surfaces,
}

-- What is registered for a name: the first entry that is it, or that it lies under.
abbrev pub covers : Surface → Bytes → Bool
covers s name =
    if not (is_empty s.member)
    then bytes_eq name s.member
    else has_prefix s.prefix name && not (bytes_eq name (trim_last b'/' s.prefix))

unfoldable pub registered : List Surface → Bytes → Option Surface
registered [] name = none
registered (s ∷ ss) name = let rest = registered ss name in if covers s name then some s else rest

-- strings.TrimSuffix for a suffix that is there.
abbrev without_suffix : ℕ → Bytes → Bytes
without_suffix n s = take (length s - n) s

-- What lies in a directory below a unit directory.
unfoldable pub nested_unit : Bytes → Bytes → Surface
nested_unit prefix directory =
    if has_suffix (codes ".wants") directory || has_suffix (codes ".requires") directory
    then under prefix systemd_unit automatic (
        codes "enables a unit at install time: "
        ++ (directory
            ++ codes " participates when that target activates, with no systemctl enable"))
    else if has_suffix (codes ".d") directory
    then under prefix systemd_unit automatic (
        codes "modifies "
        ++ (without_suffix 2 directory ++ codes ", which may already be enabled and running"))
    else under prefix systemd_unit automatic
        (codes "sits below a systemd unit directory in a structure Prolewatch does not recognise")

unfoldable pub below_unit : Bytes → Bytes → Option Surface
unfolding nested_unit
below_unit prefix remainder = elim (cut b'/' remainder) [
  | none ↦ none
  | some (directory, _) ↦ if is_empty directory then none else some (nested_unit prefix directory)
]

-- systemdUnitActivation, over the roots; the first root that fits decides.
unfoldable pub unit_activation : List Bytes → Bytes → Option Surface
unfolding below_unit
unit_activation [] name = none
unit_activation (root ∷ roots) name =
    let prefix = root ++ codes "system/" in
    let rest = unit_activation roots name in
    if has_prefix prefix name then below_unit prefix (drop (length prefix) name) else rest

-- ClassifySurface.
unfoldable pub classify_name : Bytes → Option Surface
classify_name name = if is_empty name then none else elim (unit_activation systemd_roots name) [
  | some s ↦ some s
  | none ↦ registered privileged_surfaces name
]

unfoldable pub classify_surface : Bytes → Option Surface
classify_surface member = classify_name (normalize_member member)

pub record PrivilegedSurface : Type 0 where
  pub member : Bytes
  pub kind : SurfaceKind
  pub activation : SurfaceActivation
  pub link_target : Bytes
  pub when : Bytes
  pub body : Bytes
  pub truncated : Bool
  pub size : ℕ

abbrev pub max_surface_body : ℕ
max_surface_body = 64 * 1024

-- The surfaces in the order of their names.
unfoldable pub insert_surface : PrivilegedSurface → List PrivilegedSurface → List PrivilegedSurface
insert_surface s [] = s ∷ []
insert_surface s (t ∷ ts) =
    let rest = insert_surface s ts in if bytes_lt t.member s.member then t ∷ rest else s ∷ t ∷ ts

-- SurfacesRequiringDecision.
unfoldable pub requiring_decision : List PrivilegedSurface → List PrivilegedSurface
requiring_decision [] = []
requiring_decision (s ∷ ss) =
    let rest = requiring_decision ss in if requires_decision s.activation then s ∷ rest else rest

module _ (text inline : Bytes → ℕ → Bytes) where
  abbrev pub listed : Bytes → ℕ → Surface → PrivilegedSurface
  listed name size class = record {
    member = name;
    kind = class.kind;
    activation = class.activation;
    link_target = [];
    when = class.when;
    body = [];
    truncated = false;
    size = size;
  }

  -- A link is asked about, whatever its path says.
  abbrev pub as_link : Bytes → PrivilegedSurface → PrivilegedSurface
  as_link target s =
      if requires_decision s.activation
      then record s { link_target = inline target 4096 }
      else record s {
        link_target = inline target 4096;
        activation = automatic;
        when =
            codes "a link occupying "
            ++ (s.member ++ codes "; where it points decides what it does");
      }

  -- The part of a file that is read for display.
  abbrev pub with_body : Bytes → PrivilegedSurface → PrivilegedSurface
  with_body content s = record s {
    body = text (take max_surface_body content) max_surface_body;
    truncated = ltb max_surface_body (length content);
  }

  abbrev pub examine : Member → Surface → PrivilegedSurface
  examine m class =
      let s = listed (normalize_member m.name) m.size class in
      elim m.typeflag [
        | symlink ↦ as_link m.linkname s
        | link ↦ as_link m.linkname s
        | reg ↦ with_body m.content s
        | _ ↦ s
      ]

  -- What a member adds.
  unfoldable pub surface_of : Member → Option PrivilegedSurface
  surface_of m =
      if is_dir m
      then none
      else elim (classify_surface m.name) [ none ↦ none | some class ↦ some (examine m class) ]

  -- EnumerateSurfaces on an archive that can be read.
  unfoldable pub enumerate_surfaces : List Member → List PrivilegedSurface
  enumerate_surfaces [] = []
  enumerate_surfaces (m ∷ ms) =
      let rest = enumerate_surfaces ms in
      elim (surface_of m) [ none ↦ rest | some s ↦ insert_surface s rest ]
