-- ===== src/Tests/Integrations.antt =====
-- Examples for the privileged surfaces of internal/brief.
use prolewatch.Prelude.{
  ◌||◌, ◌≡◌, refl, true, not, List, [], ◌∷◌, some, ℕ, all, IsIn, here, there, all-IsIn, Bytes,
  codes, bytes_eq, bytes_lt, has_prefix, has_suffix, cut, insert_key, is_member,
}
use prolewatch.Brief.Path.{normalize_member, clean}
use prolewatch.Brief.Filter.{
  Member, TypeFlag, reg, symlink, member_name, strip_set, directories, surviving_files,
  empty_directories, drop_set, strip_allowed, write_members, rewrite_mtree, filter_archive,
}
use prolewatch.Brief.Surfaces.Registry.{
  Surface, hook, automatic, under, requires_decision, privileged_surfaces, registered_surfaces,
  searched_surfaces,
}
use prolewatch.Brief.Surfaces.{
  PrivilegedSurface, covers, registered, nested_unit, below_unit, unit_activation, classify_name,
  classify_surface, insert_surface, requiring_decision, surface_of, enumerate_surfaces,
}
use prolewatch.Brief.Surfaces.Listed.{is_link}
use prolewatch.Brief.Surfaces.Covered.{enumerate_surfaces-IsComplete}
use prolewatch.Brief.Surfaces.Stripped.{filter_archive-settles}

abbrev plain : Bytes → ℕ → Bytes
plain s n = s

abbrev file : Bytes → TypeFlag → Member
file name flag = record {
  name = name;
  typeflag = flag;
  linkname = [];
  size = 0;
  content = codes "x";
}

abbrev hook_file : Member
hook_file = file (codes "./usr/share/libalpm/hooks/a.hook") reg

-- A hook, a link that enables a unit, a unit and a program.
abbrev built : List Member
built =
    hook_file
    ∷ file (codes "etc/systemd/system/a.target.wants/b.service") symlink
    ∷ file (codes "usr/lib/systemd/system/b.service") reg
    ∷ file (codes "usr/bin/b") reg
    ∷ []

abbrev asked : List Bytes
asked =
    codes "usr/share/libalpm/hooks/a.hook"
    ∷ codes "etc/systemd/system/a.target.wants/b.service"
    ∷ []

abbrev rewritten : List Member
rewritten = file (codes "usr/lib/systemd/system/b.service") reg ∷ file (codes "usr/bin/b") reg ∷ []

abbrev names : List PrivilegedSurface → List Bytes
names [] = []
names (s ∷ ss) = s.member ∷ names ss

listed_test :
    names (enumerate_surfaces plain plain built)
    ≡ codes "etc/systemd/system/a.target.wants/b.service"
      ∷ codes "usr/lib/systemd/system/b.service"
      ∷ codes "usr/share/libalpm/hooks/a.hook"
      ∷ []
unfolding enumerate_surfaces insert_surface surface_of classify_surface classify_name registered
    unit_activation below_unit nested_unit privileged_surfaces registered_surfaces searched_surfaces
    normalize_member clean bytes_eq bytes_lt has_prefix has_suffix cut
listed_test = refl

all_asked :
    all
      (λ (s : PrivilegedSurface). is_member s.member (strip_set asked))
      (requiring_decision (enumerate_surfaces plain plain built))
    ≡ true
unfolding requiring_decision enumerate_surfaces insert_surface surface_of classify_surface
    classify_name registered unit_activation below_unit nested_unit privileged_surfaces
    registered_surfaces searched_surfaces strip_set normalize_member clean bytes_eq bytes_lt
    has_prefix has_suffix cut
all_asked = refl

rewritten_test : filter_archive some (λ s. s) built asked ≡ some (rewritten, [])
unfolding filter_archive drop_set strip_set directories surviving_files empty_directories insert_key
    strip_allowed write_members rewrite_mtree normalize_member clean bytes_eq has_prefix
rewritten_test = refl

filter_archive-settles_example : requiring_decision (enumerate_surfaces plain plain rewritten) ≡ []
filter_archive-settles_example =
    filter_archive-settles plain plain some (λ s. s) built rewritten asked [] rewritten_test
      (λ s i.
        all-IsIn (λ (x : PrivilegedSurface). is_member x.member (strip_set asked))
          (requiring_decision (enumerate_surfaces plain plain built)) i all_asked)

abbrev hooks : Surface
hooks =
    under (codes "usr/share/libalpm/hooks/") hook automatic
      (codes "runs as root on EVERY subsequent pacman transaction; no pacman flag can suppress it")

hooks_registered : IsIn hooks privileged_surfaces
unfolding privileged_surfaces registered_surfaces
hooks_registered = there (here refl)

hooks_cover : covers hooks (member_name hook_file) ≡ true
unfolding normalize_member clean bytes_eq has_prefix
hooks_cover = refl

enumerate_surfaces-IsComplete_example :
    (s : PrivilegedSurface) × IsIn s (enumerate_surfaces plain plain built)
    × (s.member ≡ member_name hook_file)
    × ((not (is_link hook_file) || requires_decision s.activation) ≡ true)
enumerate_surfaces-IsComplete_example =
    enumerate_surfaces-IsComplete plain plain built hook_file hooks (here refl) refl
      hooks_registered hooks_cover
