-- ===== src/Audit/Invocation/Trusted.antt =====
-- internal/audit/build.go: openRootOwnedPathMode and openRootOwnedComponentsMode. A file is what
-- the system calls on each component of its path give.
use prolewatch.Prelude.{
  ℕ, Bool, true, false, not, ◌&&◌, List, [], ◌∷◌, ◌++◌, Option, none, some, ◌==◌, if◌then◌else◌,
  Bytes, bytes_eq, split_at,
}
use prolewatch.Brief.Path.{clean}

-- A file or directory as fstat sees it; `identity` is what SameStat compares beside mode and owner.
pub data FileKind : Type 0 where
  regular directory other : FileKind

pub record Stat : Type 0 where
  pub kind : FileKind
  pub writable_by_others : Bool
  pub permissions : ℕ
  pub uid : ℕ
  pub identity : Bytes

-- A component of a path: what fstatat gives before it is opened and fstat behind that.
pub record Probe : Type 0 where
  pub before : Option Stat
  pub after : Option Stat

abbrev same_kind : FileKind → FileKind → Bool
same_kind regular regular = true
same_kind directory directory = true
same_kind other other = true
same_kind _ _ = false

-- SameStat, which compares modes and owners too.
unfoldable pub same_stat : Stat → Stat → Bool
same_stat a b =
    bytes_eq a.identity b.identity
    && same_kind a.kind b.kind
    && a.permissions == b.permissions
    && a.uid == b.uid

-- Owned by root, of the kind that is expected, and written by its owner only.
abbrev pub is_trusted : FileKind → Stat → Bool
is_trusted expected s = same_kind s.kind expected && s.uid == 0 && not s.writable_by_others

abbrev pub expected_kind : Bool → Bool → FileKind
expected_kind want_directory last = if last && not want_directory then regular else directory

unfoldable pub check_component : FileKind → Probe → Bool
check_component expected p = elim p.before [
  | none ↦ false
  | some before ↦
      is_trusted expected before
      && (elim p.after [ none ↦ false | some after ↦ same_stat before after ])
]

abbrev pub is_last : List Bytes → Bool
is_last [] = true
is_last (c ∷ cs) = false

-- openRootOwnedComponentsMode, over the components in front of which these stand.
unfoldable pub open_components : (List Bytes → Probe) → Bool → List Bytes → List Bytes → Bool
unfolding check_component
open_components fs want_directory done [] = true
open_components fs want_directory done (c ∷ cs) =
    check_component (expected_kind want_directory (is_last cs)) (fs (done ++ c ∷ []))
    && open_components fs want_directory (done ++ c ∷ []) cs

pub record FileSystem : Type 0 where
  pub root : Option Stat
  pub probe : List Bytes → Probe

abbrev without_slash : Bytes → Bytes
without_slash [] = []
without_slash (c ∷ s) = if c == b'/' then s else c ∷ s

-- openRootOwnedPathMode.
unfoldable pub open_root_owned : FileSystem → Bool → Bytes → Bool
unfolding open_components
open_root_owned fs want_directory value = elim fs.root [
  | none ↦ false
  | some r ↦
      is_trusted directory r
      && open_components fs.probe want_directory [] (split_at b'/' (without_slash (clean value)))
]
