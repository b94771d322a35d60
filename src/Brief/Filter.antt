-- ===== src/Brief/Filter.antt =====
-- internal/brief/filter.go: dropSet, FilterArchive and writeFilteredMTree. The archive is the list of
-- its members, which both readers of FilterArchive give; gzip comes from outside, and zstd and the
-- file operations are left out. A Go map from strings to true is the list of its keys.
pub mod Occupied
pub mod Dropped
pub mod Lines
pub mod Archive
use prolewatch.Prelude.{
  concat, insert_key, ℕ, Bool, true, false, not, ◌&&◌, ◌||◌, List, [], ◌∷◌, ◌++◌, map, Option, none,
  some, ◌==◌, if◌then◌else◌, length, any, all, Bytes, bytes_eq, bytes_lt, codes, is_empty,
  is_member, has_prefix, trim_last, cut, first_is,
}
use prolewatch.Brief.Path.{normalize_member}
use prolewatch.Brief.Mtree.{decode_mtree_path}

-- tar.TypeDir, tar.TypeReg, tar.TypeSymlink, tar.TypeLink, and the rest.
pub data TypeFlag : Type 0 where
  dir reg symlink link other : TypeFlag

pub record Member : Type 0 where
  pub name : Bytes
  pub typeflag : TypeFlag
  pub linkname : Bytes
  pub size : ℕ
  pub content : Bytes

abbrev pub is_dir : Member → Bool
is_dir m = elim m.typeflag [ dir ↦ true | _ ↦ false ]

abbrev pub member_name : Member → Bytes
member_name m = normalize_member m.name

unfoldable pub strip_set : List Bytes → List Bytes
strip_set = map normalize_member

-- The names of the directories, and of the files that stay.
unfoldable pub directories : List Member → List Bytes
directories [] = []
directories (m ∷ ms) = let rest = directories ms in if is_dir m then member_name m ∷ rest else rest

unfoldable pub surviving_files : List Bytes → List Member → List Bytes
surviving_files stripped [] = []
surviving_files stripped (m ∷ ms) =
    let rest = surviving_files stripped ms in
    if is_dir m || is_member (member_name m) stripped then rest else member_name m ∷ rest

abbrev pub is_occupied : List Bytes → Bytes → Bool
is_occupied files directory = any (has_prefix (directory ++ b'/' ∷ [])) files

unfoldable pub empty_directories : List Bytes → List Bytes → List Bytes
unfolding insert_key
empty_directories files [] = []
empty_directories files (d ∷ ds) =
    let rest = empty_directories files ds in if is_occupied files d then rest else insert_key d rest

-- dropSet: the names that are dropped, and the directories among them that were pruned.
unfoldable pub drop_set : List Member → List Bytes → List Bytes × List Bytes
unfolding strip_set directories surviving_files empty_directories
drop_set ms strip =
    let stripped = strip_set strip in
    let pruned = empty_directories (surviving_files stripped ms) (directories ms) in
    (stripped ++ pruned, pruned)

-- strings.SplitAfter at the line feed: never empty.
unfoldable pub split_after : Bytes → List Bytes
split_after [] = [] ∷ []
split_after (c ∷ s) =
    let rest = split_after s in
    if c == b'\n' then (c ∷ []) ∷ rest else elim rest [ [] ↦ (c ∷ []) ∷ [] | w ∷ ws ↦ (c ∷ w) ∷ ws ]

abbrev first_word : Option (Bytes × Bytes) → Bytes → Bytes
first_word none s = s
first_word (some (a, b)) s = a

-- What a line of .MTREE names; `none` for a line without a member name.
unfoldable pub line_name : Bytes → Option Bytes
line_name l =
    let trimmed = trim_last b'\n' l in
    if is_empty trimmed
      || first_is b'#' trimmed
      || has_prefix (codes "/set") trimmed
      || has_prefix (codes "/unset") trimmed
    then none
    else some (normalize_member (decode_mtree_path (first_word (cut b' ' trimmed) trimmed)))

abbrev pub is_kept : List Bytes → Option Bytes → Bool
is_kept drop none = true
is_kept drop (some n) = not (is_member n drop)

unfoldable pub keep_lines : List Bytes → List Bytes → List Bytes
unfolding line_name
keep_lines drop [] = []
keep_lines drop (l ∷ ls) =
    let rest = keep_lines drop ls in if is_kept drop (line_name l) then l ∷ rest else rest

-- The loop of writeFilteredMTree.
unfoldable pub filter_mtree : List Bytes → Bytes → Bytes
unfolding split_after keep_lines
filter_mtree drop text = concat (keep_lines drop (split_after text))

abbrev pacman_metadata_members : List Bytes
pacman_metadata_members =
    codes ".PKGINFO"
    ∷ codes ".BUILDINFO"
    ∷ codes ".MTREE"
    ∷ codes ".INSTALL"
    ∷ codes ".CHANGELOG"
    ∷ []

-- A name that may be stripped: it is in the package and no metadata but the install script.
unfoldable pub strip_allowed : List Member → Bytes → Bool
strip_allowed ms name =
    let n = normalize_member name in
    is_member n (map member_name ms)
    && not (is_member n pacman_metadata_members && not (bytes_eq n (codes ".INSTALL")))

-- The bytes that follow a header: only those of a regular file.
abbrev pub content_of : TypeFlag → Bytes → Bytes
content_of reg content = content
content_of _ content = []

abbrev pub copied : Member → Member
copied m = record m { content = content_of m.typeflag m.content }

abbrev pub is_mtree : Member → Bool
is_mtree m = bytes_eq (member_name m) (codes ".MTREE")

abbrev pub prepend : Option Member → Option (List Member) → Option (List Member)
prepend (some m) (some ms) = some (m ∷ ms)
prepend _ _ = none

module _ (gunzip : Bytes → Option Bytes) (gzip : Bytes → Bytes) where
  -- writeFilteredMTree.
  unfoldable pub rewrite_mtree : List Bytes → Member → Option Member
  unfolding filter_mtree
  rewrite_mtree drop m = elim (gunzip m.content) [
    | none ↦ none
    | some text ↦
        let blob = gzip (filter_mtree drop text) in
        some (record m { size = length blob; content = blob })
  ]

  unfoldable pub write_members : List Bytes → List Member → Option (List Member)
  unfolding rewrite_mtree
  write_members drop [] = some []
  write_members drop (m ∷ ms) =
      let rest = write_members drop ms in
      if is_member (member_name m) drop
      then rest
      else if is_mtree m
      then prepend (rewrite_mtree drop m) rest
      else prepend (some (copied m)) rest

  -- FilterArchive: the members of the new archive, and the directories that were pruned.
  unfoldable pub filter_archive : List Member → List Bytes → Option (List Member × List Bytes)
  unfolding drop_set write_members strip_allowed
  filter_archive ms strip =
      let (drop, pruned) = drop_set ms strip in
      if not (all (strip_allowed ms) strip)
      then none
      else elim (write_members drop ms) [ none ↦ none | some out ↦ some (out, pruned) ]
