-- ===== src/Tests/Archives.antt =====
-- Examples for the archive filter of internal/brief.
use prolewatch.Prelude.{
  insert_key, ◌≡◌, refl, ◌↔◌, ◌⊎◌, true, [], ◌∷◌, some, List, Bytes, codes, is_member, bytes_eq,
  bytes_lt, has_prefix, cut,
}
use prolewatch.Brief.Path.{normalize_member, clean}
use prolewatch.Brief.Mtree.{decode_mtree_path, decode_bytes}
use prolewatch.Brief.Filter.{
  Member, TypeFlag, dir, reg, strip_set, directories, surviving_files, empty_directories, drop_set,
  strip_allowed, write_members, rewrite_mtree, filter_mtree, split_after, keep_lines, line_name,
  filter_archive,
}
use prolewatch.Brief.Filter.Dropped.{IsStripped, IsEmptied, drop_set-IsDropped}
use prolewatch.Brief.Filter.Archive.{IsRest, filter_archive-IsRest}

abbrev member : Bytes → TypeFlag → Bytes → Member
member name flag content = record {
  name = name;
  typeflag = flag;
  linkname = [];
  size = 0;
  content = content;
}

-- A hook and the directory that only it is in.
abbrev text : Bytes
text =
    codes "#mtree\n./usr/hooks/evil\\040a.hook mode=644\n./usr/hooks type=dir\n./usr/a mode=755\n"

abbrev archive : List Member
archive =
    member (codes ".MTREE") reg text
    ∷ member (codes "usr/hooks/") dir []
    ∷ member (codes "usr/hooks/evil a.hook") reg (codes "x")
    ∷ member (codes "usr/a") reg (codes "y")
    ∷ []

abbrev strip : List Bytes
strip = codes "/usr/hooks/evil a.hook" ∷ []

drop_set-IsDropped_example :
    ((is_member (codes "usr/hooks") (drop_set archive strip).0 ≡ true)
      ↔ (IsStripped strip (codes "usr/hooks") ⊎ IsEmptied archive strip (codes "usr/hooks")))
    × ((is_member (codes "usr/hooks") (drop_set archive strip).1 ≡ true)
        ↔ IsEmptied archive strip (codes "usr/hooks"))
drop_set-IsDropped_example = drop_set-IsDropped archive strip (codes "usr/hooks") refl

abbrev kept : List Member
kept =
    record {
      name = codes ".MTREE";
      typeflag = reg;
      linkname = [];
      size = 24;
      content = codes "#mtree\n./usr/a mode=755\n";
    }
    ∷ member (codes "usr/a") reg (codes "y")
    ∷ []

filtered_test : filter_archive some (λ s. s) archive strip ≡ some (kept, codes "usr/hooks" ∷ [])
unfolding filter_archive drop_set strip_set directories surviving_files empty_directories insert_key
    strip_allowed write_members rewrite_mtree filter_mtree split_after keep_lines line_name
    normalize_member clean decode_mtree_path decode_bytes bytes_eq bytes_lt has_prefix cut
filtered_test = refl

filter_archive-IsRest_example : IsRest some (λ s. s) (drop_set archive strip).0 archive kept
filter_archive-IsRest_example =
    filter_archive-IsRest some (λ s. s) archive kept strip (codes "usr/hooks" ∷ []) (λ s. refl)
      filtered_test
