-- ===== src/Brief/Path.antt =====
-- internal/brief/surfaces.go: NormalizeMember, with path.Clean of Go, which works on the parts between
-- the slashes and keeps the parts it has gone down in a stack, the last one in front.
use prolewatch.Prelude.{
  ◌≡◌, refl, Bool, ◌||◌, List, [], ◌∷◌, ◌++◌, if◌then◌else◌, Bytes, bytes_eq, codes, first_is,
  split_at, is_empty, has_prefix,
}

abbrev up : Bytes
up = codes ".."

abbrev go_up : Bool → List Bytes → List Bytes
go_up rooted [] = if rooted then [] else up ∷ []
go_up rooted (p ∷ ps) = if bytes_eq p up then up ∷ p ∷ ps else ps

abbrev clean_parts : Bool → List Bytes → List Bytes → List Bytes
clean_parts rooted stack [] = stack
clean_parts rooted stack (p ∷ ps) =
    let skipped = clean_parts rooted stack ps in
    let above = clean_parts rooted (go_up rooted stack) ps in
    let below = clean_parts rooted (p ∷ stack) ps in
    if is_empty p || bytes_eq p (codes ".") then skipped else if bytes_eq p up then above else below

abbrev join_slash : Bytes → List Bytes → Bytes
join_slash acc [] = acc
join_slash acc (p ∷ ps) = join_slash (p ++ (if is_empty acc then [] else b'/' ∷ acc)) ps

-- path.Clean of a path that is not empty.
unfoldable pub clean : Bytes → Bytes
clean s =
    let rooted = first_is b'/' s in
    let body = join_slash [] (clean_parts rooted [] (split_at b'/' s)) in
    if rooted then b'/' ∷ body else if is_empty body then codes "." else body

-- strings.TrimPrefix for one byte.
abbrev trim_slash : Bytes → Bytes
trim_slash [] = []
trim_slash (c ∷ s) = if first_is b'/' (c ∷ s) then s else c ∷ s

unfoldable pub normalize_member : Bytes → Bytes
unfolding clean
normalize_member [] = []
normalize_member (c ∷ s) =
    let cleaned = trim_slash (clean (c ∷ s)) in
    if is_empty cleaned
      || bytes_eq cleaned (codes ".")
      || bytes_eq cleaned (codes "..")
      || has_prefix (codes "../") cleaned
    then []
    else cleaned

normalize_test : normalize_member (codes "./usr//lib/../bin/x/") ≡ codes "usr/bin/x"
unfolding normalize_member clean bytes_eq has_prefix
normalize_test = refl

escape_test : normalize_member (codes "usr/../../etc") ≡ []
unfolding normalize_member clean bytes_eq has_prefix
escape_test = refl

root_test : normalize_member (codes "/../etc/passwd") ≡ codes "etc/passwd"
unfolding normalize_member clean bytes_eq has_prefix
root_test = refl
