-- ===== src/Egress/Allowance.antt =====
-- internal/egress/allowance.go: the declared sources of a package, and which requests they permit.
-- net/url's Parse and String are parameters: `parse_url` gives the fields that the code reads.
pub mod Declared
pub mod Permitted
use prolewatch.Prelude.{
  ℕ, Bool, true, false, not, ◌&&◌, ◌||◌, List, [], ◌∷◌, ◌++◌, Option, none, some, ltb, leb, ◌==◌,
  if◌then◌else◌, length, drop, any, Bytes, bytes_eq, has_prefix, codes, is_empty, is_member,
  split_at, trim_last, trim_space, cut, to_lower,
}

pub record Url : Type 0 where
  pub scheme : Bytes
  pub host : Bytes
  pub hostname : Bytes
  pub port : Bytes
  pub path : Bytes
  pub raw_query : Bytes
  pub fragment : Bytes

pub data SourceKind : Type 0 where
  source_local : SourceKind
  source_exact : SourceKind
  source_vcs : SourceKind

pub record DeclaredSource : Type 0 where
  pub raw : Bytes
  pub url : Bytes
  pub kind : SourceKind

-- `frozen` stands for a pointer that is not nil with a time that is not zero.
pub record Allowance : Type 0 where
  pub sources : List DeclaredSource
  pub frozen : Bool

pub data Parsed : Type 0 where
  parsed : List DeclaredSource → Parsed
  too_many : Parsed
  too_long : Parsed

abbrev pub max_declared_sources : ℕ
max_declared_sources = 256

-- The scanner refuses a line that fills its buffer.
abbrev pub max_srcinfo_line_bytes : ℕ
max_srcinfo_line_bytes = 65536

abbrev vcs_schemes : List Bytes
vcs_schemes = codes "git+" ∷ codes "hg+" ∷ codes "svn+" ∷ codes "bzr+" ∷ codes "fossil+" ∷ []

abbrev bare_vcs_schemes : List Bytes
bare_vcs_schemes = codes "git" ∷ codes "svn" ∷ codes "hg" ∷ codes "bzr" ∷ []

-- What follows the first `::`, if there is one.
unfoldable pub rename_target : Bytes → Bytes → Bytes
rename_target entry [] = entry
rename_target entry (x ∷ []) = entry
rename_target entry (x ∷ y ∷ t) =
    let rest = rename_target entry (y ∷ t) in if x == b':' && y == b':' then t else rest

-- The first scheme of the list that stands in front is removed.
unfoldable pub strip_scheme : List Bytes → Bytes → Bytes × SourceKind
unfolding has_prefix
strip_scheme [] target = (target, source_exact)
strip_scheme (scheme ∷ schemes) target =
    let rest = strip_scheme schemes target in
    if has_prefix scheme target then (drop (length scheme) target, source_vcs) else rest

-- The value of a line that declares a source.
unfoldable pub source_value : Bytes → Option Bytes
source_value line = elim (cut b'=' (trim_last b'\r' line)) [
  | none ↦ none
  | some (key, value) ↦
      if not (bytes_eq (trim_space key) (codes "source"))
        && not (has_prefix (codes "source_") (trim_space key))
      then none
      else if is_empty (trim_space value)
      then none
      else some (trim_space value)
]

-- What the loop does with a line.
pub data Next : Type 0 where
  skip : Next
  add : Bytes → Next
  fail : Parsed → Next

unfoldable pub next : Bytes → List Bytes → List DeclaredSource → Next
next line seen sources =
    if leb max_srcinfo_line_bytes (length line) then fail too_long else elim (source_value line) [
      | none ↦ skip
      | some value ↦
          if is_member value seen
          then skip
          else if leb max_declared_sources (length sources)
          then fail too_many
          else add value
    ]

module _ (parse_url : Bytes → Option Url) (url_string : Url → Bytes) where
  unfoldable pub classify_source : Bytes → DeclaredSource
  classify_source entry =
      let base : DeclaredSource = record { raw = entry; url = []; kind = source_local } in
      let (target, prefixed) = strip_scheme vcs_schemes (rename_target entry entry) in
      elim (parse_url target) [
        | none ↦ base
        | some u ↦
            let kind = if is_member u.scheme bare_vcs_schemes then source_vcs else prefixed in
            if is_empty u.scheme || is_empty u.host
            then base
            else record { raw = entry; url = url_string (record u { fragment = [] }); kind = kind }
      ]

  unfoldable pub parse_lines : List Bytes → List Bytes → List DeclaredSource → Parsed
  parse_lines [] seen sources = parsed sources
  parse_lines (line ∷ lines) seen sources = elim (next line seen sources) [
    | skip ↦ parse_lines lines seen sources
    | add value ↦ parse_lines lines (value ∷ seen) (sources ++ (classify_source value ∷ []))
    | fail result ↦ result
  ]

  unfoldable pub parse_srcinfo_sources : Bytes → Parsed
  parse_srcinfo_sources raw = parse_lines (split_at b'\n' raw) [] []

unfoldable pub normalize_host : Url → Bytes
normalize_host u =
    let host = to_lower u.hostname in
    if is_empty u.port
      || (bytes_eq u.scheme (codes "https") && bytes_eq u.port (codes "443"))
      || (bytes_eq u.scheme (codes "http") && bytes_eq u.port (codes "80"))
    then host
    else host ++ (b':' ∷ u.port)

-- What Permits answers: two errors, or a Boolean.
pub data Permission : Type 0 where
  not_frozen : Permission
  unparsable : Permission
  answer : Bool → Permission

module _ (parse_url : Bytes → Option Url) where
  unfoldable pub same_request : Bytes → Url → Bool
  same_request declared request = elim (parse_url declared) [
    | none ↦ false
    | some u ↦
        bytes_eq (normalize_host u) (normalize_host request)
        && bytes_eq u.scheme request.scheme
        && bytes_eq u.path request.path
        && bytes_eq u.raw_query request.raw_query
  ]

  unfoldable pub under_repository : Bytes → Url → Bool
  under_repository declared request = elim (parse_url declared) [
    | none ↦ false
    | some u ↦
        let base = trim_last b'/' u.path in
        if not (bytes_eq (normalize_host u) (normalize_host request))
          || not (bytes_eq u.scheme request.scheme)
        then false
        else if is_empty base
        then is_empty request.path || bytes_eq request.path (codes "/")
        else bytes_eq request.path base || has_prefix (base ++ codes "/") request.path
  ]

  unfoldable pub source_permits : Url → DeclaredSource → Bool
  source_permits request source = elim source.kind [
    | source_local ↦ false
    | source_exact ↦ same_request source.url request
    | source_vcs ↦ under_repository source.url request
  ]

  unfoldable pub permits : Allowance → Bytes → Permission
  permits allowance raw_url =
      if not allowance.frozen then not_frozen else elim (parse_url raw_url) [
        | none ↦ unparsable
        | some request ↦ answer (any (source_permits request) allowance.sources)
      ]
