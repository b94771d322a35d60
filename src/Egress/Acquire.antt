-- ===== src/Egress/Acquire.antt =====
-- internal/egress/acquire.go: the acquisition of the declared sources. What the network, the clock and
-- the file system give for a download is its `Transfer`; the lengths of the files stand for them, and
-- progress reports are left out.
pub mod Received
pub mod Bounded
use prolewatch.Prelude.{
  ℕ, suc, ◌+◌, ◌-◌, ◌*◌, ◌/◌, ◌^◌, max, min, Bool, true, false, not, ◌&&◌, ◌||◌, List, [], ◌∷◌,
  ◌++◌, map, Option, none, some, ltb, ◌==◌, if◌then◌else◌, any, Bytes, bytes_eq, codes, is_empty,
  is_member, split_at, trim_space, to_lower, insert_key, trim_right, length,
}
use prolewatch.Egress.Allowance.{
  Url, DeclaredSource, SourceKind, source_local, source_exact, source_vcs, Allowance, Permission,
  permits, answer, not_frozen, unparsable,
}

pub record AcquireConfig : Type 0 where
  pub max_transfer_bytes : ℕ
  pub disk_reserve_bytes : ℕ
  pub idle_timeout_seconds : ℕ

pub record FetchRecord : Type 0 where
  pub declared : Bytes
  pub filename : Bytes
  pub hosts : List Bytes
  pub bytes : ℕ

pub record Acquisition : Type 0 where
  pub fetched : List FetchRecord
  pub vcs_hosts : List Bytes

-- An answer of the server with the hosts of the redirects that led to it. `sent` is how much it would
-- send; `copied` is false if reading or writing fails on the way, and `closed` is the closing of the
-- file.
pub record Response : Type 0 where
  pub status : ℕ
  pub hops : List Bytes
  pub sent : ℕ
  pub opened : Bool
  pub copied : Bool
  pub closed : Bool

-- The size of the file system and what is available on it, where it can be read: before the request and
-- before the copy.
pub record Transfer : Type 0 where
  pub space_before : Option (ℕ × ℕ)
  pub in_time : Bool
  pub response : Option Response
  pub space : Option (ℕ × ℕ)

abbrev pub default_transfer_bytes : ℕ
default_transfer_bytes = 8 * 2 ^ 30

-- newAcquisitionBudget: the bytes of the whole acquisition.
unfoldable pub budget_bytes : AcquireConfig → ℕ
budget_bytes cfg =
    if cfg.max_transfer_bytes == 0 then default_transfer_bytes else cfg.max_transfer_bytes

-- The reserve: what is configured, or a tenth of the file system if that is more.
abbrev pub required : AcquireConfig → ℕ → ℕ
required cfg total = max cfg.disk_reserve_bytes (total / 10)

unfoldable pub reserve_ok : AcquireConfig → Option (ℕ × ℕ) → Bool
reserve_ok cfg none = true
reserve_ok cfg (some (total, available)) = not (ltb available (required cfg total))

-- The limit of a copy: the rest of the budget, or what the reserve leaves if that is less.
unfoldable pub copy_limit : AcquireConfig → ℕ → Option (ℕ × ℕ) → ℕ
copy_limit cfg remaining none = remaining
copy_limit cfg remaining (some (total, available)) =
    if ltb available (required cfg total + remaining)
    then available - required cfg total
    else remaining

-- strings.Cut at `::`, the part in front.
abbrev cons_front : ℕ → Option Bytes → Option Bytes
cons_front x none = none
cons_front x (some s) = some (x ∷ s)

abbrev pub before_rename : Bytes → Option Bytes
before_rename [] = none
before_rename (x ∷ []) = none
before_rename (x ∷ y ∷ s) =
    let rest = cons_front x (before_rename (y ∷ s)) in
    if x == b':' && y == b':' then some [] else rest

-- path.Base.
abbrev last_part : List Bytes → Bytes
last_part [] = []
last_part (p ∷ []) = p
last_part (p ∷ q ∷ ps) = last_part (q ∷ ps)

abbrev is_slash : ℕ → Bool
is_slash c = c == b'/'

abbrev base_or_root : Bytes → Bytes
base_or_root s = if is_empty s then codes "/" else s

unfoldable pub path_base : Bytes → Bytes
path_base [] = codes "."
path_base (c ∷ s) = base_or_root (last_part (split_at b'/' (trim_right is_slash (c ∷ s))))

-- validSourceFilename.
abbrev pub is_separator : ℕ → Bool
is_separator c = c == b'/' || c == b'\\' || c == 0

unfoldable pub valid_source_filename : Bytes → Option Bytes
valid_source_filename name =
    let trimmed = trim_space name in
    if is_empty trimmed
      || bytes_eq trimmed (codes ".")
      || bytes_eq trimmed (codes "..")
      || bytes_eq trimmed (codes "/")
      || any is_separator trimmed
    then none
    else some trimmed

-- dedupeSorted.
unfoldable pub dedupe_sorted : List Bytes → List Bytes
dedupe_sorted [] = []
dedupe_sorted (v ∷ vs) =
    let rest = dedupe_sorted vs in if is_empty v then rest else insert_key v rest

abbrev pub fetchable : Url → Bool
fetchable u = bytes_eq u.scheme (codes "http") || bytes_eq u.scheme (codes "https")

-- What follows the answer of the server: the rest of the budget and the record.
unfoldable pub receive :
    AcquireConfig
    → ℕ
    → DeclaredSource
    → Bytes
    → Url
    → Option (ℕ × ℕ)
    → Response
    → ℕ × Option FetchRecord
receive cfg remaining source filename u space r =
    let limit = copy_limit cfg remaining space in
    let written = min r.sent (limit + 1) in
    if not (r.status == 200) || not r.opened
    then (remaining, none)
    else if not r.copied || not r.closed || ltb limit written
    then (remaining - written, none)
    else (
      remaining - written,
      some (record {
        declared = source.url;
        filename = filename;
        hosts = dedupe_sorted (to_lower u.hostname ∷ r.hops);
        bytes = written;
      }),
    )

abbrev pub is_permitted : Permission → Bool
is_permitted (answer b) = b
is_permitted not_frozen = false
is_permitted unparsable = false

abbrev pub vcs_host : Option Url → Option Bytes
vcs_host none = none
vcs_host (some u) = if is_empty u.host then none else some (to_lower u.hostname)

abbrev pub add_host : Option Bytes → Option Acquisition → Option Acquisition
add_host (some h) (some a) = some (record a { vcs_hosts = h ∷ a.vcs_hosts })
add_host _ _ = none

abbrev pub add_record : Option FetchRecord → Option Acquisition → Option Acquisition
add_record (some r) (some a) = some (record a { fetched = r ∷ a.fetched })
add_record _ _ = none

module _ (parse_url : Bytes → Option Url) where
  abbrev pub from_url : Option Url → Option Bytes
  from_url none = none
  from_url (some u) = valid_source_filename (path_base u.path)

  abbrev pub from_rename : Bytes → Option Bytes → Option Bytes
  from_rename url none = from_url (parse_url url)
  from_rename url (some []) = from_url (parse_url url)
  from_rename url (some (c ∷ s)) = valid_source_filename (c ∷ s)

  -- SourceFilename.
  unfoldable pub source_filename : DeclaredSource → Option Bytes
  unfolding valid_source_filename
  source_filename source = from_rename source.url (before_rename source.raw)

  -- fetchDeclared.
  unfoldable pub fetch_declared :
      AcquireConfig → ℕ → DeclaredSource → Transfer → ℕ × Option FetchRecord
  unfolding source_filename receive
  fetch_declared cfg remaining source t = elim (source_filename source) [
    | none ↦ (remaining, none)
    | some filename ↦ elim (parse_url source.url) [
      | none ↦ (remaining, none)
      | some u ↦
          if not (fetchable u) || not (reserve_ok cfg t.space_before) || not t.in_time
          then (remaining, none)
          else elim t.response [
            | none ↦ (remaining, none)
            | some r ↦ receive cfg remaining source filename u t.space r
          ]
    ]
  ]

  -- The loop over the sources; `n` counts the downloads so far, each with its own transfer.
  unfoldable pub acquire_sources :
      AcquireConfig → Allowance → (ℕ → Transfer) → ℕ → ℕ → List DeclaredSource → Option Acquisition
  unfolding fetch_declared
  acquire_sources cfg allowance net n remaining [] = some (record { fetched = []; vcs_hosts = [] })
  acquire_sources cfg allowance net n remaining (source ∷ sources) =
      let skipped = acquire_sources cfg allowance net n remaining sources in
      let (left, fetched) = fetch_declared cfg remaining source (net (suc n)) in
      let rest = acquire_sources cfg allowance net (suc n) left sources in
      elim source.kind [
        | source_local ↦ skipped
        | source_vcs ↦ add_host (vcs_host (parse_url source.url)) skipped
        | source_exact ↦
            if not (is_permitted (permits parse_url allowance source.url))
            then none
            else add_record fetched rest
      ]

  abbrev pub deduped : Option Acquisition → Option Acquisition
  deduped none = none
  deduped (some a) = some (record a { vcs_hosts = dedupe_sorted a.vcs_hosts })

  -- Acquire; `ready` is whether the directory and the address policy can be made.
  unfoldable pub acquire : AcquireConfig → Allowance → Bool → (ℕ → Transfer) → Option Acquisition
  unfolding acquire_sources dedupe_sorted
  acquire cfg allowance ready net =
      if not allowance.frozen || not ready
      then none
      else deduped (acquire_sources cfg allowance net 0 (budget_bytes cfg) allowance.sources)
