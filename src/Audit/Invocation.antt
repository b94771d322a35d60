-- ===== src/Audit/Invocation.antt =====
-- internal/audit/build.go: the protocol between yay and the makepkg wrapper. ClassifyInvocation with
-- validateMakepkgConfig and openRootOwnedComponentsMode, containedMakepkgArgs and
-- invocationNetworkEnabled. Files are what the system calls on
-- each component of their path give.
pub mod Harmless
pub mod Arguments
pub mod Trusted
pub mod Closed
pub mod Network
use prolewatch.Prelude.{
  ℕ, ◌+◌, Bool, true, false, not, ◌&&◌, ◌||◌, List, [], ◌∷◌, ◌++◌, Option, none, some, ◌==◌,
  if◌then◌else◌, any, Bytes, bytes_eq, codes, is_empty, is_member, first_is, has_prefix, split_at,
}
use prolewatch.Brief.Path.{clean}
use prolewatch.Audit.Types.{Report, allow}
pub use prolewatch.Audit.Invocation.Trusted.{FileSystem, Probe, Stat, directory, regular}
unfoldable pub use prolewatch.Audit.Invocation.Trusted.{
  check_component, open_components, open_root_owned, same_stat,
}

pub data Profile : Type 0 where
  info printsrcinfo verify prepare packagelist build skip : Profile

pub record Invocation : Type 0 where
  pub profile : Profile
  pub args : List Bytes
  pub config_path : Bytes

-- A command that the wrapper does not know yet, one that would weaken integrity, and a configuration
-- that the system does not own.
pub data InvocationError : Type 0 where
  incompatible forbidden bad_config : InvocationError

abbrev pub prohibited_makepkg : List Bytes
prohibited_makepkg = codes "--skipchecksums" ∷ codes "--skipinteg" ∷ []

abbrev pub safe_global : List Bytes
safe_global =
    codes "--nocheck"
    ∷ codes "--check"
    ∷ codes "--ignorearch"
    ∷ codes "--noconfirm"
    ∷ codes "--noprogressbar"
    ∷ []

-- profileAllowed; `info` has no entry.
abbrev pub profile_allowed : Profile → List Bytes
profile_allowed info = []
profile_allowed printsrcinfo = codes "--printsrcinfo" ∷ []
profile_allowed verify =
    codes "--verifysource"
    ∷ codes "--skippgpcheck"
    ∷ codes "-f"
    ∷ codes "-C"
    ∷ codes "-c"
    ∷ codes "-Cc"
    ∷ []
profile_allowed prepare = codes "--nobuild" ∷ codes "-f" ∷ codes "-C" ∷ []
profile_allowed packagelist = codes "--packagelist" ∷ []
profile_allowed build =
    codes "-f" ∷ codes "-c" ∷ codes "--noextract" ∷ codes "--noprepare" ∷ codes "--holdver" ∷ []
profile_allowed skip = codes "-c" ∷ codes "--nobuild" ∷ codes "--noextract" ∷ []

abbrev pub is_allowed : Profile → Bytes → Bool
is_allowed p arg = is_member arg (profile_allowed p) || is_member arg safe_global

-- validateMakepkgConfig.
unfoldable pub valid_makepkg_config : FileSystem → Bytes → Bool
unfolding open_root_owned
valid_makepkg_config fs value =
    first_is b'/' value
    && bytes_eq (clean value) value
    && (bytes_eq value (codes "/etc/makepkg.conf")
        || has_prefix (codes "/etc/makepkg.conf.d/") value)
    && open_root_owned fs false value

-- The arguments without the configuration, and the last configuration that is named.
pub data Split : Type 0 where
  split : List Bytes → Bytes → Split
  refused : InvocationError → Split

abbrev pub cons_arg : Bytes → Split → Split
cons_arg a (split rest path) = split (a ∷ rest) path
cons_arg a (refused e) = refused e

abbrev pub is_config : Bytes → Bool
is_config = bytes_eq (codes "--config")

unfoldable pub split_config : (Bytes → Bool) → Bytes → List Bytes → Split
split_config valid path [] = split [] path
split_config valid path (a ∷ []) = if is_config a then refused incompatible else split (a ∷ []) path
split_config valid path (a ∷ v ∷ rest) =
    let behind = split_config valid v rest in
    let next = cons_arg a (split_config valid path (v ∷ rest)) in
    if is_config a then (if valid v then behind else refused bad_config) else next

-- The life-cycle stage that the arguments stand for.
unfoldable pub profile_of : List Bytes → Option Profile
profile_of remaining =
    let has = λ (token : Bytes). is_member token remaining in
    if has (codes "--printsrcinfo")
    then some printsrcinfo
    else if has (codes "--verifysource")
    then some verify
    else if has (codes "--packagelist")
    then some packagelist
    else if has (codes "--nobuild") && has (codes "--noextract")
    then some skip
    else if has (codes "--nobuild")
    then some prepare
    else if has (codes "--noextract") && has (codes "--noprepare") && has (codes "--holdver")
    then some build
    else none

pub data Classified : Type 0 where
  accepted : Invocation → Classified
  rejected : InvocationError → Classified

abbrev info_words : List Bytes
info_words = codes "--help" ∷ codes "-h" ∷ codes "--version" ∷ codes "-V" ∷ []

abbrev pub is_info : List Bytes → Bool
is_info (a ∷ []) = is_member a info_words
is_info _ = false

abbrev pub classify_as : List Bytes → List Bytes → Bytes → Option Profile → Classified
classify_as args remaining path none = rejected incompatible
classify_as args remaining path (some p) =
    if any (λ a. not (is_allowed p a)) remaining
    then rejected incompatible
    else accepted (record { profile = p; args = args; config_path = path })

abbrev pub classify_split : List Bytes → Split → Classified
classify_split args (refused e) = rejected e
classify_split args (split remaining path) =
    if is_member (codes "--skippgpcheck") remaining
      && not (is_member (codes "--verifysource") remaining)
    then rejected forbidden
    else classify_as args remaining path (profile_of remaining)

-- ClassifyInvocation.
unfoldable pub classify_invocation : FileSystem → List Bytes → Classified
unfolding split_config profile_of valid_makepkg_config
classify_invocation fs [] = rejected incompatible
classify_invocation fs (a ∷ args) =
    if is_info (a ∷ args)
    then accepted (record { profile = info; args = a ∷ args; config_path = [] })
    else if any (λ x. is_member x prohibited_makepkg) (a ∷ args)
    then rejected forbidden
    else classify_split (a ∷ args) (split_config (valid_makepkg_config fs) [] (a ∷ args))

-- containedMakepkgArgs.
unfoldable pub contained_makepkg_args : Invocation → List Bytes
contained_makepkg_args i = elim i.profile [
  | prepare ↦ i.args ++ codes "--nodeps" ∷ []
  | build ↦ i.args ++ codes "--nodeps" ∷ []
  | skip ↦ i.args ++ codes "--nodeps" ∷ []
  | _ ↦ i.args
]

-- invocationNetworkEnabled.
unfoldable pub invocation_network_enabled : Profile → Option Report → Bool
invocation_network_enabled p none = false
invocation_network_enabled p (some r) = bytes_eq r.decision allow && (elim p [
  | verify ↦ bytes_eq r.phase (codes "pre")
  | prepare ↦ bytes_eq r.phase (codes "post") && r.network_eligible
  | build ↦ bytes_eq r.phase (codes "post") && r.network_eligible
  | _ ↦ false
])
