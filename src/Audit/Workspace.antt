-- ===== src/Audit/Workspace.antt =====
-- internal/audit/resource.go: reconcileOnce, the accounting of a build's workspace. The walk over the
-- tree is the list of its visits; sizes are not negative, and the products that statfs gives fit.
pub mod Bounded
use prolewatch.Prelude.{
  ℕ, suc, ◌+◌, ◌*◌, ◌/◌, Bool, true, false, List, [], ◌∷◌, Option, none, some, ltb, if◌then◌else◌,
  max,
}

-- What filepath.WalkDir hands to its callback: an error, which a directory that makepkg has locked
-- may cause or a path that is gone (not that of the root), or an entry.
pub data Visit : Type 0 where
  locked : Visit
  gone : Visit
  broken : Visit
  root : Visit
  other : Visit
  regular : ℕ → Visit
  unread : Bool → Visit

pub record WorkspaceConfig : Type 0 where
  pub workspace_files : ℕ
  pub workspace_bytes : ℕ
  pub disk_reserve_bytes : ℕ

pub data Accounting : Type 0 where
  counted : ℕ → ℕ → Accounting
  tree_changing walk_error file_limit byte_limit : Accounting

-- One call of the callback.
unfoldable pub visit_once : WorkspaceConfig → ℕ → ℕ → Visit → Accounting
visit_once cfg files bytes locked = counted files bytes
visit_once cfg files bytes gone = tree_changing
visit_once cfg files bytes broken = walk_error
visit_once cfg files bytes root = counted files bytes
visit_once cfg files bytes other =
    if ltb cfg.workspace_files (suc files) then file_limit else counted (suc files) bytes
visit_once cfg files bytes (regular size) =
    if ltb cfg.workspace_files (suc files)
    then file_limit
    else if ltb cfg.workspace_bytes (bytes + size)
    then byte_limit
    else counted (suc files) (bytes + size)
visit_once cfg files bytes (unread is_gone) =
    if ltb cfg.workspace_files (suc files)
    then file_limit
    else if is_gone
    then tree_changing
    else walk_error

unfoldable pub walk : WorkspaceConfig → ℕ → ℕ → List Visit → Accounting
walk cfg files bytes [] = counted files bytes
walk cfg files bytes (v ∷ vs) = elim (visit_once cfg files bytes v) [
  | counted more total ↦ walk cfg more total vs
  | tree_changing ↦ tree_changing
  | walk_error ↦ walk_error
  | file_limit ↦ file_limit
  | byte_limit ↦ byte_limit
]

-- unix.Statfs: blocks, blocks available, and the size of a block.
pub record FileSystem : Type 0 where
  pub blocks : ℕ
  pub available : ℕ
  pub block_size : ℕ

pub data Reconciled : Type 0 where
  within : Reconciled
  refused_walk : Accounting → Reconciled
  no_statfs : Reconciled
  reserve_violated : Reconciled

abbrev pub reserve_of : WorkspaceConfig → FileSystem → ℕ
reserve_of cfg fs = max cfg.disk_reserve_bytes (fs.blocks * fs.block_size / 10)

abbrev pub check_reserve : WorkspaceConfig → Option FileSystem → Reconciled
check_reserve cfg none = no_statfs
check_reserve cfg (some fs) =
    if ltb (fs.available * fs.block_size) (reserve_of cfg fs) then reserve_violated else within

unfoldable pub reconcile_once : WorkspaceConfig → List Visit → Option FileSystem → Reconciled
unfolding walk
reconcile_once cfg visits fs = elim (walk cfg 0 0 visits) [
  | counted _ _ ↦ check_reserve cfg fs
  | tree_changing ↦ refused_walk tree_changing
  | walk_error ↦ refused_walk walk_error
  | file_limit ↦ refused_walk file_limit
  | byte_limit ↦ refused_walk byte_limit
]
