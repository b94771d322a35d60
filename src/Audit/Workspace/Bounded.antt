-- ===== src/Audit/Workspace/Bounded.antt =====
-- What a workspace keeps to that the accounting finds within its limits.
use prolewatch.Prelude.{
  ℕ, suc, ◌+◌, ◌*◌, ◌/◌, ◌≡◌, ◌≤◌, refl, false, List, [], ◌∷◌, some, ltb, arith,
}
use prolewatch.Audit.Workspace.{
  Visit, locked, gone, broken, root, other, regular, unread, WorkspaceConfig, Accounting, counted,
  tree_changing, walk_error, file_limit, byte_limit, visit_once, walk, FileSystem, within,
  reserve_of, reconcile_once,
}

-- The entries below the root, and the bytes of the regular files among them.
abbrev pub count_entries : List Visit → ℕ
count_entries [] = 0
count_entries (other ∷ vs) = suc (count_entries vs)
count_entries (regular size ∷ vs) = suc (count_entries vs)
count_entries (unread is_gone ∷ vs) = suc (count_entries vs)
count_entries (_ ∷ vs) = count_entries vs

abbrev pub total_bytes : List Visit → ℕ
total_bytes [] = 0
total_bytes (regular size ∷ vs) = size + total_bytes vs
total_bytes (_ ∷ vs) = total_bytes vs

module _ (cfg : WorkspaceConfig) where
  -- A walk that ends well has counted every entry and every byte within the limits.
  walk-counted :
      (vs : List Visit) (files bytes more total : ℕ)
      → files ≤ cfg.workspace_files
      → bytes ≤ cfg.workspace_bytes
      → walk cfg files bytes vs ≡ counted more total
      → (more ≡ files + count_entries vs)
        × (total ≡ bytes + total_bytes vs)
        × (more ≤ cfg.workspace_files)
        × (total ≤ cfg.workspace_bytes)
  unfolding walk visit_once
  walk-counted [] files bytes more total hf hb h = ground arith
  walk-counted (locked ∷ vs) files bytes more total hf hb h =
      walk-counted vs files bytes more total hf hb h
  walk-counted (gone ∷ vs) files bytes more total hf hb h = absurd (ground arith)
  walk-counted (broken ∷ vs) files bytes more total hf hb h = absurd (ground arith)
  walk-counted (root ∷ vs) files bytes more total hf hb h =
      walk-counted vs files bytes more total hf hb h
  walk-counted (other ∷ vs) files bytes more total hf hb h =
      let rest = walk-counted vs (suc files) bytes more total (ground arith) hb (ground arith) in
      (omega (arith, rest.0), rest.1, rest.2, rest.3)
  walk-counted (regular size ∷ vs) files bytes more total hf hb h =
      let rest =
        walk-counted vs (suc files) (bytes + size) more total (ground arith) (ground arith)
          (ground arith) in
      (omega (arith, rest.0), omega (arith, rest.1), rest.2, rest.3)
  walk-counted (unread is_gone ∷ vs) files bytes more total hf hb h = absurd (ground arith)

  reserve_kept :
      (fs : FileSystem)
      → ltb (fs.available * fs.block_size) (reserve_of cfg fs) ≡ false
      → (cfg.disk_reserve_bytes ≤ fs.available * fs.block_size)
        × (fs.blocks * fs.block_size / 10 ≤ fs.available * fs.block_size)
  reserve_kept fs h = (ground arith, ground arith)

  -- A workspace that the accounting accepts has no more entries and no more bytes than the
  -- configuration allows, and its file system keeps the configured reserve and a tenth of its size
  -- free.
  pub reconcile_once-within :
      (visits : List Visit) (fs : FileSystem)
      → reconcile_once cfg visits (some fs) ≡ within
      → (count_entries visits ≤ cfg.workspace_files)
        × (total_bytes visits ≤ cfg.workspace_bytes)
        × (cfg.disk_reserve_bytes ≤ fs.available * fs.block_size)
        × (fs.blocks * fs.block_size / 10 ≤ fs.available * fs.block_size)
  unfolding reconcile_once
  reconcile_once-within visits fs h = by_walk (walk cfg 0 0 visits) refl
    where
      by_walk :
          (a : Accounting)
          → walk cfg 0 0 visits ≡ a
          → (count_entries visits ≤ cfg.workspace_files)
            × (total_bytes visits ≤ cfg.workspace_bytes)
            × (cfg.disk_reserve_bytes ≤ fs.available * fs.block_size)
            × (fs.blocks * fs.block_size / 10 ≤ fs.available * fs.block_size)
      by_walk (counted more total) e =
          let (files_are, bytes_are, few, small) =
            walk-counted visits 0 0 more total (omega arith) (omega arith) e in
          let (reserve, tenth) = reserve_kept fs (ground arith) in
          (omega arith, omega arith, reserve, tenth)
      by_walk tree_changing e = absurd (ground arith)
      by_walk walk_error e = absurd (ground arith)
      by_walk file_limit e = absurd (ground arith)
      by_walk byte_limit e = absurd (ground arith)
