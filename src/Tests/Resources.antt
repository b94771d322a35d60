-- ===== src/Tests/Resources.antt =====
-- Examples for internal/audit/resource.go.
use prolewatch.Prelude.{
  ◌≡◌, ◌≤◌, ◌*◌, ◌/◌, refl, ◌<◌, ◌⊎◌, true, List, [], ◌∷◌, some, length, Bytes, codes, arith,
}
use prolewatch.Audit.Transcript.{new_output_transcript, last_bytes, transcript_bytes, observe_all}
use prolewatch.Audit.Transcript.Tail.{observe_all-new_output_transcript}
use prolewatch.Audit.Limits.{BuildConfig, Machine}
use prolewatch.Audit.Workspace.{
  Visit, root, other, regular, WorkspaceConfig, FileSystem, visit_once, walk, reconcile_once,
}
use prolewatch.Audit.Workspace.Bounded.{count_entries, total_bytes, reconcile_once-within}

abbrev writes : List Bytes
writes = codes "abc" ∷ codes "de" ∷ codes "f" ∷ []

abbrev output : Bytes
output = codes "abcdef"

observe_all-new_output_transcript_example :
    ((transcript_bytes (observe_all (new_output_transcript 4) writes)).0 ≡ last_bytes 4 output)
    × (length (observe_all (new_output_transcript 4) writes).buffer < 2 * 4)
    × (((transcript_bytes (observe_all (new_output_transcript 4) writes)).1 ≡ true)
        ⊎ ((transcript_bytes (observe_all (new_output_transcript 4) writes)).0 ≡ output))
observe_all-new_output_transcript_example = observe_all-new_output_transcript 4 (omega arith) writes

abbrev config : BuildConfig
config = record {
  memory_bytes = 8589934592;
  cpu_count = 4;
  tasks_max = 512;
  timeout_seconds = 3600;
  workspace_bytes = 1073741824;
  workspace_files = 100000;
  output_bytes = 1048576;
}

abbrev pub machine : Machine
machine = record { memory = some (4294967296, 1); cpus = 8 }

abbrev workspace : WorkspaceConfig
workspace = record { workspace_files = 2; workspace_bytes = 100; disk_reserve_bytes = 50 }

abbrev visits : List Visit
visits = root ∷ other ∷ regular 90 ∷ []

abbrev disk : FileSystem
disk = record { blocks = 100; available = 20; block_size = 4 }

reconcile_once-within_example :
    (count_entries visits ≤ 2)
    × (total_bytes visits ≤ 100)
    × (50 ≤ disk.available * disk.block_size)
    × (disk.blocks * disk.block_size / 10 ≤ disk.available * disk.block_size)
unfolding reconcile_once walk visit_once
reconcile_once-within_example = reconcile_once-within workspace visits disk refl
