-- ===== src/Audit/Limits.antt =====
-- internal/audit/resource.go: SandboxEnforcement, effectiveBuildLimits and freezeLimits. Config.Validate
-- accepts positive limits alone; here 0 stands for every limit that is not positive. The product of
-- the memory size wraps in 64 bits, as Go computes it.
pub mod Frozen
use prolewatch.Prelude.{
  ℕ, ◌*◌, ◌/◌, ◌%◌, ◌^◌, Bool, true, false, not, ◌&&◌, ◌||◌, List, [], ◌∷◌, Option, none, some, ltb,
  leb, ◌==◌, if◌then◌else◌, min, Bytes, bytes_eq, codes, is_member,
}

pub record SandboxEnforcement : Type 0 where
  pub memory_bytes : ℕ
  pub cpu_count : ℕ
  pub tasks_max : ℕ
  pub timeout_seconds : ℕ
  pub workspace_bytes : ℕ
  pub workspace_files : ℕ
  pub output_bytes : ℕ
  pub network_policy : Bytes
  pub termination : Bytes

abbrev pub terminations : List Bytes
terminations =
    []
    ∷ codes "sandbox-setup"
    ∷ codes "workspace-accounting"
    ∷ codes "systemd-start"
    ∷ codes "process-exit"
    ∷ codes "output-limit"
    ∷ codes "workspace-limit"
    ∷ codes "timeout"
    ∷ codes "cancelled"
    ∷ codes "network-broker"
    ∷ codes "network-request-limit"
    ∷ []

pub data EnforcementError : Type 0 where
  non_positive_limit bad_network_policy bad_termination : EnforcementError

-- SandboxEnforcement.Validate.
unfoldable pub validate : SandboxEnforcement → Option EnforcementError
validate s =
    if s.memory_bytes == 0
      || s.cpu_count == 0
      || s.tasks_max == 0
      || s.timeout_seconds == 0
      || s.workspace_bytes == 0
      || s.workspace_files == 0
      || s.output_bytes == 0
    then some non_positive_limit
    else if not (bytes_eq s.network_policy (codes "isolated"))
        && not (bytes_eq s.network_policy (codes "public-web-broker"))
    then some bad_network_policy
    else if not (is_member s.termination terminations)
    then some bad_termination
    else none

pub record BuildConfig : Type 0 where
  pub memory_bytes : ℕ
  pub cpu_count : ℕ
  pub tasks_max : ℕ
  pub timeout_seconds : ℕ
  pub workspace_bytes : ℕ
  pub workspace_files : ℕ
  pub output_bytes : ℕ

-- unix.Sysinfo's total memory in units and the size of a unit, if it answers, and runtime.NumCPU.
pub record Machine : Type 0 where
  pub memory : Option (ℕ × ℕ)
  pub cpus : ℕ

-- `total * 8 / 10` in int64: a product that wraps to a negative number gives no cap.
unfoldable pub memory_cap : ℕ → ℕ → ℕ
memory_cap total unit =
    let product = (total * unit * 8) % 2 ^ 64 in if ltb product (2 ^ 63) then product / 10 else 0

unfoldable pub capped_memory : Option (ℕ × ℕ) → ℕ → ℕ
unfolding memory_cap
capped_memory none memory = memory
capped_memory (some (total, unit)) memory =
    let cap = memory_cap total unit in if ltb 0 cap && ltb cap memory then cap else memory

abbrev at_least_one : ℕ → ℕ
at_least_one n = if ltb n 1 then 1 else n

unfoldable pub effective_build_limits : Machine → BuildConfig → SandboxEnforcement
effective_build_limits machine cfg = record {
  memory_bytes = capped_memory machine.memory cfg.memory_bytes;
  cpu_count = at_least_one (min cfg.cpu_count machine.cpus);
  tasks_max = cfg.tasks_max;
  timeout_seconds = cfg.timeout_seconds;
  workspace_bytes = cfg.workspace_bytes;
  workspace_files = cfg.workspace_files;
  output_bytes = cfg.output_bytes;
  network_policy = codes "isolated";
  termination = [];
}

-- contain.Limits.
pub record Limits : Type 0 where
  pub memory_bytes : ℕ
  pub cpu_count : ℕ
  pub tasks_max : ℕ
  pub timeout_seconds : ℕ
  pub file_size_bytes : ℕ
  pub output_bytes : ℕ

abbrev pub freeze_max_memory_bytes : ℕ
freeze_max_memory_bytes = 2147483648

abbrev pub freeze_max_cpu_count : ℕ
freeze_max_cpu_count = 2

abbrev pub freeze_max_tasks : ℕ
freeze_max_tasks = 128

abbrev pub freeze_max_timeout_seconds : ℕ
freeze_max_timeout_seconds = 60

abbrev pub freeze_max_file_bytes : ℕ
freeze_max_file_bytes = 67108864

abbrev pub freeze_max_output_bytes : ℕ
freeze_max_output_bytes = 4194304

abbrev pub freeze_min_memory_bytes : ℕ
freeze_min_memory_bytes = 536870912

abbrev pub freeze_min_cpu_count : ℕ
freeze_min_cpu_count = 1

abbrev pub freeze_min_tasks : ℕ
freeze_min_tasks = 64

-- A limit under its ceiling, or its floor if that is not positive.
abbrev pub narrowed : ℕ → ℕ → ℕ → ℕ
narrowed value ceiling floor = if min value ceiling == 0 then floor else min value ceiling

unfoldable pub freeze_limits : Machine → BuildConfig → Limits
freeze_limits machine cfg =
    let build = effective_build_limits machine cfg in
    record {
      memory_bytes = narrowed build.memory_bytes freeze_max_memory_bytes freeze_min_memory_bytes;
      cpu_count = narrowed build.cpu_count freeze_max_cpu_count freeze_min_cpu_count;
      tasks_max = narrowed build.tasks_max freeze_max_tasks freeze_min_tasks;
      timeout_seconds =
          narrowed build.timeout_seconds freeze_max_timeout_seconds freeze_max_timeout_seconds;
      file_size_bytes = narrowed build.workspace_bytes freeze_max_file_bytes freeze_max_file_bytes;
      output_bytes = narrowed build.output_bytes freeze_max_output_bytes freeze_max_output_bytes;
    }
