-- ===== src/Audit/Limits/Frozen.antt =====
-- The envelope of a PKGBUILD evaluation is usable, and no wider than that of the build.
use prolewatch.Prelude.{ℕ, ◌≡◌, ◌≤◌, ◌<◌, ◌⊎◌, Option, none, some, arith, bytes_eq}
use prolewatch.Audit.Limits.{
  BuildConfig, Machine, narrowed, capped_memory, effective_build_limits, freeze_limits, validate,
  freeze_max_memory_bytes, freeze_max_cpu_count, freeze_max_tasks, freeze_max_timeout_seconds,
  freeze_max_file_bytes, freeze_max_output_bytes,
}

-- A limit that can be set, under its ceiling, and under the build's where the build's is positive.
abbrev pub IsNarrowed : ℕ → ℕ → ℕ → Type 0
IsNarrowed value ceiling limit = (0 < limit) × (limit ≤ ceiling) × ((value ≡ 0) ⊎ (limit ≤ value))

narrowed-IsNarrowed :
    (value ceiling floor : ℕ)
    → 0 < floor
    → floor ≤ ceiling
    → IsNarrowed value ceiling (narrowed value ceiling floor)
narrowed-IsNarrowed value ceiling floor h k = ground arith

-- Whatever the machine and the configuration are, every limit for the evaluation of a PKGBUILD is
-- positive and under its fixed ceiling, and each is no larger than the limit that the build gets, as
-- far as that is positive.
pub freeze_limits-IsNarrowed :
    (machine : Machine) (cfg : BuildConfig)
    → IsNarrowed
        (effective_build_limits machine cfg).memory_bytes
        freeze_max_memory_bytes
        (freeze_limits machine cfg).memory_bytes
      × IsNarrowed
          (effective_build_limits machine cfg).cpu_count
          freeze_max_cpu_count
          (freeze_limits machine cfg).cpu_count
      × IsNarrowed
          (effective_build_limits machine cfg).tasks_max
          freeze_max_tasks
          (freeze_limits machine cfg).tasks_max
      × IsNarrowed
          (effective_build_limits machine cfg).timeout_seconds
          freeze_max_timeout_seconds
          (freeze_limits machine cfg).timeout_seconds
      × IsNarrowed
          (effective_build_limits machine cfg).workspace_bytes
          freeze_max_file_bytes
          (freeze_limits machine cfg).file_size_bytes
      × IsNarrowed
          (effective_build_limits machine cfg).output_bytes
          freeze_max_output_bytes
          (freeze_limits machine cfg).output_bytes
unfolding freeze_limits
freeze_limits-IsNarrowed machine cfg = (
  narrowed-IsNarrowed _ _ _ (omega arith) (omega arith),
  narrowed-IsNarrowed _ _ _ (omega arith) (omega arith),
  narrowed-IsNarrowed _ _ _ (omega arith) (omega arith),
  narrowed-IsNarrowed _ _ _ (omega arith) (omega arith),
  narrowed-IsNarrowed _ _ _ (omega arith) (omega arith),
  narrowed-IsNarrowed _ _ _ (omega arith) (omega arith),
)

capped_memory-positive : (m : Option (ℕ × ℕ)) (memory : ℕ) → 0 < memory → 0 < capped_memory m memory
unfolding capped_memory
capped_memory-positive none memory h = h
capped_memory-positive (some (total, unit)) memory h = ground arith

-- The limits that a build gets from a configuration with positive limits are ones that
-- SandboxEnforcement.Validate accepts, whatever the machine is.
pub effective_build_limits-validate :
    (machine : Machine) (cfg : BuildConfig)
    → 0 < cfg.memory_bytes
    → 0 < cfg.tasks_max
    → 0 < cfg.timeout_seconds
    → 0 < cfg.workspace_bytes
    → 0 < cfg.workspace_files
    → 0 < cfg.output_bytes
    → validate (effective_build_limits machine cfg) ≡ none
unfolding validate effective_build_limits bytes_eq
effective_build_limits-validate machine cfg m t s w f o =
    ground (arith, capped_memory-positive machine.memory cfg.memory_bytes m)
