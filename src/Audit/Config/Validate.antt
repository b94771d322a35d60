-- ===== src/Audit/Config/Validate.antt =====
-- internal/audit/config.go: Config.Validate, and LoadConfig on a decoded document.
use prolewatch.Prelude.{
  ℕ, Bool, true, false, not, ◌&&◌, ◌||◌, List, [], ◌∷◌, Option, none, some, leb, ◌==◌,
  if◌then◌else◌, length, Bytes, bytes_eq, codes, is_empty, is_member, ℤ, pos, negsuc, is_negative,
}
use prolewatch.Audit.Types.{mode_ai}
use prolewatch.Audit.Severity.{valid_severity}
use prolewatch.Audit.Limits.{BuildConfig}
use prolewatch.Audit.Config.{
  to_nat, is_positive, at_most, no_more, ProviderConfig, OllamaProviderConfig, ReviewSettings,
  LimitsConfig, BuildSettings, NetworkConfig, Config, normalize,
}

unfoldable pub valid_provider : ProviderConfig → Bool
valid_provider p =
    not (is_empty p.model)
    && leb (length p.model) 256
    && is_member p.effort (
        codes "none"
        ∷ codes "low"
        ∷ codes "medium"
        ∷ codes "high"
        ∷ codes "xhigh"
        ∷ codes "max"
        ∷ [])

abbrev is_zero : ℤ → Bool
is_zero (pos n) = n == 0
is_zero (negsuc n) = false

abbrev within : ℕ → ℕ → ℤ → Bool
within low high (pos n) = leb low n && leb n high
within low high (negsuc n) = false

abbrev within_option : ℕ → ℕ → Option ℤ → Bool
within_option low high none = false
within_option low high (some k) = within low high k

unfoldable pub valid_ollama : Bytes → OllamaProviderConfig → Bool
valid_ollama provider p =
    (not (bytes_eq provider (codes "ollama"))
      || (not (is_empty p.model) && leb (length p.model) 256 && not (is_zero p.context_tokens)))
    && (is_zero p.context_tokens || within 16384 262144 p.context_tokens)
    && is_member p.reasoning
        (codes "auto" ∷ codes "off" ∷ codes "low" ∷ codes "medium" ∷ codes "high" ∷ [])
    && within_option 0 3600 p.keep_alive_seconds
    && within 1 1800 p.timeout_seconds

-- The phases are known, and none stands twice.
unfoldable pub valid_phases : List Bytes → List Bytes → Bool
valid_phases seen [] = true
valid_phases seen (p ∷ ps) =
    is_member p (codes "recipe" ∷ codes "sources" ∷ codes "artifact" ∷ [])
    && not (is_member p seen)
    && valid_phases (p ∷ seen) ps

abbrev phases_ok : Option (List Bytes) → Bool
phases_ok none = false
phases_ok (some ps) = leb 1 (length ps) && leb (length ps) 3 && valid_phases [] ps

unfoldable pub valid_review : ReviewSettings → Bool
unfolding valid_phases
valid_review r =
    is_member r.mode (mode_ai ∷ codes "deterministic-only" ∷ [])
    && is_member r.minimum_confidence (codes "low" ∷ codes "medium" ∷ codes "high" ∷ [])
    && valid_severity r.manual_review_minimum_severity
    && is_positive r.timeout_seconds
    && is_positive r.kill_grace_seconds
    && is_positive r.batch_bytes
    && not r.include_recipe_phase
    && phases_ok r.phases

unfoldable pub positive_limits : LimitsConfig → Bool
positive_limits l =
    is_positive l.max_dispatch_bytes
    && is_positive l.max_files
    && is_positive l.max_total_input_bytes
    && is_positive l.max_archives
    && is_positive l.max_archive_entries
    && is_positive l.max_archive_unpacked_bytes
    && is_positive l.max_archive_depth
    && is_positive l.max_text_per_file
    && is_positive l.max_selected_text_bytes
    && is_positive l.binary_strings_bytes
    && is_positive l.max_findings
    && is_positive l.scan_timeout_seconds

unfoldable pub positive_build : BuildSettings → Bool
positive_build b =
    is_positive b.memory_bytes
    && is_positive b.cpu_count
    && is_positive b.tasks_max
    && is_positive b.timeout_seconds
    && is_positive b.workspace_bytes
    && is_positive b.workspace_files
    && is_positive b.output_bytes
    && is_positive b.disk_reserve_bytes

unfoldable pub valid_network : NetworkConfig → Bool
valid_network n =
    is_positive n.max_connections
    && is_positive n.connect_timeout_seconds
    && is_positive n.idle_timeout_seconds
    && is_positive n.max_transfer_bytes
    && is_positive n.prompt_timeout_seconds
    && is_positive n.max_destinations
    && is_positive n.max_requests
    && bytes_eq n.mode (codes "prompt")
    && bytes_eq n.grant_scope (codes "transaction")
    && at_most n.max_destinations 64
    && at_most n.max_requests 1000000
    && at_most n.max_connections 256
    && at_most n.prompt_timeout_seconds 3600
    && at_most n.connect_timeout_seconds 300
    && at_most n.idle_timeout_seconds 3600

-- The relations between the numbers.
unfoldable pub valid_relations : Config → Bool
valid_relations c =
    no_more c.review.batch_bytes c.limits.max_selected_text_bytes
    && no_more c.limits.binary_strings_bytes c.limits.max_text_per_file
    && no_more c.limits.max_archive_entries c.limits.max_files
    && no_more c.limits.max_archive_unpacked_bytes c.limits.max_total_input_bytes
    && not (is_negative c.scan_depth)
    && no_more c.scan_depth c.limits.max_archive_depth
    && not (no_more c.build.workspace_bytes c.build.disk_reserve_bytes)

-- Config.Validate.
unfoldable pub valid_config : Config → Bool
unfolding valid_provider valid_ollama valid_review positive_limits positive_build valid_network
    valid_relations
valid_config c =
    is_member c.style (codes "brand" ∷ codes "plain" ∷ [])
    && is_member c.provider (codes "codex" ∷ codes "anthropic" ∷ codes "ollama" ∷ [])
    && valid_provider c.codex
    && valid_provider c.anthropic
    && valid_ollama c.provider c.ollama
    && valid_review c.review
    && positive_limits c.limits
    && positive_build c.build
    && valid_network c.network
    && valid_relations c

-- LoadConfig, from the decoded document.
unfoldable pub load_config : Config → Option Config
unfolding normalize valid_config
load_config document = let c = normalize document in if valid_config c then some c else none

-- The build limits as the sandbox takes them.
abbrev pub build_config : BuildSettings → BuildConfig
build_config b = record {
  memory_bytes = to_nat b.memory_bytes;
  cpu_count = to_nat b.cpu_count;
  tasks_max = to_nat b.tasks_max;
  timeout_seconds = to_nat b.timeout_seconds;
  workspace_bytes = to_nat b.workspace_bytes;
  workspace_files = to_nat b.workspace_files;
  output_bytes = to_nat b.output_bytes;
}
