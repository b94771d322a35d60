-- ===== src/Audit/Config.antt =====
-- internal/audit/config.go: what LoadConfig makes of a decoded document, the normalization of absent
-- values and Config.Validate. The reading of the file and the YAML decoder are left out; `none` stands
-- for a list or a pointer that is nil.
pub mod Validate
pub mod Loaded
use prolewatch.Prelude.{
  ℕ, zero, suc, ◌*◌, ◌^◌, Bool, true, false, not, ◌&&◌, ◌||◌, List, [], ◌∷◌, ◌++◌, Option, none,
  some, ltb, leb, ◌==◌, if◌then◌else◌, length, all, Bytes, bytes_eq, codes, is_empty, is_member, ℤ,
  pos, negsuc, is_negative,
}
use prolewatch.Audit.Types.{mode_ai}
use prolewatch.Audit.Severity.{valid_severity}
use prolewatch.Audit.Limits.{BuildConfig}

abbrev pub to_nat : ℤ → ℕ
to_nat (pos n) = n
to_nat (negsuc n) = 0

abbrev pub is_positive : ℤ → Bool
is_positive (pos n) = ltb 0 n
is_positive (negsuc n) = false

-- At most this number.
abbrev pub at_most : ℤ → ℕ → Bool
at_most (pos n) m = leb n m
at_most (negsuc n) m = true

-- The comparison of two numbers that are positive.
abbrev pub no_more : ℤ → ℤ → Bool
no_more x y = leb (to_nat x) (to_nat y)

pub record ProviderConfig : Type 0 where
  pub model : Bytes
  pub effort : Bytes

pub record OllamaProviderConfig : Type 0 where
  pub model : Bytes
  pub context_tokens : ℤ
  pub reasoning : Bytes
  pub keep_alive_seconds : Option ℤ
  pub timeout_seconds : ℤ

pub record ReviewSettings : Type 0 where
  pub mode : Bytes
  pub minimum_confidence : Bytes
  pub manual_review_minimum_severity : Bytes
  pub timeout_seconds : ℤ
  pub kill_grace_seconds : ℤ
  pub batch_bytes : ℤ
  pub include_recipe_phase : Bool
  pub phases : Option (List Bytes)

pub record LimitsConfig : Type 0 where
  pub max_dispatch_bytes : ℤ
  pub max_files : ℤ
  pub max_total_input_bytes : ℤ
  pub max_archives : ℤ
  pub max_archive_entries : ℤ
  pub max_archive_unpacked_bytes : ℤ
  pub max_archive_depth : ℤ
  pub max_text_per_file : ℤ
  pub max_selected_text_bytes : ℤ
  pub binary_strings_bytes : ℤ
  pub max_findings : ℤ
  pub scan_timeout_seconds : ℤ

pub record BuildSettings : Type 0 where
  pub memory_bytes : ℤ
  pub cpu_count : ℤ
  pub tasks_max : ℤ
  pub timeout_seconds : ℤ
  pub workspace_bytes : ℤ
  pub workspace_files : ℤ
  pub output_bytes : ℤ
  pub disk_reserve_bytes : ℤ

pub record NetworkConfig : Type 0 where
  pub mode : Bytes
  pub prompt_timeout_seconds : ℤ
  pub grant_scope : Bytes
  pub max_destinations : ℤ
  pub max_requests : ℤ
  pub max_connections : ℤ
  pub connect_timeout_seconds : ℤ
  pub idle_timeout_seconds : ℤ
  pub max_transfer_bytes : ℤ
  pub disk_reserve_bytes : ℤ

pub record Config : Type 0 where
  pub provider : Bytes
  pub codex : ProviderConfig
  pub anthropic : ProviderConfig
  pub ollama : OllamaProviderConfig
  pub review : ReviewSettings
  pub limits : LimitsConfig
  pub build : BuildSettings
  pub network : NetworkConfig
  pub scan_depth : ℤ
  pub style : Bytes

-- A value that takes its default where it is absent.
abbrev pub or_default : ℕ → ℤ → ℤ
or_default d (pos zero) = pos d
or_default d (pos (suc n)) = pos (suc n)
or_default d (negsuc n) = negsuc n

abbrev pub or_text : Bytes → Bytes → Bytes
or_text d [] = d
or_text d (c ∷ s) = c ∷ s

unfoldable pub normalize_network_config : NetworkConfig → NetworkConfig
normalize_network_config n = record {
  mode = or_text (codes "prompt") n.mode;
  prompt_timeout_seconds = or_default 300 n.prompt_timeout_seconds;
  grant_scope = or_text (codes "transaction") n.grant_scope;
  max_destinations = or_default 8 n.max_destinations;
  max_requests = or_default 100000 n.max_requests;
  max_connections = or_default 32 n.max_connections;
  connect_timeout_seconds = or_default 15 n.connect_timeout_seconds;
  idle_timeout_seconds = or_default 60 n.idle_timeout_seconds;
  max_transfer_bytes = or_default (8 * 2 ^ 30) n.max_transfer_bytes;
  disk_reserve_bytes = or_default (2 * 2 ^ 30) n.disk_reserve_bytes;
}

abbrev pub or_seconds : Option ℤ → Option ℤ
or_seconds none = some (pos 300)
or_seconds (some k) = some k

unfoldable pub normalize_ollama_provider_config : OllamaProviderConfig → OllamaProviderConfig
normalize_ollama_provider_config p = record p {
  reasoning = or_text (codes "off") p.reasoning;
  keep_alive_seconds = or_seconds p.keep_alive_seconds;
  timeout_seconds = or_default 300 p.timeout_seconds;
}

abbrev pub or_phases : Bool → Option (List Bytes) → Option (List Bytes)
or_phases recipe (some ps) = some ps
or_phases true none = some (codes "recipe" ∷ codes "sources" ∷ codes "artifact" ∷ [])
or_phases false none = some (codes "sources" ∷ codes "artifact" ∷ [])

unfoldable pub normalize_review_config : ReviewSettings → ReviewSettings
normalize_review_config r = record r {
  phases = or_phases r.include_recipe_phase r.phases;
  include_recipe_phase = false;
}

unfoldable pub normalize : Config → Config
unfolding normalize_network_config normalize_ollama_provider_config normalize_review_config
normalize c = record c {
  network = normalize_network_config c.network;
  ollama = normalize_ollama_provider_config c.ollama;
  review = normalize_review_config c.review;
  style = or_text (codes "brand") c.style;
}
