-- ===== src/Tests/Configs.antt =====
-- Examples for the configuration of internal/audit.
use prolewatch.Prelude.{◌^◌, ◌≡◌, refl, true, [], none, some, codes, bytes_eq, pos, negsuc}
use prolewatch.Audit.Severity.{valid_severity}
use prolewatch.Audit.Limits.{effective_build_limits, validate}
use prolewatch.Audit.Config.{
  Config, ProviderConfig, normalize, normalize_network_config, normalize_ollama_provider_config,
  normalize_review_config,
}
use prolewatch.Audit.Config.Validate.{
  valid_provider, valid_ollama, valid_phases, valid_review, positive_limits, positive_build,
  valid_network, valid_relations, valid_config, load_config, build_config,
}
use prolewatch.Audit.Config.Loaded.{load_config-IsUsable}
use prolewatch.Tests.Resources.{machine}

abbrev provider : ProviderConfig
provider = record { model = codes "m"; effort = codes "high" }

-- A document that leaves the network, the phases and the style out.
abbrev document : Config
document = record {
  provider = codes "codex";
  codex = provider;
  anthropic = provider;
  ollama = record {
    model = [];
    context_tokens = pos 0;
    reasoning = [];
    keep_alive_seconds = none;
    timeout_seconds = pos 0;
  };
  review = record {
    mode = codes "deterministic-only";
    minimum_confidence = codes "high";
    manual_review_minimum_severity = codes "high";
    timeout_seconds = pos 180;
    kill_grace_seconds = pos 5;
    batch_bytes = pos 100;
    include_recipe_phase = true;
    phases = none;
  };
  limits = record {
    max_dispatch_bytes = pos 1000;
    max_files = pos 100;
    max_total_input_bytes = pos 1000;
    max_archives = pos 10;
    max_archive_entries = pos 100;
    max_archive_unpacked_bytes = pos 1000;
    max_archive_depth = pos 2;
    max_text_per_file = pos 100;
    max_selected_text_bytes = pos 100;
    binary_strings_bytes = pos 50;
    max_findings = pos 10;
    scan_timeout_seconds = pos 60;
  };
  build = record {
    memory_bytes = pos (2 ^ 30);
    cpu_count = pos 4;
    tasks_max = pos 512;
    timeout_seconds = pos 7200;
    workspace_bytes = pos (2 ^ 34);
    workspace_files = pos 500000;
    output_bytes = pos (2 ^ 25);
    disk_reserve_bytes = pos (2 ^ 31);
  };
  network = record {
    mode = [];
    prompt_timeout_seconds = pos 0;
    grant_scope = [];
    max_destinations = pos 0;
    max_requests = pos 0;
    max_connections = pos 0;
    connect_timeout_seconds = pos 0;
    idle_timeout_seconds = pos 0;
    max_transfer_bytes = pos 0;
    disk_reserve_bytes = pos 0;
  };
  scan_depth = pos 0;
  style = [];
}

abbrev loaded : Config
loaded = normalize document

loaded_test : load_config document ≡ some loaded
unfolding load_config normalize normalize_network_config normalize_ollama_provider_config
    normalize_review_config valid_config valid_provider valid_ollama valid_phases valid_review
    positive_limits positive_build valid_network valid_relations valid_severity bytes_eq
loaded_test = refl

negative_test : load_config (record document { scan_depth = negsuc 0 }) ≡ none
unfolding load_config normalize normalize_network_config normalize_ollama_provider_config
    normalize_review_config valid_config valid_provider valid_ollama valid_phases valid_review
    positive_limits positive_build valid_network valid_relations valid_severity bytes_eq
negative_test = refl

load_config-IsUsable_example :
    (load_config loaded ≡ some loaded)
    × (validate (effective_build_limits machine (build_config loaded.build)) ≡ none)
    × (valid_severity loaded.review.manual_review_minimum_severity ≡ true)
load_config-IsUsable_example = load_config-IsUsable machine document loaded loaded_test
