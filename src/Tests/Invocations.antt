-- ===== src/Tests/Invocations.antt =====
-- Examples for the makepkg protocol of internal/audit.
use prolewatch.Prelude.{
  ◌≡◌, refl, ◌&&◌, true, false, List, [], ◌∷◌, none, some, Bytes, codes, bytes_eq, has_prefix,
}
use prolewatch.Brief.Path.{clean}
use prolewatch.Audit.Invocation.{
  build, Invocation, Stat, regular, directory, Probe, FileSystem, accepted, same_stat,
  check_component, open_components, open_root_owned, valid_makepkg_config, split_config, profile_of,
  classify_invocation, invocation_network_enabled,
}
use prolewatch.Audit.Types.{Inventory, block}
use prolewatch.Audit.Assess.{Assessment}
use prolewatch.Audit.Evaluate.{Basis, make_report}
use prolewatch.Audit.Invocation.Network.{opens, is_decided, invocation_network_enabled-made}
use prolewatch.Tests.Policies.{config, env}
use prolewatch.Tests.Markers.{id_of, running}
use prolewatch.Audit.Invocation.Closed.{IsTaken, classify_invocation-IsTaken}

abbrev etc : Stat
etc = record {
  kind = directory;
  writable_by_others = false;
  permissions = 0o755;
  uid = 0;
  identity = codes "a";
}

abbrev config_file : Stat
config_file = record {
  kind = regular;
  writable_by_others = false;
  permissions = 0o644;
  uid = 0;
  identity = codes "b";
}

abbrev probe : List Bytes → Probe
probe (a ∷ []) = record { before = some etc; after = some etc }
probe _ = record { before = some config_file; after = some config_file }

abbrev system : FileSystem
system = record { root = some etc; probe = probe }

abbrev build_args : List Bytes
build_args =
    codes "--config"
    ∷ codes "/etc/makepkg.conf"
    ∷ codes "-f"
    ∷ codes "--noextract"
    ∷ codes "--noprepare"
    ∷ codes "--holdver"
    ∷ []

abbrev building : Invocation
building = record { profile = build; args = build_args; config_path = codes "/etc/makepkg.conf" }

classify_test : classify_invocation system build_args ≡ accepted building
unfolding classify_invocation split_config valid_makepkg_config open_root_owned open_components
    check_component same_stat profile_of clean bytes_eq has_prefix
classify_test = refl

classify_invocation-IsTaken_example :
    (building.args ≡ build_args) × IsTaken system build_args building
classify_invocation-IsTaken_example =
    classify_invocation-IsTaken system build_args building classify_test

-- The user overrides a block of the sources.
abbrev override : Basis
override = record {
  overridden = true;
  carried = none;
  verdicts = [];
  review_error = [];
  skipped = [];
  trigger = [];
}

abbrev blocked : Assessment
blocked = record {
  decision = block;
  approval_eligible = true;
  hard_block = false;
  decision_block = true;
  structural = false;
}

abbrev sources : Inventory
sources = record { findings = []; manifest_hash = codes "m"; coverage_complete = true }

invocation_network_enabled-made_example :
    invocation_network_enabled build (
      some (
        make_report id_of config
          (codes "p")
          env
          (codes "yay")
          (codes "post")
          sources
          blocked
          override
          (codes "r")
          running))
    ≡ (opens build (codes "post") (codes "m")
        && is_decided id_of config (codes "p") blocked override)
invocation_network_enabled-made_example =
    invocation_network_enabled-made id_of config (codes "p") env (codes "yay") (codes "post")
      sources blocked override (codes "r") running build

-- Preparation and build get the network under an override.
opened_test :
    (opens build (codes "post") (codes "m") && is_decided id_of config (codes "p") blocked override)
    ≡ true
unfolding bytes_eq
opened_test = refl
