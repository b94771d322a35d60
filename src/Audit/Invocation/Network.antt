-- ===== src/Audit/Invocation/Network.antt =====
-- When a stage gets the network.
use prolewatch.Prelude.{
  ◌||◌, ◌≡◌, ◌∙◌, refl, Bool, false, not, ◌&&◌, some, Bytes, bytes_eq, codes, is_empty, arith,
  Bool-cases, inl, inr,
}
use prolewatch.Brief.Findings.{Finding}
use prolewatch.Audit.Types.{Inventory, ProcessIdentity, ReviewConfig, allow, mode_ai}
use prolewatch.Audit.Assess.{Assessment}
use prolewatch.Audit.Evaluate.{Env, Basis, allowed, make_report}
use prolewatch.Audit.Evaluate.Review.{model_blocks}
use prolewatch.Audit.Invocation.{Profile, verify, prepare, build, invocation_network_enabled}

-- The phase whose report opens the network to a stage.
abbrev pub opens : Profile → Bytes → Bytes → Bool
opens verify phase manifest_hash = bytes_eq phase (codes "pre")
opens prepare phase manifest_hash = bytes_eq phase (codes "post") && not (is_empty manifest_hash)
opens build phase manifest_hash = bytes_eq phase (codes "post") && not (is_empty manifest_hash)
opens _ phase manifest_hash = false

module _ (guidance_id : Finding → Bytes) (cfg : ReviewConfig) (policy_fingerprint : Bytes) where
  -- What the decision of evaluate rests on.
  abbrev pub is_decided : Assessment → Basis → Bool
  is_decided a b =
      b.overridden
      || (bytes_eq a.decision allow
          && not (bytes_eq cfg.mode mode_ai && model_blocks cfg b.verdicts))

  allowed-decided :
      (a : Assessment) (b : Basis) (x : Bool)
      → (allowed guidance_id cfg policy_fingerprint a b && x) ≡ (x && is_decided a b)
  unfolding allowed
  allowed-decided a b x = ground arith

  network-allowed :
      (env : Env) (package_base phase : Bytes) (inv : Inventory) (a : Assessment) (b : Basis)
      (report_id : Bytes) (transaction : ProcessIdentity) (p : Profile)
      → invocation_network_enabled p (
          some (
            make_report guidance_id cfg policy_fingerprint env package_base phase inv a b report_id
              transaction))
        ≡ (allowed guidance_id cfg policy_fingerprint a b && opens p phase inv.manifest_hash)
  unfolding invocation_network_enabled make_report bytes_eq
  network-allowed env package_base phase inv a b report_id transaction verify =
      elim (Bool-cases (allowed guidance_id cfg policy_fingerprint a b)) [
        | inl ok ↦ rw ok refl
        | inr refused ↦ rw refused refl
      ]
  network-allowed env package_base phase inv a b report_id transaction prepare = ground arith
  network-allowed env package_base phase inv a b report_id transaction build = ground arith
  network-allowed env package_base phase inv a b report_id transaction _ = ground arith

  -- Under the report that evaluate makes, a stage gets the network exactly if the report is of the phase
  -- for the stage, the recipe for source verification, and the sources with a manifest hash for
  -- preparation and build, and the user has overridden it, or it is allowed by the deterministic
  -- decision with no verdict of an asked model against it. An override thus opens the network, where
  -- the comment on the function says that it falls back to an isolated namespace.
  pub invocation_network_enabled-made :
      (env : Env) (package_base phase : Bytes) (inv : Inventory) (a : Assessment) (b : Basis)
      (report_id : Bytes) (transaction : ProcessIdentity) (p : Profile)
      → invocation_network_enabled p (
          some (
            make_report guidance_id cfg policy_fingerprint env package_base phase inv a b report_id
              transaction))
        ≡ (opens p phase inv.manifest_hash && is_decided a b)
  invocation_network_enabled-made env package_base phase inv a b report_id transaction p =
      network-allowed env package_base phase inv a b report_id transaction p
      ∙ allowed-decided a b (opens p phase inv.manifest_hash)
