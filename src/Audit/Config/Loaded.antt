-- ===== src/Audit/Config/Loaded.antt =====
-- What a loaded configuration gives.
use prolewatch.Prelude.{
  ℕ, zero, suc, ◌<◌, ◌≡◌, refl, sym, ap, ◌∙◌, Bool, true, false, ◌&&◌, List, [], ◌∷◌, Option, none,
  some, Bytes, codes, arith, if-some, ℤ, pos, negsuc,
}
use prolewatch.Audit.Severity.{valid_severity}
use prolewatch.Audit.Limits.{Machine, effective_build_limits, validate}
use prolewatch.Audit.Limits.Frozen.{effective_build_limits-validate}
use prolewatch.Audit.Config.{
  to_nat, is_positive, BuildSettings, NetworkConfig, OllamaProviderConfig, ReviewSettings, Config,
  or_default, or_text, or_seconds, or_phases, normalize_network_config,
  normalize_ollama_provider_config, normalize_review_config, normalize,
}
use prolewatch.Audit.Config.Validate.{
  valid_review, positive_build, valid_config, load_config, build_config,
}

or_default_idem : (d : ℕ) (x : ℤ) → or_default d (or_default d x) ≡ or_default d x
or_default_idem zero (pos zero) = refl
or_default_idem (suc d) (pos zero) = refl
or_default_idem d (pos (suc n)) = refl
or_default_idem d (negsuc n) = refl

or_text_idem : (d s : Bytes) → or_text d (or_text d s) ≡ or_text d s
or_text_idem [] [] = refl
or_text_idem (c ∷ d) [] = refl
or_text_idem d (x ∷ s) = refl

or_seconds_idem : (o : Option ℤ) → or_seconds (or_seconds o) ≡ or_seconds o
or_seconds_idem none = refl
or_seconds_idem (some k) = refl

or_phases_idem :
    (b c : Bool) (o : Option (List Bytes)) → or_phases c (or_phases b o) ≡ or_phases b o
or_phases_idem b c (some ps) = refl
or_phases_idem true c none = refl
or_phases_idem false c none = refl

normalize_network_idem :
    (n : NetworkConfig)
    → normalize_network_config (normalize_network_config n) ≡ normalize_network_config n
unfolding normalize_network_config
normalize_network_idem n = simp (or_default_idem, or_text_idem)

normalize_ollama_idem :
    (p : OllamaProviderConfig)
    → normalize_ollama_provider_config (normalize_ollama_provider_config p)
      ≡ normalize_ollama_provider_config p
unfolding normalize_ollama_provider_config
normalize_ollama_idem p = simp (or_default_idem, or_text_idem, or_seconds_idem)

normalize_review_idem :
    (r : ReviewSettings)
    → normalize_review_config (normalize_review_config r) ≡ normalize_review_config r
unfolding normalize_review_config
normalize_review_idem r = simp (or_phases_idem)

normalize_idem : (c : Config) → normalize (normalize c) ≡ normalize c
unfolding normalize
normalize_idem c =
    rw
      (
        normalize_network_idem c.network,
        normalize_ollama_idem c.ollama,
        normalize_review_idem c.review,
        or_text_idem (codes "brand") c.style,
      )
      refl

load_config-parts :
    (document c : Config)
    → load_config document ≡ some c
    → (valid_config c ≡ true) × (normalize document ≡ c)
unfolding load_config
load_config-parts document c h =
    let (valid, same) = if-some (valid_config (normalize document)) (normalize document) c h in
    (ap valid_config (sym same) ∙ valid, same)

&&-both : (a b : Bool) → (a && b) ≡ true → (a ≡ true) × (b ≡ true)
&&-both a b h = (ground arith, ground arith)

valid_review-severity :
    (r : ReviewSettings)
    → valid_review r ≡ true
    → valid_severity r.manual_review_minimum_severity ≡ true
unfolding valid_review
valid_review-severity r h =
    let (h, phases) = &&-both _ _ h in
    let (h, no_legacy) = &&-both _ _ h in
    let (h, batch) = &&-both _ _ h in
    let (h, grace) = &&-both _ _ h in let (h, timeout) = &&-both _ _ h in (&&-both _ _ h).1

valid_config-parts :
    (c : Config)
    → valid_config c ≡ true
    → (positive_build c.build ≡ true)
      × (valid_severity c.review.manual_review_minimum_severity ≡ true)
unfolding valid_config
valid_config-parts c h =
    let (h, relations) = &&-both _ _ h in
    let (h, network) = &&-both _ _ h in
    let (h, build) = &&-both _ _ h in
    let (h, limits) = &&-both _ _ h in (build, valid_review-severity c.review (&&-both _ _ h).1)

positive-to_nat : (x : ℤ) → is_positive x ≡ true → 0 < to_nat x
positive-to_nat (pos n) h = ground arith
positive-to_nat (negsuc n) h = absurd (ground arith)

build_config-validate :
    (machine : Machine) (b : BuildSettings)
    → positive_build b ≡ true
    → validate (effective_build_limits machine (build_config b)) ≡ none
unfolding positive_build
build_config-validate machine b h =
    effective_build_limits-validate machine (build_config b)
      (positive-to_nat b.memory_bytes (ground arith)) (positive-to_nat b.tasks_max (ground arith))
      (positive-to_nat b.timeout_seconds (ground arith))
      (positive-to_nat b.workspace_bytes (ground arith))
      (positive-to_nat b.workspace_files (ground arith))
      (positive-to_nat b.output_bytes (ground arith))

loads : (c : Config) → valid_config c ≡ true → normalize c ≡ c → load_config c ≡ some c
unfolding load_config
loads c valid same =
    let still : valid_config (normalize c) ≡ true = ap valid_config same ∙ valid in
    rw still (ap some same)

-- A configuration that is loaded stays as it is when it is loaded again. On any machine, its build
-- settings give limits that SandboxEnforcement.Validate accepts, and its threshold for a manual review
-- is a severity that the assessment knows.
pub load_config-IsUsable :
    (machine : Machine) (document c : Config)
    → load_config document ≡ some c
    → (load_config c ≡ some c)
      × (validate (effective_build_limits machine (build_config c.build)) ≡ none)
      × (valid_severity c.review.manual_review_minimum_severity ≡ true)
load_config-IsUsable machine document c h =
    let (valid, same) = load_config-parts document c h in
    let (build, severity) = valid_config-parts c valid in
    (
      loads c valid (ap normalize (sym same) ∙ normalize_idem document ∙ same),
      build_config-validate machine c.build build,
      severity,
    )
