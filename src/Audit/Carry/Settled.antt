-- ===== src/Audit/Carry/Settled.antt =====
-- internal/audit/policy.go: carriedDecision and assessDeterministicAt together, as the scan of the
-- sources joins them.
use prolewatch.Prelude.{
  ◌≡◌, refl, ◌⊎◌, inl, inr, true, false, List, [], ◌∷◌, Option, Bytes, bytes_eq, bytes_eq_iff,
  is_member, arith, Bool-cases, Option-cases, All, All-IsIn, IsIn, here, there, map,
}
use prolewatch.Brief.Findings.{Finding}
use prolewatch.Brief.Manifest.{Codec}
use prolewatch.Audit.Types.{Inventory, CarriedDecision, CarriedFindingBinding, allow}
use prolewatch.Audit.Severity.{severity_at_least}
use prolewatch.Audit.Assess.{assess}
use prolewatch.Audit.Assess.Laws.{IsSettled, assess-allow}
use prolewatch.Audit.Evaluate.Review.{carried_ids}
use prolewatch.Audit.Marker.{World, Markers}
use prolewatch.Audit.Carry.{carried_decision}
use prolewatch.Audit.Carry.Bindings.{IsBound}
use prolewatch.Audit.Carry.Evidence.{IsCarried, carried_decision-IsCarried}

carried_binding :
    (id : Bytes) (bs : List CarriedFindingBinding)
    → is_member id (map (λ b. b.finding_id) bs) ≡ true
    → (b : CarriedFindingBinding) × IsIn b bs × (id ≡ b.finding_id)
carried_binding id [] h = absurd (ground arith)
carried_binding id (b ∷ bs) h = elim (Bool-cases (bytes_eq id b.finding_id)) [
  | inl this ↦ (b, here refl, (bytes_eq_iff id b.finding_id).0 this)
  | inr other ↦ let (c, i, e) = carried_binding id bs (ground arith) in (c, there i, e)
]

module _ (guidance_id : Finding → Bytes) (minimum : Bytes) {V : Type 0} (codec : Codec V)
    (w : World V) (policy_fingerprint : Bytes) (ms : Markers) (root package_base : Bytes)
    (inv : Inventory) (current : List V) where
  abbrev carried : Option CarriedDecision
  carried =
      carried_decision codec w guidance_id minimum policy_fingerprint ms root package_base inv
        current

  -- The user's decision on this very finding in a report of this transaction, on an unchanged file.
  pub record IsDecided (f : Finding) : Type 0 where
    pub decision : CarriedDecision
    pub evidence :
        IsCarried guidance_id minimum codec w policy_fingerprint root package_base inv current
          decision
    pub binding : CarriedFindingBinding
    pub bound :
        IsBound guidance_id minimum codec evidence.source.findings inv.findings evidence.manifest
          current binding
    pub same_finding : guidance_id f ≡ binding.finding_id

  IsSettled-IsDecided :
      (f : Finding) → is_member (guidance_id f) (carried_ids carried) ≡ true → IsDecided f
  IsSettled-IsDecided f h = elim (Option-cases carried) [
    | inl none' ↦ absurd (ground arith)
    | inr (c, is_carried) ↦
        let evidence =
          carried_decision-IsCarried guidance_id minimum codec w policy_fingerprint ms root
            package_base inv current c is_carried in
        let (b, i, e) = carried_binding (guidance_id f) c.findings (rw is_carried at h) in
        record {
          decision = c;
          evidence = evidence;
          binding = b;
          bound =
              All-IsIn
                (IsBound guidance_id minimum codec evidence.source.findings inv.findings
                  evidence.manifest current)
                c.findings evidence.bound i;
          same_finding = e;
        }
  ]

  -- The findings of an allowed package, once decisions are carried.
  abbrev pub IsAccepted : Finding → Type 0
  IsAccepted f =
      (f.hard_block ≡ false) × (IsDecided f ⊎ (severity_at_least f.severity minimum ≡ false))

  accepted :
      (fs : List Finding)
      → All (IsSettled guidance_id minimum (carried_ids carried)) fs
      → All IsAccepted fs
  accepted [] h = tt
  accepted (f ∷ fs) ((soft, settled), rest) = ((soft, kind settled), accepted fs rest)
    where
      kind :
          (is_member (guidance_id f) (carried_ids carried) ≡ true)
            ⊎ (severity_at_least f.severity minimum ≡ false)
          → IsDecided f ⊎ (severity_at_least f.severity minimum ≡ false)
      kind (inl member) = inl (IsSettled-IsDecided f member)
      kind (inr below) = inr below

  -- If the decisions that carriedDecision gives settle the deterministic assessment of the sources,
  -- then each finding is no hard block and either is below the threshold or was overridden by the
  -- user in a report of this transaction, under the same policy and on a file whose manifest entry
  -- has not changed.
  pub assess-carried_decision :
      (assess guidance_id inv minimum (carried_ids carried)).decision ≡ allow
      → All IsAccepted inv.findings
  assess-carried_decision h =
      let (complete, known, settled, closed) =
        assess-allow guidance_id inv minimum (carried_ids carried) h in
      accepted inv.findings settled
