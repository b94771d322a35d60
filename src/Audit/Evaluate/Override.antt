-- ===== src/Audit/Evaluate/Override.antt =====
-- The approval behind an override: what authorize has checked when it hands out a report.
use prolewatch.Prelude.{
  ◌≡◌, refl, sym, ◌∙◌, inl, inr, true, false, Option, none, some, Bytes, bytes_eq_iff, is_empty,
  arith, Bool-cases, Option-cases,
}
use prolewatch.Brief.Findings.{Finding}
use prolewatch.Audit.Types.{Inventory, Report, ReviewConfig, approval}
use prolewatch.Audit.Assess.{Assessment, structural_block}
use prolewatch.Audit.Approvals.{
  ApprovalToken, ApprovalStore, Wanted, Consumed, nothing, token, error, consume,
}
use prolewatch.Audit.Approvals.Once.{IsSpent, consume-IsSpent}
use prolewatch.Audit.Evaluate.{Env, authorized_by, authorization_source, authorize}

authorization_source-ok :
    (env : Env) (t : ApprovalToken) (r : Report)
    → authorization_source env t approval ≡ some r
    → (env.load_report t.source_report_id ≡ some r)
      × (r.approval_eligible ≡ true)
      × (r.package_base ≡ t.package_base)
      × (r.phase ≡ t.phase)
      × (r.content_hash ≡ t.content_hash)
      × (r.policy_fingerprint ≡ t.policy_fingerprint)
unfolding authorization_source
authorization_source-ok env t r h = elim (Option-cases (env.load_report t.source_report_id)) [
  | inl gone ↦ absurd (ground arith)
  | inr (q, found) ↦ ground (
    arith,
    bytes_eq_iff q.package_base t.package_base,
    bytes_eq_iff q.phase t.phase,
    bytes_eq_iff q.content_hash t.content_hash,
    bytes_eq_iff q.policy_fingerprint t.policy_fingerprint,
  )
]

module _ (guidance_id : Finding → Bytes) (cfg : ReviewConfig) (policy_fingerprint : Bytes) where
  abbrev pub wanted : Bytes → Bytes → Inventory → Wanted
  wanted package_base phase inv = record {
    kind = approval;
    package_base = package_base;
    phase = phase;
    content_hash = inv.manifest_hash;
    policy_fingerprint = policy_fingerprint;
  }

  -- The approval behind an override: the content is bound and has no structural block, the token was
  -- pending and is spent, and the report that it came from was eligible and about this very content.
  pub record IsOverride (env : Env) (package_base phase : Bytes) (inv : Inventory)
      (before after : ApprovalStore) : Type 0 where
    pub not_structural : structural_block inv ≡ false
    pub bound_content : is_empty inv.manifest_hash ≡ false
    pub spent_token : ApprovalToken
    pub is_spent : IsSpent (wanted package_base phase inv) before after spent_token
    pub origin : Report
    pub loaded : env.load_report spent_token.source_report_id ≡ some origin
    pub origin_eligible : origin.approval_eligible ≡ true
    pub origin_content : origin.content_hash ≡ inv.manifest_hash
    pub origin_policy : origin.policy_fingerprint ≡ policy_fingerprint

  pub authorize-by :
      (env : Env) (package_base phase : Bytes) (inv : Inventory) (a : Assessment)
      (s : ApprovalStore) (r : Report)
      → a.structural ≡ structural_block inv
      → (authorize guidance_id cfg policy_fingerprint env package_base phase inv a s).1
        ≡ authorized_by r
      → IsOverride env package_base phase inv s
          (authorize guidance_id cfg policy_fingerprint env package_base phase inv a s).0
  unfolding authorize
  authorize-by env package_base phase inv a s r same h = elim (Bool-cases a.structural) [
    | inl blocked ↦ absurd (ground arith)
    | inr open' ↦ by_result open' (consume (wanted package_base phase inv) env.files s).1 refl
  ]
    where
      by_source :
          (t : ApprovalToken) (o : Option Report)
          → a.structural ≡ false
          → (consume (wanted package_base phase inv) env.files s).1 ≡ token t
          → authorization_source env t approval ≡ o
          → IsOverride env package_base phase inv s
              (authorize guidance_id cfg policy_fingerprint env package_base phase inv a s).0
      by_source t none op e f = absurd (ground arith)
      by_source t (some q) op e f =
          let w = wanted package_base phase inv in
          let after_is : (authorize guidance_id cfg policy_fingerprint env package_base phase inv a
                s).0
              ≡ (consume w env.files s).0 =
            ground arith in
          let bound : is_empty inv.manifest_hash ≡ false = ground arith in
          let (loaded, eligible, base_is, phase_is, content, policy) =
            authorization_source-ok env t q f in
          let spent = consume-IsSpent w env.files s t e in
          rw after_is (record {
            not_structural = sym same ∙ op;
            bound_content = bound;
            spent_token = t;
            is_spent = spent;
            origin = q;
            loaded = loaded;
            origin_eligible = eligible;
            origin_content = content ∙ spent.bound.same_content;
            origin_policy = policy ∙ spent.bound.same_policy;
          })

      by_result :
          a.structural ≡ false
          → (c : Consumed) → (consume (wanted package_base phase inv) env.files s).1 ≡ c
          → IsOverride env package_base phase inv s
              (authorize guidance_id cfg policy_fingerprint env package_base phase inv a s).0
      by_result op nothing e = absurd (ground arith)
      by_result op error e = absurd (ground arith)
      by_result op (token t) e = by_source t (authorization_source env t approval) op e refl
