-- ===== src/Egress/Allowance/Permitted.antt =====
-- What a permitted request has in common with a declared source.
use prolewatch.Prelude.{
  true, ◌||◌, [], ◌∷◌, ◌++◌, Option, some, if◌then◌else◌, IsIn, IsIn-any, ◌≡◌, refl, ◌∙◌, ◌⊎◌, inl,
  inr, ◌≢◌, arith, Bool-cases, Option-cases, append_assoc, trim_last, Bytes, bytes_eq, bytes_eq_iff,
  has_prefix, codes, is_empty,
}
use prolewatch.Egress.Allowance.{
  Url, SourceKind, source_local, source_exact, source_vcs, DeclaredSource, Allowance,
  normalize_host, answer, same_request, under_repository, source_permits, permits,
}

has_prefix-rest : (p s : Bytes) → has_prefix p s ≡ true → (rest : Bytes) × (s ≡ p ++ rest)
unfolding has_prefix
has_prefix-rest [] s h = (s, refl)
has_prefix-rest (x ∷ p) [] h = absurd (ground arith)
has_prefix-rest (x ∷ p) (y ∷ s) h =
    let (rest, e) = has_prefix-rest p s (ground arith) in (rest, ground arith)

-- A path at or below a repository: a declared path that is empty stands for the root alone.
abbrev pub IsUnder : Bytes → Bytes → Type 0
IsUnder base path =
    ((base ≡ []) × ((path ≡ []) ⊎ (path ≡ codes "/")))
    ⊎ ((base ≢ []) × ((path ≡ base) ⊎ ((rest : Bytes) × (path ≡ base ++ (b'/' ∷ rest)))))

pub record IsMatch (parse_url : Bytes → Option Url) (source : DeclaredSource) (request : Url)
    : Type 0 where
  pub declared : Url
  pub parses : parse_url source.url ≡ some declared
  pub same_host : normalize_host declared ≡ normalize_host request
  pub same_scheme : declared.scheme ≡ request.scheme
  pub same_target :
      ((source.kind ≡ source_exact)
        × (declared.path ≡ request.path)
        × (declared.raw_query ≡ request.raw_query))
      ⊎ ((source.kind ≡ source_vcs) × IsUnder (trim_last b'/' declared.path) request.path)

module _ (parse_url : Bytes → Option Url) where
  same_request-parts :
      (declared : Bytes) (request : Url)
      → same_request parse_url declared request ≡ true
      → (u : Url) × (parse_url declared ≡ some u)
        × (normalize_host u ≡ normalize_host request)
        × (u.scheme ≡ request.scheme)
        × (u.path ≡ request.path)
        × (u.raw_query ≡ request.raw_query)
  unfolding same_request
  same_request-parts declared request h = elim (Option-cases (parse_url declared)) [
    | inl e ↦ absurd (ground arith)
    | inr (u, e) ↦ (
      u,
      e,
      (bytes_eq_iff _ _).0 (ground arith),
      (bytes_eq_iff _ _).0 (ground arith),
      (bytes_eq_iff _ _).0 (ground arith),
      (bytes_eq_iff _ _).0 (ground arith),
    )
  ]

  IsUnder-base :
      (base path : Bytes)
      → (if is_empty base
          then is_empty path || bytes_eq path (codes "/")
          else bytes_eq path base || has_prefix (base ++ codes "/") path)
        ≡ true
      → IsUnder base path
  IsUnder-base [] [] h = inl (refl, inl refl)
  IsUnder-base [] (c ∷ path) h = inl (refl, inr ((bytes_eq_iff (c ∷ path) (codes "/")).0 h))
  IsUnder-base (x ∷ base) path h = elim (Bool-cases (bytes_eq path (x ∷ base))) [
    | inl e ↦ inr (cons_ne, inl ((bytes_eq_iff path (x ∷ base)).0 e))
    | inr e ↦
        let (rest, same) = has_prefix-rest ((x ∷ base) ++ codes "/") path (ground arith) in
        inr (cons_ne, inr (rest, same ∙ append_assoc (x ∷ base) (codes "/") rest))
  ]
    where
      cons_ne : (x ∷ base) ≢ []
      cons_ne q = cc

  under_repository-parts :
      (declared : Bytes) (request : Url)
      → under_repository parse_url declared request ≡ true
      → (u : Url) × (parse_url declared ≡ some u)
        × (normalize_host u ≡ normalize_host request)
        × (u.scheme ≡ request.scheme)
        × IsUnder (trim_last b'/' u.path) request.path
  unfolding under_repository
  under_repository-parts declared request h = elim (Option-cases (parse_url declared)) [
    | inl e ↦ absurd (ground arith)
    | inr (u, e) ↦ (
      u,
      e,
      (bytes_eq_iff _ _).0 (ground arith),
      (bytes_eq_iff _ _).0 (ground arith),
      IsUnder-base (trim_last b'/' u.path) request.path (ground arith),
    )
  ]

  kind-cases : (k : SourceKind) → (k ≡ source_local) ⊎ ((k ≡ source_exact) ⊎ (k ≡ source_vcs))
  kind-cases source_local = inl refl
  kind-cases source_exact = inr (inl refl)
  kind-cases source_vcs = inr (inr refl)

  source_permits-IsMatch :
      (request : Url) (source : DeclaredSource)
      → source_permits parse_url request source ≡ true
      → IsMatch parse_url source request
  unfolding source_permits
  source_permits-IsMatch request source h = elim (kind-cases source.kind) [
    | inl k ↦ absurd (ground arith)
    | inr (inl k) ↦
        let (u, parses, host, scheme, path, query) =
          same_request-parts source.url request (ground arith) in
        record {
          declared = u;
          parses = parses;
          same_host = host;
          same_scheme = scheme;
          same_target = inl (k, path, query);
        }
    | inr (inr k) ↦
        let (u, parses, host, scheme, under) =
          under_repository-parts source.url request (ground arith) in
        record {
          declared = u;
          parses = parses;
          same_host = host;
          same_scheme = scheme;
          same_target = inr (k, under);
        }
  ]

  -- A request is permitted only under a frozen allowance, and only by a declared source of the same
  -- scheme and host: one with the same path and query, or a repository whose path, cut at a `/`, it
  -- continues; a repository at the root permits the root alone.
  pub permits-IsMatch :
      (allowance : Allowance) (raw_url : Bytes)
      → permits parse_url allowance raw_url ≡ answer true
      → (allowance.frozen ≡ true)
        × ((request : Url) × (parse_url raw_url ≡ some request)
            × ((source : DeclaredSource) × IsIn source allowance.sources
                × IsMatch parse_url source request))
  unfolding permits
  permits-IsMatch allowance raw_url h = elim (Option-cases (parse_url raw_url)) [
    | inl e ↦ absurd (ground arith)
    | inr (request, e) ↦
        let (source, is_in, ok) =
          IsIn-any (source_permits parse_url request) allowance.sources (ground arith) in
        (ground arith, (request, e, (source, is_in, source_permits-IsMatch request source ok)))
  ]
