-- ===== src/Egress/Acquire/Bounded.antt =====
-- How much an acquisition fetches, and what.
use prolewatch.Prelude.{
  map, sym, ◌∙◌, ℕ, suc, ◌+◌, ◌≤◌, ◌≡◌, refl, ◌⊎◌, inl, inr, Bool, true, List, [], ◌∷◌, Option,
  none, some, Bytes, arith, Bool-cases, Option-cases, some_injective, All, IsIn, here, there,
}
use mathlib.Core.Path.{subst}
use prolewatch.Egress.Allowance.{
  Url, DeclaredSource, SourceKind, source_local, source_exact, source_vcs, Allowance, permits,
}
use prolewatch.Egress.Acquire.{
  AcquireConfig, FetchRecord, Acquisition, Transfer, budget_bytes, fetchable, fetch_declared,
  is_permitted, add_record, add_host, vcs_host, acquire_sources, acquire,
}
use prolewatch.Egress.Acquire.Received.{IsPlain, Spares, fetch_declared-IsReceived}

abbrev pub total_bytes : List FetchRecord → ℕ
total_bytes [] = 0
total_bytes (r ∷ rs) = r.bytes + total_bytes rs

-- The addresses of the exact sources.
abbrev pub exact_urls : List DeclaredSource → List Bytes
exact_urls [] = []
exact_urls (s ∷ ss) = elim s.kind [ source_exact ↦ s.url ∷ exact_urls ss | _ ↦ exact_urls ss ]

module _ (parse_url : Bytes → Option Url) (cfg : AcquireConfig) where
  -- A file that was fetched: for an exact source of the allowance, which permits it, over HTTP, and
  -- under a plain name.
  pub record IsFetched (allowance : Allowance) (r : FetchRecord) : Type 0 where
    pub source : DeclaredSource
    pub is_declared : IsIn source allowance.sources
    pub is_exact : source.kind ≡ source_exact
    pub address : r.declared ≡ source.url
    pub permitted : is_permitted (permits parse_url allowance source.url) ≡ true
    pub over_http : (u : Url) × (parse_url source.url ≡ some u) × (fetchable u ≡ true)
    pub plain : IsPlain r.filename

  -- Each download, counted from the one after the n-th, leaves the reserve as its own transfer measures
  -- it in front of its copy.
  abbrev pub SpareAll : (ℕ → Transfer) → ℕ → List FetchRecord → Type 0
  SpareAll net n [] = Unit
  SpareAll net n (r ∷ rs) = Spares cfg (net (suc n)).space r.bytes × SpareAll net (suc n) rs

  record IsBounded (allowance : Allowance) (net : ℕ → Transfer) (n remaining : ℕ)
      (sources : List DeclaredSource) (a : Acquisition) : Type 0 where
    small : total_bytes a.fetched ≤ remaining
    fetched : All (IsFetched allowance) a.fetched
    spare : SpareAll net n a.fetched
    each : map FetchRecord.declared a.fetched ≡ exact_urls sources

  add_host-IsBounded :
      (allowance : Allowance) (net : ℕ → Transfer) (n remaining : ℕ) (sources : List DeclaredSource)
      (h : Option Bytes) (o : Option Acquisition) (a : Acquisition)
      → add_host h o ≡ some a
      → ((b : Acquisition) → o ≡ some b → IsBounded allowance net n remaining sources b)
      → IsBounded allowance net n remaining sources a
  add_host-IsBounded allowance net n remaining sources none o a e f = absurd (ground arith)
  add_host-IsBounded allowance net n remaining sources (some h) none a e f = absurd (ground arith)
  add_host-IsBounded allowance net n remaining sources (some h) (some b) a e f =
      let part = f b refl in
      subst (IsBounded allowance net n remaining sources) (some_injective e) (record {
        small = part.small;
        fetched = part.fetched;
        spare = part.spare;
        each = part.each;
      })

  add_record-IsBounded :
      (allowance : Allowance) (net : ℕ → Transfer) (n remaining left : ℕ) (source : DeclaredSource)
      (sources : List DeclaredSource) (r : Option FetchRecord) (o : Option Acquisition)
      (a : Acquisition)
      → add_record r o ≡ some a
      → source.kind ≡ source_exact
      → ((x : FetchRecord)
          → r ≡ some x
          → (x.bytes + left ≤ remaining)
            × IsFetched allowance x
            × Spares cfg (net (suc n)).space x.bytes
            × (x.declared ≡ source.url))
      → ((b : Acquisition) → o ≡ some b → IsBounded allowance net (suc n) left sources b)
      → IsBounded allowance net n remaining (source ∷ sources) a
  add_record-IsBounded allowance net n remaining left source sources none o a e k f g =
      absurd (ground arith)
  add_record-IsBounded allowance net n remaining left source sources (some x) none a e k f g =
      absurd (ground arith)
  add_record-IsBounded allowance net n remaining left source sources (some x) (some b) a e k f g =
      let (fits, fetched, spares, address) = f x refl in
      let rest = g b refl in
      subst (IsBounded allowance net n remaining (source ∷ sources)) (some_injective e) (record {
        small = omega (arith, rest.small);
        fetched = (fetched, rest.fetched);
        spare = (spares, rest.spare);
        each = rw (k, address, rest.each) refl;
      })

  kind-cases : (k : SourceKind) → (k ≡ source_local) ⊎ ((k ≡ source_exact) ⊎ (k ≡ source_vcs))
  kind-cases source_local = inl refl
  kind-cases source_exact = inr (inl refl)
  kind-cases source_vcs = inr (inr refl)

  skip_source :
      (allowance : Allowance) (net : ℕ → Transfer) (n remaining : ℕ) (source : DeclaredSource)
      (sources : List DeclaredSource) (a : Acquisition)
      → exact_urls (source ∷ sources) ≡ exact_urls sources
      → IsBounded allowance net n remaining sources a
      → IsBounded allowance net n remaining (source ∷ sources) a
  skip_source allowance net n remaining source sources a e part = record {
    small = part.small;
    fetched = part.fetched;
    spare = part.spare;
    each = part.each ∙ sym e;
  }

  received_file :
      (allowance : Allowance) (remaining : ℕ) (source : DeclaredSource) (t : Transfer)
      (x : FetchRecord)
      → IsIn source allowance.sources
      → source.kind ≡ source_exact
      → is_permitted (permits parse_url allowance source.url) ≡ true
      → (fetch_declared parse_url cfg remaining source t).1 ≡ some x
      → (x.bytes + (fetch_declared parse_url cfg remaining source t).0 ≤ remaining)
        × IsFetched allowance x
        × Spares cfg t.space x.bytes
        × (x.declared ≡ source.url)
  received_file allowance remaining source t x i k permitted e =
      let (received, over_http) = fetch_declared-IsReceived parse_url cfg remaining source t x e in
      (
        received.within,
        record {
          source = source;
          is_declared = i;
          is_exact = k;
          address = received.declared;
          permitted = permitted;
          over_http = over_http;
          plain = received.plain;
        },
        received.spares,
        received.declared,
      )

  acquire_sources-IsBounded :
      (allowance : Allowance) (net : ℕ → Transfer) (n remaining : ℕ) (sources : List DeclaredSource)
      (a : Acquisition)
      → ((s : DeclaredSource) → IsIn s sources → IsIn s allowance.sources)
      → acquire_sources parse_url cfg allowance net n remaining sources ≡ some a
      → IsBounded allowance net n remaining sources a
  unfolding acquire_sources
  acquire_sources-IsBounded allowance net n remaining [] a sub h =
      subst (IsBounded allowance net n remaining []) (some_injective h)
        (record { small = omega arith; fetched = tt; spare = tt; each = refl })
  acquire_sources-IsBounded allowance net n remaining (source ∷ sources) a sub h =
      let below : (s : DeclaredSource) → IsIn s sources → IsIn s allowance.sources =
        λ s i. sub s (there i) in
      elim (kind-cases source.kind) [
        | inl k ↦
            skip_source allowance net n remaining source sources a (rw k refl)
              (acquire_sources-IsBounded allowance net n remaining sources a below (rw k at h))
        | inr (inr k) ↦ skip_source allowance net n remaining source sources a (rw k refl) (
            add_host-IsBounded allowance net n remaining sources (vcs_host (parse_url source.url))
              (acquire_sources parse_url cfg allowance net n remaining sources) a (rw k at h)
              (λ b e. acquire_sources-IsBounded allowance net n remaining sources b below e))
        | inr (inl k) ↦ elim (Bool-cases (is_permitted (permits parse_url allowance source.url))) [
          | inr refused ↦ absurd (ground arith)
          | inl permitted ↦
              let left = (fetch_declared parse_url cfg remaining source (net (suc n))).0 in
              add_record-IsBounded allowance net n remaining left source sources
                (fetch_declared parse_url cfg remaining source (net (suc n))).1
                (acquire_sources parse_url cfg allowance net (suc n) left sources) a
                (rw (k, permitted) at h) k
                (λ x e.
                  received_file allowance remaining source (net (suc n)) x (sub source (here refl))
                    k permitted e)
                (λ b e. acquire_sources-IsBounded allowance net (suc n) left sources b below e)
        ]
      ]

  -- An acquisition that succeeds has fetched every exact source of the frozen allowance, in order, and
  -- no more bytes in all than its budget. Each file is for an address that the allowance permits, came
  -- over HTTP, has a plain name, and left the reserve of the file system as it was measured for this
  -- download, where that can be measured.
  pub acquire-IsFetched :
      (allowance : Allowance) (ready : Bool) (net : ℕ → Transfer) (a : Acquisition)
      → acquire parse_url cfg allowance ready net ≡ some a
      → (allowance.frozen ≡ true)
        × (map FetchRecord.declared a.fetched ≡ exact_urls allowance.sources)
        × (total_bytes a.fetched ≤ budget_bytes cfg)
        × All (IsFetched allowance) a.fetched
        × SpareAll net 0 a.fetched
  unfolding acquire
  acquire-IsFetched allowance ready net a h =
      elim (Option-cases
        (acquire_sources parse_url cfg allowance net 0 (budget_bytes cfg) allowance.sources)) [
          | inl none' ↦ absurd (ground arith)
          | inr (b, acquired) ↦
              let part =
                acquire_sources-IsBounded allowance net 0 (budget_bytes cfg) allowance.sources b
                  (λ s i. i) acquired in
              let same : b.fetched ≡ a.fetched = ground arith in
              (
                ground arith,
                subst (λ x. map FetchRecord.declared x ≡ exact_urls allowance.sources) same
                    part.each,
                subst (λ x. total_bytes x ≤ budget_bytes cfg) same part.small,
                subst (All (IsFetched allowance)) same part.fetched,
                subst (SpareAll net 0) same part.spare,
              )
        ]
