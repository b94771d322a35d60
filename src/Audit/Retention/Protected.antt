-- ===== src/Audit/Retention/Protected.antt =====
-- The reports that markers and approvals name are protected.
use prolewatch.Prelude.{
  ◌-◌, ◌≡◌, refl, sym, ap, ◌∙◌, inl, inr, true, false, not, ◌==◌, List, [], ◌∷◌, ◌++◌, Option, none,
  some, take, length, length-append, all, Bytes, bytes_eq_refl, cut, is_member, is_member-append,
  has_suffix, has_suffix-append, append_assoc, arith, Bool-cases, IsIn, here, there,
}
use prolewatch.Audit.Approvals.Create.{valid_report_id}
use prolewatch.Audit.Marker.{Marker, World, marker_schema_version}
use prolewatch.Audit.Marker.Live.{same_identity_refl}
use prolewatch.Audit.Retention.{
  MarkerFile, History, json, trim_suffix, named_report, pending_approval_reports, is_live_marker,
  live_report, live_marker_reports, protected_reports,
}

-- An approval file `kind-id.json` of a report.
abbrev pub IsPending : List Bytes → Bytes → Type 0
IsPending ns id =
    (kind : Bytes) × (all (λ c. not (c == b'-')) kind ≡ true)
    × IsIn (kind ++ (b'-' ∷ (id ++ json))) ns
    × (valid_report_id id ≡ true)

take-front : (s t : Bytes) → take (length s) (s ++ t) ≡ s
take-front [] [] = refl
take-front [] (c ∷ t) = refl
take-front (c ∷ s) t = ap (λ x. c ∷ x) (take-front s t)

trim_suffix-json : (s : Bytes) → trim_suffix json (s ++ json) ≡ s
trim_suffix-json s =
    let n : length (s ++ json) - length json ≡ length s = omega (arith, length-append s json) in
    rw (has_suffix-append json s, n) (take-front s json)

cut-dash :
    (kind id : Bytes)
    → all (λ c. not (c == b'-')) kind ≡ true
    → cut b'-' (kind ++ (b'-' ∷ id)) ≡ some (kind, id)
unfolding cut
cut-dash [] id h = refl
cut-dash (c ∷ kind) id h = elim (Bool-cases (c == b'-')) [
  | inl dash ↦ absurd (ground arith)
  | inr plain ↦ rw (plain, cut-dash kind id (ground arith)) refl
]

named_report-more :
    (o : Option (Bytes × Bytes)) (id : Bytes) (rest : List Bytes)
    → is_member id rest ≡ true
    → is_member id (named_report o rest) ≡ true
named_report-more none id rest h = h
named_report-more (some (kind, x)) id rest h = ground arith

pub IsPending-protected :
    (ns : List Bytes) (id : Bytes)
    → IsPending ns id
    → is_member id (pending_approval_reports ns) ≡ true
unfolding pending_approval_reports
IsPending-protected [] id (kind, plain, i, valid) = elim i [ ]
IsPending-protected (n ∷ ns) id (kind, plain, here e, valid) =
    let trimmed : trim_suffix json n ≡ kind ++ (b'-' ∷ id) =
      ap (trim_suffix json) (sym e ∙ sym (append_assoc kind (b'-' ∷ id) json))
      ∙ trim_suffix-json (kind ++ (b'-' ∷ id)) in
    let named = ap (cut b'-') trimmed ∙ cut-dash kind id plain in
    rw (named, valid, bytes_eq_refl id) refl
IsPending-protected (n ∷ ns) id (kind, plain, there i, valid) =
    named_report-more (cut b'-' (trim_suffix json n)) id (pending_approval_reports ns)
      (IsPending-protected ns id (kind, plain, i, valid))

module _ {V : Type 0} (w : World V) where
  -- A marker file of a running transaction for a report.
  pub record IsMarked (fs : List MarkerFile) (id : Bytes) : Type 0 where
    pub file : MarkerFile
    pub listed : IsIn file fs
    pub regular : file.is_regular ≡ true
    pub named : has_suffix json file.name ≡ true
    pub marker : Marker
    pub decodes : file.document ≡ some marker
    pub current : marker.schema_version ≡ marker_schema_version
    pub runs : w.identity_for_pid marker.transaction.pid ≡ some marker.transaction
    pub names : marker.report_id ≡ id
    pub valid : valid_report_id id ≡ true

  is_live :
      (m : Marker)
      → m.schema_version ≡ marker_schema_version
      → w.identity_for_pid m.transaction.pid ≡ some m.transaction
      → is_live_marker w (some m) ≡ true
  is_live m s r = rw (s, r, same_identity_refl m.transaction) refl

  live_report-more :
      (o : Option Marker) (id : Bytes) (rest : List Bytes)
      → is_member id rest ≡ true
      → is_member id (live_report w o rest) ≡ true
  live_report-more none id rest h = h
  live_report-more (some m) id rest h = ground arith

  pub IsMarked-protected :
      (fs : List MarkerFile) (id : Bytes)
      → IsMarked fs id
      → is_member id (live_marker_reports w fs).0 ≡ true
  unfolding live_marker_reports
  IsMarked-protected fs id m = go fs m.listed
    where
      go :
          (gs : List MarkerFile) → IsIn m.file gs → is_member id (live_marker_reports w gs).0 ≡ true
      go [] i = elim i [ ]
      go (f ∷ gs) (here e) =
          let is_regular : f.is_regular ≡ true = ap MarkerFile.is_regular (sym e) ∙ m.regular in
          let named : has_suffix json f.name ≡ true =
            ap (λ (x : MarkerFile). has_suffix json x.name) (sym e) ∙ m.named in
          let decodes : f.document ≡ some m.marker = ap MarkerFile.document (sym e) ∙ m.decodes in
          let live : is_live_marker w f.document ≡ true =
            ap (is_live_marker w) decodes ∙ is_live m.marker m.current m.runs in
          let first : is_member id (live_report w f.document (live_marker_reports w gs).0) ≡ true =
            rw (decodes, m.names, m.valid, bytes_eq_refl id) refl in
          rw (is_regular, named, live) first
      go (f ∷ gs) (there i) =
          ground (arith, go gs i, live_report-more f.document id (live_marker_reports w gs).0)

  -- No marker of a running transaction and no pending approval names the report.
  abbrev pub IsFree : History → Bytes → Type 0
  IsFree h id = ¬ IsMarked h.markers id × ¬ IsPending h.pending id

  pub unprotected-IsFree :
      (h : History) (id : Bytes) → is_member id (protected_reports w h) ≡ false → IsFree h id
  unprotected-IsFree h id free =
      let both =
        is_member-append id (live_marker_reports w h.markers).0
          (pending_approval_reports h.pending) in
      (
        λ m. let marked = IsMarked-protected h.markers id m in absurd (ground arith),
        λ p. let pending = IsPending-protected h.pending id p in absurd (ground arith),
      )
