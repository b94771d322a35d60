-- ===== src/Audit/Retention/Newest.antt =====
-- What Prune removes.
use prolewatch.Prelude.{
  ◌≡◌, refl, sym, ap, ◌∙◌, ◌⊎◌, inl, inr, true, false, List, [], ◌∷◌, ◌++◌, leb, length, take, drop,
  Bytes, bytes_eq, bytes_eq_iff, bytes_lt, is_member, arith, Bool-cases, All, IsIn, here, there,
}
use prolewatch.Audit.Marker.{World}
use prolewatch.Audit.Retention.{
  File, History, report_retention, contained_build_log_suffix, json, file_ids, ids,
  protected_reports, expired_names, without, prune,
}
use prolewatch.Audit.Retention.Protected.{IsFree, unprotected-IsFree}
use prolewatch.Audit.Retention.Order.{newest_first-IsNewestFirst, old-IsNewest, drop-IsIn}

without-IsIn :
    (names : List Bytes) (f : File) (fs : List File)
    → IsIn f fs
    → is_member f.name names ≡ false
    → IsIn f (without names fs)
without-IsIn names f [] i h = elim i [ ]
without-IsIn names f (g ∷ fs) (here e) h =
    rw (ap (λ x. is_member (File.name x) names) (sym e) ∙ h) (here e)
without-IsIn names f (g ∷ fs) (there i) h = elim (Bool-cases (is_member g.name names)) [
  | inl out ↦ rw out (without-IsIn names f fs i h)
  | inr stays ↦ rw stays (there (without-IsIn names f fs i h))
]

-- The name of a file that goes with this identifier.
abbrev pub IsNameOf : Bytes → Bytes → Type 0
IsNameOf id name = (name ≡ id ++ json) ⊎ (name ≡ id ++ contained_build_log_suffix)

expired_names-IsNameOf :
    (protected old : List Bytes) (name : Bytes)
    → is_member name (expired_names protected old) ≡ true
    → (id : Bytes) × IsIn id old × (is_member id protected ≡ false) × IsNameOf id name
unfolding expired_names
expired_names-IsNameOf protected [] name h = absurd (ground arith)
expired_names-IsNameOf protected (id ∷ old) name h = elim (Bool-cases (is_member id protected)) [
  | inl safe ↦
      let (x, i, free, names) = expired_names-IsNameOf protected old name (rw safe at h) in
      (x, there i, free, names)
  | inr free ↦ elim (Bool-cases (bytes_eq name (id ++ json))) [
    | inl report ↦ (id, here refl, free, inl ((bytes_eq_iff name (id ++ json)).0 report))
    | inr no_report ↦ elim (Bool-cases (bytes_eq name (id ++ contained_build_log_suffix))) [
      | inl log ↦
          (id, here refl, free, inr ((bytes_eq_iff name (id ++ contained_build_log_suffix)).0 log))
      | inr no_log ↦
          let (x, i, safe, names) =
            expired_names-IsNameOf protected old name (rw (free, no_report, no_log) at h) in
          (x, there i, safe, names)
    ]
  ]
]

module _ {V : Type 0} (w : World V) (h : History) where
  -- A file of a report that nothing names, with 200 reports in front that are no older.
  pub record IsExpired (f : File) : Type 0 where
    pub id : Bytes
    pub of_report : IsNameOf id f.name
    pub listed : IsIn id (ids 0 h.reports)
    pub free : IsFree w h id
    pub no_newer : All (λ y. bytes_lt y id ≡ false) (take report_retention (ids 0 h.reports))
    pub enough : length (take report_retention (ids 0 h.reports)) ≡ report_retention

  expired_names-IsExpired :
      (f : File)
      → is_member f.name
          (expired_names (protected_reports w h) (drop report_retention (ids 0 h.reports)))
        ≡ true
      → IsExpired f
  unfolding ids
  expired_names-IsExpired f m =
      let found = ids 0 h.reports in
      let (id, i, free, names) =
        expired_names-IsNameOf (protected_reports w h) (drop report_retention found) f.name m in
      let (newer, enough) =
        old-IsNewest report_retention found id (newest_first-IsNewestFirst (file_ids h.reports))
          i in
      record {
        id = id;
        of_report = names;
        listed = drop-IsIn report_retention found id i;
        free = unprotected-IsFree w h id free;
        no_newer = newer;
        enough = enough;
      }

  -- A file that Prune removes belongs to a report of which 200 reports of the store are no older, which
  -- no marker file of the current schema and of a running transaction names, and no pending approval
  -- file, called by a kind, a dash and the identifier; every other file stays.
  pub prune-IsExpired : (f : File) → IsIn f h.reports → ¬ IsIn f (prune w h).reports → IsExpired f
  unfolding prune
  prune-IsExpired f i gone =
      let found = ids 0 h.reports in
      let expired = expired_names (protected_reports w h) (drop report_retention found) in
      elim (Bool-cases (leb (length found) report_retention)) [
        | inl few ↦ absurd (gone (rw few i))
        | inr many ↦ elim (Bool-cases (is_member f.name expired)) [
          | inl named ↦ expired_names-IsExpired f named
          | inr unnamed ↦ absurd (gone (rw many (without-IsIn expired f h.reports i unnamed)))
        ]
      ]
