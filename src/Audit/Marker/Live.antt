-- ===== src/Audit/Marker/Live.antt =====
-- What a report that a marker leads to is, and that a written marker leads back to its report.
use prolewatch.Prelude.{
  not, length, is_empty, all, leb, concat, ◌+◌, ◌*◌, ◌≡◌, refl, sym, ap, ◌∙◌, inl, inr, Bool, true,
  false, ◌&&◌, List, [], ◌∷◌, Option, none, some, if◌then◌else◌, Bytes, bytes_eq, bytes_eq_iff,
  bytes_eq_refl, arith, Option-cases, if-some, some_injective,
}
use mathlib.Core.Path.{subst}
use prolewatch.Safe.Content.{scan}
use prolewatch.Audit.Types.{Report, ProcessIdentity, allow}
use prolewatch.Audit.Marker.{
  Marker, World, Markers, read_marker, same_identity, identity_is_live, marker_location, marker_of,
  write_marker, marker_fits, marker_matches, is_of_transaction, load_live_marker_report,
}

-- Whether JSON keeps the strings of a marker, which are UTF-8, and the document stays below the 64 KiB
-- that are read; a byte may take six, and names and numbers take less than 1 KiB.
abbrev pub is_utf8 : Bytes → Bool
is_utf8 s = let (rest, invalid) = scan (length s) s in is_empty rest && not invalid

abbrev pub strings : Marker → List Bytes
strings m =
    m.root ∷ m.phase ∷ m.package_base ∷ m.report_id ∷ m.content_hash ∷ m.policy_fingerprint
    ∷ m.decision ∷ m.disposition ∷ m.transaction.start_time ∷ m.transaction.boot_id ∷ []

abbrev pub is_text : Marker → Bool
is_text m = all is_utf8 (strings m) && leb (6 * length (concat (strings m)) + 1024) (64 * 1024)

-- Identity up to its fields.
pub record IsSame (p q : ProcessIdentity) : Type 0 where
  pub pid : p.pid ≡ q.pid
  pub start_time : p.start_time ≡ q.start_time
  pub boot_id : p.boot_id ≡ q.boot_id
  pub uid : p.uid ≡ q.uid

same_identity-IsSame : (p q : ProcessIdentity) → same_identity p q ≡ true → IsSame p q
unfolding same_identity
same_identity-IsSame p q h = record {
  pid = ground arith;
  start_time = (bytes_eq_iff p.start_time q.start_time).0 (ground arith);
  boot_id = (bytes_eq_iff p.boot_id q.boot_id).0 (ground arith);
  uid = ground arith;
}

pub same_identity_refl : (p : ProcessIdentity) → same_identity p p ≡ true
unfolding same_identity
same_identity_refl p = ground (arith, bytes_eq_refl p.start_time, bytes_eq_refl p.boot_id)

module _ {V : Type 0} (w : World V) (policy_fingerprint : Bytes) where
  -- The report, which is stored, allows, was made under this policy, and belongs to this very
  -- transaction, whose process runs.
  pub record IsLive (root : Bytes) (r : Report) (manifest : List V) (c : Bytes) : Type 0 where
    pub current : ProcessIdentity
    pub report_id : Bytes
    pub runs_in : w.transaction ≡ some current
    pub at_root : w.canonical root ≡ some c
    pub stored : w.load_report report_id ≡ some (r, manifest)
    pub allows : r.decision ≡ allow
    pub of_policy : r.policy_fingerprint ≡ policy_fingerprint
    pub of_transaction : IsSame r.transaction current

  location-canonical :
      (root phase : Bytes) (t : ProcessIdentity) (c name : Bytes)
      → marker_location w root phase t ≡ some (c, name)
      → w.canonical root ≡ some c
  unfolding marker_location
  location-canonical root phase t c name h = elim (Option-cases (w.canonical root)) [
    | inl none' ↦ absurd (ground arith)
    | inr (d, found) ↦ ground arith
  ]

  checked-IsLive :
      (root phase : Bytes) (current : ProcessIdentity) (c name : Bytes) (m : Marker) (r : Report)
      (manifest : List V)
      → w.transaction ≡ some current
      → marker_location w root phase current ≡ some (c, name)
      → marker_fits c phase m ≡ true
      → w.load_report m.report_id ≡ some (r, manifest)
      → marker_matches m r ≡ true
      → bytes_eq m.policy_fingerprint policy_fingerprint ≡ true
      → is_of_transaction w current m r ≡ true
      → IsLive root r manifest c
  unfolding marker_fits marker_matches is_of_transaction
  checked-IsLive root phase current c name m r manifest runs at fits stored same policy mine =
      record {
        current = current;
        report_id = m.report_id;
        runs_in = runs;
        at_root = location-canonical root phase current c name at;
        stored = stored;
        allows =
            sym ((bytes_eq_iff m.decision r.decision).0 (ground arith))
            ∙ (bytes_eq_iff m.decision allow).0 (ground arith);
        of_policy =
            sym ((bytes_eq_iff m.policy_fingerprint r.policy_fingerprint).0 (ground arith))
            ∙ (bytes_eq_iff m.policy_fingerprint policy_fingerprint).0 policy;
        of_transaction = same_identity-IsSame r.transaction current (ground arith);
      }

  pub load_live_marker_report-IsLive :
      (root phase : Bytes) (ms : Markers) (r : Report) (manifest : List V) (c : Bytes)
      → load_live_marker_report w policy_fingerprint root phase ms ≡ some (r, manifest, c)
      → IsLive root r manifest c
  unfolding load_live_marker_report
  load_live_marker_report-IsLive root phase ms r manifest c h = elim (Option-cases w.transaction) [
    | inl none' ↦ absurd (ground arith)
    | inr (current, runs) ↦ elim (Option-cases (marker_location w root phase current)) [
      | inl none' ↦ absurd (ground arith)
      | inr ((d, name), at) ↦
          elim (Option-cases (if w.private_dir then read_marker ms name else none)) [
            | inl none' ↦ absurd (ground arith)
            | inr (written, read) ↦ elim (Option-cases (w.json written)) [
              | inl none' ↦ absurd (ground arith)
              | inr (m, decoded) ↦
                  elim (Option-cases
                    (if marker_fits d phase m then w.load_report m.report_id else none)) [
                      | inl none' ↦ absurd (ground arith)
                      | inr ((q, stored_manifest), stored) ↦
                          let checks =
                            marker_matches m q
                            && bytes_eq m.policy_fingerprint policy_fingerprint
                            && is_of_transaction w current m q in
                          let (passed, same) =
                            if-some checks _ _ (rw (runs, at, read, decoded, stored) at h) in
                          let (fits, loaded) = guarded (marker_fits d phase m) stored in
                          subst (λ t. IsLive root t.0 t.1 t.2) same
                            (checked-IsLive root phase current d name m q stored_manifest runs at
                              fits loaded (ground arith) (ground arith) (ground arith))
                    ]
            ]
          ]
    ]
  ]
    where
      guarded :
          (b : Bool) {o : Option (Report × List V)} {x : Report × List V}
          → (if b then o else none) ≡ some x
          → (b ≡ true) × (o ≡ some x)
      guarded true g = (refl, g)
      guarded false g = absurd (ground arith)

module _ {V : Type 0} (w : World V) where
  same_location :
      (root phase : Bytes) (t : ProcessIdentity) (c d name : Bytes)
      → w.canonical root ≡ some c
      → marker_location w root phase t ≡ some (d, name)
      → d ≡ c
  same_location root phase t c d name at h =
      some_injective (sym (location-canonical w [] root phase t d name h) ∙ at)

  fits_own :
      (d phase : Bytes) (r : Report)
      → r.decision ≡ allow
      → (marker_fits d phase (marker_of d phase r) ≡ true)
        × (marker_matches (marker_of d phase r) r ≡ true)
  unfolding marker_fits marker_matches
  fits_own d phase r e = (
    ground (arith, bytes_eq_refl d, bytes_eq_refl phase, (bytes_eq_iff r.decision allow).1 e),
    ground (
      arith,
      bytes_eq_refl r.package_base,
      bytes_eq_refl r.content_hash,
      bytes_eq_refl r.policy_fingerprint,
      bytes_eq_refl r.decision,
      bytes_eq_refl r.disposition,
    ),
  )

  of_own_transaction :
      (m : Marker) (r : Report)
      → m.transaction ≡ r.transaction
      → identity_is_live w r.transaction ≡ true
      → is_of_transaction w r.transaction m r ≡ true
  unfolding is_of_transaction
  of_own_transaction m r e live = rw (e, live, same_identity_refl r.transaction) refl

  fresh_marker :
      (root phase : Bytes) (r : Report) (ms : Markers) (manifest : List V) (c d name : Bytes)
      → d ≡ c
      → marker_location w root phase r.transaction ≡ some (d, name)
      → w.transaction ≡ some r.transaction
      → w.private_dir ≡ true
      → w.load_report r.report_id ≡ some (r, manifest)
      → r.decision ≡ allow
      → identity_is_live w r.transaction ≡ true
      → w.json (marker_of d phase r) ≡ some (marker_of d phase r)
      → load_live_marker_report w r.policy_fingerprint root phase ((name, marker_of d phase r) ∷ ms)
        ≡ some (r, manifest, c)
  unfolding load_live_marker_report
  fresh_marker root phase r ms manifest c d name e located runs private_is stored allows live kept =
      let (fits, matches) = fits_own d phase r allows in
      let mine = of_own_transaction (marker_of d phase r) r refl live in
      rw
        (
          runs,
          located,
          private_is,
          bytes_eq_refl name,
          kept,
          fits,
          stored,
          matches,
          bytes_eq_refl r.policy_fingerprint,
          mine,
        )
        (ap (λ x. some (r, manifest, x)) e)

  -- A marker that is written for an allowing report of a running transaction leads that transaction
  -- back to the report and its manifest under the same policy, as long as the marker directory is
  -- private, the report is stored, and JSON keeps the marker: its strings, the canonical root among
  -- them, are UTF-8 and short enough for the limit of the reader.
  pub write_marker-load :
      ((m : Marker) → is_text m ≡ true → w.json m ≡ some m)
      → (root phase : Bytes) (r : Report) (ms after : Markers) (manifest : List V) (c : Bytes)
      → write_marker w true root phase r ms ≡ some after
      → w.canonical root ≡ some c
      → w.transaction ≡ some r.transaction
      → w.private_dir ≡ true
      → w.load_report r.report_id ≡ some (r, manifest)
      → r.decision ≡ allow
      → identity_is_live w r.transaction ≡ true
      → is_text (marker_of c phase r) ≡ true
      → load_live_marker_report w r.policy_fingerprint root phase after ≡ some (r, manifest, c)
  unfolding write_marker
  write_marker-load keeps root phase r ms after manifest c h at runs private_is stored allows live
        text =
      elim (Option-cases (marker_location w root phase r.transaction)) [
        | inl none' ↦ absurd (ground arith)
        | inr ((d, name), located) ↦
            let same = same_location root phase r.transaction c d name at located in
            let kept =
              keeps (marker_of d phase r) (ap (λ x. is_text (marker_of x phase r)) same ∙ text) in
            let written : ((name, marker_of d phase r) ∷ ms) ≡ after = ground arith in
            rw (sym written) (
              fresh_marker root phase r ms manifest c d name same located runs private_is stored
                allows live kept)
      ]
