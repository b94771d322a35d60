-- ===== src/Audit/Retention.antt =====
-- internal/audit/reports.go and internal/audit/approvals.go: how much history is kept, ReportStore.IDs,
-- liveMarkerReports, pendingApprovalReports and Prune with PruneUsed. A directory is the listing that
-- os.ReadDir gives; a removal that is tried succeeds.
pub mod Order
pub mod Protected
pub mod Newest
use prolewatch.Prelude.{
  ℕ, ◌-◌, Bool, true, false, not, ◌&&◌, ◌||◌, List, [], ◌∷◌, ◌++◌, Option, none, some, ◌==◌, leb,
  if◌then◌else◌, length, take, drop, Bytes, bytes_lt, codes, is_member, has_prefix, has_suffix, cut,
  bytes_eq,
}
use prolewatch.Audit.Approvals.Create.{valid_report_id}
use prolewatch.Audit.Marker.{Marker, World, identity_is_live, marker_schema_version}

abbrev pub report_retention : ℕ
report_retention = 200

abbrev pub contained_build_log_suffix : Bytes
contained_build_log_suffix = codes ".makepkg-build.log"

pub record File : Type 0 where
  pub name : Bytes
  pub is_dir : Bool

-- A file of the marker directory; a document that does not decode is `none`.
pub record MarkerFile : Type 0 where
  pub name : Bytes
  pub is_regular : Bool
  pub document : Option Marker

-- The directories of reports, of markers, of pending and of used approvals.
pub record History : Type 0 where
  pub reports : List File
  pub markers : List MarkerFile
  pub pending : List Bytes
  pub used : List File

-- strings.TrimPrefix and strings.TrimSuffix.
abbrev trim_prefix : Bytes → Bytes → Bytes
trim_prefix p s = if has_prefix p s then drop (length p) s else s

abbrev pub trim_suffix : Bytes → Bytes → Bytes
trim_suffix p s = if has_suffix p s then take (length s - length p) s else s

abbrev pub json : Bytes
json = codes ".json"

-- sort.Sort(sort.Reverse(..)).
unfoldable pub insert_newest : Bytes → List Bytes → List Bytes
insert_newest x [] = x ∷ []
insert_newest x (y ∷ ys) = if bytes_lt y x then x ∷ y ∷ ys else y ∷ insert_newest x ys

unfoldable pub newest_first : List Bytes → List Bytes
unfolding insert_newest
newest_first [] = []
newest_first (x ∷ xs) = insert_newest x (newest_first xs)

abbrev pub file_report_id : File → Bytes
file_report_id f = trim_suffix json f.name

abbrev pub is_report : File → Bool
is_report f = not f.is_dir && has_suffix json f.name && valid_report_id (file_report_id f)

abbrev pub file_ids : List File → List Bytes
file_ids [] = []
file_ids (f ∷ fs) = let rest = file_ids fs in if is_report f then file_report_id f ∷ rest else rest

-- ReportStore.IDs; no limit is 0.
unfoldable pub ids : ℕ → List File → List Bytes
unfolding newest_first
ids limit fs =
    let found = newest_first (file_ids fs) in if limit == 0 then found else take limit found

-- pendingApprovalReports.
abbrev pub named_report : Option (Bytes × Bytes) → List Bytes → List Bytes
named_report none rest = rest
named_report (some (kind, id)) rest = if valid_report_id id then id ∷ rest else rest

unfoldable pub pending_approval_reports : List Bytes → List Bytes
pending_approval_reports [] = []
pending_approval_reports (n ∷ ns) =
    named_report (cut b'-' (trim_suffix json n)) (pending_approval_reports ns)

-- The files that go with the old reports.
unfoldable pub expired_names : List Bytes → List Bytes → List Bytes
expired_names protected [] = []
expired_names protected (id ∷ old) =
    let rest = expired_names protected old in
    if is_member id protected
    then rest
    else (id ++ json) ∷ (id ++ contained_build_log_suffix) ∷ rest

abbrev pub without : List Bytes → List File → List File
without names [] = []
without names (f ∷ fs) =
    let rest = without names fs in if is_member f.name names then rest else f ∷ rest

-- ApprovalStore.PruneUsed; the entries that are not directories are regular files.
abbrev used_names : List File → List Bytes
used_names [] = []
used_names (f ∷ fs) =
    let id = trim_suffix json (trim_prefix (codes "approval-") f.name) in
    let rest = used_names fs in
    if not f.is_dir && bytes_eq f.name (codes "approval-" ++ (id ++ json)) && valid_report_id id
    then f.name ∷ rest
    else rest

unfoldable pub prune_used : List File → List File
unfolding newest_first
prune_used fs = without (drop report_retention (newest_first (used_names fs))) fs

module _ {V : Type 0} (w : World V) where
  -- A marker of a running transaction.
  abbrev pub is_live_marker : Option Marker → Bool
  is_live_marker none = false
  is_live_marker (some m) =
      m.schema_version == marker_schema_version && identity_is_live w m.transaction

  abbrev pub live_report : Option Marker → List Bytes → List Bytes
  live_report none rest = rest
  live_report (some m) rest = if valid_report_id m.report_id then m.report_id ∷ rest else rest

  -- liveMarkerReports: the reports, and the files that stay in the directory.
  unfoldable pub live_marker_reports : List MarkerFile → List Bytes × List MarkerFile
  live_marker_reports [] = ([], [])
  live_marker_reports (f ∷ fs) =
      let (live, left) = live_marker_reports fs in
      if not f.is_regular || not (has_suffix json f.name)
      then (live, f ∷ left)
      else if is_live_marker f.document
      then (live_report f.document live, f ∷ left)
      else (live, left)

  abbrev pub protected_reports : History → List Bytes
  protected_reports h = (live_marker_reports h.markers).0 ++ pending_approval_reports h.pending

  -- ReportStore.Prune.
  unfoldable pub prune : History → History
  unfolding live_marker_reports pending_approval_reports expired_names ids prune_used
  prune h =
      let found = ids 0 h.reports in
      let expired = expired_names (protected_reports h) (drop report_retention found) in
      record {
        reports =
            if leb (length found) report_retention then h.reports else without expired h.reports;
        markers = (live_marker_reports h.markers).1;
        pending = h.pending;
        used = prune_used h.used;
      }
