-- ===== src/Tests/Briefs.antt =====
-- Examples for internal/brief.
use prolewatch.Prelude.{
  true, false, List, [], ◌∷◌, ◌≡◌, refl, length, some, Bytes, bytes_eq, codes, has_prefix,
}
use prolewatch.Brief.Findings.{Finding}
use prolewatch.Brief.Diff.{behavior_text, step}
use prolewatch.Brief.Diff.Header.{hunk_counts}
use prolewatch.Brief.Diff.Lines.{Line, lines_of, join_lines}
use prolewatch.Brief.Diff.Masked.{IsView, behavior_text-IsView}
use prolewatch.Brief.Diff.Plain.{IsPatch, behavior_text-Hunks}
use prolewatch.Brief.Diff.Steps.{done, header, context, removed, added}

abbrev pub finding : Bytes → Finding
finding severity = record {
  source = codes "deterministic";
  severity = severity;
  category = codes "network";
  file = codes "PKGBUILD";
  line = some 3;
  evidence = [];
  rationale = [];
  rule_id = codes "curl";
  hard_block = false;
}

abbrev findings : List Finding
findings = finding (codes "low") ∷ finding (codes "high") ∷ []

abbrev patch : Bytes
patch = codes "--- a\n+++ b\n@@ -1,2 +1,2 @@\n x=1\n-curl x\n+true\n@@ -9 +9,0 @@\n-y\n"

-- The patch with its two removed lines blank.
abbrev view : Bytes
view = codes "--- a\n+++ b\n@@ -1,2 +1,2 @@\n x=1\n       \n+true\n@@ -9 +9,0 @@\n  \n"

abbrev line : Bytes → Line
line raw = record { raw = raw; ended = true }

abbrev old_name : Line
old_name = line (codes "--- a")

abbrev new_name : Line
new_name = line (codes "+++ b")

abbrev hunks : List Line
hunks =
    line (codes "@@ -1,2 +1,2 @@")
    ∷ line (codes " x=1")
    ∷ line (codes "-curl x")
    ∷ line (codes "+true")
    ∷ line (codes "@@ -9 +9,0 @@")
    ∷ line (codes "-y")
    ∷ []

abbrev hunks_shown : List Line
hunks_shown =
    line (codes "@@ -1,2 +1,2 @@")
    ∷ line (codes " x=1")
    ∷ line (codes "       ")
    ∷ line (codes "+true")
    ∷ line (codes "@@ -9 +9,0 @@")
    ∷ line (codes "  ")
    ∷ []

patch-IsPatch : IsPatch patch old_name new_name hunks hunks_shown
unfolding lines_of has_prefix hunk_counts
patch-IsPatch = record {
  lines = refl;
  minus = refl;
  plus = refl;
  some_hunk = refl;
  hunks =
      header refl refl refl
        (context refl (removed refl (added refl (header refl refl refl (removed refl done)))));
}

behavior_text-Hunks_example :
    behavior_text true patch ≡ (join_lines (old_name ∷ new_name ∷ hunks_shown), true)
behavior_text-Hunks_example =
    behavior_text-Hunks patch old_name new_name hunks hunks_shown patch-IsPatch

patch-masked : behavior_text true patch ≡ (view, true)
unfolding behavior_text step has_prefix hunk_counts bytes_eq
patch-masked = refl

behavior_text-IsView_example : (true ≡ true) × IsView patch view × (length view ≡ length patch)
behavior_text-IsView_example = behavior_text-IsView true patch view patch-masked
