-- ===== src/Audit/Severity.antt =====
-- internal/audit/config.go and internal/audit/policy.go: the ranks of severities and confidences. A
-- word that is no key of the rank map has rank 0.
use prolewatch.Prelude.{
  ℕ, ◌≤◌, ◌<◌, ◌≡◌, Bool, true, not, ◌&&◌, ◌||◌, leb, ◌==◌, if◌then◌else◌, Bytes, bytes_eq, codes,
  arith,
}

unfoldable pub severity_rank : Bytes → ℕ
severity_rank s =
    if bytes_eq s (codes "info")
    then 1
    else if bytes_eq s (codes "low")
    then 2
    else if bytes_eq s (codes "medium")
    then 3
    else if bytes_eq s (codes "high")
    then 4
    else if bytes_eq s (codes "critical")
    then 5
    else 0

unfoldable pub severity_at_least : Bytes → Bytes → Bool
severity_at_least actual minimum =
    leb (severity_rank minimum) (severity_rank actual) && not (severity_rank minimum == 0)

-- brief.ValidSeverity: the keys of its map are those of the rank map.
unfoldable pub valid_severity : Bytes → Bool
valid_severity s =
    bytes_eq s (codes "info")
    || bytes_eq s (codes "low")
    || bytes_eq s (codes "medium")
    || bytes_eq s (codes "high")
    || bytes_eq s (codes "critical")

unfoldable pub confidence_rank : Bytes → ℕ
confidence_rank s =
    if bytes_eq s (codes "low")
    then 1
    else if bytes_eq s (codes "medium")
    then 2
    else if bytes_eq s (codes "high")
    then 3
    else 0

unfoldable pub confidence_at_least : Bytes → Bytes → Bool
confidence_at_least actual minimum =
    leb (confidence_rank minimum) (confidence_rank actual) && not (confidence_rank minimum == 0)

pub valid_severity-rank : (s : Bytes) → valid_severity s ≡ true → 0 < severity_rank s
unfolding valid_severity severity_rank
valid_severity-rank s h = ground arith

-- A stricter minimum catches no less: what reaches a severity reaches every lower known one.
pub severity_at_least_mono :
    (actual low high : Bytes)
    → valid_severity low ≡ true
    → severity_rank low ≤ severity_rank high
    → severity_at_least actual high ≡ true
    → severity_at_least actual low ≡ true
unfolding severity_at_least
severity_at_least_mono actual low high v le h = ground (arith, valid_severity-rank low v)
