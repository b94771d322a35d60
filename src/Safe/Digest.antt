-- ===== src/Safe/Digest.antt =====
-- internal/safe/safe.go: ValidHexDigest.
use prolewatch.Prelude.{Bool, ◌&&◌, ◌||◌, ℕ, leb, ◌==◌, length, all, Bytes}

abbrev pub is_hex : ℕ → Bool
is_hex c = (leb b'0' c && leb c b'9') || (leb b'a' c && leb c b'f')

unfoldable pub valid_hex_digest : Bytes → Bool
valid_hex_digest s = length s == 64 && all is_hex s
