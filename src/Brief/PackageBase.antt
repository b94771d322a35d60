-- ===== src/Brief/PackageBase.antt =====
-- internal/brief/models.go: ValidatePackageBase, the pattern `^[A-Za-z0-9@._+][A-Za-z0-9@._+-]*$`.
use prolewatch.Prelude.{Bool, false, ◌&&◌, ◌||◌, ℕ, [], ◌∷◌, leb, ◌==◌, all, Bytes}

abbrev first_byte : ℕ → Bool
first_byte c =
    (leb b'A' c && leb c b'Z')
    || (leb b'a' c && leb c b'z')
    || (leb b'0' c && leb c b'9')
    || c == b'@'
    || c == b'.'
    || c == b'_'
    || c == b'+'

unfoldable pub valid_package_base : Bytes → Bool
valid_package_base [] = false
valid_package_base (c ∷ s) = first_byte c && all (λ d. first_byte d || d == b'-') s
