-- ===== src/Egress/Broker/Key.antt =====
-- A key of the grant table names one destination.
use prolewatch.Prelude.{
  ℕ, ◌≡◌, refl, ap, sym, ◌∙◌, true, [], ◌∷◌, ◌++◌, all, Bytes, to_lower, decimal, decimal-digits,
  decimal_injective, is_digit, arith,
}
use prolewatch.Egress.Broker.{grant_key}

digits_colon : (h s : Bytes) → all is_digit (h ++ (b':' ∷ s)) ≡ true → ⊥
digits_colon [] s h = cc
digits_colon (x ∷ t) s h = digits_colon t s (ground arith)

-- A text that ends in a colon and digits splits there in one way only.
split_digits :
    (h k d e : Bytes)
    → all is_digit d ≡ true
    → all is_digit e ≡ true
    → h ++ (b':' ∷ d) ≡ k ++ (b':' ∷ e)
    → (h ≡ k) × (d ≡ e)
split_digits [] [] d e p q eq = (refl, cc)
split_digits [] (y ∷ k) d e p q eq =
    let tail : d ≡ k ++ (b':' ∷ e) = cc in
    absurd (digits_colon k e (ap (all is_digit) (sym tail) ∙ p))
split_digits (x ∷ h) [] d e p q eq =
    let tail : h ++ (b':' ∷ d) ≡ e = cc in absurd (digits_colon h d (ap (all is_digit) tail ∙ q))
split_digits (x ∷ h) (y ∷ k) d e p q eq =
    let (same, digits) = split_digits h k d e p q (cc) in (cc, digits)

-- Two requests share a key of the grant table only if they name the same port, and the same host up
-- to letter case: consent to one destination is consent to no other.
pub grant_key_injective :
    (h k : Bytes) (m n : ℕ) → grant_key h m ≡ grant_key k n → (to_lower h ≡ to_lower k) × (m ≡ n)
unfolding grant_key
grant_key_injective h k m n eq =
    let (hosts, digits) =
      split_digits (to_lower h) (to_lower k) (decimal m) (decimal n) (decimal-digits m)
        (decimal-digits n) eq in
    (hosts, decimal_injective m n digits)
