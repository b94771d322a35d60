-- ===== src/Egress/Address/Reserved.antt =====
-- What a public address is not.
use prolewatch.Prelude.{
  ℕ, ◌≡◌, ◌≢◌, ◌<◌, Bool, true, false, List, [], ◌∷◌, some, arith, any, All, Bytes, ◌⊎◌,
  ||-eq_false,
}
use prolewatch.Egress.Address.Ip.{quad, to4, equal, contains}
use prolewatch.Egress.Address.{
  AddressPolicy, excluded, is_public, non_public_networks, reserved_quad, is_local,
}

-- The octets of an IPv4 address outside every reserved range.
pub record IsRoutable (a b c d : ℕ) : Type 0 where
  pub unicast : (0 < a) × (a < 224)
  pub not_private_10 : a ≢ 10
  pub not_loopback : a ≢ 127
  pub not_carrier : (a ≢ 100) ⊎ ((b < 64) ⊎ (127 < b))
  pub not_link_local : (a ≢ 169) ⊎ (b ≢ 254)
  pub not_private_172 : (a ≢ 172) ⊎ ((b < 16) ⊎ (31 < b))
  pub not_private_192 : (a ≢ 192) ⊎ (b ≢ 168)
  pub not_protocol : ((a ≢ 192) ⊎ (b ≢ 0)) ⊎ ((c ≢ 0) × (c ≢ 2))
  pub not_benchmark : (a ≢ 198) ⊎ ((b < 18) ⊎ (19 < b))
  pub not_documentation_2 : ((a ≢ 198) ⊎ (b ≢ 51)) ⊎ (c ≢ 100)
  pub not_documentation_3 : ((a ≢ 203) ⊎ (b ≢ 0)) ⊎ (c ≢ 113)

module _ (p : AddressPolicy) (real : p.permit_all ≡ false) where
  -- The four tests that a public address has passed.
  is_public_parts :
      (ip : Bytes)
      → is_public p ip ≡ true
      → (excluded ip ≡ false)
        × (any (λ n. contains n ip) non_public_networks ≡ false)
        × (reserved_quad (to4 ip) ≡ false)
        × (is_local p ip ≡ false)
  unfolding is_public
  is_public_parts ip h = ground arith

any-All {ℓ} :
    {A : Type ℓ} (f : A → Bool) (xs : List A) → any f xs ≡ false → All (λ x. f x ≡ false) xs
any-All f [] h = tt
any-All f (x ∷ xs) h = (ground arith, any-All f xs (ground arith))

module _ (a b c d : ℕ) (ha : a < 256) (hb : b < 256) (hc : c < 256) (hd : d < 256) where
  abbrev octets : Bytes
  octets = a ∷ b ∷ c ∷ d ∷ []

  outside :
      any (λ n. contains n octets) non_public_networks ≡ false
      → reserved_quad (some (quad a b c d)) ≡ false
      → IsRoutable a b c d
  unfolding contains non_public_networks
  outside h q = record {
    unicast = ground arith;
    not_private_10 = ground arith;
    not_loopback = ground arith;
    not_carrier = ground arith;
    not_link_local = ground arith;
    not_private_172 = ground arith;
    not_private_192 = ground arith;
    not_protocol = ground arith;
    not_benchmark = ground arith;
    not_documentation_2 = ground arith;
    not_documentation_3 = ground arith;
  }

  -- A public IPv4 address, under a policy that does not have the test seam set, lies outside every
  -- reserved range of IPv4, equals none of the addresses of this host, and lies in none of the
  -- subnets that this host is attached to.
  pub is_public-IsRoutable :
      (p : AddressPolicy)
      → p.permit_all ≡ false
      → is_public p (a ∷ b ∷ c ∷ d ∷ []) ≡ true
      → IsRoutable a b c d
        × All (λ local. equal local (a ∷ b ∷ c ∷ d ∷ []) ≡ false) p.addresses
        × All (λ subnet. contains subnet (a ∷ b ∷ c ∷ d ∷ []) ≡ false) p.subnets
  unfolding to4
  is_public-IsRoutable p real h =
      let parts = is_public_parts p real octets h in
      let locals = ||-eq_false _ _ parts.3 in
      (
        outside parts.1 parts.2,
        any-All (λ l. equal l octets) p.addresses locals.0,
        any-All (λ n. contains n octets) p.subnets locals.1,
      )

-- A public address of either family, without the test seam, is in no network of the reserved list:
-- the 16-byte addresses that carry or translate IPv4 (64:ff9b, 2002) are among them.
pub is_public-not_reserved :
    (p : AddressPolicy) (ip : Bytes)
    → p.permit_all ≡ false
    → is_public p ip ≡ true
    → All (λ n. contains n ip ≡ false) non_public_networks
is_public-not_reserved p ip real h =
    any-All (λ n. contains n ip) non_public_networks (is_public_parts p real ip h).1
