-- ===== src/Egress/Address/Mapped.antt =====
-- An IPv4 address and the same address in its 16-byte form.
use prolewatch.Prelude.{
  ℕ, ◌≡◌, refl, true, ◌&&◌, List, [], ◌∷◌, ◌++◌, arith, length, any, Bytes, bytes_eq, take, drop,
}
use prolewatch.Egress.Address.Ip.{
  to4, equal, is_global_unicast, is_unspecified, is_loopback, is_private, mapped, v4_in_v6_prefix,
  is_link_local_unicast, is_link_local_multicast, is_multicast, Network, network, contains,
}
use prolewatch.Egress.Address.{AddressPolicy, excluded, is_public, non_public_networks}

bytes_eq-append :
    (ps q xs : Bytes)
    → bytes_eq xs (ps ++ q)
      ≡ (bytes_eq (take (length ps) xs) ps && bytes_eq (drop (length ps) xs) q)
unfolding bytes_eq
bytes_eq-append [] q [] = refl
bytes_eq-append [] q (x ∷ xs) = refl
bytes_eq-append (p ∷ ps) q [] = refl
bytes_eq-append (p ∷ ps) q (x ∷ xs) = ground (arith, bytes_eq-append ps q xs)

module _ (a b c d : ℕ) where
  abbrev v4 : Bytes
  v4 = a ∷ b ∷ c ∷ d ∷ []

  mapped_prefix : bytes_eq (take 12 (mapped a b c d)) v4_in_v6_prefix ≡ true
  unfolding bytes_eq
  mapped_prefix = refl

  equal-mapped : (local : Bytes) → equal local (mapped a b c d) ≡ equal local v4
  unfolding equal
  equal-mapped local = ground (arith, mapped_prefix, bytes_eq-append v4_in_v6_prefix v4 local)

  contains-mapped : (n : Network) → contains n (mapped a b c d) ≡ contains n v4
  unfolding contains
  contains-mapped (network number ones) = refl

  any-equal-mapped :
      (locals : List Bytes)
      → any (λ local. equal local (mapped a b c d)) locals ≡ any (λ local. equal local v4) locals
  any-equal-mapped [] = refl
  any-equal-mapped (l ∷ ls) = ground (arith, equal-mapped l, any-equal-mapped ls)

  any-contains-mapped :
      (ns : List Network) → any (λ n. contains n (mapped a b c d)) ns ≡ any (λ n. contains n v4) ns
  any-contains-mapped [] = refl
  any-contains-mapped (n ∷ ns) = ground (arith, contains-mapped n, any-contains-mapped ns)

  is_unspecified-mapped : is_unspecified (mapped a b c d) ≡ is_unspecified v4
  unfolding is_unspecified bytes_eq
  is_unspecified-mapped = ground arith

  is_loopback-mapped : is_loopback (mapped a b c d) ≡ is_loopback v4
  unfolding is_loopback
  is_loopback-mapped = refl

  is_global_unicast-mapped : is_global_unicast (mapped a b c d) ≡ is_global_unicast v4
  unfolding is_global_unicast bytes_eq
  is_global_unicast-mapped = ground arith

  excluded-mapped : excluded (mapped a b c d) ≡ excluded v4
  unfolding excluded is_private is_link_local_unicast is_link_local_multicast is_multicast
  excluded-mapped =
      ground (arith, is_global_unicast-mapped, is_unspecified-mapped, is_loopback-mapped)

  -- AddressPolicy.Public gives one verdict on an IPv4 address in its 4-byte and in its 16-byte form,
  -- for every policy: writing a private address as `::ffff:a.b.c.d` does not get it past the rule.
  pub is_public-mapped :
      (p : AddressPolicy) → is_public p (mapped a b c d) ≡ is_public p (a ∷ b ∷ c ∷ d ∷ [])
  unfolding is_public to4
  is_public-mapped p = rw (
    excluded-mapped,
    any-contains-mapped non_public_networks,
    any-equal-mapped p.addresses,
    any-contains-mapped p.subnets,
  )
