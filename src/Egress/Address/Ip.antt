-- ===== src/Egress/Address/Ip.antt =====
-- The methods of net.IP and net.IPNet that the address policy calls, on slices of bytes.
use prolewatch.Prelude.{
  ℕ, min, ◌-◌, ◌/◌, ◌%◌, ◌^◌, Bool, true, false, not, ◌&&◌, ◌||◌, [], ◌∷◌, ◌++◌, Option, none, some,
  ◌==◌, if◌then◌else◌, length, Bytes, bytes_eq, take, drop, replicate,
}

pub data Quad : Type 0 where
  quad : ℕ → ℕ → ℕ → ℕ → Quad

abbrev pub quad_of : Bytes → Option Quad
quad_of (a ∷ b ∷ c ∷ d ∷ []) = some (quad a b c d)
quad_of _ = none

abbrev pub v4_in_v6_prefix : Bytes
v4_in_v6_prefix = 0 ∷ 0 ∷ 0 ∷ 0 ∷ 0 ∷ 0 ∷ 0 ∷ 0 ∷ 0 ∷ 0 ∷ 255 ∷ 255 ∷ []

unfoldable pub to4 : Bytes → Option Quad
unfolding bytes_eq
to4 ip =
    if length ip == 4
    then quad_of ip
    else if length ip == 16 && bytes_eq (take 12 ip) v4_in_v6_prefix
    then quad_of (drop 12 ip)
    else none

abbrev pub quad_bytes : Quad → Bytes
quad_bytes (quad a b c d) = a ∷ b ∷ c ∷ d ∷ []

-- IP.Equal: an IPv4 address and its form in IPv6 are equal.
unfoldable pub equal : Bytes → Bytes → Bool
equal ip x =
    if length ip == length x
    then bytes_eq ip x
    else if length ip == 4 && length x == 16
    then bytes_eq (take 12 x) v4_in_v6_prefix && bytes_eq ip (drop 12 x)
    else if length ip == 16 && length x == 4
    then bytes_eq (take 12 ip) v4_in_v6_prefix && bytes_eq (drop 12 ip) x
    else false

-- The 16 bytes of an IPv4 address, as net.IPv4 makes them.
abbrev pub mapped : ℕ → ℕ → ℕ → ℕ → Bytes
mapped a b c d = 0 ∷ 0 ∷ 0 ∷ 0 ∷ 0 ∷ 0 ∷ 0 ∷ 0 ∷ 0 ∷ 0 ∷ 255 ∷ 255 ∷ a ∷ b ∷ c ∷ d ∷ []

-- A test by octets on an IPv4 address in either form, and by bytes on another of 16 bytes.
abbrev by_form : (Quad → Bool) → (Bytes → Bool) → Bytes → Bool
by_form f g ip = elim (to4 ip) [ some q ↦ f q | none ↦ g ip ]

unfoldable pub is_unspecified : Bytes → Bool
unfolding equal
is_unspecified ip = equal ip (mapped 0 0 0 0) || equal ip (replicate 16 0)

abbrev byte_at : ℕ → Bytes → ℕ
byte_at n [] = 0
byte_at ℕ.zero (x ∷ s) = x
byte_at (ℕ.suc n) (x ∷ s) = byte_at n s

abbrev quad_loopback : Quad → Bool
quad_loopback (quad a b c d) = a == 127

unfoldable pub is_loopback : Bytes → Bool
unfolding to4 equal
is_loopback = by_form quad_loopback (λ ip. equal ip (replicate 15 0 ++ 1 ∷ []))

-- `x & 0xf0 == 16` of a byte is `x / 16 == 1`, and so for the other masks.
abbrev quad_private : Quad → Bool
quad_private (quad a b c d) = a == 10 || (a == 172 && b / 16 == 1) || (a == 192 && b == 168)

unfoldable pub is_private : Bytes → Bool
unfolding to4
is_private = by_form quad_private (λ ip. length ip == 16 && byte_at 0 ip / 2 == 126)

abbrev quad_multicast : Quad → Bool
quad_multicast (quad a b c d) = a / 16 == 14

unfoldable pub is_multicast : Bytes → Bool
unfolding to4
is_multicast = by_form quad_multicast (λ ip. length ip == 16 && byte_at 0 ip == 255)

abbrev quad_link_local_multicast : Quad → Bool
quad_link_local_multicast (quad a b c d) = a == 224 && b == 0 && c == 0

unfoldable pub is_link_local_multicast : Bytes → Bool
unfolding to4
is_link_local_multicast =
    by_form quad_link_local_multicast
      (λ ip. length ip == 16 && byte_at 0 ip == 255 && byte_at 1 ip % 16 == 2)

abbrev quad_link_local : Quad → Bool
quad_link_local (quad a b c d) = a == 169 && b == 254

unfoldable pub is_link_local_unicast : Bytes → Bool
unfolding to4
is_link_local_unicast =
    by_form quad_link_local (λ ip. length ip == 16 && byte_at 0 ip == 254 && byte_at 1 ip / 64 == 2)

unfoldable pub is_global_unicast : Bytes → Bool
unfolding equal is_unspecified is_loopback is_multicast is_link_local_unicast
is_global_unicast ip =
    (length ip == 4 || length ip == 16)
    && not (equal ip (mapped 255 255 255 255))
    && not (is_unspecified ip)
    && not (is_loopback ip)
    && not (is_multicast ip)
    && not (is_link_local_unicast ip)

-- net.IPNet as net.ParseCIDR makes it: a network number and the count of ones in its mask.
pub data Network : Type 0 where
  network : Bytes → ℕ → Network

-- `nn[i] & m[i] == ip[i] & m[i]` for each byte, where the mask has its ones in front.
abbrev agree : ℕ → Bytes → Bytes → Bool
agree ones [] ys = true
agree ones (x ∷ xs) [] = true
agree ones (x ∷ xs) (y ∷ ys) =
    let bits = min ones 8 in x / 2 ^ (8 - bits) == y / 2 ^ (8 - bits) && agree (ones - 8) xs ys

-- The four bytes of an IPv4 address, and any other slice as it is.
abbrev shorten : Bytes → Bytes
shorten ip = elim (to4 ip) [ some q ↦ quad_bytes q | none ↦ ip ]

-- IPNet.Contains.
unfoldable pub contains : Network → Bytes → Bool
unfolding to4
contains (network number ones) ip =
    length (shorten ip) == length number && agree ones number (shorten ip)
