-- ===== src/Egress/Address.antt =====
-- internal/egress/address.go, the reserved networks of internal/egress/broker.go, and the methods
-- of net.IP and net.IPNet that they use. A net.IP is its slice of bytes: nil is the empty list.
pub mod Ip
pub mod Mapped
pub mod Reserved
use prolewatch.Prelude.{
  ℕ, ◌-◌, ◌/◌, ◌%◌, ◌^◌, Bool, true, false, not, ◌&&◌, ◌||◌, List, [], ◌∷◌, ◌++◌, Option, none,
  some, leb, ltb, ◌==◌, if◌then◌else◌, length, all, any, Bytes, bytes_eq, take, drop, replicate,
}
use prolewatch.Egress.Address.Ip.{
  Quad, quad, to4, equal, is_global_unicast, is_unspecified, is_loopback, is_private,
  is_link_local_unicast, is_link_local_multicast, is_multicast, Network, network, contains,
}
use prolewatch.Egress.Host.{http_port, https_port, max_tcp_port}

abbrev four : ℕ → ℕ → ℕ → ℕ → ℕ → Network
four a b c d ones = network (a ∷ b ∷ c ∷ d ∷ []) ones

-- A network of IPv6 by its first two groups of 16 bits, given as bytes.
abbrev six : ℕ → ℕ → ℕ → ℕ → ℕ → ℕ → ℕ → Network
six a b c d e f ones = network (a ∷ b ∷ c ∷ d ∷ e ∷ f ∷ replicate 10 0) ones

unfoldable pub non_public_networks : List Network
non_public_networks =
    four 0 0 0 0 8
    ∷ four 10 0 0 0 8
    ∷ four 100 64 0 0 10
    ∷ four 127 0 0 0 8
    ∷ four 169 254 0 0 16
    ∷ four 172 16 0 0 12
    ∷ four 192 0 0 0 24
    ∷ four 192 0 2 0 24
    ∷ four 192 168 0 0 16
    ∷ four 198 18 0 0 15
    ∷ four 198 51 100 0 24
    ∷ four 203 0 113 0 24
    ∷ four 224 0 0 0 4
    ∷ four 240 0 0 0 4
    ∷ network (replicate 16 0) 128
    ∷ network (replicate 15 0 ++ 1 ∷ []) 128
    ∷ six 0 0x64 0xff 0x9b 0 0 96
    ∷ six 0 0x64 0xff 0x9b 0 1 48
    ∷ six 1 0 0 0 0 0 64
    ∷ six 0x20 1 0 0 0 0 23
    ∷ six 0x20 1 0x0d 0xb8 0 0 32
    ∷ six 0x20 2 0 0 0 0 16
    ∷ six 0xfc 0 0 0 0 0 7
    ∷ six 0xfe 0xc0 0 0 0 0 10
    ∷ six 0xfe 0x80 0 0 0 0 10
    ∷ six 0xff 0 0 0 0 0 8
    ∷ []

pub record AddressPolicy : Type 0 where
  pub addresses : List Bytes
  pub subnets : List Network
  pub permit_all : Bool

-- AddressPolicy.Port.
unfoldable pub permits_port : AddressPolicy → ℕ → Bool
permits_port p port =
    if p.permit_all
    then ltb 0 port && leb port max_tcp_port
    else port == http_port || port == https_port

-- The octets that Public refuses beside the list of networks; 0xc0 masks the top two bits.
abbrev pub reserved_quad : Option Quad → Bool
reserved_quad none = false
reserved_quad (some (quad a b c d)) =
    a == 0 || a == 127 || (a == 100 && b / 64 == 1) || (a == 169 && b == 254) || leb 224 a

unfoldable pub excluded : Bytes → Bool
excluded ip =
    not (is_global_unicast ip)
    || is_unspecified ip
    || is_loopback ip
    || is_private ip
    || is_link_local_unicast ip
    || is_link_local_multicast ip
    || is_multicast ip

abbrev pub is_local : AddressPolicy → Bytes → Bool
is_local p ip =
    any (λ local. equal local ip) p.addresses || any (λ subnet. contains subnet ip) p.subnets

-- AddressPolicy.Public, for a policy that is not nil.
unfoldable pub is_public : AddressPolicy → Bytes → Bool
is_public p ip =
    if p.permit_all
    then not (length ip == 0)
    else if length ip == 0 || excluded ip
    then false
    else if any (λ network. contains network ip) non_public_networks
    then false
    else if reserved_quad (to4 ip)
    then false
    else not (is_local p ip)
