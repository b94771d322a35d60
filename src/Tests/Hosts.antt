-- ===== src/Tests/Hosts.antt =====
-- Examples for internal/egress/host.go, address.go and allowance.go.
use prolewatch.Prelude.{
  ◌≡◌, refl, ◌≤◌, true, false, List, [], ◌∷◌, ◌++◌, Option, none, some, ◌==◌, if◌then◌else◌, All,
  IsIn, length, all, Bytes, bytes_eq, bytes_eq_iff, codes, split_at, arith, has_prefix, cut,
  trim_space,
}
use prolewatch.Egress.Host.{is_label_byte, is_some}
use prolewatch.Egress.Host.Charset.{is_host_byte}
use prolewatch.Egress.Address.Ip.{
  equal, to4, contains, network, is_global_unicast, is_unspecified, is_loopback, is_private,
  is_multicast, is_link_local_unicast, is_link_local_multicast,
}
use prolewatch.Egress.Address.{AddressPolicy, is_public, excluded, non_public_networks}
use prolewatch.Egress.Address.Reserved.{IsRoutable, is_public-IsRoutable}
use prolewatch.Egress.Allowance.{
  Url, DeclaredSource, Allowance, parsed, source_exact, source_vcs, source_value,
  max_declared_sources, next, rename_target, strip_scheme, classify_source, parse_lines,
  parse_srcinfo_sources, normalize_host, same_request, under_repository, source_permits, permits,
}
use prolewatch.Egress.Allowance.Declared.{IsAccounted, Distinct, raws, parse_srcinfo_sources-All}
use prolewatch.Egress.Allowance.Permitted.{IsMatch, permits-IsMatch}

abbrev loopback : Bytes
loopback = codes "127.0.0.1"

-- A reader of addresses that knows one address.
abbrev pub parse_loopback : Bytes → Option Bytes
parse_loopback s = if bytes_eq s loopback then some s else none

abbrev site : Bytes
site = codes "AUR.archlinux.org"

loopback_plain : (s : Bytes) → is_some (parse_loopback s) ≡ true → all is_host_byte s ≡ true
unfolding is_label_byte
loopback_plain s h =
    let same : s ≡ loopback = (bytes_eq_iff s loopback).0 (ground arith) in rw same refl

-- A host with one address of its own and one attached subnet.
abbrev pub policy : AddressPolicy
policy = record {
  addresses = (93 ∷ 184 ∷ 216 ∷ 34 ∷ []) ∷ [];
  subnets = network (93 ∷ 184 ∷ 216 ∷ 0 ∷ []) 24 ∷ [];
  permit_all = false;
}

abbrev pub public_ip : Bytes
public_ip = 95 ∷ 216 ∷ 144 ∷ 15 ∷ []

is_public_test : is_public policy public_ip ≡ true
unfolding is_public excluded is_global_unicast is_unspecified is_loopback is_private is_multicast
    is_link_local_unicast is_link_local_multicast equal to4 contains non_public_networks bytes_eq
is_public_test = refl

is_public-IsRoutable_example :
    IsRoutable 95 216 144 15
    × All (λ local. equal local public_ip ≡ false) policy.addresses
    × All (λ subnet. contains subnet public_ip ≡ false) policy.subnets
is_public-IsRoutable_example =
    is_public-IsRoutable 95 216 144 15 (omega arith) (omega arith) (omega arith) (omega arith)
      policy refl is_public_test

-- A reader of URLs for one host, which takes what follows `https://h` as the path.
abbrev origin : Bytes
origin = codes "https://h"

abbrev url_at : Bytes → Url
url_at path = record {
  scheme = codes "https";
  host = codes "h";
  hostname = codes "h";
  port = [];
  path = path;
  raw_query = [];
  fragment = [];
}

abbrev read_url : Option Bytes → Option Url
read_url none = none
read_url (some path) = some (url_at path)

abbrev after : Bytes → Bytes → Option Bytes
after [] s = some s
after (x ∷ p) [] = none
after (x ∷ p) (y ∷ s) = if x == y then after p s else none

abbrev pub parse_url : Bytes → Option Url
parse_url s = read_url (after origin s)

abbrev url_string : Url → Bytes
url_string u = origin ++ u.path

abbrev srcinfo : Bytes
srcinfo =
    codes
      "pkgbase = p\n\tsource = git+https://h/r\n\tsource_x86_64 = n::https://h/a\n\tsource = git+https://h/r\n"

abbrev sources : List DeclaredSource
sources =
    (record { raw = codes "git+https://h/r"; url = codes "https://h/r"; kind = source_vcs })
    ∷ (record { raw = codes "n::https://h/a"; url = codes "https://h/a"; kind = source_exact })
    ∷ []

srcinfo_test : parse_srcinfo_sources parse_url url_string srcinfo ≡ parsed sources
unfolding parse_srcinfo_sources parse_lines next source_value classify_source rename_target
    strip_scheme has_prefix bytes_eq cut trim_space
srcinfo_test = refl

parse_srcinfo_sources-All_example :
    All (IsAccounted sources) (split_at b'\n' srcinfo)
    × Distinct (raws sources)
    × (length sources ≤ max_declared_sources)
parse_srcinfo_sources-All_example =
    parse_srcinfo_sources-All parse_url url_string srcinfo sources srcinfo_test

abbrev pub allowance : Allowance
allowance = record { sources = sources; frozen = true }

abbrev refs_url : Bytes
refs_url = codes "https://h/r/info/refs"

permits-IsMatch_example :
    (allowance.frozen ≡ true)
    × ((request : Url) × (parse_url refs_url ≡ some request)
        × ((source : DeclaredSource) × IsIn source allowance.sources
            × IsMatch parse_url source request))
unfolding permits source_permits same_request under_repository normalize_host bytes_eq has_prefix
permits-IsMatch_example = permits-IsMatch parse_url allowance refs_url refl
