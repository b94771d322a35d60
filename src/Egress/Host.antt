-- ===== src/Egress/Host.antt =====
-- internal/egress/host.go: the boundary check on a host that the sandbox asks for.
pub mod Charset
pub mod Lower
use prolewatch.Prelude.{
  ℕ, ◌-◌, Bool, true, false, not, ◌&&◌, ◌||◌, List, [], ◌∷◌, Option, none, some, leb, ltb, ◌==◌,
  if◌then◌else◌, length, all, Bytes, split_at, last_is, first_is, init, drop, trim_last,
}

abbrev pub http_port : ℕ
http_port = 80

abbrev pub https_port : ℕ
https_port = 443

abbrev pub max_tcp_port : ℕ
max_tcp_port = 65535

abbrev pub max_hostname_bytes : ℕ
max_hostname_bytes = 253

abbrev pub max_dns_label_bytes : ℕ
max_dns_label_bytes = 63

abbrev is_alnum : ℕ → Bool
is_alnum c = (leb b'a' c && leb c b'z') || (leb b'A' c && leb c b'Z') || (leb b'0' c && leb c b'9')

-- The bytes of a label.
unfoldable pub is_label_byte : ℕ → Bool
is_label_byte c = is_alnum c || c == b'-' || c == b'_'

unfoldable pub valid_label : Bytes → Bool
valid_label l =
    not (length l == 0)
    && leb (length l) max_dns_label_bytes
    && not (first_is b'-' l)
    && not (last_is b'-' l)
    && all is_label_byte l

abbrev pub is_some {ℓ} : {A : Type ℓ} → Option A → Bool
is_some none = false
is_some (some _) = true

-- `parse_ip` is net.ParseIP.
module _ {Address : Type 0} (parse_ip : Bytes → Option Address) where
  unfoldable pub valid_request_host : Bytes → Bool
  unfolding valid_label
  valid_request_host host =
      if length host == 0 || ltb max_hostname_bytes (length host)
      then false
      else if first_is b'[' host && last_is b']' host
      then is_some (parse_ip (init (drop 1 host)))
      else if is_some (parse_ip host)
      then true
      else all valid_label (split_at b'.' (trim_last b'.' host))
