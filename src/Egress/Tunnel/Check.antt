-- ===== src/Egress/Tunnel/Check.antt =====
-- internal/egress/broker.go: splitHostPortDefault, httpRequestHost, tunnelRequestedHost and
-- checkTunnelHost. The client is the list of bytes that it sends; texts are compared by their ASCII
-- letters, and the functions of package net are parameters.
use prolewatch.Prelude.{
  ℕ, zero, suc, ◌+◌, ◌*◌, ◌≡◌, Bool, true, false, not, ◌&&◌, ◌||◌, [], ◌∷◌, ◌++◌, Option, none,
  some, ltb, ◌==◌, arith, refl, if◌then◌else◌, length, take, drop, take-append-drop, Bytes,
  bytes_eq, any, trim, trim_right, trim_last, trim_space, cut, to_lower, codes, Bool-cases, inl,
  inr, ◌⊎◌,
}
use prolewatch.Egress.Host.{valid_request_host, max_hostname_bytes, http_port, https_port}
use prolewatch.Egress.Tunnel.Hello.{
  Named, name, truncated, not_hello, no_name, out_of_fuel, client_hello_server_name,
}

-- net.ParseIP, net.SplitHostPort and strconv.Atoi: `none` is nil or an error. A negative number is
-- no port, so that Atoi's error stands for it too.
pub record Net : Type 1 where
  pub Address : Type 0
  pub parse_ip : Bytes → Option Address
  pub split_host_port : Bytes → Option (Bytes × Bytes)
  pub atoi : Bytes → Option ℕ

pub data TunnelError : Type 0 where
  closed_early bad_record truncated_hello bad_hello no_host bad_host_header : TunnelError
  invalid_name other_destination : TunnelError

pub data Requested : Type 0 where
  host_of : Bytes → Requested
  error : TunnelError → Requested

abbrev pub is_bracket : ℕ → Bool
is_bracket c = c == b'[' || c == b']'

abbrev is_line_end : ℕ → Bool
is_line_end c = c == b'\r' || c == b'\n'

-- strings.EqualFold on ASCII texts.
abbrev pub equal_fold : Bytes → Bytes → Bool
equal_fold a b = bytes_eq (to_lower a) (to_lower b)

-- The reader has at most 16 KiB and a record header to find the name in.
abbrev pub tunnel_host_limit : ℕ
tunnel_host_limit = 16389

abbrev pub http_head_limit : ℕ
http_head_limit = 8192

-- The stream behind the check: the bytes that the check has read, and those still unread.
pub record Stream : Type 0 where
  pub seen : Bytes
  pub unread : Bytes

pub data Checked : Type 0 where
  forward : Stream → Checked
  reject : TunnelError → Checked

abbrev of_named : Named → Requested
of_named (name host) = host_of host
of_named truncated = error truncated_hello
of_named not_hello = error bad_hello
of_named no_name = error no_host
of_named out_of_fuel = error no_host

-- `int(binary.BigEndian.Uint16(header[3:5]))`.
abbrev record_length : Bytes → ℕ
record_length (a ∷ b ∷ c ∷ hi ∷ lo ∷ s) = hi * 256 + lo
record_length _ = 0

abbrev starts_record : Bytes → Bool
starts_record [] = false
starts_record (x ∷ s) = x == 0x16

module _ (net : Net) where
  open net use {Address, parse_ip, split_host_port, atoi}

  abbrev pub is_address : Bytes → Bool
  is_address s = elim (parse_ip s) [ none ↦ false | some _ ↦ true ]

  abbrev has_colon : Bytes → Bool
  has_colon = any (λ c. c == b':')

  -- The host and port before the last test of splitHostPortDefault; `none` is an early error.
  split_or_default : Bytes → ℕ → Option (Bytes × ℕ)
  split_or_default value fallback = elim (split_host_port value) [
    | some (host, port) ↦ elim (atoi port) [ none ↦ none | some n ↦ some (host, n) ]
    | none ↦ if has_colon value && not (is_address value) then none else some (value, fallback)
  ]

  unfoldable pub split_host_port_default : Bytes → ℕ → Option (Bytes × ℕ)
  unfolding split_or_default
  split_host_port_default value fallback = elim (split_or_default value fallback) [
    | none ↦ none
    | some (host, port) ↦
        if length host == 0
          || ltb max_hostname_bytes (length host)
          || (not (port == http_port) && not (port == https_port))
        then none
        else some (trim is_bracket host, port)
  ]

  -- One header line: `none` is no Host header, and the loop goes on.
  unfoldable pub host_header : Bytes → Option Requested
  unfolding split_host_port_default
  host_header line = elim (cut b':' line) [
    | none ↦ none
    | some (field, value) ↦
        if equal_fold (trim_space field) (codes "host")
        then elim (split_host_port_default (trim_space value) http_port) [
          | none ↦ some (error bad_host_header)
          | some (host, _) ↦ some (host_of host)
        ]
        else none
  ]

  -- The loop over the lines of the head; a last piece with no line feed is the end of the input.
  unfoldable pub header_lines : ℕ → Bytes → Requested
  unfolding host_header
  header_lines zero head = error no_host
  header_lines (suc fuel) head = elim (cut b'\n' head) [
    | none ↦ error no_host
    | some (line, rest) ↦
        let later = header_lines fuel rest in
        let trimmed = trim_right is_line_end line in
        if length trimmed == 0
        then error no_host
        else elim (host_header trimmed) [ some r ↦ r | none ↦ later ]
  ]

  unfoldable pub http_request_host : Bytes → Requested
  unfolding header_lines
  http_request_host input =
      let head = take http_head_limit input in
      elim (cut b'\n' head) [
        | none ↦ error closed_early
        | some (request_line, rest) ↦ header_lines (suc (length rest)) rest
      ]

  -- tunnelRequestedHost on what the limit lets through.
  unfoldable pub tunnel_requested_host : Bytes → Requested
  unfolding http_request_host
  tunnel_requested_host input =
      let size = record_length input in
      if ltb (length input) 5
      then error closed_early
      else if not (starts_record input)
      then http_request_host input
      else if ltb size 4 || ltb 16384 size
      then error bad_record
      else if ltb (length (drop 5 input)) size
      then error truncated_hello
      else of_named (client_hello_server_name (take size (drop 5 input)))

  -- `consumed` is how many bytes the check has read when it has found the name: it depends on how
  -- the buffered reader fills its buffer.
  unfoldable pub check_tunnel_host : ℕ → Bytes → Bytes → Checked
  unfolding tunnel_requested_host
  check_tunnel_host consumed host client =
      if is_address (trim is_bracket host)
      then forward (record { seen = []; unread = client })
      else elim (tunnel_requested_host (take tunnel_host_limit client)) [
        | error e ↦ reject e
        | host_of requested ↦
            if not (valid_request_host parse_ip requested)
            then reject invalid_name
            else if not (equal_fold (trim_last b'.' requested) (trim_last b'.' host))
            then reject other_destination
            else forward (record { seen = take consumed client; unread = drop consumed client })
      ]

  -- What a tunnel that is let through has shown.
  pub record IsBound (host client : Bytes) : Type 0 where
    pub requested : Bytes
    pub named : tunnel_requested_host (take tunnel_host_limit client) ≡ host_of requested
    pub valid : valid_request_host parse_ip requested ≡ true
    pub same : equal_fold (trim_last b'.' requested) (trim_last b'.' host) ≡ true

  -- A tunnel that checkTunnelHost lets through was approved for an address, or the client's first
  -- bytes name a valid host that is the approved one up to letter case and one trailing dot. In both
  -- cases the stream that goes on to the destination is the client's, byte for byte.
  pub check_tunnel_host-IsBound :
      (consumed : ℕ) (host client : Bytes) (s : Stream)
      → check_tunnel_host consumed host client ≡ forward s
      → (s.seen ++ s.unread ≡ client)
        × ((is_address (trim is_bracket host) ≡ true) ⊎ IsBound host client)
  unfolding check_tunnel_host
  check_tunnel_host-IsBound consumed host client s h =
      let input = take tunnel_host_limit client in
      elim (Bool-cases (is_address (trim is_bracket host))) [
        | inl address ↦ (ground arith, inl address)
        | inr other ↦ named (tunnel_requested_host input) refl other h
      ]
    where
      named :
          (r : Requested)
          → tunnel_requested_host (take tunnel_host_limit client) ≡ r
          → is_address (trim is_bracket host) ≡ false
          → check_tunnel_host consumed host client ≡ forward s
          → (s.seen ++ s.unread ≡ client)
            × ((is_address (trim is_bracket host) ≡ true) ⊎ IsBound host client)
      named (error e) eq other h = absurd (ground arith)
      named (host_of requested) eq other h = (
        ground (arith, take-append-drop consumed client),
        inr (record {
          requested = requested;
          named = eq;
          valid = ground arith;
          same = ground arith;
        }),
      )
