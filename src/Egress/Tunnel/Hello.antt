-- ===== src/Egress/Tunnel/Hello.antt =====
-- internal/egress/broker.go: clientHelloServerName. Each round of a loop takes bytes off its cursor
-- or returns, so that one round more than there are bytes is enough; `out_of_fuel` marks a loop that
-- has not ended by then.
use prolewatch.Prelude.{
  ℕ, zero, suc, Bool, false, not, [], ◌∷◌, Option, none, some, ◌==◌, if◌then◌else◌, length, Bytes,
}
use prolewatch.Egress.Tunnel.Cursor.{
  Cursor, start, take_bytes, take_u8, take_u16, take_u8_bytes, take_u16_bytes,
}

pub data Named : Type 0 where
  name : Bytes → Named
  truncated not_hello no_name out_of_fuel : Named

-- What a slice that `take` returned holds: nil has no bytes.
abbrev pub or_empty : Option Bytes → Bytes
or_empty none = []
or_empty (some s) = s

-- The loop over the entries of one server_name list; `no_name` means that it holds no host name.
unfoldable pub names_loop : ℕ → Cursor → Named
unfolding take_u8 take_u16_bytes
names_loop zero c = out_of_fuel
names_loop (suc fuel) c =
    let (name_type, at_length) = take_u8 c in
    let (value, after) = take_u16_bytes at_length in
    let rest = names_loop fuel after in
    if length c.rest == 0
    then no_name
    else if after.failed
    then truncated
    else if name_type == 0
    then name (or_empty value)
    else rest

-- The server_name extension: the length of the list is skipped, and the list read to its end.
unfoldable pub server_names : Bytes → Named
unfolding names_loop take_bytes
server_names payload = names_loop (suc (length payload)) (take_bytes 2 (start payload)).1

-- The loop over the extensions.
unfoldable pub extensions_loop : ℕ → Cursor → Named
unfolding take_u16 take_u16_bytes
extensions_loop zero c = out_of_fuel
extensions_loop (suc fuel) c =
    let (kind, at_length) = take_u16 c in
    let (payload, after) = take_u16_bytes at_length in
    let rest = extensions_loop fuel after in
    if length c.rest == 0
    then no_name
    else if after.failed
    then truncated
    else if not (kind == 0)
    then rest
    else elim (server_names (or_empty payload)) [ no_name ↦ rest | other ↦ other ]

-- The fields in front of the extensions, up to the cursor behind the extension block.
unfoldable pub skip_to_extensions : Cursor → Option Bytes × Cursor
unfolding take_bytes take_u8_bytes take_u16_bytes
skip_to_extensions c =
    let version = (take_bytes 2 c).1 in
    let random = (take_bytes 32 version).1 in
    let session_id = (take_u8_bytes random).1 in
    let cipher_suites = (take_u16_bytes session_id).1 in
    let compression = (take_u8_bytes cipher_suites).1 in take_u16_bytes compression

abbrev pub is_client_hello : Option Bytes → Bool
is_client_hello none = false
is_client_hello (some []) = false
is_client_hello (some (x ∷ s)) = x == 1

unfoldable pub client_hello_server_name : Bytes → Named
client_hello_server_name body =
    let (handshake, c) = take_bytes 4 (start body) in
    let (extensions, after) = skip_to_extensions c in
    if not (is_client_hello handshake)
    then not_hello
    else if after.failed
    then truncated
    else extensions_loop (suc (length (or_empty extensions))) (start (or_empty extensions))
