-- ===== src/Egress/Tunnel/Fuel.antt =====
-- The loops of clientHelloServerName end: each round takes bytes off its cursor.
use prolewatch.Prelude.{
  ℕ, zero, suc, ◌+◌, ◌≤◌, ◌<◌, ◌≡◌, ◌≢◌, false, length, Bytes, arith, length-drop,
}
use prolewatch.Egress.Tunnel.Cursor.{Cursor, start, take_bytes, take_u8, take_u16, take_u16_bytes}
use prolewatch.Egress.Tunnel.Hello.{
  out_of_fuel, or_empty, names_loop, server_names, extensions_loop, skip_to_extensions,
  client_hello_server_name,
}

take_bytes-length :
    (n : ℕ) (c : Cursor)
    → (take_bytes n c).1.failed ≡ false
    → (c.failed ≡ false) × (length (take_bytes n c).1.rest + n ≡ length c.rest)
unfolding take_bytes
take_bytes-length n c h = ground (arith, length-drop n c.rest)

take_u8-length :
    (c : Cursor)
    → (take_u8 c).1.failed ≡ false
    → (c.failed ≡ false) × (length (take_u8 c).1.rest + 1 ≡ length c.rest)
unfolding take_u8
take_u8-length c h = take_bytes-length 1 c h

take_u16-length :
    (c : Cursor)
    → (take_u16 c).1.failed ≡ false
    → (c.failed ≡ false) × (length (take_u16 c).1.rest + 2 ≡ length c.rest)
unfolding take_u16
take_u16-length c h = take_bytes-length 2 c h

take_u16_bytes-length :
    (c : Cursor)
    → (take_u16_bytes c).1.failed ≡ false
    → (c.failed ≡ false) × (length (take_u16_bytes c).1.rest + 2 ≤ length c.rest)
unfolding take_u16_bytes
take_u16_bytes-length c h =
    let whole = take_bytes-length (take_u16 c).0 (take_u16 c).1 h in
    let head = take_u16-length c whole.0 in (head.0, omega (arith, whole.1, head.1))

names_loop-ends : (fuel : ℕ) (c : Cursor) → length c.rest < fuel → names_loop fuel c ≢ out_of_fuel
unfolding names_loop
names_loop-ends zero c h = absurd (omega arith)
names_loop-ends (suc fuel) c h =
    let at_length = (take_u8 c).1 in
    let after = (take_u16_bytes at_length).1 in
    ground (arith, take_u8-length c, take_u16_bytes-length at_length, names_loop-ends fuel after)

server_names-ends : (payload : Bytes) → server_names payload ≢ out_of_fuel
unfolding server_names take_bytes
server_names-ends payload =
    names_loop-ends (suc (length payload)) (take_bytes 2 (start payload)).1
      (ground (arith, length-drop 2 payload))

extensions_loop-ends :
    (fuel : ℕ) (c : Cursor) → length c.rest < fuel → extensions_loop fuel c ≢ out_of_fuel
unfolding extensions_loop
extensions_loop-ends zero c h = absurd (omega arith)
extensions_loop-ends (suc fuel) c h =
    let at_length = (take_u16 c).1 in
    let taken = take_u16_bytes at_length in
    ground (
      arith,
      take_u16-length c,
      take_u16_bytes-length at_length,
      server_names-ends (or_empty taken.0),
      extensions_loop-ends fuel taken.1,
    )

-- Reading the server name ends with a name or an error on every input: no handshake bytes that the
-- sandbox sends make either loop run longer than the bytes that it reads.
pub client_hello_server_name-ends : (body : Bytes) → client_hello_server_name body ≢ out_of_fuel
unfolding client_hello_server_name
client_hello_server_name-ends body =
    let c = (take_bytes 4 (start body)).1 in
    let found = or_empty (skip_to_extensions c).0 in
    ground (arith, extensions_loop-ends (suc (length found)) (start found))
