-- ===== src/Egress/Tunnel/RoundTrip.antt =====
-- A ClientHello written field by field, and the name that is read back from it.
use prolewatch.Prelude.{
  ℕ, zero, suc, ◌+◌, ◌/◌, ◌%◌, ◌*◌, ◌<◌, ◌≡◌, ◌≢◌, refl, ap, ◌∙◌, List, [], ◌∷◌, ◌++◌, some, length,
  take, drop, Bytes, arith, length-append, All,
}
use prolewatch.Egress.Tunnel.Cursor.{
  start, take_bytes, take_u8, take_u16, take_u8_bytes, take_u16_bytes,
}
use prolewatch.Egress.Tunnel.Hello.{
  name, names_loop, server_names, extensions_loop, skip_to_extensions, client_hello_server_name,
}

abbrev pub put16 : ℕ → Bytes → Bytes
put16 n s = n / 256 ∷ n % 256 ∷ s

-- A vector behind its length in two bytes, and in one.
abbrev pub put16_bytes : Bytes → Bytes → Bytes
put16_bytes a s = put16 (length a) (a ++ s)

abbrev pub put8_bytes : Bytes → Bytes → Bytes
put8_bytes a s = length a ∷ (a ++ s)

pub record Extension : Type 0 where
  pub kind : ℕ
  pub payload : Bytes

unfoldable pub put_extension : Extension → Bytes → Bytes
put_extension e s = put16 e.kind (put16_bytes e.payload s)

unfoldable pub put_extensions : List Extension → Bytes → Bytes
put_extensions [] s = s
put_extensions (e ∷ es) s = put_extension e (put_extensions es s)

-- The server_name extension with one host name.
abbrev pub name_payload : Bytes → Bytes
name_payload host = put16 (length host + 3) (0 ∷ put16_bytes host [])

abbrev pub name_extension : Bytes → Extension
name_extension host = record { kind = 0; payload = name_payload host }

pub record Hello : Type 0 where
  pub size : ℕ × ℕ × ℕ
  pub version : ℕ × ℕ
  pub random : Bytes
  pub session_id : Bytes
  pub cipher_suites : Bytes
  pub compression : Bytes
  pub before : List Extension
  pub host : Bytes
  pub after : List Extension

unfoldable pub extension_block : Hello → Bytes
unfolding put_extensions put_extension
extension_block h =
    put_extensions h.before (put_extension (name_extension h.host) (put_extensions h.after []))

unfoldable pub put_hello : Hello → Bytes
unfolding extension_block
put_hello h =
    1
    ∷ h.size.0
    ∷ h.size.1
    ∷ h.size.2
    ∷ h.version.0
    ∷ h.version.1
    ∷ (h.random
        ++ put8_bytes h.session_id (
            put16_bytes h.cipher_suites
              (put8_bytes h.compression (put16_bytes (extension_block h) []))))

take-append : (a b : Bytes) → take (length a) (a ++ b) ≡ a
take-append [] b = refl
take-append (x ∷ a) b = ap (◌∷◌ x) (take-append a b)

drop-append : (a b : Bytes) → drop (length a) (a ++ b) ≡ b
drop-append [] b = refl
drop-append (x ∷ a) b = drop-append a b

take_bytes-append :
    (a b : Bytes) (n : ℕ) → n ≡ length a → take_bytes n (start (a ++ b)) ≡ (some a, start b)
unfolding take_bytes
take_bytes-append a b n e =
    rw e (ground (arith, take-append a b, drop-append a b, length-append a b))

take_u16-put16 : (n : ℕ) (s : Bytes) → take_u16 (start (put16 n s)) ≡ (n, start s)
unfolding take_u16
take_u16-put16 n s = ground arith

take_u16_bytes-put : (a s : Bytes) → take_u16_bytes (start (put16_bytes a s)) ≡ (some a, start s)
unfolding take_u16_bytes
take_u16_bytes-put a s =
    ground (arith, take_bytes-append a s (length a / 256 * 256 + length a % 256))

take_u8_bytes-put : (a s : Bytes) → take_u8_bytes (start (put8_bytes a s)) ≡ (some a, start s)
unfolding take_u8_bytes take_u8
take_u8_bytes-put a s = ground (arith, take_bytes-append a s (length a) refl)

server_names-name_payload : (host : Bytes) → server_names (name_payload host) ≡ name host
unfolding server_names names_loop take_u8
server_names-name_payload host = ground (arith, take_u16_bytes-put host [])

abbrev pub NotName : Extension → Type 0
NotName e = e.kind ≢ 0

extensions_loop-put :
    (fuel : ℕ) (e : Extension) (s : Bytes)
    → e.kind ≢ 0
    → extensions_loop (suc fuel) (start (put_extension e s)) ≡ extensions_loop fuel (start s)
unfolding extensions_loop put_extension
extensions_loop-put fuel e s h = ground (arith, take_u16_bytes-put e.payload s)

extensions_loop-name :
    (fuel : ℕ) (host s : Bytes)
    → extensions_loop (suc fuel) (start (put_extension (name_extension host) s)) ≡ name host
unfolding extensions_loop put_extension
extensions_loop-name fuel host s =
    ground (arith, take_u16_bytes-put (name_payload host) s, server_names-name_payload host)

length-put_extension : (e : Extension) (s : Bytes) → length s < length (put_extension e s)
unfolding put_extension
length-put_extension e s = omega (arith, length-append e.payload s)

extensions_loop-before :
    (fuel : ℕ) (es : List Extension) (host s : Bytes)
    → All NotName es
    → length (put_extensions es (put_extension (name_extension host) s)) < fuel
    → extensions_loop fuel (start (put_extensions es (put_extension (name_extension host) s)))
      ≡ name host
unfolding put_extensions
extensions_loop-before zero es host s h f = absurd (omega arith)
extensions_loop-before (suc fuel) [] host s h f = extensions_loop-name fuel host s
extensions_loop-before (suc fuel) (e ∷ es) host s h f =
    let rest = put_extensions es (put_extension (name_extension host) s) in
    extensions_loop-put fuel e rest h.0
    ∙ extensions_loop-before fuel es host s h.1 (omega (arith, length-put_extension e rest))

skip_to_extensions-put :
    (v w : ℕ) (random session_id cipher_suites compression extensions : Bytes)
    → length random ≡ 32
    → skip_to_extensions (
        start (
          v
          ∷ w
          ∷ (random
              ++ put8_bytes session_id (
                  put16_bytes cipher_suites (put8_bytes compression (put16_bytes extensions []))))))
      ≡ (some extensions, start [])
unfolding skip_to_extensions
skip_to_extensions-put v w random session_id cipher_suites compression extensions h =
    let d = put16_bytes extensions [] in
    let c = put8_bytes compression d in
    let b = put16_bytes cipher_suites c in
    let a = put8_bytes session_id b in
    ground (
      arith,
      take_bytes-append random a 32,
      take_u8_bytes-put session_id b,
      take_u16_bytes-put cipher_suites c,
      take_u8_bytes-put compression d,
      take_u16_bytes-put extensions [],
    )

-- clientHelloServerName reads the host name out of every ClientHello that is written field by field
-- with a 32-byte random value: whatever the session id, the cipher suites, the compression methods
-- and the extensions around server_name hold, as long as none in front of it is of its kind.
pub client_hello_server_name-put :
    (h : Hello)
    → length h.random ≡ 32
    → All NotName h.before
    → client_hello_server_name (put_hello h) ≡ name h.host
unfolding client_hello_server_name put_hello
client_hello_server_name-put h size others =
    let block = extension_block h in
    let found : extensions_loop (suc (length block)) (start block) ≡ name h.host =
      unfold extension_block in
      extensions_loop-before (suc (length (extension_block h))) h.before h.host
        (put_extensions h.after []) others (omega arith) in
    rw
      (
        take_bytes-append (1 ∷ h.size.0 ∷ h.size.1 ∷ h.size.2 ∷ []) _ 4 refl,
        skip_to_extensions-put h.version.0 h.version.1 h.random h.session_id h.cipher_suites
            h.compression block size,
      )
      found
