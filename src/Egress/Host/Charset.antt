-- ===== src/Egress/Host/Charset.antt =====
-- What an accepted host may contain: ValidRequestHost is the boundary in front of the prompt.
use prolewatch.Prelude.{
  ℕ, ◌≤◌, ◌<◌, ◌≡◌, refl, Bool, true, ◌&&◌, ◌||◌, List, [], ◌∷◌, Option, arith, ◌==◌, if◌then◌else◌,
  length, all, Bytes, split_at, cons_head, last_is, init, trim_last,
}
use prolewatch.Egress.Host.{
  is_label_byte, valid_label, valid_request_host, is_some, max_hostname_bytes,
}

-- The bytes that a host can be shown with: letters, digits and `- _ . : [ ]`.
abbrev pub is_host_byte : ℕ → Bool
is_host_byte c = is_label_byte c || c == b'.' || c == b':' || c == b'[' || c == b']'

all_host_of_label : (l : Bytes) → all is_label_byte l ≡ true → all is_host_byte l ≡ true
all_host_of_label [] h = refl
all_host_of_label (x ∷ l) h = ground (arith, all_host_of_label l)

-- A text whose pieces between dots pass a test on each byte passes it on every byte but the dots.
all-split_at :
    (s : Bytes) → all (all is_host_byte) (split_at b'.' s) ≡ true → all is_host_byte s ≡ true
all-split_at [] h = refl
all-split_at (x ∷ s) h = join (split_at b'.' s) (all-split_at s) h
  where
    join :
        (ws : List Bytes)
        → (all (all is_host_byte) ws ≡ true → all is_host_byte s ≡ true)
        → all (all is_host_byte) (if x == b'.' then [] ∷ ws else cons_head x ws) ≡ true
        → (is_host_byte x && all is_host_byte s) ≡ true
    join [] ih g = ground (arith, ih)
    join (w ∷ ws) ih g = ground (arith, ih)

all-valid_label : (ws : List Bytes) → all valid_label ws ≡ true → all (all is_host_byte) ws ≡ true
unfolding valid_label
all-valid_label [] h = refl
all-valid_label (w ∷ ws) h = ground (arith, all-valid_label ws, all_host_of_label w)

all-trim_last : (s : Bytes) → all is_host_byte (trim_last b'.' s) ≡ true → all is_host_byte s ≡ true
all-trim_last [] h = refl
all-trim_last (x ∷ []) h = ground arith
all-trim_last (x ∷ y ∷ s) h = ground (arith, all-trim_last (y ∷ s))

all-init :
    (s : Bytes)
    → last_is b']' s ≡ true
    → all is_host_byte (init s) ≡ true
    → all is_host_byte s ≡ true
all-init [] h g = refl
all-init (x ∷ []) h g = ground arith
all-init (x ∷ y ∷ s) h g = ground (arith, all-init (y ∷ s))

module _ {Address : Type 0} (parse_ip : Bytes → Option Address) where
  -- A host that ValidRequestHost accepts is not empty, has at most 253 bytes, and every byte of it
  -- is a letter, a digit or one of `- _ . : [ ]`, provided that what net.ParseIP reads as an address
  -- is written with these bytes.
  pub valid_request_host-IsPlain :
      ((s : Bytes) → is_some (parse_ip s) ≡ true → all is_host_byte s ≡ true)
      → (host : Bytes) → valid_request_host parse_ip host ≡ true
      → (0 < length host) × (length host ≤ max_hostname_bytes) × (all is_host_byte host ≡ true)
  unfolding valid_request_host
  valid_request_host-IsPlain plain [] h = ground arith
  valid_request_host-IsPlain plain (x ∷ s) h =
      let host : Bytes = x ∷ s in
      let labels = split_at b'.' (trim_last b'.' host) in
      ground (
        arith,
        plain host,
        plain (init s),
        all-init s,
        all-trim_last host,
        all-split_at (trim_last b'.' host),
        all-valid_label labels,
      )
