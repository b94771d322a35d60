-- ===== src/Egress/Host/Lower.antt =====
-- Lower-casing a host, as the broker does before it asks, keeps it a host: the prompt agent, which
-- checks the host again, refuses no request that the broker let through.
use prolewatch.Prelude.{
  ℕ, suc, ◌≡◌, refl, ap, ◌⊎◌, inl, inr, List, [], ◌∷◌, map, Option, arith, ◌==◌, length, all, Bytes,
  split_at, lower, to_lower, cons_head, last_is, first_is, init, drop, trim_last,
}
use prolewatch.Egress.Host.{is_label_byte, valid_label, valid_request_host, is_some}

is_label_byte-lower : (c : ℕ) → is_label_byte (lower c) ≡ is_label_byte c
unfolding is_label_byte
is_label_byte-lower c = ground arith

-- No byte becomes, or stops being, one of the marks that the check looks for.
abbrev IsMark : ℕ → Type 0
IsMark m = (m ≡ b'.') ⊎ ((m ≡ b'-') ⊎ ((m ≡ b'[') ⊎ (m ≡ b']')))

lower_mark : (c m : ℕ) → IsMark m → (lower c == m) ≡ (c == m)
lower_mark c m h = ground arith

length-to_lower : (s : Bytes) → length (to_lower s) ≡ length s
length-to_lower [] = refl
length-to_lower (x ∷ s) = ap suc (length-to_lower s)

all-to_lower : (s : Bytes) → all is_label_byte (to_lower s) ≡ all is_label_byte s
all-to_lower [] = refl
all-to_lower (x ∷ s) = ground (arith, is_label_byte-lower x, all-to_lower s)

first_is-to_lower : (m : ℕ) (s : Bytes) → IsMark m → first_is m (to_lower s) ≡ first_is m s
first_is-to_lower m [] h = refl
first_is-to_lower m (x ∷ s) h = lower_mark x m h

last_is-to_lower : (m : ℕ) (s : Bytes) → IsMark m → last_is m (to_lower s) ≡ last_is m s
last_is-to_lower m [] h = refl
last_is-to_lower m (x ∷ []) h = lower_mark x m h
last_is-to_lower m (x ∷ y ∷ s) h = last_is-to_lower m (y ∷ s) h

pub trim_last-to_lower : (s : Bytes) → trim_last b'.' (to_lower s) ≡ to_lower (trim_last b'.' s)
trim_last-to_lower [] = refl
trim_last-to_lower (x ∷ []) = ground (arith, lower_mark x b'.' (inl refl))
trim_last-to_lower (x ∷ y ∷ s) = ap (◌∷◌ (lower x)) (trim_last-to_lower (y ∷ s))

init-to_lower : (s : Bytes) → init (to_lower s) ≡ to_lower (init s)
init-to_lower [] = refl
init-to_lower (x ∷ []) = refl
init-to_lower (x ∷ y ∷ s) = ap (◌∷◌ (lower x)) (init-to_lower (y ∷ s))

drop-to_lower : (s : Bytes) → drop 1 (to_lower s) ≡ to_lower (drop 1 s)
drop-to_lower [] = refl
drop-to_lower (x ∷ s) = refl

cons_head-to_lower :
    (x : ℕ) (ws : List Bytes)
    → cons_head (lower x) (map to_lower ws) ≡ map to_lower (cons_head x ws)
cons_head-to_lower x [] = refl
cons_head-to_lower x (w ∷ ws) = refl

split_at-to_lower : (s : Bytes) → split_at b'.' (to_lower s) ≡ map to_lower (split_at b'.' s)
split_at-to_lower [] = refl
split_at-to_lower (x ∷ s) = ground (
  arith,
  lower_mark x b'.' (inl refl),
  split_at-to_lower s,
  cons_head-to_lower x (split_at b'.' s),
)

valid_label-to_lower : (l : Bytes) → valid_label (to_lower l) ≡ valid_label l
unfolding valid_label
valid_label-to_lower l = rw (
  length-to_lower l,
  first_is-to_lower b'-' l (inr (inl refl)),
  last_is-to_lower b'-' l (inr (inl refl)),
  all-to_lower l,
)

all-valid_label-to_lower :
    (ws : List Bytes) → all valid_label (map to_lower ws) ≡ all valid_label ws
all-valid_label-to_lower [] = refl
all-valid_label-to_lower (w ∷ ws) =
    ground (arith, valid_label-to_lower w, all-valid_label-to_lower ws)

module _ {Address : Type 0} (parse_ip : Bytes → Option Address) where
  -- ValidRequestHost gives one verdict on a host and on its lower-case form, provided that
  -- net.ParseIP reads an address in a text exactly if it reads one in the lower-case text.
  pub valid_request_host-to_lower :
      ((s : Bytes) → is_some (parse_ip (to_lower s)) ≡ is_some (parse_ip s))
      → (host : Bytes)
      → valid_request_host parse_ip (to_lower host) ≡ valid_request_host parse_ip host
  unfolding valid_request_host
  valid_request_host-to_lower same host = rw (
    length-to_lower host,
    first_is-to_lower b'[' host (inr (inr (inl refl))),
    last_is-to_lower b']' host (inr (inr (inr refl))),
    same host,
    drop-to_lower host,
    init-to_lower (drop 1 host),
    same (init (drop 1 host)),
    trim_last-to_lower host,
    split_at-to_lower (trim_last b'.' host),
    all-valid_label-to_lower (split_at b'.' (trim_last b'.' host)),
  )
