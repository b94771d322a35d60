-- ===== src/Safe/Prompt/Line.antt =====
-- What a line answer can be.
use prolewatch.Prelude.{
  ℕ, suc, ◌≤◌, ◌<◌, ◌≡◌, refl, ◌⊎◌, inl, inr, Bool, true, false, ◌&&◌, ◌||◌, List, [], ◌∷◌, ◌++◌,
  ltb, ◌==◌, if◌then◌else◌, length, all, Bytes, lower, init, is_empty, arith, Bool-cases,
  length-append,
}
use mathlib.Core.Path.{subst}
use prolewatch.Safe.Prompt.{
  Event, key, interrupted, expired, poll_failed, read_failed, end_of_input, ReadError, Read, got,
  error, waiting, Round, done, go_on, contains, is_enter, on_key, valid_choices, valid_line_choices,
  line_key, line_loop, read_choice_or_line,
}

length-init : (s : Bytes) → length (init s) ≤ length s
length-init [] = omega arith
length-init (x ∷ []) = omega arith
length-init (x ∷ y ∷ s) = omega (arith, length-init (y ∷ s))

all-init : (p : ℕ → Bool) (s : Bytes) → all p s ≡ true → all p (init s) ≡ true
all-init p [] h = h
all-init p (x ∷ []) h = refl
all-init p (x ∷ y ∷ s) h = ground (arith, all-init p (y ∷ s))

all_snoc :
    (p : ℕ → Bool) (s : Bytes) (k : ℕ) → all p s ≡ true → p k ≡ true → all p (s ++ k ∷ []) ≡ true
all_snoc p [] k h g = ground arith
all_snoc p (x ∷ s) k h g = ground (arith, all_snoc p s k)

length_snoc : (s : Bytes) (k : ℕ) → length (s ++ k ∷ []) ≡ suc (length s)
length_snoc s k = omega (arith, length-append s (k ∷ []))

module _ (immediate : Bytes) (default_choice : ℕ) (line_chars : Bytes) (max_bytes : ℕ) where
  -- A line that is being typed.
  record IsPart (s : Bytes) : Type 0 where
    fits : length s ≤ max_bytes
    plain : all (contains line_chars) s ≡ true

  -- An answer: one letter of the menu, or a line of the allowed bytes.
  abbrev pub IsAnswer : Bytes → Type 0
  IsAnswer s =
      ((c : ℕ) × (s ≡ c ∷ []) × (contains immediate c ≡ true))
      ⊎ ((0 < length s) × (length s ≤ max_bytes) × (all (contains line_chars) s ≡ true))

  abbrev IsRound : Round Bytes Bytes → Type 0
  IsRound (done (got s)) = IsAnswer s
  IsRound (done (error e)) = Unit
  IsRound (done waiting) = Unit
  IsRound (go_on s) = IsPart s

  entered :
      (s : Bytes)
      → contains immediate default_choice ≡ true
      → IsPart s
      → IsAnswer (if is_empty s then default_choice ∷ [] else s)
  entered [] d p = inl (default_choice, refl, d)
  entered (x ∷ s) d p = inr (omega arith, p.fits, p.plain)

  line_key-IsRound :
      (s : Bytes) (k : ℕ)
      → contains immediate default_choice ≡ true
      → IsPart s
      → IsRound (line_key immediate default_choice line_chars max_bytes s k)
  unfolding line_key
  line_key-IsRound s k d p = elim (Bool-cases (is_empty s && contains immediate (lower k))) [
    | inl menu ↦ rw menu (inl (lower k, refl, ground arith))
    | inr other ↦ rw other (elim (Bool-cases (is_enter k)) [
      | inl enter ↦ rw enter (entered s d p)
      | inr typed ↦ rw typed (elim (Bool-cases (k == 0x7f || k == 8)) [
        | inl back ↦ rw back (record {
          fits = omega (arith, length-init s, p.fits);
          plain = all-init (contains line_chars) s p.plain;
        })
        | inr forward ↦
            rw forward (elim (Bool-cases (contains line_chars k && ltb (length s) max_bytes)) [
              | inl room ↦ rw room (record {
                fits = ground (arith, length_snoc s k);
                plain = all_snoc (contains line_chars) s k p.plain (ground arith);
              })
              | inr full ↦ rw full p
            ])
      ])
    ])
  ]

  unanswered :
      (timeout : Bool) {s : Bytes} (e : ReadError)
      → IsPart s
      → IsRound (if timeout then done (error e) else go_on s)
  unanswered true e p = tt
  unanswered false e p = p

  on_key-IsRound :
      (timeout : Bool) (s : Bytes) (e : Event)
      → contains immediate default_choice ≡ true
      → IsPart s
      → IsRound (on_key timeout s (line_key immediate default_choice line_chars max_bytes s) e)
  on_key-IsRound timeout s (key k) d p = line_key-IsRound s k d p
  on_key-IsRound timeout s interrupted d p = p
  on_key-IsRound timeout s expired d p = unanswered timeout ReadError.timed_out p
  on_key-IsRound timeout s poll_failed d p = unanswered timeout ReadError.failed p
  on_key-IsRound timeout s read_failed d p = tt
  on_key-IsRound timeout s end_of_input d p = tt

  abbrev IsResult : Read Bytes → Type 0
  IsResult r = IsRound (done r)

  line_loop-IsResult :
      (timeout : Bool) (s : Bytes) (es : List Event)
      → contains immediate default_choice ≡ true
      → IsPart s
      → IsResult (line_loop timeout immediate default_choice line_chars max_bytes s es)
  unfolding line_loop
  line_loop-IsResult timeout s [] d p = tt
  line_loop-IsResult timeout s (e ∷ es) d p =
      after _ (on_key-IsRound timeout s e d p) (λ t. line_loop-IsResult timeout t es d)
    where
      after :
          (r : Round Bytes Bytes)
          → IsRound r
          → ((t : Bytes)
              → IsPart t
              → IsResult (line_loop timeout immediate default_choice line_chars max_bytes t es))
          → IsResult (elim r [
            | done x ↦ x
            | go_on t ↦ line_loop timeout immediate default_choice line_chars max_bytes t es
          ])
      after (done x) i g = i
      after (go_on t) i g = g t i

  default_in_menu :
      valid_line_choices immediate default_choice line_chars max_bytes ≡ true
      → contains immediate default_choice ≡ true
  unfolding valid_line_choices valid_choices
  default_in_menu v = ground arith

  -- An answer that ReadChoiceOrLine gives is one letter of the menu, or a line that is not empty,
  -- has at most the given number of bytes and holds allowed bytes only.
  pub read_choice_or_line-IsAnswer :
      (timeout : Bool) (s : Bytes) (es : List Event)
      → read_choice_or_line timeout immediate default_choice line_chars max_bytes es ≡ got s
      → IsAnswer s
  unfolding read_choice_or_line
  read_choice_or_line-IsAnswer timeout s es h =
      elim (Bool-cases (valid_line_choices immediate default_choice line_chars max_bytes)) [
        | inl valid ↦ back h (
            rw valid (
              line_loop-IsResult timeout [] es (default_in_menu valid)
                (record { fits = omega arith; plain = refl })))
        | inr invalid ↦ absurd (ground arith)
      ]
    where
      back : {r : Read Bytes} → r ≡ got s → IsResult r → IsAnswer s
      back e i = subst IsResult e i
