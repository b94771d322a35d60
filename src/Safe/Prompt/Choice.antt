-- ===== src/Safe/Prompt/Choice.antt =====
-- Which keys a single-key answer comes from.
use prolewatch.Prelude.{
  ℕ, ◌≡◌, refl, ◌↔◌, ◌⊎◌, inl, inr, Bool, true, false, List, [], ◌∷◌, Bytes, lower, arith,
  Bool-cases, IsIn, here, there, ◌≢◌,
}
use prolewatch.Safe.Prompt.{
  Event, key, interrupted, expired, poll_failed, read_failed, end_of_input, got, contains, is_enter,
  valid_choices, choice_key, choice_loop, read_choice,
}

module _ (timeout : Bool) (choices : Bytes) (default_choice : ℕ) where
  -- An event that leaves the question open: an interrupted call, a poll that is not made, or a key
  -- that is neither a choice nor Enter.
  abbrev pub IsIgnored : Event → Type 0
  IsIgnored (key k) = (contains choices (lower k) ≡ false) × (is_enter k ≡ false)
  IsIgnored interrupted = Unit
  IsIgnored expired = timeout ≡ false
  IsIgnored poll_failed = timeout ≡ false
  IsIgnored read_failed = ⊥
  IsIgnored end_of_input = ⊥

  -- A key that gives the answer `c`: its own letter, or Enter for the default.
  abbrev pub Selects : ℕ → ℕ → Type 0
  Selects c k =
      ((contains choices c ≡ true) × (lower k ≡ c))
      ⊎ ((contains choices (lower k) ≡ false) × (is_enter k ≡ true) × (default_choice ≡ c))

  -- The first event that is not ignored is a key for `c`.
  pub data Answers (c : ℕ) : List Event → Type 0 where
    now : {es : List Event} (k : ℕ) → Selects c k → Answers c (key k ∷ es)
    later : {es : List Event} (e : Event) → IsIgnored e → Answers c es → Answers c (e ∷ es)

  choice_loop-Answers :
      (c : ℕ) (es : List Event)
      → choice_loop timeout choices default_choice es ≡ got c
      → Answers c es
  unfolding choice_loop choice_key
  choice_loop-Answers c [] h = absurd (ground arith)
  choice_loop-Answers c (key k ∷ es) h = elim (Bool-cases (contains choices (lower k))) [
    | inl own ↦ now k (inl (ground arith, ground arith))
    | inr other ↦ elim (Bool-cases (is_enter k)) [
      | inl enter ↦ now k (inr (other, enter, ground arith))
      | inr open' ↦ later (key k) (other, open') (choice_loop-Answers c es (ground arith))
    ]
  ]
  choice_loop-Answers c (interrupted ∷ es) h = later interrupted tt (choice_loop-Answers c es h)
  choice_loop-Answers c (expired ∷ es) h = elim (Bool-cases timeout) [
    | inl on ↦ absurd (ground arith)
    | inr off ↦ later expired off (choice_loop-Answers c es (ground arith))
  ]
  choice_loop-Answers c (poll_failed ∷ es) h = elim (Bool-cases timeout) [
    | inl on ↦ absurd (ground arith)
    | inr off ↦ later poll_failed off (choice_loop-Answers c es (ground arith))
  ]
  choice_loop-Answers c (read_failed ∷ es) h = absurd (ground arith)
  choice_loop-Answers c (end_of_input ∷ es) h = absurd (ground arith)

  Answers-choice_loop :
      (c : ℕ) {es : List Event}
      → Answers c es
      → choice_loop timeout choices default_choice es ≡ got c
  unfolding choice_loop choice_key
  Answers-choice_loop c (now k (inl (own, e))) = ground arith
  Answers-choice_loop c (now k (inr (other, enter, e))) = ground arith
  Answers-choice_loop c (later (key k) i a) = ground (arith, Answers-choice_loop c a)
  Answers-choice_loop c (later interrupted i a) = Answers-choice_loop c a
  Answers-choice_loop c (later expired i a) = ground (arith, Answers-choice_loop c a)
  Answers-choice_loop c (later poll_failed i a) = ground (arith, Answers-choice_loop c a)
  Answers-choice_loop c (later read_failed i a) = absurd i
  Answers-choice_loop c (later end_of_input i a) = absurd i

  -- ReadChoice gives a choice exactly if the first event that is not ignored is a key for it: its
  -- own letter in either case, or Enter for the default. No other key is taken for an answer.
  pub read_choice-Answers :
      (c : ℕ) (es : List Event)
      → valid_choices choices default_choice ≡ true
      → (read_choice timeout choices default_choice es ≡ got c) ↔ Answers c es
  unfolding read_choice
  read_choice-Answers c es v =
      (λ h. choice_loop-Answers c es (ground arith), λ a. ground (arith, Answers-choice_loop c a))

  -- An answer that is not the default was typed as its own letter.
  pub Answers-typed :
      (c : ℕ) {es : List Event}
      → default_choice ≢ c
      → Answers c es
      → (k : ℕ) × IsIn (key k) es × (lower k ≡ c)
  Answers-typed c ne (now k (inl (own, e))) = (k, here refl, e)
  Answers-typed c ne (now k (inr (other, enter, e))) = absurd (ne e)
  Answers-typed c ne (later e i a) =
      let (k, is_in, same) = Answers-typed c ne a in (k, there is_in, same)
