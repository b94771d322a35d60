-- ===== src/Audit/Confirm/Answered.antt =====
-- What a confirmation in the terminal rests on.
use prolewatch.Prelude.{
  ℕ, ◌≡◌, ◌≢◌, refl, ◌⊎◌, inl, inr, true, false, ◌&&◌, List, [], ◌∷◌, none, some, Bytes, bytes_eq,
  bytes_eq_iff, codes, to_lower, lower, trim_space, arith, Bool-cases, IsIn, here, there,
}
use prolewatch.Safe.Prompt.{key, Read, got, error, waiting, valid_choices}
use prolewatch.Safe.Prompt.Choice.{read_choice-Answers, Answers-typed}
use prolewatch.Audit.Types.{Report, ReviewConfig, block}
use prolewatch.Audit.Confirm.{
  classify_inline_decision, Previews, Input, typed, line, Round, menu, line_choice, choice_of, Turn,
  act, answered, again, asking, turn, confirm_loop, confirm_inline_decision_input,
}

-- The user says yes: the letter y typed at the terminal, or a line that reads y or yes.
abbrev pub IsYes : Input → Type 0
IsYes (typed es) = (k : ℕ) × IsIn (key k) es × (lower k ≡ b'y')
IsYes (line text) =
    (to_lower (trim_space text) ≡ codes "y") ⊎ (to_lower (trim_space text) ≡ codes "yes")

valid_menu : (p : Previews) → valid_choices (menu p) b'n' ≡ true
unfolding valid_choices
valid_menu p = ground arith

line_choice-yes :
    (text : Bytes)
    → line_choice text ≡ b'y'
    → (to_lower (trim_space text) ≡ codes "y") ⊎ (to_lower (trim_space text) ≡ codes "yes")
unfolding line_choice
line_choice-yes text h =
    let answer = to_lower (trim_space text) in
    elim (Bool-cases (bytes_eq answer (codes "y"))) [
      | inl y ↦ inl ((bytes_eq_iff answer (codes "y")).0 y)
      | inr n ↦ elim (Bool-cases (bytes_eq answer (codes "yes"))) [
        | inl yes' ↦ inr ((bytes_eq_iff answer (codes "yes")).0 yes')
        | inr no' ↦ absurd (ground arith)
      ]
    ]

got_injective : {a b : ℕ} → got a ≡ got b → a ≡ b
got_injective e = ground arith

choice_of-IsYes : (p : Previews) (i : Input) → choice_of p i ≡ got b'y' → IsYes i
unfolding choice_of
choice_of-IsYes p (typed es) h =
    Answers-typed false (menu p) b'n' b'y' (ground arith)
      ((read_choice-Answers false (menu p) b'n' b'y' es (valid_menu p)).0 h)
choice_of-IsYes p (line text) h = line_choice-yes text (got_injective h)

act-yes : (p : Previews) (r : Round) (x : Read ℕ) → act p r x ≡ answered true → x ≡ got b'y'
act-yes p r waiting h = absurd (ground arith)
act-yes p r (error e) h = absurd (ground arith)
act-yes p r (got c) h = ground arith

turn-IsYes : (p : Previews) (r : Round) → turn p r ≡ answered true → IsYes r.input
unfolding turn
turn-IsYes p r h = choice_of-IsYes p r.input (act-yes p r (choice_of p r.input) h)

confirm_loop-IsYes :
    (p : Previews) (rs : List Round)
    → confirm_loop p rs ≡ some true
    → (r : Round) × IsIn r rs × IsYes r.input
unfolding confirm_loop
confirm_loop-IsYes p [] h = absurd (ground arith)
confirm_loop-IsYes p (r ∷ rs) h = split (turn p r) refl h (λ q. confirm_loop-IsYes q rs)
  where
    split :
        (t : Turn)
        → turn p r ≡ t
        → (elim t [ answered b ↦ some b | again q ↦ confirm_loop q rs | asking ↦ none ]) ≡ some true
        → ((q : Previews) → confirm_loop q rs ≡ some true → (s : Round) × IsIn s rs × IsYes s.input)
        → (s : Round) × IsIn s (r ∷ rs) × IsYes s.input
    split (answered true) e g f = (r, here refl, turn-IsYes p r e)
    split (answered false) e g f = absurd (ground arith)
    split (again q) e g f = let (s, is_in, yes_is) = f q g in (s, there is_in, yes_is)
    split asking e g f = absurd (ground arith)

-- What the modes ask of a report.
classify-eligible :
    (cfg : ReviewConfig) (r : Report)
    → (classify_inline_decision cfg (some r) ≡ [])
      ⊎ ((r.decision ≡ block) × (r.approval_eligible ≡ true))
unfolding classify_inline_decision
classify-eligible cfg r = elim (Bool-cases (bytes_eq r.decision block && r.approval_eligible)) [
  | inl both ↦ inr ((bytes_eq_iff r.decision block).0 (ground arith), ground arith)
  | inr lack ↦ inl (ground arith)
]

no_mode : (p : Previews) (rs : List Round) → confirm_inline_decision_input [] p rs ≢ some true
unfolding confirm_inline_decision_input bytes_eq
no_mode p rs h = ground arith

-- If the mode that classifyInlineDecision gives for a report is confirmed in the terminal, the
-- report blocks and is eligible for approval, and in some round the user typed the letter y or
-- answered with the line y or yes.
pub confirm_inline_decision_input-IsYes :
    (cfg : ReviewConfig) (r : Report) (p : Previews) (rs : List Round)
    → confirm_inline_decision_input (classify_inline_decision cfg (some r)) p rs ≡ some true
    → (r.decision ≡ block)
      × (r.approval_eligible ≡ true)
      × ((s : Round) × IsIn s rs × IsYes s.input)
unfolding confirm_inline_decision_input
confirm_inline_decision_input-IsYes cfg r p rs h = elim (classify-eligible cfg r) [
  | inl none' ↦ absurd (no_mode p rs (rw none' at h))
  | inr (blocks, eligible) ↦
      (blocks, eligible, confirm_loop-IsYes p rs (asked (classify_inline_decision cfg (some r)) h))
]
  where
    asked :
        (mode : Bytes)
        → confirm_inline_decision_input mode p rs ≡ some true
        → confirm_loop p rs ≡ some true
    asked mode g = ground arith
