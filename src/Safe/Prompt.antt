-- ===== src/Safe/Prompt.antt =====
-- internal/safe/safe.go: ReadChoice and ReadChoiceOrLine. What poll and read give, round by round, is
-- the list of events; a loop that wants more of them waits. The terminal modes and the echo are
-- left out.
pub mod Choice
pub mod Line
use prolewatch.Prelude.{
  ℕ, Bool, true, false, not, ◌&&◌, ◌||◌, List, [], ◌∷◌, ◌++◌, ltb, leb, ◌==◌, if◌then◌else◌, length,
  any, all, Bytes, lower, init, is_empty,
}

-- `expired` and `poll_failed` come from a poll, which is made only under a timeout.
pub data Event : Type 0 where
  key : ℕ → Event
  interrupted : Event
  expired : Event
  poll_failed : Event
  read_failed : Event
  end_of_input : Event

pub data ReadError : Type 0 where
  invalid timed_out failed eof : ReadError

pub data Read {ℓ} (A : Type ℓ) : Type ℓ where
  got : A → Read A
  error : ReadError → Read A
  waiting : Read A

-- What a round of a loop does: it ends the loop, or goes on with a new state.
pub data Round {ℓ κ} (S : Type ℓ) (A : Type κ) : Type (ℓ ⊔ κ) where
  done : Read A → Round S A
  go_on : S → Round S A

abbrev pub contains : Bytes → ℕ → Bool
contains s c = any (λ d. d == c) s

abbrev is_letter : ℕ → Bool
is_letter c = leb b'a' c && leb c b'z'

abbrev pub is_enter : ℕ → Bool
is_enter c = c == b'\r' || c == b'\n'

-- The part of a round that both loops share: everything but a key.
abbrev pub on_key {ℓ κ} : {S : Type ℓ} {A : Type κ} → Bool → S → (ℕ → Round S A) → Event → Round S A
on_key timeout s f (key k) = f k
on_key timeout s f interrupted = go_on s
on_key timeout s f expired = if timeout then done (error timed_out) else go_on s
on_key timeout s f poll_failed = if timeout then done (error failed) else go_on s
on_key timeout s f read_failed = done (error failed)
on_key timeout s f end_of_input = done (error eof)

unfoldable pub valid_choices : Bytes → ℕ → Bool
valid_choices choices default_choice =
    is_letter default_choice && contains choices default_choice && all is_letter choices

unfoldable pub choice_key : Bytes → ℕ → ℕ → Round (Unit {0}) ℕ
choice_key choices default_choice k =
    if contains choices (lower k)
    then done (got (lower k))
    else if is_enter k
    then done (got default_choice)
    else go_on tt

unfoldable pub choice_loop : Bool → Bytes → ℕ → List Event → Read ℕ
choice_loop timeout choices default_choice [] = waiting
choice_loop timeout choices default_choice (e ∷ es) =
    elim (on_key timeout tt (choice_key choices default_choice) e) [
      | done r ↦ r
      | go_on _ ↦ choice_loop timeout choices default_choice es
    ]

-- PromptTerminal.ReadChoice, on a terminal that is not nil and takes its modes.
unfoldable pub read_choice : Bool → Bytes → ℕ → List Event → Read ℕ
read_choice timeout choices default_choice es =
    if valid_choices choices default_choice
    then choice_loop timeout choices default_choice es
    else error invalid

-- PromptTerminal.ReadYesNo: the answer, and whether there is an error.
unfoldable pub read_yes_no : Bool → List Event → Read Bool
unfolding read_choice
read_yes_no timeout es = elim (read_choice timeout (b'y' ∷ b'n' ∷ []) b'n' es) [
  | got c ↦ got (c == b'y')
  | error e ↦ error e
  | waiting ↦ waiting
]

unfoldable pub valid_line_choices : Bytes → ℕ → Bytes → ℕ → Bool
valid_line_choices immediate default_choice line_chars max_bytes =
    not (max_bytes == 0)
    && valid_choices immediate default_choice
    && all (λ c. leb 0x20 c && leb c 0x7e && not (contains immediate c)) line_chars

-- One key; `answer` is the line so far.
unfoldable pub line_key : Bytes → ℕ → Bytes → ℕ → Bytes → ℕ → Round Bytes Bytes
line_key immediate default_choice line_chars max_bytes answer k =
    if is_empty answer && contains immediate (lower k)
    then done (got (lower k ∷ []))
    else if is_enter k
    then done (got (if is_empty answer then default_choice ∷ [] else answer))
    else if k == 0x7f || k == 8
    then go_on (init answer)
    else if contains line_chars k && ltb (length answer) max_bytes
    then go_on (answer ++ (k ∷ []))
    else go_on answer

unfoldable pub line_loop : Bool → Bytes → ℕ → Bytes → ℕ → Bytes → List Event → Read Bytes
line_loop timeout immediate default_choice line_chars max_bytes answer [] = waiting
line_loop timeout immediate default_choice line_chars max_bytes answer (e ∷ es) =
    elim (on_key timeout answer (line_key immediate default_choice line_chars max_bytes answer) e) [
      | done r ↦ r
      | go_on more ↦ line_loop timeout immediate default_choice line_chars max_bytes more es
    ]

-- PromptTerminal.ReadChoiceOrLine.
unfoldable pub read_choice_or_line : Bool → Bytes → ℕ → Bytes → ℕ → List Event → Read Bytes
read_choice_or_line timeout immediate default_choice line_chars max_bytes es =
    if valid_line_choices immediate default_choice line_chars max_bytes
    then line_loop timeout immediate default_choice line_chars max_bytes [] es
    else error invalid
