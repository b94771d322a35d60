-- ===== src/Ui/Gate.antt =====
-- internal/ui/gate_prompt.go: OrderSurfacesForDisplay, ParseGateChoice, promptGateTerminal and
-- PromptGate. What the user types in an attempt comes from outside; the text on the screen is left
-- out.
pub mod Numbered
pub mod Answered
use prolewatch.Prelude.{
  ℕ, zero, suc, ◌-◌, Bool, true, false, not, ◌&&◌, ◌||◌, List, [], ◌∷◌, ◌++◌, map, Option, none,
  some, ◌==◌, leb, if◌then◌else◌, length, any, Bytes, codes, is_member, to_lower, trim_space,
  split_at, atoi, ℤ, pos, negsuc,
}
use prolewatch.Safe.Prompt.{
  Event, ReadError, Read, got, error, waiting, timed_out, eof, read_choice_or_line,
}
use prolewatch.Brief.Surfaces.Registry.{requires_decision}
use prolewatch.Brief.Surfaces.{PrivilegedSurface, requiring_decision}

pub record GateDecision : Type 0 where
  pub strip : List Bytes
  pub cancel : Bool

abbrev pub keep_all : GateDecision
keep_all = record { strip = []; cancel = false }

abbrev pub cancelled : GateDecision
cancelled = record { strip = []; cancel = true }

abbrev pub strips : List Bytes → GateDecision
strips members = record { strip = members; cancel = false }

unfoldable pub merely_listed : List PrivilegedSurface → List PrivilegedSurface
merely_listed [] = []
merely_listed (s ∷ ss) =
    let rest = merely_listed ss in if requires_decision s.activation then rest else s ∷ rest

-- OrderSurfacesForDisplay: what needs an answer stands first.
unfoldable pub order_surfaces : List PrivilegedSurface → List PrivilegedSurface
unfolding merely_listed
order_surfaces ss = requiring_decision ss ++ merely_listed ss

-- The surface with a number that is shown.
unfoldable pub surface_at : ℕ → List PrivilegedSurface → Option PrivilegedSurface
surface_at n [] = none
surface_at zero (s ∷ ss) = some s
surface_at (suc n) (s ∷ ss) = surface_at n ss

abbrev pub is_seen : ℕ → List ℕ → Bool
is_seen n seen = any (λ m. m == n) seen

-- A number in the list, as the position of its surface: it is shown, and stands there once.
unfoldable pub position : Option ℤ → List ℕ → List PrivilegedSurface → Option (ℕ × Bytes)
position (some (pos (suc n))) seen ss =
    if is_seen n seen
    then none
    else elim (surface_at n ss) [ none ↦ none | some s ↦ some (n, PrivilegedSurface.member s) ]
position _ seen ss = none

abbrev pub prepended : Bytes → Option (List Bytes) → Option (List Bytes)
prepended m none = none
prepended m (some ms) = some (m ∷ ms)

-- The loop over the fields of a comma list.
unfoldable pub numbered : List ℕ → List PrivilegedSurface → List Bytes → Option (List Bytes)
unfolding position
numbered seen ss [] = some []
numbered seen ss (field ∷ fields) = elim (position (atoi (trim_space field)) seen ss) [
  | none ↦ none
  | some (n, member) ↦ prepended member (numbered (n ∷ seen) ss fields)
]

abbrev keep_words : List Bytes
keep_words = [] ∷ codes "k" ∷ codes "keep" ∷ []

abbrev cancel_words : List Bytes
cancel_words = codes "c" ∷ codes "cancel" ∷ codes "q" ∷ []

abbrev strip_words : List Bytes
strip_words = codes "s" ∷ codes "strip" ∷ codes "strip all" ∷ []

-- The numbers; a list that names nothing is no answer.
abbrev pub chosen : Option (List Bytes) → Option GateDecision
chosen (some (m ∷ ms)) = some (strips (m ∷ ms))
chosen _ = none

-- ParseGateChoice; `none` is an answer that is not recognised.
unfoldable pub parse_gate_choice : Bytes → List PrivilegedSurface → Option GateDecision
parse_gate_choice text ss =
    let answer = to_lower (trim_space text) in
    if is_member answer keep_words
    then some keep_all
    else if is_member answer cancel_words
    then some cancelled
    else if is_member answer strip_words
    then some (strips (map PrivilegedSurface.member ss))
    else chosen (numbered [] ss (split_at b',' answer))

pub data GateError : Type 0 where
  timeout no_decision failed no_terminal : GateError

pub data Answer : Type 0 where
  decided : GateDecision → Answer
  refused : GateError → Answer
  asking : Answer

-- What an attempt reads.
unfoldable pub read_answer : List Event → Read Bytes
read_answer = read_choice_or_line true (codes "ksc") b'k' (codes "0123456789, ") 4096

abbrev pub error_of : ReadError → GateError
error_of timed_out = timeout
error_of eof = no_decision
error_of _ = failed

abbrev pub or_again : Option GateDecision → Answer → Answer
or_again none rest = rest
or_again (some d) rest = decided d

-- An answer that is not recognised is asked for again.
abbrev pub on_read : List PrivilegedSurface → Read Bytes → Answer → Answer
on_read ss waiting rest = asking
on_read ss (error e) rest = refused (error_of e)
on_read ss (got answer) rest = or_again (parse_gate_choice answer ss) rest

-- promptGateTerminal: the loop over what is typed in each attempt.
unfoldable pub gate_attempts : ℕ → List PrivilegedSurface → List (List Event) → Answer
unfolding read_answer
gate_attempts zero ss attempts = refused no_decision
gate_attempts (suc n) ss [] = asking
gate_attempts (suc n) ss (events ∷ attempts) =
    let rest = gate_attempts n ss attempts in on_read ss (read_answer events) rest

-- PromptGate, with whether there is a terminal. One order serves what is shown and what is numbered.
unfoldable pub prompt_gate : Bool → List PrivilegedSurface → List (List Event) → Answer
unfolding gate_attempts order_surfaces
prompt_gate terminal [] attempts = decided keep_all
prompt_gate terminal (s ∷ ss) attempts =
    if terminal then gate_attempts 5 (order_surfaces (s ∷ ss)) attempts else refused no_terminal
