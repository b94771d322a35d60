-- ===== src/Ui/Gate/Answered.antt =====
-- Where a decision at the gate comes from.
use prolewatch.Prelude.{
  ℕ, zero, suc, ◌≡◌, refl, sym, ◌∙◌, ◌⊎◌, inl, inr, Bool, true, false, List, [], ◌∷◌, map, Option,
  none, some, take, Bytes, is_member, to_lower, trim_space, split_at, arith, Bool-cases,
  Option-cases, some_injective, IsIn, here, there,
}
use prolewatch.Safe.Prompt.{Event, Read, got, error, waiting}
use prolewatch.Brief.Surfaces.{PrivilegedSurface}
use prolewatch.Ui.Gate.{
  GateDecision, keep_all, cancelled, strips, keep_words, cancel_words, strip_words, chosen,
  numbered, order_surfaces, parse_gate_choice, Answer, decided, or_again, on_read, read_answer,
  gate_attempts, prompt_gate,
}
use prolewatch.Ui.Gate.Numbered.{AreNumbered, numbered-AreNumbered}

-- What an answer stands for.
abbrev pub IsChoice : List PrivilegedSurface → Bytes → GateDecision → Type 0
IsChoice ss answer d =
    ((is_member (to_lower (trim_space answer)) keep_words ≡ true) × (d ≡ keep_all))
    ⊎ ((is_member (to_lower (trim_space answer)) cancel_words ≡ true) × (d ≡ cancelled))
    ⊎ ((is_member (to_lower (trim_space answer)) strip_words ≡ true)
        × (d ≡ strips (map PrivilegedSurface.member ss)))
    ⊎ ((m : Bytes) × (ms : List Bytes) × (d ≡ strips (m ∷ ms))
        × AreNumbered [] ss (split_at b',' (to_lower (trim_space answer))) (m ∷ ms))

chosen-some :
    (o : Option (List Bytes)) (d : GateDecision)
    → chosen o ≡ some d
    → (m : Bytes) × (ms : List Bytes) × (o ≡ some (m ∷ ms)) × (d ≡ strips (m ∷ ms))
chosen-some none d h = absurd (ground arith)
chosen-some (some []) d h = absurd (ground arith)
chosen-some (some (m ∷ ms)) d h = (m, ms, refl, sym (some_injective h))

pub parse_gate_choice-IsChoice :
    (answer : Bytes) (ss : List PrivilegedSurface) (d : GateDecision)
    → parse_gate_choice answer ss ≡ some d
    → IsChoice ss answer d
unfolding parse_gate_choice
parse_gate_choice-IsChoice answer ss d h =
    let word = to_lower (trim_space answer) in
    elim (Bool-cases (is_member word keep_words)) [
      | inl keep ↦ inl (keep, sym (some_injective (rw keep at h)))
      | inr not_keep ↦ elim (Bool-cases (is_member word cancel_words)) [
        | inl cancel ↦ inr (inl (cancel, sym (some_injective (rw (not_keep, cancel) at h))))
        | inr not_cancel ↦ elim (Bool-cases (is_member word strip_words)) [
          | inl all' ↦
              inr (inr (inl (all', sym (some_injective (rw (not_keep, not_cancel, all') at h)))))
          | inr not_all ↦
              let (m, ms, e, f) =
                chosen-some (numbered [] ss (split_at b',' word)) d
                  (rw (not_keep, not_cancel, not_all) at h) in
              inr (inr (inr (m, ms, f, numbered-AreNumbered [] ss (split_at b',' word) (m ∷ ms) e)))
        ]
      ]
    ]

-- One of the first attempts, and what it reads.
abbrev pub IsAnswered : ℕ → List PrivilegedSurface → List (List Event) → GateDecision → Type 0
IsAnswered n ss attempts d =
    (events : List Event) × (answer : Bytes) × IsIn events (take n attempts)
    × (read_answer events ≡ got answer)
    × IsChoice ss answer d

on_read-decided :
    (ss : List PrivilegedSurface) (r : Read Bytes) (rest : Answer) (d : GateDecision)
    → on_read ss r rest ≡ decided d
    → ((answer : Bytes) × (r ≡ got answer) × IsChoice ss answer d) ⊎ (rest ≡ decided d)
on_read-decided ss waiting rest d h = absurd (cc)
on_read-decided ss (error e) rest d h = absurd (cc)
on_read-decided ss (got answer) rest d h = elim (Option-cases (parse_gate_choice answer ss)) [
  | inl none' ↦ inr (rw (none', or_again) at h)
  | inr (c, e) ↦
      let same : decided c ≡ decided d = rw (e, or_again) at h in
      inl (answer, refl, parse_gate_choice-IsChoice answer ss d (e ∙ (cc)))
]

gate_attempts-IsAnswered :
    (n : ℕ) (ss : List PrivilegedSurface) (attempts : List (List Event)) (d : GateDecision)
    → gate_attempts n ss attempts ≡ decided d
    → IsAnswered n ss attempts d
unfolding gate_attempts
gate_attempts-IsAnswered zero ss attempts d h = absurd (cc)
gate_attempts-IsAnswered (suc n) ss [] d h = absurd (cc)
gate_attempts-IsAnswered (suc n) ss (events ∷ attempts) d h =
    elim (on_read-decided ss (read_answer events) (gate_attempts n ss attempts) d h) [
      | inl (answer, e, c) ↦ (events, answer, here refl, e, c)
      | inr later ↦
          let (es, answer, i, e, c) = gate_attempts-IsAnswered n ss attempts d later in
          (es, answer, there i, e, c)
    ]

-- A decision of PromptGate about surfaces comes from an answer in one of the first five attempts at a
-- terminal: it keeps all, cancels or strips all by one of the words for that, or strips the members
-- at distinct positions of the order in which they are shown, by their numbers. There is a decision
-- without an answer only where there is no surface.
pub prompt_gate-IsAnswered :
    (terminal : Bool) (ss : List PrivilegedSurface) (attempts : List (List Event))
    (d : GateDecision)
    → prompt_gate terminal ss attempts ≡ decided d
    → ((ss ≡ []) × (d ≡ keep_all))
      ⊎ ((terminal ≡ true) × IsAnswered 5 (order_surfaces ss) attempts d)
unfolding prompt_gate
prompt_gate-IsAnswered terminal [] attempts d h = inl (refl, (cc))
prompt_gate-IsAnswered false (s ∷ ss) attempts d h = absurd (cc)
prompt_gate-IsAnswered true (s ∷ ss) attempts d h =
    inr (refl, gate_attempts-IsAnswered 5 (order_surfaces (s ∷ ss)) attempts d h)
