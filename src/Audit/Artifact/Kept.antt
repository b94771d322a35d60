-- ===== src/Audit/Artifact/Kept.antt =====
-- What a step of the gate lets through.
use prolewatch.Prelude.{
  ◌≡◌, refl, sym, ◌⊎◌, inl, inr, Bool, true, false, List, [], ◌∷◌, Option, none, some, Bytes,
  bytes_eq, bytes_eq_iff, Bool-cases, Option-cases,
}
use prolewatch.Brief.Surfaces.{PrivilegedSurface, requiring_decision}
use prolewatch.Ui.Gate.{keep_all, strips, Answer, decided, refused, asking, prompt_gate}
use prolewatch.Audit.Artifact.{
  Gateway, FilterResult, GateStep, kept, rewritten, put_in_place, follow, on_answer, on_required,
  on_listing, gate_package,
}

-- The user kept this package as it is, or there was nothing to decide.
abbrev pub IsKept : Gateway → Bytes → Type 0
IsKept g p =
    (ss : List PrivilegedSurface) × (g.enumerate p ≡ some ss)
    × ((requiring_decision ss ≡ []) ⊎ (prompt_gate g.terminal ss (g.attempts p) ≡ decided keep_all))

-- The user asked for members to be stripped, and what stands in place is what the rewrite wrote.
abbrev pub IsRewritten : Gateway → Bytes → Bytes → Type 0
IsRewritten g p h =
    (ss : List PrivilegedSurface) × (m : Bytes) × (ms : List Bytes) × (r : FilterResult)
    × (g.enumerate p ≡ some ss)
    × (prompt_gate g.terminal ss (g.attempts p) ≡ decided (strips (m ∷ ms)))
    × (g.filter p (m ∷ ms) ≡ some r)
    × (r.sha256 ≡ h)
    × (g.hash_after p ≡ some h)

-- What a step lets through.
abbrev pub Passes : Gateway → Bytes → GateStep → Type 0
Passes g p kept = IsKept g p
Passes g p (rewritten h members) = IsRewritten g p h
Passes g p other = Unit

put_in_place-Passes :
    (g : Gateway) (p : Bytes) (ss : List PrivilegedSurface) (m : Bytes) (ms : List Bytes)
    (r : FilterResult)
    → g.enumerate p ≡ some ss
    → prompt_gate g.terminal ss (g.attempts p) ≡ decided (strips (m ∷ ms))
    → g.filter p (m ∷ ms) ≡ some r
    → Passes g p (put_in_place g p r)
unfolding put_in_place
put_in_place-Passes g p ss m ms r e a f = elim (Bool-cases (g.rename_ok p)) [
  | inr unmoved ↦ rw unmoved tt
  | inl moved ↦ elim (Option-cases (g.hash_after p)) [
    | inl unread ↦ rw (moved, unread, put_in_place) tt
    | inr (h, read) ↦ elim (Bool-cases (bytes_eq h r.sha256)) [
      | inr differ ↦ rw (moved, read, differ, put_in_place) tt
      | inl same ↦
          rw (moved, read, same, put_in_place)
            (ss, m, ms, r, e, a, f, sym ((bytes_eq_iff h r.sha256).0 same), read)
    ]
  ]
]

follow-Passes :
    (g : Gateway) (p : Bytes) (ss : List PrivilegedSurface) (strip : List Bytes) (cancel : Bool)
    → g.enumerate p ≡ some ss
    → prompt_gate g.terminal ss (g.attempts p) ≡ decided (record { strip = strip; cancel = cancel })
    → Passes g p (follow g p (record { strip = strip; cancel = cancel }))
unfolding follow
follow-Passes g p ss strip true e a = tt
follow-Passes g p ss [] false e a = (ss, e, inr a)
follow-Passes g p ss (m ∷ ms) false e a = elim (Bool-cases (g.target_ok p)) [
  | inr no_target ↦ rw no_target tt
  | inl target ↦ elim (Option-cases (g.filter p (m ∷ ms))) [
    | inl unwritten ↦ rw (target, unwritten, follow) tt
    | inr (r, f) ↦ rw (target, f, follow) (put_in_place-Passes g p ss m ms r e a f)
  ]
]

on_answer-Passes :
    (g : Gateway) (p : Bytes) (ss : List PrivilegedSurface) (a : Answer)
    → g.enumerate p ≡ some ss
    → prompt_gate g.terminal ss (g.attempts p) ≡ a
    → Passes g p (on_answer g p a)
on_answer-Passes g p ss asking e h = tt
on_answer-Passes g p ss (refused x) e h = tt
on_answer-Passes g p ss (decided d) e h = follow-Passes g p ss d.strip d.cancel e h

on_required-Passes :
    (g : Gateway) (p : Bytes) (ss ts : List PrivilegedSurface)
    → g.enumerate p ≡ some ss
    → requiring_decision ss ≡ ts
    → Passes g p (on_required g p ss ts)
on_required-Passes g p ss [] e h = (ss, e, inl h)
on_required-Passes g p ss (t ∷ ts) e h =
    on_answer-Passes g p ss (prompt_gate g.terminal ss (g.attempts p)) e refl

on_listing-Passes :
    (g : Gateway) (p : Bytes) (o : Option (List PrivilegedSurface))
    → g.enumerate p ≡ o
    → Passes g p (on_listing g p o)
on_listing-Passes g p none e = tt
on_listing-Passes g p (some ss) e = on_required-Passes g p ss (requiring_decision ss) e refl

pub gate_package-Passes : (g : Gateway) (p : Bytes) → Passes g p (gate_package g p)
unfolding gate_package
gate_package-Passes g p = on_listing-Passes g p (g.enumerate p) refl
