-- ===== src/Audit/Artifact/Steps.antt =====
-- internal/audit/build.go: the gate of auditAndBind. What its container and the user give for a
-- package is a function of its path.
use prolewatch.Prelude.{
  Bool, not, List, [], ◌∷◌, ◌++◌, Option, none, some, if◌then◌else◌, Bytes, bytes_eq,
}
use prolewatch.Brief.Surfaces.{PrivilegedSurface, requiring_decision}
use prolewatch.Egress.Acquire.{path_base}
use prolewatch.Ui.Gate.{GateDecision, Answer, decided, refused, asking, prompt_gate}
use prolewatch.Safe.Prompt.{Event}

pub record StrippedSurfaces : Type 0 where
  pub package_name : Bytes
  pub members : List Bytes
  pub sha256 : Bytes

-- brief.FilterResult.
pub record FilterResult : Type 0 where
  pub stripped : List Bytes
  pub sha256 : Bytes

-- The gate's view of a package: the surfaces, what is typed at its prompt, the scratch path, the
-- rewrite, its move into place and the digest after that.
pub record Gateway : Type 0 where
  pub terminal : Bool
  pub enumerate : Bytes → Option (List PrivilegedSurface)
  pub attempts : Bytes → List (List Event)
  pub target_ok : Bytes → Bool
  pub filter : Bytes → List Bytes → Option FilterResult
  pub rename_ok : Bytes → Bool
  pub hash_after : Bytes → Option Bytes

pub data GateStep : Type 0 where
  kept : GateStep
  rewritten : Bytes → List Bytes → GateStep
  blocked : GateStep
  broken : GateStep
  asked : GateStep

-- The way of a package behind a rewrite.
unfoldable pub put_in_place : Gateway → Bytes → FilterResult → GateStep
put_in_place g p r = if not (g.rename_ok p) then broken else elim (g.hash_after p) [
  | none ↦ broken
  | some h ↦ if bytes_eq h r.sha256 then rewritten h r.stripped else broken
]

unfoldable pub follow : Gateway → Bytes → GateDecision → GateStep
unfolding put_in_place
follow g p d = if d.cancel then blocked else elim d.strip [
  | [] ↦ kept
  | m ∷ ms ↦
      if not (g.target_ok p)
      then broken
      else elim (g.filter p (m ∷ ms)) [ none ↦ broken | some r ↦ put_in_place g p r ]
]

abbrev pub on_answer : Gateway → Bytes → Answer → GateStep
on_answer g p asking = asked
on_answer g p (refused e) = blocked
on_answer g p (decided d) = follow g p d

-- A package is asked about if something in it needs a decision.
abbrev pub on_required :
    Gateway → Bytes → List PrivilegedSurface → List PrivilegedSurface → GateStep
on_required g p ss [] = kept
on_required g p ss (t ∷ ts) = on_answer g p (prompt_gate g.terminal ss (g.attempts p))

abbrev pub on_listing : Gateway → Bytes → Option (List PrivilegedSurface) → GateStep
on_listing g p none = broken
on_listing g p (some ss) = on_required g p ss (requiring_decision ss)

-- The gate for one package.
unfoldable pub gate_package : Gateway → Bytes → GateStep
unfolding follow
gate_package g p = on_listing g p (g.enumerate p)

-- The loop of the gate over the digests that are verified so far.
pub data Gated : Type 0 where
  passed : List (Bytes × Bytes) → List StrippedSurfaces → Gated
  stopped : GateStep → Gated

abbrev pub on_step :
    (List (Bytes × Bytes) → List StrippedSurfaces → Gated)
    → Bytes
    → List (Bytes × Bytes)
    → List StrippedSurfaces
    → GateStep
    → Gated
on_step loop p verified out kept = loop verified out
on_step loop p verified out (rewritten h members) =
    loop ((p, h) ∷ verified)
      (out ++ (record { package_name = path_base p; members = members; sha256 = h } ∷ []))
on_step loop p verified out other = stopped other

unfoldable pub gate_loop :
    Gateway → List Bytes → List (Bytes × Bytes) → List StrippedSurfaces → Gated
unfolding gate_package
gate_loop g [] verified out = passed verified out
gate_loop g (p ∷ ps) verified out =
    on_step (λ v o. gate_loop g ps v o) p verified out (gate_package g p)
