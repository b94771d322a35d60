-- ===== src/Audit/Artifact/Gate.antt =====
-- What the gate lets through, and the digests behind it.
use prolewatch.Prelude.{
  ◌≡◌, refl, sym, ap, ◌∙◌, ◌⊎◌, inl, inr, List, [], ◌∷◌, Bytes, bytes_eq, bytes_eq_iff, Bool-cases,
  IsIn, here, there,
}
use mathlib.Core.Path.{subst}
use prolewatch.Brief.Manifest.{hash_at}
use prolewatch.Audit.Artifact.{
  Gateway, StrippedSurfaces, GateStep, kept, rewritten, blocked, broken, asked, gate_package, Gated,
  passed, stopped, on_step, gate_loop,
}
use prolewatch.Audit.Artifact.Kept.{IsKept, IsRewritten, Passes, gate_package-Passes}

-- The digest that a package is bound to: the one that was checked for a package that is kept, and
-- that of the rewrite otherwise.
abbrev pub IsGated : Gateway → List (Bytes × Bytes) → Bytes → Bytes → Type 0
IsGated g verified p h = (IsKept g p × (h ≡ hash_at verified p)) ⊎ IsRewritten g p h

-- One package more in front of the loop leaves the digests of the others.
gate_step-passed :
    (g : Gateway) (p : Bytes) (ps : List Bytes) (verified final : List (Bytes × Bytes))
    (out rest : List StrippedSurfaces) (r : GateStep)
    → on_step (λ v o. gate_loop g ps v o) p verified out r ≡ passed final rest
    → ((r ≡ kept) × (gate_loop g ps verified out ≡ passed final rest))
      ⊎ ((h : Bytes) × (members : List Bytes) × (out' : List StrippedSurfaces) × (r
            ≡ rewritten h members)
          × (gate_loop g ps ((p, h) ∷ verified) out' ≡ passed final rest))
gate_step-passed g p ps verified final out rest kept e = inl (refl, e)
gate_step-passed g p ps verified final out rest (rewritten h members) e =
    inr (h, members, _, refl, e)
gate_step-passed g p ps verified final out rest blocked e = absurd (cc)
gate_step-passed g p ps verified final out rest broken e = absurd (cc)
gate_step-passed g p ps verified final out rest asked e = absurd (cc)

passed-verified :
    {v final : List (Bytes × Bytes)} {out rest : List StrippedSurfaces}
    → passed v out ≡ passed final rest
    → v ≡ final
passed-verified {v = v} e = ap verified_of e
  where
    verified_of : Gated → List (Bytes × Bytes)
    verified_of (passed x o) = x
    verified_of (stopped s) = v

rewritten-hash : {h h' : Bytes} {m m' : List Bytes} → rewritten h m ≡ rewritten h' m' → h ≡ h'
rewritten-hash {h = h} e = ap hash_of e
  where
    hash_of : GateStep → Bytes
    hash_of (rewritten x o) = x
    hash_of s = h

hash_at_self : (p h : Bytes) (v : List (Bytes × Bytes)) → hash_at ((p, h) ∷ v) p ≡ h
hash_at_self p h v = rw ((bytes_eq_iff p p).1 refl) refl

-- Every rewrite of a package gives the digest that is there.
abbrev IsFixed : Gateway → List (Bytes × Bytes) → Bytes → Type 0
IsFixed g verified p =
    (h : Bytes) (members : List Bytes)
    → gate_package g p ≡ rewritten h members
    → hash_at verified p ≡ h

gate_loop-fixed :
    (g : Gateway) (ps : List Bytes) (verified final : List (Bytes × Bytes))
    (out rest : List StrippedSurfaces) (p : Bytes)
    → gate_loop g ps verified out ≡ passed final rest
    → IsFixed g verified p
    → hash_at final p ≡ hash_at verified p
unfolding gate_loop
gate_loop-fixed g [] verified final out rest p e fixed =
    ap (λ x. hash_at x p) (sym (passed-verified e))
gate_loop-fixed g (q ∷ ps) verified final out rest p e fixed =
    elim (gate_step-passed g q ps verified final out rest (gate_package g q) e) [
      | inl (_, more) ↦ gate_loop-fixed g ps verified final out rest p more fixed
      | inr (h, members, out', step, more) ↦
          let same : hash_at ((q, h) ∷ verified) p ≡ hash_at verified p =
            elim (Bool-cases (bytes_eq q p)) [
              | inr other ↦ rw other refl
              | inl this ↦
                  let e' = ap (gate_package g) (sym ((bytes_eq_iff q p).0 this)) ∙ step in
                  rw this (sym (fixed h members e'))
            ] in
          gate_loop-fixed g ps ((q, h) ∷ verified) final out' rest p more
            (λ h' m' s. same ∙ fixed h' m' s)
          ∙ same
    ]

gate_loop-rewritten :
    (g : Gateway) (ps : List Bytes) (verified final : List (Bytes × Bytes))
    (out rest : List StrippedSurfaces) (p h : Bytes) (members : List Bytes)
    → gate_loop g ps verified out ≡ passed final rest
    → IsIn p ps
    → gate_package g p ≡ rewritten h members
    → hash_at final p ≡ h
unfolding gate_loop
gate_loop-rewritten g [] verified final out rest p h members e i s = elim i [ ]
gate_loop-rewritten g (q ∷ ps) verified final out rest p h members e i s =
    elim (gate_step-passed g q ps verified final out rest (gate_package g q) e) [
      | inl (k, more) ↦ elim i [
        | here same ↦ absurd (clash (sym s ∙ ap (gate_package g) same ∙ k))
        | there j ↦ gate_loop-rewritten g ps verified final out rest p h members more j s
      ]
      | inr (h', members', out', step, more) ↦ elim i [
        | here same ↦
            let e' : h ≡ h' = rewritten-hash (sym s ∙ ap (gate_package g) same ∙ step) in
            let now : hash_at ((q, h') ∷ verified) p ≡ h =
              ap (hash_at ((q, h') ∷ verified)) same ∙ hash_at_self q h' verified ∙ sym e' in
            gate_loop-fixed g ps ((q, h') ∷ verified) final out' rest p more
              (λ x m t. now ∙ rewritten-hash (sym s ∙ t))
            ∙ now
        | there j ↦
            gate_loop-rewritten g ps ((q, h') ∷ verified) final out' rest p h members more j s
      ]
    ]
  where
    clash : rewritten h members ≡ kept → ⊥
    clash c = cc

-- The gate let through each package that it has passed.
gate_loop-passes :
    (g : Gateway) (ps : List Bytes) (verified final : List (Bytes × Bytes))
    (out rest : List StrippedSurfaces) (p : Bytes)
    → gate_loop g ps verified out ≡ passed final rest
    → IsIn p ps
    → (gate_package g p ≡ kept)
      ⊎ ((h : Bytes) × (members : List Bytes) × (gate_package g p ≡ rewritten h members))
unfolding gate_loop
gate_loop-passes g [] verified final out rest p e i = elim i [ ]
gate_loop-passes g (q ∷ ps) verified final out rest p e i =
    elim (gate_step-passed g q ps verified final out rest (gate_package g q) e) [
      | inl (k, more) ↦ elim i [
        | here same ↦ inl (ap (gate_package g) same ∙ k)
        | there j ↦ gate_loop-passes g ps verified final out rest p more j
      ]
      | inr (h, members, out', step, more) ↦ elim i [
        | here same ↦ inr (h, members, ap (gate_package g) same ∙ step)
        | there j ↦ gate_loop-passes g ps ((q, h) ∷ verified) final out' rest p more j
      ]
    ]

pub gate_loop-IsGated :
    (g : Gateway) (ps : List Bytes) (verified final : List (Bytes × Bytes))
    (out rest : List StrippedSurfaces) (p : Bytes)
    → gate_loop g ps verified out ≡ passed final rest
    → IsIn p ps
    → IsGated g verified p (hash_at final p)
gate_loop-IsGated g ps verified final out rest p e i =
    elim (gate_loop-passes g ps verified final out rest p e i) [
      | inl k ↦ inl (
        subst (Passes g p) k (gate_package-Passes g p),
        gate_loop-fixed g ps verified final out rest p e (λ h m s. absurd (clash (sym k ∙ s))),
      )
      | inr (h, members, s) ↦ inr (
          subst (IsRewritten g p)
            (sym (gate_loop-rewritten g ps verified final out rest p h members e i s))
            (subst (Passes g p) s (gate_package-Passes g p)))
    ]
  where
    clash : {h : Bytes} {m : List Bytes} → kept ≡ rewritten h m → ⊥
    clash c = cc
