-- ===== src/Audit/Invocation/Arguments.antt =====
-- The arguments that split_config keeps.
use prolewatch.Prelude.{
  ◌≡◌, ap, ◌∙◌, ◌⊎◌, inl, inr, Bool, true, List, [], ◌∷◌, Bytes, arith, Bool-cases, IsIn, here,
  there,
}
use mathlib.Core.Path.{subst}
use prolewatch.Audit.Invocation.{Split, split, refused, cons_arg, is_config, split_config}

-- An argument is kept, or is the configuration option or its value.
abbrev pub IsSorted : (Bytes → Bool) → List Bytes → Bytes → Type 0
IsSorted valid remaining a = IsIn a remaining ⊎ ((is_config a ≡ true) ⊎ (valid a ≡ true))

pub weaken :
    (valid : Bytes → Bool) (x a : Bytes) (rest : List Bytes)
    → IsSorted valid rest a
    → IsSorted valid (x ∷ rest) a
weaken valid x a rest (inl i) = inl (there i)
weaken valid x a rest (inr other) = inr other

cons_arg-split :
    (a : Bytes) (s : Split) (remaining : List Bytes) (path : Bytes)
    → cons_arg a s ≡ split remaining path
    → (rest : List Bytes) × (s ≡ split rest path) × ((a ∷ rest) ≡ remaining)
cons_arg-split a (refused e) remaining path h = absurd (cc)
cons_arg-split a (split rest p) remaining path h =
    (rest, ap (split rest) (ap path_of h), ap rest_of h)
  where
    path_of : Split → Bytes
    path_of (split r q) = q
    path_of (refused e) = p

    rest_of : Split → List Bytes
    rest_of (split r q) = r
    rest_of (refused e) = rest

split-remaining : {r s : List Bytes} {p q : Bytes} → split r p ≡ split s q → r ≡ s
split-remaining {r} h = ap rest_of h
  where
    rest_of : Split → List Bytes
    rest_of (split x y) = x
    rest_of (refused e) = r

pub split_config-IsSorted :
    (valid : Bytes → Bool) (path : Bytes) (args remaining : List Bytes) (last a : Bytes)
    → split_config valid path args ≡ split remaining last
    → IsIn a args
    → IsSorted valid remaining a
unfolding split_config
split_config-IsSorted valid path [] remaining last a h i = elim i [ ]
split_config-IsSorted valid path (x ∷ []) remaining last a h i = elim (Bool-cases (is_config x)) [
  | inl config ↦ absurd (ground arith)
  | inr plain ↦ inl (subst (IsIn a) (split-remaining (rw plain at h)) i)
]
split_config-IsSorted valid path (x ∷ v ∷ rest) remaining last a h i =
    elim (Bool-cases (is_config x)) [
      | inl config ↦ elim (Bool-cases (valid v)) [
        | inr bad ↦ absurd (ground arith)
        | inl good ↦
            behind config good i
              (split_config-IsSorted valid v rest remaining last a (rw (config, good) at h))
      ]
      | inr plain ↦
          let (more, e, joined) =
            cons_arg-split x (split_config valid path (v ∷ rest)) remaining last (rw plain at h) in
          subst (λ r. IsSorted valid r a) joined
            (next more i (split_config-IsSorted valid path (v ∷ rest) more last a e))
    ]
  where
    behind :
        is_config x ≡ true
        → valid v ≡ true
        → IsIn a (x ∷ v ∷ rest)
        → (IsIn a rest → IsSorted valid remaining a)
        → IsSorted valid remaining a
    behind config good (here e) f = inr (inl (ap is_config e ∙ config))
    behind config good (there (here e)) f = inr (inr (ap valid e ∙ good))
    behind config good (there (there j)) f = f j

    next :
        (more : List Bytes)
        → IsIn a (x ∷ v ∷ rest)
        → (IsIn a (v ∷ rest) → IsSorted valid more a)
        → IsSorted valid (x ∷ more) a
    next more (here e) f = inl (here e)
    next more (there j) f = weaken valid x a more (f j)
