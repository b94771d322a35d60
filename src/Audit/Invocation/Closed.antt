-- ===== src/Audit/Invocation/Closed.antt =====
-- The commands that the wrapper takes.
use prolewatch.Prelude.{
  ◌≡◌, refl, sym, ap, ◌⊎◌, inl, inr, true, false, not, ◌&&◌, List, [], ◌∷◌, Option, none, some, any,
  Bytes, bytes_eq, codes, is_member, arith, Bool-cases, IsIn,
}
use mathlib.Core.Path.{subst}
use prolewatch.Audit.Invocation.{
  Profile, info, printsrcinfo, verify, prepare, packagelist, build, skip, Invocation, FileSystem,
  prohibited_makepkg, is_allowed, valid_makepkg_config, Split, split, refused, split_config,
  profile_of, Classified, accepted, rejected, is_info, classify_as, classify_split,
  classify_invocation, contained_makepkg_args,
}
use prolewatch.Audit.Invocation.Arguments.{IsSorted, split_config-IsSorted}
use prolewatch.Audit.Invocation.Harmless.{IsHarmless, none_of, contained-IsHarmless}

-- The key check is skipped in source verification only.
skips_keys : (p : Profile) → is_allowed p (codes "--skippgpcheck") ≡ true → p ≡ verify
unfolding bytes_eq
skips_keys verify h = refl
skips_keys info h = absurd (cc)
skips_keys printsrcinfo h = absurd (cc)
skips_keys prepare h = absurd (cc)
skips_keys packagelist h = absurd (cc)
skips_keys build h = absurd (cc)
skips_keys skip h = absurd (cc)

-- What a command that is taken as a life-cycle stage consists of.
abbrev pub IsStage : FileSystem → List Bytes → Invocation → Type 0
IsStage fs args i =
    (remaining : List Bytes) × (split_config (valid_makepkg_config fs) [] args
      ≡ split remaining i.config_path)
    × (profile_of remaining ≡ some i.profile)
    × ((a : Bytes) → IsIn a remaining → is_allowed i.profile a ≡ true)
    × ((a : Bytes) → IsIn a args → IsSorted (valid_makepkg_config fs) remaining a)
    × (IsIn (codes "--skippgpcheck") remaining → i.profile ≡ verify)

-- What is taken besides the information requests.
abbrev pub IsTaken : FileSystem → List Bytes → Invocation → Type 0
IsTaken fs args i =
    ((i.profile ≡ info) × (is_info args ≡ true) × (contained_makepkg_args i ≡ args))
    ⊎ (IsStage fs args i × IsHarmless (contained_makepkg_args i))

accepted-invocation : {i j : Invocation} → accepted i ≡ accepted j → i ≡ j
accepted-invocation {i} h = ap invocation_of h
  where
    invocation_of : Classified → Invocation
    invocation_of (accepted k) = k
    invocation_of (rejected e) = i

classify_as-IsStage :
    (fs : FileSystem) (args remaining : List Bytes) (path : Bytes) (o : Option Profile)
    (i : Invocation)
    → split_config (valid_makepkg_config fs) [] args ≡ split remaining path
    → profile_of remaining ≡ o
    → classify_as args remaining path o ≡ accepted i
    → (i.args ≡ args) × IsStage fs args i
classify_as-IsStage fs args remaining path none i s p h = absurd (cc)
classify_as-IsStage fs args remaining path (some q) i s p h =
    elim (Bool-cases (any (λ a. not (is_allowed q a)) remaining)) [
      | inl unknown ↦ absurd (ground arith)
      | inr known ↦
          let j : Invocation = record { profile = q; args = args; config_path = path } in
          let same : j ≡ i = accepted-invocation (rw known at h) in
          subst (λ k. (k.args ≡ args) × IsStage fs args k) same
            (
              refl,
              (
                remaining,
                s,
                p,
                λ a m. allowed a (none_of (λ x. not (is_allowed q x)) remaining a known m),
                λ a m. split_config-IsSorted (valid_makepkg_config fs) [] args remaining path a s m,
                λ m. skips_keys q (
                    allowed (codes "--skippgpcheck") (
                      none_of (λ x. not (is_allowed q x)) remaining (codes "--skippgpcheck") known
                        m)),
              ),
            )
    ]
  where
    allowed : (a : Bytes) → not (is_allowed q a) ≡ false → is_allowed q a ≡ true
    allowed a e = ground arith

classify_split-IsStage :
    (fs : FileSystem) (args : List Bytes) (s : Split) (i : Invocation)
    → split_config (valid_makepkg_config fs) [] args ≡ s
    → classify_split args s ≡ accepted i
    → (i.args ≡ args) × IsStage fs args i
classify_split-IsStage fs args (refused e) i p h = absurd (cc)
classify_split-IsStage fs args (split remaining path) i p h =
    elim (Bool-cases (
      is_member (codes "--skippgpcheck") remaining
      && not (is_member (codes "--verifysource") remaining))) [
        | inl unchecked ↦ absurd (ground arith)
        | inr checked ↦
            classify_as-IsStage fs args remaining path (profile_of remaining) i p refl
              (rw checked at h)
      ]

-- A makepkg command that the wrapper takes is one request for information, which runs as it is, or
-- belongs to the life-cycle stage that its arguments stand for: each argument is allowed in that
-- stage, or is the configuration option or names a configuration that is valid; the key check is
-- skipped in source verification only; and what runs in the container has no argument that would
-- weaken integrity.
pub classify_invocation-IsTaken :
    (fs : FileSystem) (args : List Bytes) (i : Invocation)
    → classify_invocation fs args ≡ accepted i
    → (i.args ≡ args) × IsTaken fs args i
unfolding classify_invocation contained_makepkg_args
classify_invocation-IsTaken fs [] i h = absurd (cc)
classify_invocation-IsTaken fs (a ∷ args) i h = elim (Bool-cases (is_info (a ∷ args))) [
  | inl asks ↦
      let j : Invocation = record { profile = info; args = a ∷ args; config_path = [] } in
      let same : j ≡ i = accepted-invocation (rw asks at h) in
      subst (λ k. (k.args ≡ a ∷ args) × IsTaken fs (a ∷ args) k) same
        (refl, inl (refl, asks, runs_as_is))
  | inr stage ↦ elim (Bool-cases (any (λ x. is_member x prohibited_makepkg) (a ∷ args))) [
    | inl harmful ↦ absurd (ground arith)
    | inr harmless ↦
        let (same, is_stage) =
          classify_split-IsStage fs (a ∷ args)
            (split_config (valid_makepkg_config fs) [] (a ∷ args)) i refl
            (rw (stage, harmless) at h) in
        let all_harmless : IsHarmless (a ∷ args) =
          λ x m. none_of (λ y. is_member y prohibited_makepkg) (a ∷ args) x harmless m in
        (same, inr (is_stage, contained-IsHarmless i (subst IsHarmless (sym same) all_harmless)))
  ]
]
  where
    runs_as_is :
        contained_makepkg_args (record { profile = info; args = a ∷ args; config_path = [] })
        ≡ a ∷ args
    runs_as_is = refl
