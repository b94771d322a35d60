-- ===== src/Audit/Invocation/Harmless.antt =====
-- No argument that would weaken integrity runs in the container.
use prolewatch.Prelude.{
  ◌≡◌, refl, sym, ap, ◌∙◌, ◌⊎◌, inl, inr, Bool, false, List, [], ◌∷◌, ◌++◌, any, Bytes, bytes_eq,
  codes, is_member, arith, IsIn, here, there,
}
use mathlib.Core.Path.{subst}
use prolewatch.Audit.Invocation.{
  Profile, info, printsrcinfo, verify, prepare, packagelist, build, skip, Invocation,
  prohibited_makepkg, contained_makepkg_args,
}

abbrev pub IsHarmless : List Bytes → Type 0
IsHarmless args = (a : Bytes) → IsIn a args → is_member a prohibited_makepkg ≡ false

pub none_of :
    (p : Bytes → Bool) (xs : List Bytes) (x : Bytes) → any p xs ≡ false → IsIn x xs → p x ≡ false
none_of p [] x h i = elim i [ ]
none_of p (y ∷ ys) x h (here e) = ap p e ∙ ground arith
none_of p (y ∷ ys) x h (there i) = none_of p ys x (ground arith) i

IsIn-snoc : (a b : Bytes) (xs : List Bytes) → IsIn a (xs ++ b ∷ []) → IsIn a xs ⊎ (a ≡ b)
IsIn-snoc a b [] (here e) = inr e
IsIn-snoc a b [] (there i) = elim i [ ]
IsIn-snoc a b (x ∷ xs) (here e) = inl (here e)
IsIn-snoc a b (x ∷ xs) (there i) = elim (IsIn-snoc a b xs i) [
  | inl j ↦ inl (there j)
  | inr e ↦ inr e
]

with_nodeps : (args : List Bytes) → IsHarmless args → IsHarmless (args ++ codes "--nodeps" ∷ [])
unfolding bytes_eq
with_nodeps args h a i = elim (IsIn-snoc a (codes "--nodeps") args i) [
  | inl j ↦ h a j
  | inr e ↦ subst (λ x. is_member x prohibited_makepkg ≡ false) (sym e) refl
]

pub contained-IsHarmless :
    (i : Invocation) → IsHarmless i.args → IsHarmless (contained_makepkg_args i)
unfolding contained_makepkg_args
contained-IsHarmless i h = by_profile i.profile
  where
    by_profile :
        (p : Profile)
        → IsHarmless (elim p [
          | prepare ↦ i.args ++ codes "--nodeps" ∷ []
          | build ↦ i.args ++ codes "--nodeps" ∷ []
          | skip ↦ i.args ++ codes "--nodeps" ∷ []
          | _ ↦ i.args
        ])
    by_profile prepare = with_nodeps i.args h
    by_profile build = with_nodeps i.args h
    by_profile skip = with_nodeps i.args h
    by_profile info = h
    by_profile verify = h
    by_profile printsrcinfo = h
    by_profile packagelist = h
