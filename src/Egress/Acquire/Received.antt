-- ===== src/Egress/Acquire/Received.antt =====
-- What one download keeps to.
use prolewatch.Prelude.{
  ℕ, ◌+◌, ◌-◌, ◌≤◌, min, ◌≡◌, refl, sym, ap, ◌∙◌, ◌⊎◌, inl, inr, true, false, not, ◌||◌, List, [],
  ◌∷◌, Option, none, some, ltb, ◌==◌, any, Bytes, bytes_eq, codes, is_empty, trim_space, arith,
  Bool-cases, Option-cases, some_injective,
}
use mathlib.Core.Path.{subst}
use prolewatch.Egress.Allowance.{Url, DeclaredSource}
use prolewatch.Egress.Acquire.{
  AcquireConfig, FetchRecord, Response, Transfer, required, reserve_ok, copy_limit, is_separator,
  valid_source_filename, source_filename, fetchable, receive, from_url, from_rename, before_rename,
  path_base, fetch_declared,
}

-- A name without a separator that is no name of a directory.
pub record IsPlain (name : Bytes) : Type 0 where
  pub nonempty : is_empty name ≡ false
  pub not_here : bytes_eq name (codes ".") ≡ false
  pub not_up : bytes_eq name (codes "..") ≡ false
  pub one_part : any is_separator name ≡ false

valid_source_filename-IsPlain :
    (name out : Bytes) → valid_source_filename name ≡ some out → IsPlain out
unfolding valid_source_filename
valid_source_filename-IsPlain name out h =
    let e : trim_space name ≡ out = ground arith in
    subst IsPlain e (record {
      nonempty = ground arith;
      not_here = ground arith;
      not_up = ground arith;
      one_part = ground arith;
    })

-- A copy that leaves the reserve on the file system, where that can be measured.
abbrev pub Spares : AcquireConfig → Option (ℕ × ℕ) → ℕ → Type 0
Spares cfg none written = Unit
Spares cfg (some (total, available)) written =
    (written ≡ 0) ⊎ (written + required cfg total ≤ available)

copy_limit-remaining :
    (cfg : AcquireConfig) (remaining : ℕ) (space : Option (ℕ × ℕ))
    → copy_limit cfg remaining space ≤ remaining
unfolding copy_limit
copy_limit-remaining cfg remaining none = omega arith
copy_limit-remaining cfg remaining (some (total, available)) = ground arith

copy_limit-Spares :
    (cfg : AcquireConfig) (remaining written : ℕ) (space : Option (ℕ × ℕ))
    → written ≤ copy_limit cfg remaining space
    → Spares cfg space written
unfolding copy_limit
copy_limit-Spares cfg remaining written none h = tt
copy_limit-Spares cfg remaining written (some (total, available)) h = ground arith

module _ (parse_url : Bytes → Option Url) (cfg : AcquireConfig) where
  from_url-IsPlain :
      (o : Option Url) (name : Bytes) → from_url parse_url o ≡ some name → IsPlain name
  from_url-IsPlain none name h = absurd (ground arith)
  from_url-IsPlain (some u) name h = valid_source_filename-IsPlain (path_base u.path) name h

  from_rename-IsPlain :
      (url : Bytes) (o : Option Bytes) (name : Bytes)
      → from_rename parse_url url o ≡ some name
      → IsPlain name
  from_rename-IsPlain url none name h = from_url-IsPlain (parse_url url) name h
  from_rename-IsPlain url (some []) name h = from_url-IsPlain (parse_url url) name h
  from_rename-IsPlain url (some (c ∷ s)) name h = valid_source_filename-IsPlain (c ∷ s) name h

  source_filename-IsPlain :
      (source : DeclaredSource) (name : Bytes)
      → source_filename parse_url source ≡ some name
      → IsPlain name
  unfolding source_filename
  source_filename-IsPlain source name h =
      from_rename-IsPlain source.url (before_rename source.raw) name h

  -- What a download keeps to.
  pub record IsReceived (remaining left : ℕ) (source : DeclaredSource) (space : Option (ℕ × ℕ))
      (r : FetchRecord) : Type 0 where
    pub declared : r.declared ≡ source.url
    pub plain : IsPlain r.filename
    pub within : r.bytes + left ≤ remaining
    pub spares : Spares cfg space r.bytes

  whole_copy :
      (remaining written : ℕ) (source : DeclaredSource) (space : Option (ℕ × ℕ)) (name : Bytes)
      (hosts : List Bytes)
      → IsPlain name
      → written ≤ copy_limit cfg remaining space
      → IsReceived remaining
          (remaining - written)
          source
          space
          (record { declared = source.url; filename = name; hosts = hosts; bytes = written })
  whole_copy remaining written source space name hosts p h = record {
    declared = refl;
    plain = p;
    within = omega (arith, copy_limit-remaining cfg remaining space);
    spares = copy_limit-Spares cfg remaining written space h;
  }

  receive-IsReceived :
      (remaining : ℕ) (source : DeclaredSource) (name : Bytes) (u : Url) (space : Option (ℕ × ℕ))
      (answer : Response) (r : FetchRecord)
      → IsPlain name
      → (receive cfg remaining source name u space answer).1 ≡ some r
      → IsReceived remaining (receive cfg remaining source name u space answer).0 source space r
  unfolding receive
  receive-IsReceived remaining source name u space answer r p h =
      let limit = copy_limit cfg remaining space in
      let written = min answer.sent (limit + 1) in
      elim (Bool-cases (not (answer.status == 200) || not answer.opened)) [
        | inl refused ↦ absurd (ground arith)
        | inr accepted ↦
            elim (Bool-cases (not answer.copied || not answer.closed || ltb limit written)) [
              | inl broken ↦ absurd (ground arith)
              | inr whole ↦
                  rw (accepted, whole)
                    (subst (λ x. IsReceived remaining (remaining - written) source space x)
                      (some_injective (rw (accepted, whole) at h))
                      (whole_copy remaining written source space name _ p (ground arith)))
            ]
      ]

  pub fetch_declared-IsReceived :
      (remaining : ℕ) (source : DeclaredSource) (t : Transfer) (r : FetchRecord)
      → (fetch_declared parse_url cfg remaining source t).1 ≡ some r
      → IsReceived remaining (fetch_declared parse_url cfg remaining source t).0 source t.space r
        × ((u : Url) × (parse_url source.url ≡ some u) × (fetchable u ≡ true))
  unfolding fetch_declared
  fetch_declared-IsReceived remaining source t r h =
      elim (Option-cases (source_filename parse_url source)) [
        | inl none' ↦ absurd (ground arith)
        | inr (name, named) ↦ elim (Option-cases (parse_url source.url)) [
          | inl none' ↦ absurd (ground arith)
          | inr (u, parses) ↦
              elim (Bool-cases
                (not (fetchable u) || not (reserve_ok cfg t.space_before) || not t.in_time)) [
                  | inl refused ↦ absurd (ground arith)
                  | inr passed ↦ elim (Option-cases t.response) [
                    | inl none' ↦ absurd (ground arith)
                    | inr (answer, answered) ↦
                        let e : fetch_declared parse_url cfg remaining source t
                            ≡ receive cfg remaining source name u t.space answer =
                          rw (fetch_declared, named, parses, passed, answered) refl in
                        let plain = source_filename-IsPlain source name named in
                        let received =
                          receive-IsReceived remaining source name u t.space answer r plain
                            (ap (λ x. x.1) (sym e) ∙ h) in
                        (
                          subst (λ x. IsReceived remaining x source t.space r)
                              (ap (λ x. x.0) (sym e)) received,
                          (u, parses, ground arith),
                        )
                  ]
                ]
        ]
      ]
