-- ===== src/Audit/Batches/Whole.antt =====
-- What the batches of a package hold, from the selected text to the numbered requests.
use prolewatch.Prelude.{
  ℕ, suc, ◌+◌, ◌<◌, ◌≡◌, refl, sym, ap, ◌∙◌, inl, inr, true, List, [], ◌∷◌, ◌++◌, map, Option, none,
  some, ltb, length, all, Bytes, arith, Bool-cases, Option-cases, some_injective, All, is_empty,
}
use mathlib.Core.List.{Perm}
use mathlib.Core.List.Perm
use mathlib.Core.Path.{subst}
use prolewatch.Audit.Batches.{
  SelectedFile, ScannedFile, BatchConfig, Batch, or_no_text, number, fits_surely, fill, fill_all,
  chunk_size, all_pieces, and_more, pieces_of, sort_files, batches, cuts,
}
use prolewatch.Audit.Batches.Cuts.{join}
use prolewatch.Audit.Batches.Pieces.{comes_before, insert_file}
use prolewatch.Audit.Batches.Ascii.{MakeUp, pieces_of-MakeUp}
use prolewatch.Audit.Batches.Filled.{IsSized, fill-AreSized, numbered-some}

no_cuts : (size : ℕ) (t : Bytes) → is_empty t ≡ true → cuts (length t) size (length t) 0 ≡ []
unfolding cuts
no_cuts size [] h = refl
no_cuts size (c ∷ s) h = absurd (cc)

pieces_of-empty :
    (size : ℕ) (r : ScannedFile) → is_empty r.selected_text ≡ true → pieces_of size r ≡ []
unfolding pieces_of
pieces_of-empty size r h = rw (no_cuts size r.selected_text h) refl

and_more-some :
    (ps : List SelectedFile) (o : Option (List SelectedFile)) (out : List SelectedFile)
    → and_more ps o ≡ some out
    → (rest : List SelectedFile) × (o ≡ some rest) × ((ps ++ rest) ≡ out)
and_more-some ps none out h = absurd (ground arith)
and_more-some ps (some rest) out h = (rest, refl, some_injective h)

-- No piece is left out while the text is within the limit.
all_pieces-join :
    (size limit total : ℕ) (rs : List ScannedFile) (out : List SelectedFile)
    → all_pieces size limit total rs ≡ some out
    → join (map (pieces_of size) rs) ≡ out
unfolding all_pieces
all_pieces-join size limit total [] out h = some_injective h
all_pieces-join size limit total (r ∷ rs) out h = elim (Bool-cases (is_empty r.selected_text)) [
  | inl none_selected ↦
      ap (λ t. t ++ join (map (pieces_of size) rs)) (pieces_of-empty size r none_selected)
      ∙ all_pieces-join size limit total rs out (rw none_selected at h)
  | inr selected ↦ elim (Bool-cases (ltb limit (total + length r.selected_text))) [
    | inl above ↦ absurd (ground arith)
    | inr within ↦
        let (rest, e, joined) =
          and_more-some (pieces_of size r)
            (all_pieces size limit (total + length r.selected_text) rs) out
            (rw (selected, within) at h) in
        ap (λ t. pieces_of size r ++ t)
          (all_pieces-join size limit (total + length r.selected_text) rs rest e)
        ∙ joined
  ]
]

number-files :
    (count index : ℕ) (bs : List (List SelectedFile)) → map Batch.files (number count index bs) ≡ bs
unfolding number
number-files count index [] = refl
number-files count index (b ∷ bs) = ap (λ t. b ∷ t) (number-files count (suc index) bs)

number-length :
    (count index : ℕ) (bs : List (List SelectedFile)) → length (number count index bs) ≡ length bs
unfolding number
number-length count index [] = refl
number-length count index (b ∷ bs) = ap suc (number-length count (suc index) bs)

insert_file-Perm :
    (changed : List Bytes) (r : ScannedFile) (qs : List ScannedFile)
    → Perm (insert_file changed r qs) (r ∷ qs)
unfolding insert_file
insert_file-Perm changed r [] = Perm.refl (r ∷ [])
insert_file-Perm changed r (q ∷ qs) = elim (Bool-cases (comes_before changed q r)) [
  | inl before ↦
      rw before (Perm.trans (Perm.cons q (insert_file-Perm changed r qs)) (Perm.swap r q qs))
  | inr behind ↦ rw behind (Perm.refl (r ∷ q ∷ qs))
]

sort_files-Perm : (changed : List Bytes) (rs : List ScannedFile) → Perm (sort_files changed rs) rs
unfolding sort_files
sort_files-Perm changed [] = Perm.refl []
sort_files-Perm changed (r ∷ rs) =
    Perm.trans (insert_file-Perm changed r (sort_files changed rs))
      (Perm.cons r (sort_files-Perm changed rs))

module _ (encoded : SelectedFile → ℕ) (request_size : List SelectedFile → Option ℕ)
    (cfg : BatchConfig) where
  chunk_size-positive : (size : ℕ) → chunk_size encoded request_size cfg ≡ some size → 0 < size
  unfolding chunk_size
  chunk_size-positive size h = ground arith

  -- What the steps of the function give.
  fill_all-some :
      (o : Option (List SelectedFile)) (made : List Batch)
      → fill_all encoded request_size cfg o ≡ some made
      → (ps : List SelectedFile) × (bs : List (List SelectedFile)) × (o ≡ some ps)
        × (fill encoded request_size cfg [] 0 (or_no_text ps) ≡ some bs)
        × (number (length bs) 0 bs ≡ made)
        × (all (fits_surely encoded request_size cfg) bs ≡ true)
  fill_all-some none made h = absurd (ground arith)
  fill_all-some (some ps) made h =
      elim (Option-cases (fill encoded request_size cfg [] 0 (or_no_text ps))) [
        | inl failed ↦ absurd (ground arith)
        | inr (bs, e) ↦
            let (numbers, fit) = numbered-some encoded request_size cfg bs made (rw e at h) in
            (ps, bs, refl, e, numbers, fit)
      ]

  abbrev pub HoldAll : List Bytes → List ScannedFile → List Batch → Type 0
  HoldAll changed rs made =
      (size : ℕ) × (chunk_size encoded request_size cfg ≡ some size)
      × Perm (sort_files changed rs) rs
      × ((r : ScannedFile) → MakeUp size r)
      × (join (map Batch.files made)
          ≡ or_no_text (join (map (pieces_of size) (sort_files changed rs))))
      × All (IsSized encoded request_size cfg) (map Batch.files made)
      × (all (fits_surely encoded request_size cfg) (map Batch.files made) ≡ true)
      × (made ≡ number (length made) 0 (map Batch.files made))

  pieces-HoldAll :
      (changed : List Bytes) (rs : List ScannedFile) (size : ℕ) (bs : List (List SelectedFile))
      → chunk_size encoded request_size cfg ≡ some size
      → (join bs ≡ or_no_text (join (map (pieces_of size) (sort_files changed rs))))
        × All (IsSized encoded request_size cfg) bs
      → all (fits_surely encoded request_size cfg) bs ≡ true
      → HoldAll changed rs (number (length bs) 0 bs)
  pieces-HoldAll changed rs size bs sure (joined, sized) fit =
      rw (number-files (length bs) 0 bs, number-length (length bs) 0 bs)
        (
          size,
          sure,
          sort_files-Perm changed rs,
          (λ r. pieces_of-MakeUp size r (chunk_size-positive size sure)),
          joined,
          sized,
          fit,
          refl,
        )

  -- Batches that are made hold the pieces of the files in the order of sort_files, which lists each file
  -- once, each piece once and none left out. The pieces of a file stand at the starts of consecutive
  -- slices that make up its selected text, and their contents have its ASCII bytes in order; a character
  -- of several bytes may be cut between two slices, and is then replaced in both. With no text there is
  -- one piece that says so. Each batch has a piece, is within the configured size or is a single piece,
  -- and fits the context of the model; the batches are numbered from 0 and carry their count.
  pub batches-HoldAll :
      (changed : List Bytes) (rs : List ScannedFile) (made : List Batch)
      → batches encoded request_size cfg changed rs ≡ some made
      → HoldAll changed rs made
  unfolding batches
  batches-HoldAll changed rs made h = elim (Option-cases (chunk_size encoded request_size cfg)) [
    | inl no_size ↦ absurd (ground arith)
    | inr (size, sure) ↦
        let (ps, bs, e, filled, numbers, fit) =
          fill_all-some (all_pieces size cfg.max_selected_text_bytes 0 (sort_files changed rs)) made
            (rw (batches, sure) at h) in
        let whole =
          all_pieces-join size cfg.max_selected_text_bytes 0 (sort_files changed rs) ps e in
        let (joined, sized) =
          fill-AreSized encoded request_size cfg [] 0 (or_no_text ps) bs filled
            (refl, inr (omega arith)) in
        subst (HoldAll changed rs) numbers
          (pieces-HoldAll changed rs size bs sure (joined ∙ ap or_no_text (sym whole), sized) fit)
  ]
