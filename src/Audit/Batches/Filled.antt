-- ===== src/Audit/Batches/Filled.antt =====
-- The batches hold every piece, in order.
use prolewatch.Prelude.{
  ℕ, suc, ◌+◌, ◌≤◌, ◌<◌, ◌≡◌, refl, sym, ap, ◌∙◌, ◌⊎◌, inl, inr, Bool, true, false, List, [], ◌∷◌,
  ◌++◌, append_assoc, append-nil, Option, none, some, ltb, length, all, arith, Bool-cases,
  some_injective, All, length-append,
}
use mathlib.Core.Path.{subst}
use prolewatch.Audit.Batches.{
  SelectedFile, BatchConfig, Batch, Room, grows, flushes, stuck, prepend_batch, is_filled, flush,
  number, fits_surely, room_for, room, fill, numbered,
}
use prolewatch.Audit.Batches.Cuts.{join}

abbrev pub total : (SelectedFile → ℕ) → List SelectedFile → ℕ
total encoded [] = 0
total encoded (p ∷ ps) = encoded p + total encoded ps

total-snoc :
    (encoded : SelectedFile → ℕ) (ps : List SelectedFile) (p : SelectedFile)
    → total encoded (ps ++ p ∷ []) ≡ total encoded ps + encoded p
total-snoc encoded [] p = omega arith
total-snoc encoded (q ∷ ps) p = omega (arith, total-snoc encoded ps p)

length-snoc : (ps : List SelectedFile) (p : SelectedFile) → length (ps ++ p ∷ []) ≡ suc (length ps)
length-snoc ps p = omega (arith, length-append ps (p ∷ []))

room_for-grows :
    (both alone : Option Bool) (filled over : Bool)
    → room_for both alone filled over ≡ grows
    → (filled ≡ false) ⊎ (over ≡ false)
room_for-grows both alone false over h = inl refl
room_for-grows both alone true false h = inr refl
room_for-grows none alone true true h = absurd (cc)
room_for-grows (some ok) none true true h = absurd (cc)
room_for-grows (some ok) (some true) true true h = absurd (cc)
room_for-grows (some ok) (some false) true true h = absurd (cc)

room_for-flushes :
    (both alone : Option Bool) (filled over : Bool)
    → room_for both alone filled over ≡ flushes
    → filled ≡ true
room_for-flushes both alone true over h = refl
room_for-flushes none alone false over h = absurd (cc)
room_for-flushes (some true) alone false over h = absurd (cc)
room_for-flushes (some false) alone false over h = absurd (cc)

join-flush : (b : List SelectedFile) → join (flush b) ≡ b
join-flush [] = refl
join-flush (p ∷ ps) = append-nil (p ∷ ps)

Room-cases : (r : Room) → (r ≡ grows) ⊎ ((r ≡ flushes) ⊎ (r ≡ stuck))
Room-cases grows = inl refl
Room-cases flushes = inr (inl refl)
Room-cases stuck = inr (inr refl)

prepend_batch-some :
    (b : List SelectedFile) (o : Option (List (List SelectedFile))) (bs : List (List SelectedFile))
    → prepend_batch b o ≡ some bs
    → (rest : List (List SelectedFile)) × (o ≡ some rest) × ((b ∷ rest) ≡ bs)
prepend_batch-some b none bs h = absurd (ground arith)
prepend_batch-some b (some rest) bs h = (rest, refl, some_injective h)

is_filled-length : (b : List SelectedFile) → is_filled b ≡ true → 0 < length b
is_filled-length [] h = absurd (cc)
is_filled-length (p ∷ ps) h = omega arith

is_filled-empty : (b : List SelectedFile) → is_filled b ≡ false → length b ≡ 0
is_filled-empty [] h = refl
is_filled-empty (p ∷ ps) h = absurd (cc)

module _ (encoded : SelectedFile → ℕ) (request_size : List SelectedFile → Option ℕ)
    (cfg : BatchConfig) where
  -- A batch is not empty, and is within the size of a batch or one piece.
  abbrev pub IsSized : List SelectedFile → Type 0
  IsSized b = (0 < length b) × ((total encoded b ≤ cfg.batch_bytes) ⊎ (length b ≡ 1))

  -- What holds of the batch that is being filled.
  abbrev IsPart : List SelectedFile → ℕ → Type 0
  IsPart b size = (size ≡ total encoded b) × ((total encoded b ≤ cfg.batch_bytes) ⊎ (length b ≤ 1))

  IsPart-IsSized :
      (b : List SelectedFile) (size : ℕ) → is_filled b ≡ true → IsPart b size → IsSized b
  IsPart-IsSized b size f (e, inl small) = (is_filled-length b f, inl small)
  IsPart-IsSized b size f (e, inr one) =
      let some_piece = is_filled-length b f in (some_piece, inr (omega arith))

  flush-IsSized : (b : List SelectedFile) (size : ℕ) → IsPart b size → All IsSized (flush b)
  flush-IsSized [] size h = tt
  flush-IsSized (p ∷ ps) size h = (IsPart-IsSized (p ∷ ps) size refl h, tt)

  grown :
      (b : List SelectedFile) (size : ℕ) (p : SelectedFile)
      → room encoded request_size cfg b size p ≡ grows
      → IsPart b size
      → IsPart (b ++ p ∷ []) (size + encoded p)
  unfolding room
  grown b size p r (e, h) = (
    omega (arith, total-snoc encoded b p),
    elim (room_for-grows _ _ (is_filled b) (ltb cfg.batch_bytes (size + encoded p)) r) [
      | inl empty ↦ inr (omega (arith, length-snoc b p, is_filled-empty b empty))
      | inr within ↦ inl (ground (arith, total-snoc encoded b p))
    ],
  )

  room-flushes :
      (b : List SelectedFile) (size : ℕ) (p : SelectedFile)
      → room encoded request_size cfg b size p ≡ flushes
      → is_filled b ≡ true
  unfolding room
  room-flushes b size p r =
      room_for-flushes _ _ (is_filled b) (ltb cfg.batch_bytes (size + encoded p)) r

  pub fill-AreSized :
      (current : List SelectedFile) (size : ℕ) (ps : List SelectedFile)
      (bs : List (List SelectedFile))
      → fill encoded request_size cfg current size ps ≡ some bs
      → IsPart current size
      → (join bs ≡ current ++ ps) × All IsSized bs
  unfolding fill
  fill-AreSized current size [] bs h part =
      subst (λ x. (join x ≡ current ++ []) × All IsSized x) (some_injective h)
        (join-flush current ∙ sym (append-nil current), flush-IsSized current size part)
  fill-AreSized current size (p ∷ ps) bs h part =
      elim (Room-cases (room encoded request_size cfg current size p)) [
        | inr (inr no_room) ↦ absurd (ground arith)
        | inl more ↦
            let (joined, sized) =
              fill-AreSized (current ++ p ∷ []) (size + encoded p) ps bs (rw (more, fill) at h)
                (grown current size p more part) in
            (joined ∙ append_assoc current (p ∷ []) ps, sized)
        | inr (inl next) ↦
            let (rest, e, same) =
              prepend_batch-some current (fill encoded request_size cfg (p ∷ []) (encoded p) ps) bs
                (rw (next, fill) at h) in
            let (joined, sized) =
              fill-AreSized (p ∷ []) (encoded p) ps rest e (omega arith, inr (omega arith)) in
            subst (λ x. (join x ≡ current ++ p ∷ ps) × All IsSized x) same
              (
                ap (λ x. current ++ x) joined,
                (IsPart-IsSized current size (room-flushes current size p next) part, sized),
              )
      ]

  pub numbered-some :
      (bs : List (List SelectedFile)) (made : List Batch)
      → numbered encoded request_size cfg (some bs) ≡ some made
      → (number (length bs) 0 bs ≡ made) × (all (fits_surely encoded request_size cfg) bs ≡ true)
  numbered-some bs made h = elim (Bool-cases (all (fits_surely encoded request_size cfg) bs)) [
    | inr misfit ↦ absurd (ground arith)
    | inl fit ↦ (some_injective (rw fit at h), fit)
  ]
