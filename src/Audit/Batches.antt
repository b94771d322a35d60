-- ===== src/Audit/Batches.antt =====
-- internal/audit/review.go: how the selected text of a package is cut into the batches that a model
-- reviews, batchesWithProviderOptions with selectedFilePiece, and ollamaInputByteCeiling of ollama.go.
-- JSON comes from outside: the length of an encoded piece, and the length of the request that
-- buildOllamaChatRequest encodes for the files of a batch. The fields that all batches share are left
-- out.
pub mod Pieces
pub mod Cuts
pub mod Ascii
pub mod Filled
pub mod Whole
use prolewatch.Prelude.{
  ℕ, zero, suc, ◌+◌, ◌-◌, ◌*◌, ◌/◌, min, max, Bool, true, false, not, ◌&&◌, ◌||◌, List, [], ◌∷◌,
  ◌++◌, map, Option, none, some, ◌==◌, ltb, leb, if◌then◌else◌, length, take, drop, all, Bytes,
  bytes_eq, bytes_lt, codes, is_empty, is_member,
}
use prolewatch.Safe.Content.{Rune, partial, rune, read_rune}
pub use prolewatch.Audit.Batches.Pieces.{
  ScannedFile, SelectedFile, and_more, cuts_of, or_no_text, slice,
}
unfoldable pub use prolewatch.Audit.Batches.Pieces.{
  all_pieces, count_lines, cuts, insert_file, pieces_of, selected_file_piece, sort_files, to_valid,
  valid_utf8_or_replacement,
}
use prolewatch.Audit.Batches.Pieces.{no_text}

pub record BatchConfig : Type 0 where
  pub is_ollama : Bool
  pub reasoning : Bytes
  pub context_tokens : ℕ
  pub batch_bytes : ℕ
  pub max_selected_text_bytes : ℕ

-- ollamaInputByteCeiling; what is not positive is 0.
unfoldable pub ollama_input_byte_ceiling : ℕ → Bytes → ℕ
ollama_input_byte_ceiling context_tokens reasoning =
    (context_tokens - (if bytes_eq reasoning (codes "off") then 4096 else 6144) - 2048) * 2

pub record Batch : Type 0 where
  pub batch_index : ℕ
  pub batch_count : ℕ
  pub files : List SelectedFile

-- A piece joins the batch, starts the next one, or does not fit at all.
pub data Room : Type 0 where
  grows flushes stuck : Room

abbrev pub room_for : Option Bool → Option Bool → Bool → Bool → Room
room_for none alone filled over = stuck
room_for (some ok) alone filled over =
    if filled && (over || not ok)
    then (elim alone [ some true ↦ flushes | _ ↦ stuck ])
    else if ok
    then grows
    else stuck

abbrev pub prepend_batch :
    List SelectedFile → Option (List (List SelectedFile)) → Option (List (List SelectedFile))
prepend_batch b none = none
prepend_batch b (some bs) = some (b ∷ bs)

abbrev pub is_filled : List SelectedFile → Bool
is_filled [] = false
is_filled (p ∷ ps) = true

abbrev pub flush : List SelectedFile → List (List SelectedFile)
flush [] = []
flush (p ∷ ps) = (p ∷ ps) ∷ []

unfoldable pub number : ℕ → ℕ → List (List SelectedFile) → List Batch
number count index [] = []
number count index (b ∷ bs) =
    record { batch_index = index; batch_count = count; files = b } ∷ number count (suc index) bs

module _ (encoded : SelectedFile → ℕ) (request_size : List SelectedFile → Option ℕ)
    (cfg : BatchConfig) where
  abbrev pub ceiling : ℕ
  ceiling = ollama_input_byte_ceiling cfg.context_tokens cfg.reasoning

  -- How many bytes a piece has at most; `none` if the fixed part of a request leaves no room.
  unfoldable pub chunk_size : Option ℕ
  chunk_size =
      let base = max 1024 (cfg.batch_bytes / 2) in
      if not cfg.is_ollama then some base else elim (request_size (no_text ∷ [])) [
        | none ↦ none
        | some fixed ↦
            if ceiling == 0 || ltb ceiling fixed || ceiling - fixed - 4096 == 0
            then none
            else some (min base (max 1 ((ceiling - fixed - 4096) / 6)))
      ]

  -- ollamaFits; `none` is an error.
  unfoldable pub fits : List SelectedFile → Option Bool
  fits files =
      if not cfg.is_ollama
      then some true
      else elim (request_size files) [ none ↦ none | some n ↦ some (leb n ceiling) ]

  unfoldable pub room : List SelectedFile → ℕ → SelectedFile → Room
  unfolding fits
  room current size p =
      room_for (fits (current ++ p ∷ [])) (fits (p ∷ [])) (is_filled current)
        (ltb cfg.batch_bytes (size + encoded p))

  -- The loop over the pieces; `current` is the batch that is being filled.
  unfoldable pub fill :
      List SelectedFile → ℕ → List SelectedFile → Option (List (List SelectedFile))
  unfolding room
  fill current size [] = some (flush current)
  fill current size (p ∷ ps) = elim (room current size p) [
    | grows ↦ fill (current ++ p ∷ []) (size + encoded p) ps
    | flushes ↦ prepend_batch current (fill (p ∷ []) (encoded p) ps)
    | stuck ↦ none
  ]

  abbrev pub fits_surely : List SelectedFile → Bool
  fits_surely files = elim (fits files) [ some true ↦ true | _ ↦ false ]

  abbrev pub numbered : Option (List (List SelectedFile)) → Option (List Batch)
  numbered none = none
  numbered (some bs) = if all fits_surely bs then some (number (length bs) 0 bs) else none

  abbrev pub fill_all : Option (List SelectedFile) → Option (List Batch)
  fill_all none = none
  fill_all (some ps) = numbered (fill [] 0 (or_no_text ps))

  -- batchesWithProviderOptions, on the files and the changed paths of an inventory.
  unfoldable pub batches : List Bytes → List ScannedFile → Option (List Batch)
  unfolding chunk_size fill all_pieces sort_files number
  batches changed rs = elim chunk_size [
    | none ↦ none
    | some size ↦ fill_all (all_pieces size cfg.max_selected_text_bytes 0 (sort_files changed rs))
  ]
