-- ===== src/Tests/Batches.antt =====
-- Examples for the batches of internal/audit.
use prolewatch.Prelude.{
  ℕ, ◌≡◌, refl, false, List, [], ◌∷◌, none, some, Bytes, codes, bytes_eq, bytes_lt, length,
}
use prolewatch.Safe.Content.{read_rune}
use prolewatch.Audit.Batches.{
  SelectedFile, ScannedFile, BatchConfig, Batch, count_lines, to_valid, valid_utf8_or_replacement,
  selected_file_piece, cuts, pieces_of, insert_file, sort_files, all_pieces, number, chunk_size,
  fits, room, fill, batches,
}
use prolewatch.Audit.Batches.Whole.{HoldAll, batches-HoldAll}

abbrev settings : BatchConfig
settings = record {
  is_ollama = false;
  reasoning = codes "off";
  context_tokens = 8192;
  batch_bytes = 3;
  max_selected_text_bytes = 100;
}

abbrev scanned : Bytes → Bytes → ScannedFile
scanned path text = record { path = path; path_b64 = path; selected_text = text }

abbrev selected : List ScannedFile
selected = scanned (codes "a") (codes "x\ny") ∷ scanned (codes "b") (codes "z") ∷ []

abbrev content_length : SelectedFile → ℕ
content_length p = length p.content

abbrev first_piece : SelectedFile
first_piece = record {
  file = codes "b";
  byte_offset = 0;
  line_start = 1;
  line_end = 1;
  content = codes "z";
}

abbrev second_piece : SelectedFile
second_piece = record {
  file = codes "a";
  byte_offset = 0;
  line_start = 1;
  line_end = 2;
  content = codes "x\ny";
}

-- The changed file comes first.
abbrev two_batches : List Batch
two_batches =
    record { batch_index = 0; batch_count = 2; files = first_piece ∷ [] }
    ∷ record { batch_index = 1; batch_count = 2; files = second_piece ∷ [] }
    ∷ []

batches_test :
    batches content_length (λ ps. none) settings (codes "b" ∷ []) selected ≡ some two_batches
unfolding batches chunk_size all_pieces pieces_of selected_file_piece cuts count_lines
    valid_utf8_or_replacement to_valid read_rune insert_file sort_files fill room fits number
    bytes_eq bytes_lt
batches_test = refl

batches-HoldAll_example :
    HoldAll content_length (λ ps. none) settings (codes "b" ∷ []) selected two_batches
batches-HoldAll_example =
    batches-HoldAll content_length (λ ps. none) settings (codes "b" ∷ []) selected two_batches
      batches_test
