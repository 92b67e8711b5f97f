-- ===== src/Document/Examples.antt =====
-- A text document and a PDF, tests of the chunker, and the theorem at the first one.
use file_nest.Base.{
  ℕ, ◌≤◌, ◌≡◌, refl, ◌↔◌, true, false, any, List, [], ◌∷◌, ◌++◌, some, ok, err, length, codes, map,
  arith, ◌+◌, ◌>>=◌,
}
use file_nest.FilePath.{Text}
use file_nest.OperationPlan.{validate_relative_path}
use file_nest.OperationPlan.Examples.{tools}
use file_nest.PathPolicy.{user_denylist, validate_relative_value, is_wildcard}
use file_nest.Document.Contracts.{
  Document, DocumentPage, Chunk, plain, pdf, validate_document, validate_source_relative_path,
  validate_page, validate_position, validate_pages, validate_page_metadata,
  validate_source_positions, validate_chunk, pages_overlap,
}
use file_nest.Document.Lines.{splitlines}
use file_nest.Document.Chunker.{
  ChunkIds, page_range_for_offsets, source_positions_for_offsets, new_chunk, append_chunk, flush,
  append_segments, process_line, process_lines, chunk_document, bad_max_chars,
}
use file_nest.Document.Segments.{Covers}
use file_nest.Document.SourcePath.{relative_paths_agree}
use file_nest.Document.Chunks.{chunk_document_partitions, joined_text}

unfoldable runs : Unit {0}
unfolding tools validate_document validate_source_relative_path validate_page validate_position
    validate_pages validate_page_metadata validate_source_positions validate_chunk splitlines
    page_range_for_offsets source_positions_for_offsets new_chunk append_chunk flush append_segments
    process_line process_lines chunk_document
runs = tt

abbrev sixteen : Text
sixteen = codes "0123456789abcdef"

abbrev text_document : Document
text_document = record {
  document_id = 9;
  workspace_id = 1;
  file_entry_id = 4;
  source_relative_path = codes "docs/a.txt";
  source_format = plain;
  normalized_text = codes "ab\ncdefgh\ni\nj";
  pages = [];
  source_positions = [];
  source_version = sixteen ++ sixteen ++ sixteen ++ sixteen;
}

abbrev ids : ChunkIds
ids document version index = document + index

text_document_valid : validate_document text_document ≡ ok tt
unfolding runs
text_document_valid = refl

crlf : splitlines (codes "a\r\nb\n\nc") ≡ codes "a\r\n" ∷ codes "b\n" ∷ codes "\n" ∷ codes "c" ∷ []
unfolding runs
crlf = refl

texts_of_four :
    (chunk_document ids text_document 4 >>= λ chunks. ok (map (λ (c : Chunk). c.text) chunks))
    ≡ ok (codes "ab\n" ∷ codes "cdef" ∷ codes "gh\n" ∷ codes "i\nj" ∷ [])
unfolding runs
texts_of_four = refl

lines_of_four :
    (chunk_document ids text_document 4 >>= λ chunks.
    ok (map {B = ℕ × ℕ} (λ (c : Chunk). (c.start_line, c.end_line)) chunks))
    ≡ ok ((1, 1) ∷ (2, 2) ∷ (2, 2) ∷ (3, 4) ∷ [])
unfolding runs
lines_of_four = refl

no_limit : chunk_document ids text_document 0 ≡ err bad_max_chars
unfolding runs
no_limit = refl

abbrev pages : List DocumentPage
pages =
    (record { page_number = 1; start_offset = 0; end_offset = 5 })
    ∷ (record { page_number = 2; start_offset = 7; end_offset = 12 })
    ∷ []

abbrev pdf_document : Document
pdf_document = record text_document { source_format = pdf; pages = pages }

pdf_valid : validate_document pdf_document ≡ ok tt
unfolding runs
pdf_valid = refl

page_overlap :
    validate_pages 12 0 0 (
      (record { page_number = 1; start_offset = 0; end_offset = 5 })
      ∷ (record { page_number = 2; start_offset = 4; end_offset = 9 })
      ∷ [])
    ≡ err pages_overlap
unfolding runs
page_overlap = refl

-- between two pages, over both, and inside one
page_ranges :
    (page_range_for_offsets pdf_document 5 7 ≡ (some 1, some 2))
    × (page_range_for_offsets pdf_document 3 8 ≡ (some 1, some 2))
    × (page_range_for_offsets pdf_document 8 9 ≡ (some 2, some 2))
unfolding runs
page_ranges = (refl, refl, refl)

chunk_document_partitions_example :
    (chunks : List Chunk) × (chunk_document ids text_document 4 ≡ ok chunks)
    × Covers ids text_document 4 0 0 (length text_document.normalized_text) chunks
    × (joined_text chunks ≡ text_document.normalized_text)
chunk_document_partitions_example =
    chunk_document_partitions ids text_document 4 text_document_valid (omega arith)

relative_paths_agree_example :
    ((validate_source_relative_path (codes "docs/a.txt") ≡ ok (codes "docs/a.txt"))
      ↔ (validate_relative_path (codes "docs/a.txt") ≡ ok (codes "docs/a.txt")))
    × ((validate_relative_value user_denylist true (codes "docs/a.txt") ≡ ok tt) ↔ (
        (validate_relative_path (codes "docs/a.txt") ≡ ok (codes "docs/a.txt"))
        × (length (codes "docs/a.txt") ≤ 500)))
    × ((validate_relative_value user_denylist false (codes "docs/a.txt") ≡ ok tt) ↔ (
        (validate_relative_path (codes "docs/a.txt") ≡ ok (codes "docs/a.txt"))
        × (length (codes "docs/a.txt") ≤ 500)
        × (any is_wildcard (codes "docs/a.txt") ≡ false)))
relative_paths_agree_example = relative_paths_agree user_denylist (codes "docs/a.txt")
