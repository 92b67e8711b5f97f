-- ===== src/Document/Contracts.antt =====
-- backend/app/document_contracts.py: documents and chunks with their validators.
use file_nest.Base.{
  ℕ, Bool, true, false, not, ◌&&◌, ◌||◌, Option, none, some, List, [], ◌∷◌, Result, ok, ◌>>=◌, ◌>>◌,
  raise_if, any, all, length, leb, ltb, ◌==◌, is_some, is_none, ◌+◌,
}
use file_nest.FilePath.{
  Text, text_eq, strip, pure_posix_path, posix_text, is_absolute, has_windows_drive, has_backslash,
  is_blank, is_dot, is_dot_dot,
}
use file_nest.OperationPlan.{is_hex}

pub data DocumentError : Type 0 where
  path_has_backslash path_not_relative : DocumentError
  page_number_zero offsets_reversed bad_paragraph bad_table_cell bad_field : DocumentError
  positions_in_pdf pages_in_docx unexpected_metadata pdf_without_pages : DocumentError
  page_numbers_not_consecutive pages_overlap page_outside_text : DocumentError
  positions_overlap position_outside_text : DocumentError
  chunk_offsets chunk_lines chunk_pages_incomplete chunk_pages_reversed chunk_position :
      DocumentError

-- `_validate_source_relative_path`
unfoldable pub validate_source_relative_path : Text → Result DocumentError Text
validate_source_relative_path value = do
  raise_if (not (text_eq value (strip value)) || has_backslash value) path_has_backslash
  let path = pure_posix_path value
  raise_if
      (is_dot value
        || is_absolute path
        || has_windows_drive value
        || any (λ part. is_blank part || is_dot part || is_dot_dot part) path.parts
        || not (text_eq (posix_text path) value))
      path_not_relative
  ok value

pub record DocumentPage : Type 0 where
  pub page_number : ℕ
  pub start_offset : ℕ
  pub end_offset : ℕ

unfoldable pub validate_page : DocumentPage → Result DocumentError (Unit {0})
validate_page page = do
  raise_if (page.page_number == 0) page_number_zero
  raise_if (ltb page.end_offset page.start_offset) offsets_reversed

pub data ElementType : Type 0 where
  paragraph table_cell : ElementType

pub record DocumentPosition : Type 0 where
  pub element_type : ElementType
  pub start_offset : ℕ
  pub end_offset : ℕ
  pub section_index : Option ℕ
  pub heading_level : Option ℕ
  pub paragraph_index : Option ℕ
  pub table_index : Option ℕ
  pub row_index : Option ℕ
  pub cell_index : Option ℕ

abbrev pub is_zero : Option ℕ → Bool
is_zero none = false
is_zero (some n) = n == 0

unfoldable pub validate_position : DocumentPosition → Result DocumentError (Unit {0})
validate_position p = do
  raise_if (is_zero p.heading_level) bad_field
  raise_if (ltb p.end_offset p.start_offset) offsets_reversed
  elim p.element_type [
    | paragraph ↦
        raise_if
          (is_none p.paragraph_index
            || is_some p.table_index
            || is_some p.row_index
            || is_some p.cell_index)
          bad_paragraph
    | table_cell ↦
        raise_if
          (is_some p.paragraph_index
            || is_none p.table_index
            || is_none p.row_index
            || is_none p.cell_index)
          bad_table_cell
  ]

pub data SourceFormat : Type 0 where
  markdown plain pdf docx : SourceFormat

pub record Document : Type 0 where
  pub document_id : ℕ
  pub workspace_id : ℕ
  pub file_entry_id : ℕ
  pub source_relative_path : Text
  pub source_format : SourceFormat
  pub normalized_text : Text
  pub pages : List DocumentPage
  pub source_positions : List DocumentPosition
  pub source_version : Text

abbrev pub is_pdf : SourceFormat → Bool
is_pdf pdf = true
is_pdf _ = false

abbrev pub is_empty {ℓ} : {A : Type ℓ} → List A → Bool
is_empty [] = true
is_empty (_ ∷ _) = false

abbrev pub validate_each {ℓ} :
    {A : Type ℓ} → (A → Result DocumentError (Unit {0})) → List A → Result DocumentError (Unit {0})
validate_each check [] = ok tt
validate_each check (x ∷ xs) = do check x; validate_each check xs

-- the loop over the pages of a PDF, from the number and the end of the page before
unfoldable pub validate_pages : ℕ → ℕ → ℕ → List DocumentPage → Result DocumentError (Unit {0})
validate_pages size number end [] = ok tt
validate_pages size number end (page ∷ pages) = do
  raise_if (not (page.page_number == number + 1)) page_numbers_not_consecutive
  raise_if (ltb page.start_offset end) pages_overlap
  raise_if (ltb size page.end_offset) page_outside_text
  validate_pages size page.page_number page.end_offset pages

unfoldable pub validate_page_metadata : Document → Result DocumentError (Unit {0})
validate_page_metadata d = elim d.source_format [
  | pdf ↦ do
    raise_if (not (is_empty d.source_positions)) positions_in_pdf
    raise_if (is_empty d.pages) pdf_without_pages
    validate_pages (length d.normalized_text) 0 0 d.pages
  | docx ↦ raise_if (not (is_empty d.pages)) pages_in_docx
  | _ ↦ raise_if (not (is_empty d.pages) || not (is_empty d.source_positions)) unexpected_metadata
]

unfoldable pub validate_source_positions :
    ℕ → ℕ → List DocumentPosition → Result DocumentError (Unit {0})
validate_source_positions size end [] = ok tt
validate_source_positions size end (p ∷ positions) = do
  raise_if (ltb p.start_offset end) positions_overlap
  raise_if (ltb size p.end_offset) position_outside_text
  validate_source_positions size p.end_offset positions

-- `Document(…)`: the fields, the nested models, and the two model validators
unfoldable pub validate_document : Document → Result DocumentError (Unit {0})
validate_document d = do
  raise_if (d.workspace_id == 0 || d.file_entry_id == 0) bad_field
  path ← validate_source_relative_path d.source_relative_path
  validate_each validate_page d.pages
  validate_each validate_position d.source_positions
  raise_if (not (length d.source_version == 64 && all is_hex d.source_version)) bad_field
  validate_page_metadata d
  validate_source_positions (length d.normalized_text) 0 d.source_positions

pub record Chunk : Type 0 where
  pub chunk_id : ℕ
  pub document_id : ℕ
  pub file_entry_id : ℕ
  pub source_relative_path : Text
  pub chunk_index : ℕ
  pub text : Text
  pub start_offset : ℕ
  pub end_offset : ℕ
  pub start_line : ℕ
  pub end_line : ℕ
  pub source_positions : List DocumentPosition
  pub page_start : Option ℕ
  pub page_end : Option ℕ

abbrev pub pages_reversed : Option ℕ → Option ℕ → Bool
pages_reversed (some first) (some last) = ltb last first
pages_reversed _ _ = false

abbrev pub misses : ℕ → ℕ → DocumentPosition → Bool
misses start end p = leb p.end_offset start || leb end p.start_offset

-- `Chunk(…)`: the fields and `validate_source_position`
unfoldable pub validate_chunk : Chunk → Result DocumentError (Unit {0})
validate_chunk c = do
  raise_if (c.file_entry_id == 0 || is_empty c.text || c.end_offset == 0) bad_field
  raise_if (c.start_line == 0 || c.end_line == 0 || is_zero c.page_start || is_zero c.page_end)
      bad_field
  path ← validate_source_relative_path c.source_relative_path
  raise_if (leb c.end_offset c.start_offset) chunk_offsets
  raise_if (ltb c.end_line c.start_line) chunk_lines
  raise_if
      ((is_none c.page_start && is_some c.page_end) || (is_some c.page_start && is_none c.page_end))
      chunk_pages_incomplete
  raise_if (pages_reversed c.page_start c.page_end) chunk_pages_reversed
  raise_if (any (misses c.start_offset c.end_offset) c.source_positions) chunk_position
