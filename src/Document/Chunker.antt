-- ===== src/Document/Chunker.antt =====
-- backend/app/document_chunker.py: lines are packed greedily, longer lines are cut.
use mathlib.Core.List.{reverse}
use file_nest.Base.{
  filter, ℕ, zero, suc, ◌+◌, ◌-◌, Bool, true, false, ◌&&◌, Option, none, some, List, [], ◌∷◌, ◌++◌,
  map, Result, ok, err, ◌>>=◌, ◌>>◌, raise_if, length, last?, leb, ltb, ◌==◌, if◌then◌else◌,
}
use file_nest.FilePath.{Text}
use file_nest.Document.Contracts.{
  Document, DocumentPage, DocumentPosition, DocumentError, Chunk, is_pdf, validate_chunk,
}
use file_nest.Document.Lines.{splitlines}

abbrev pub default_max_chars : ℕ
default_max_chars = 800

pub data ChunkError : Type 0 where
  bad_max_chars : ChunkError
  bad_chunk : DocumentError → ChunkError

-- `next((x for x in xs), None)`
abbrev pub head? {ℓ} : {A : Type ℓ} → List A → Option A
head? [] = none
head? (x ∷ _) = some x

abbrev pub drop : ℕ → Text → Text
drop zero s = s
drop (suc n) [] = []
drop (suc n) (_ ∷ s) = drop n s

abbrev pub take : ℕ → Text → Text
take zero s = []
take (suc n) [] = []
take (suc n) (c ∷ s) = c ∷ take n s

-- `text[start:end]`
abbrev pub slice : ℕ → ℕ → Text → Text
slice start end text = take (end - start) (drop start text)

abbrev pub min : ℕ → ℕ → ℕ
min a b = if leb a b then a else b

abbrev pub max : ℕ → ℕ → ℕ
max a b = if leb a b then b else a

abbrev pub page_overlaps : ℕ → ℕ → DocumentPage → Bool
page_overlaps start end page = ltb start page.end_offset && ltb page.start_offset end

abbrev pub page_numbers : List DocumentPage → List ℕ
page_numbers pages = map (λ (page : DocumentPage). page.page_number) pages

-- the first and the last page number of a non-empty list of overlapping pages, or the pages on both
-- sides of the range
abbrev pub page_range : List DocumentPage → ℕ → ℕ → Option ℕ × Option ℕ
page_range pages start end =
    let overlapping = page_numbers (filter (page_overlaps start end) pages) in
    elim (head? overlapping) [
      | some first ↦ (some first, last? overlapping)
      | none ↦
          elim (head?
            (page_numbers (filter (λ (page : DocumentPage). ltb start page.end_offset) pages))) [
              | none ↦ (none, none)
              | some first ↦
                  elim (head? (
                    page_numbers (
                      filter (λ (page : DocumentPage). ltb page.start_offset end)
                        (reverse pages)))) [
                          | none ↦ (none, none)
                          | some last ↦ (some (min first last), some (max first last))
                        ]
            ]
    ]

unfoldable pub page_range_for_offsets : Document → ℕ → ℕ → Option ℕ × Option ℕ
page_range_for_offsets d start end =
    if is_pdf d.source_format then page_range d.pages start end else (none, none)

abbrev pub position_overlaps : ℕ → ℕ → DocumentPosition → Bool
position_overlaps start end p = ltb start p.end_offset && ltb p.start_offset end

unfoldable pub source_positions_for_offsets : Document → ℕ → ℕ → List DocumentPosition
source_positions_for_offsets d start end = filter (position_overlaps start end) d.source_positions

-- the local variables of the loop
pub record ChunkState : Type 0 where
  pub chunks : List Chunk
  pub current_start : Option ℕ
  pub current_end : ℕ
  pub current_start_line : ℕ
  pub current_end_line : ℕ
  pub next_chunk_index : ℕ
  pub offset : ℕ

-- `uuid5`, by the document's id and version and the chunk's index
abbrev pub ChunkIds : Type 0
ChunkIds = ℕ → Text → ℕ → ℕ

module _ (uuid5 : ChunkIds) (d : Document) (max_chars : ℕ) where
  unfoldable pub new_chunk : ℕ → ℕ → ℕ → ℕ → ℕ → Chunk
  new_chunk index start end start_line end_line =
      let (page_start, page_end) = page_range_for_offsets d start end in
      record {
        chunk_id = uuid5 d.document_id d.source_version index;
        document_id = d.document_id;
        file_entry_id = d.file_entry_id;
        source_relative_path = d.source_relative_path;
        chunk_index = index;
        text = slice start end d.normalized_text;
        start_offset = start;
        end_offset = end;
        start_line = start_line;
        end_line = end_line;
        source_positions = source_positions_for_offsets d start end;
        page_start = page_start;
        page_end = page_end;
      }

  -- `_append_chunk`, and the assignment of its result to `next_chunk_index`
  unfoldable pub append_chunk : ChunkState → ℕ → ℕ → ℕ → ℕ → Result ChunkError ChunkState
  append_chunk s start end start_line end_line =
      let chunk = new_chunk s.next_chunk_index start end start_line end_line in
      elim (validate_chunk chunk) [
        | err e ↦ err (bad_chunk e)
        | ok _ ↦ ok (record s {
          chunks = s.chunks ++ chunk ∷ [];
          next_chunk_index = suc s.next_chunk_index;
        })
      ]

  -- the chunk that is being packed, if there is one
  unfoldable pub flush : ChunkState → Result ChunkError ChunkState
  flush s = elim s.current_start [
    | none ↦ ok s
    | some start ↦ append_chunk s start s.current_end s.current_start_line s.current_end_line
  ]

  -- `for segment_start in range(line_start, line_end, max_chars)`, on fuel
  unfoldable pub append_segments : ℕ → ChunkState → ℕ → ℕ → ℕ → Result ChunkError ChunkState
  append_segments zero s start line_end line_number = ok s
  append_segments (suc fuel) s start line_end line_number = elim (ltb start line_end) [
    | false ↦ ok s
    | true ↦ do
      next ← append_chunk s start (min (start + max_chars) line_end) line_number line_number
      append_segments fuel next (start + max_chars) line_end line_number
  ]

  abbrev pub start_current : ChunkState → ℕ → ℕ → ℕ → ChunkState
  start_current s line_start line_end line_number = record s {
    current_start = some line_start;
    current_end = line_end;
    current_start_line = line_number;
    current_end_line = line_number;
  }

  -- the loop body; the segments of a line are at most as many as its characters
  unfoldable pub process_line : ChunkState → ℕ → Text → Result ChunkError ChunkState
  process_line before line_number line =
      let line_start = before.offset in
      let line_end = line_start + length line in
      let s = record before { offset = line_end } in
      elim (ltb max_chars (length line)) [
        | true ↦ do
          flushed ← flush s
          append_segments (length line) (record flushed { current_start = none }) line_start
              line_end line_number
        | false ↦ elim s.current_start [
          | none ↦ ok (start_current s line_start line_end line_number)
          | some start ↦ elim (leb (line_end - start) max_chars) [
            | true ↦ ok (record s { current_end = line_end; current_end_line = line_number })
            | false ↦ do
              flushed ← flush s
              ok (start_current flushed line_start line_end line_number)
          ]
        ]
      ]

  unfoldable pub process_lines : ChunkState → ℕ → List Text → Result ChunkError ChunkState
  process_lines s line_number [] = ok s
  process_lines s line_number (line ∷ lines) = do
    next ← process_line s line_number line
    process_lines next (suc line_number) lines

  abbrev pub initial : ChunkState
  initial = record {
    chunks = [];
    current_start = none;
    current_end = 0;
    current_start_line = 0;
    current_end_line = 0;
    next_chunk_index = 0;
    offset = 0;
  }

  unfoldable pub chunk_document : Result ChunkError (List Chunk)
  chunk_document = do
    raise_if (max_chars == 0) bad_max_chars
    packed ← process_lines initial 1 (splitlines d.normalized_text)
    last ← flush packed
    ok last.chunks
