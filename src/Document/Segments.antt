-- ===== src/Document/Segments.antt =====
-- One chunk appended to those of a valid document, and the segments of a long line.
use file_nest.Base.{
  filter, ℕ, zero, suc, ◌+◌, ◌≤◌, ◌<◌, ◌≡◌, refl, sym, inl, inr, false, ◌&&◌, ◌||◌, List, [], ◌∷◌,
  ◌++◌, Option, arith, ok, length, length-append, any, Bool-cases, ltb, is_none, is_some, ◌==◌,
  after_guard, >>=-eq-ok,
}
use mathlib.Core.Path.{subst}
use file_nest.FilePath.{Text}
use file_nest.Document.Contracts.{
  Document, DocumentPosition, Chunk, validate_document, validate_page_metadata, validate_chunk,
  validate_source_relative_path, is_zero, is_empty, misses, pages_reversed,
}
use file_nest.Document.Chunker.{
  ChunkIds, ChunkState, new_chunk, append_chunk, append_segments, slice, min, position_overlaps,
  source_positions_for_offsets,
}
use file_nest.Document.Slices.{length-slice}
use file_nest.Document.Pages.{IsRange, no_pages, some_pages, page_range_for_offsets-IsRange}

-- what the chunker needs of its document
pub record IsDocument (d : Document) : Type 0 where
  pub has_entry : 1 ≤ d.file_entry_id
  pub good_path : validate_source_relative_path d.source_relative_path ≡ ok d.source_relative_path
  pub good_pages : validate_page_metadata d ≡ ok tt

path_returned :
    (value result : Text)
    → validate_source_relative_path value ≡ ok result
    → validate_source_relative_path value ≡ ok value
unfolding validate_source_relative_path
path_returned value result h = ground arith

pub document_of_valid : (d : Document) → validate_document d ≡ ok tt → IsDocument d
unfolding validate_document
document_of_valid d h =
    let (ids, after_ids) = after_guard (d.workspace_id == 0 || d.file_entry_id == 0) _ _ h in
    let (path, found, after_path) =
      >>=-eq-ok (validate_source_relative_path d.source_relative_path) _ after_ids in
    record {
      has_entry = ground arith;
      good_path = path_returned d.source_relative_path path found;
      good_pages = ground arith;
    }

-- the tests of `Chunk` on its pages
range_tests :
    (pages : Option ℕ × Option ℕ)
    → IsRange pages
    → (is_zero pages.0 ≡ false)
      × (is_zero pages.1 ≡ false)
      × (((is_none pages.0 && is_some pages.1) || (is_some pages.0 && is_none pages.1)) ≡ false)
      × (pages_reversed pages.0 pages.1 ≡ false)
range_tests _ no_pages = (refl, refl, refl, refl)
range_tests _ (some_pages first last h k) = (ground arith, ground arith, refl, ground arith)

no_miss :
    (start end : ℕ) (positions : List DocumentPosition)
    → any (misses start end) (filter (position_overlaps start end) positions) ≡ false
no_miss start end [] = refl
no_miss start end (p ∷ positions) = elim (Bool-cases (position_overlaps start end p)) [
  | inl e ↦ rw e (ground (arith, no_miss start end positions))
  | inr e ↦ rw e (no_miss start end positions)
]

filled_text : (s : Text) → 1 ≤ length s → is_empty s ≡ false
filled_text [] h = absurd (omega arith)
filled_text (c ∷ s) h = refl

chunk_tests :
    (c : Chunk)
    → 1 ≤ c.file_entry_id
    → validate_source_relative_path c.source_relative_path ≡ ok c.source_relative_path
    → 1 ≤ length c.text
    → c.start_offset < c.end_offset
    → 1 ≤ c.start_line
    → c.start_line ≤ c.end_line
    → IsRange (c.page_start, c.page_end)
    → any (misses c.start_offset c.end_offset) c.source_positions ≡ false
    → validate_chunk c ≡ ok tt
unfolding validate_chunk
chunk_tests c entry path text offsets line lines range positions =
    ground (arith, range_tests (c.page_start, c.page_end) range, filled_text c.text text)

module _ (uuid5 : ChunkIds) (d : Document) (max_chars : ℕ) where
  -- a chunk of a slice: where it stands, what it holds and how long it is
  pub record IsChunk (index start : ℕ) (c : Chunk) : Type 0 where
    pub numbered : c.chunk_index ≡ index
    pub identified : c.chunk_id ≡ uuid5 d.document_id d.source_version index
    pub starts : c.start_offset ≡ start
    pub not_empty : start < c.end_offset
    pub bounded : c.end_offset ≤ start + max_chars
    pub held : c.text ≡ slice start c.end_offset d.normalized_text
    pub valid : validate_chunk c ≡ ok tt

  -- chunks that follow each other without a gap, from an index and an offset to an offset
  abbrev pub Covers : ℕ → ℕ → ℕ → List Chunk → Type 0
  Covers index start end [] = start ≡ end
  Covers index start end (c ∷ chunks) =
      IsChunk index start c × Covers (suc index) c.end_offset end chunks

  moved :
      {index other start place : ℕ} {c : Chunk}
      → index ≡ other
      → start ≡ place
      → IsChunk index start c
      → IsChunk other place c
  moved {index} {other} {start} {place} {c} e f k =
      subst (λ i. IsChunk i place c) e (subst (λ p. IsChunk index p c) f k)

  Covers-append_one :
      (index start middle : ℕ) (chunks : List Chunk) (c : Chunk)
      → Covers index start middle chunks
      → IsChunk (index + length chunks) middle c
      → Covers index start c.end_offset (chunks ++ c ∷ [])
  Covers-append_one index start middle [] c h k = (moved (omega arith) (sym h) k, refl)
  Covers-append_one index start middle (x ∷ chunks) c h k = (
    h.0,
    Covers-append_one (suc index) x.end_offset middle chunks c h.1 (moved (omega arith) refl k),
  )

  -- the chunks of a state cover the text up to an offset, and are counted
  pub record IsCovered (s : ChunkState) (end : ℕ) : Type 0 where
    pub covered : Covers 0 0 end s.chunks
    pub counted : s.next_chunk_index ≡ length s.chunks

  new_chunk-IsChunk :
      (index start end start_line end_line : ℕ)
      → IsDocument d
      → start < end
      → end ≤ start + max_chars
      → end ≤ length d.normalized_text
      → 1 ≤ start_line
      → start_line ≤ end_line
      → IsChunk index start (new_chunk uuid5 d max_chars index start end start_line end_line)
  unfolding new_chunk source_positions_for_offsets
  new_chunk-IsChunk index start end start_line end_line doc lt bound fits line lines = record {
    numbered = refl;
    identified = refl;
    starts = refl;
    not_empty = lt;
    bounded = bound;
    held = refl;
    valid =
        chunk_tests (new_chunk uuid5 d max_chars index start end start_line end_line) doc.has_entry
          doc.good_path (omega (arith, length-slice start end d.normalized_text (omega arith) fits))
          lt line lines (page_range_for_offsets-IsRange d start end doc.good_pages)
          (no_miss start end d.source_positions);
  }

  abbrev pub appended : ChunkState → Chunk → ChunkState
  appended s c = record s { chunks = s.chunks ++ c ∷ []; next_chunk_index = suc s.next_chunk_index }

  append_chunk-valid :
      (s : ChunkState) (start end start_line end_line : ℕ)
      → let c = new_chunk uuid5 d max_chars s.next_chunk_index start end start_line end_line in
        (validate_chunk c ≡ ok tt)
        → append_chunk uuid5 d max_chars s start end start_line end_line ≡ ok (appended s c)
  unfolding append_chunk
  append_chunk-valid s start end start_line end_line h = rw (append_chunk, h) refl

  -- A chunk is appended to a state that covers the text up to its start.
  pub append_chunk-IsCovered :
      (s : ChunkState) (start end start_line end_line : ℕ)
      → IsDocument d
      → IsCovered s start
      → start < end
      → end ≤ start + max_chars
      → end ≤ length d.normalized_text
      → 1 ≤ start_line
      → start_line ≤ end_line
      → let t =
          appended s
            (new_chunk uuid5 d max_chars s.next_chunk_index start end start_line end_line) in
        (append_chunk uuid5 d max_chars s start end start_line end_line ≡ ok t) × IsCovered t end
  unfolding new_chunk
  append_chunk-IsCovered s start end start_line end_line doc done lt bound fits line lines =
      let c = new_chunk uuid5 d max_chars s.next_chunk_index start end start_line end_line in
      let good =
        new_chunk-IsChunk s.next_chunk_index start end start_line end_line doc lt bound fits line
          lines in
      (
        append_chunk-valid s start end start_line end_line good.valid,
        record {
          covered =
              (Covers-append_one 0 0 start s.chunks c done.covered
                (moved (omega (arith, done.counted)) refl good));
          counted = omega (arith, done.counted, length-append s.chunks (c ∷ []));
        },
      )

  -- All segments of a long line are appended: as much fuel as characters is enough.
  pub append_segments-IsCovered :
      (fuel : ℕ) (s : ChunkState) (start line_end line : ℕ)
      → IsDocument d
      → 1 ≤ max_chars
      → 1 ≤ line
      → line_end ≤ length d.normalized_text
      → line_end ≤ start + fuel
      → IsCovered s (min start line_end)
      → (t : ChunkState) × (append_segments uuid5 d max_chars fuel s start line_end line ≡ ok t)
        × IsCovered t line_end
        × (t.current_start ≡ s.current_start)
        × (t.offset ≡ s.offset)
  unfolding append_segments
  append_segments-IsCovered zero s start line_end line doc pos one fits enough done =
      (s, refl, subst (λ end. IsCovered s end) (ground arith) done, refl, refl)
  append_segments-IsCovered (suc fuel) s start line_end line doc pos one fits enough done =
      elim (Bool-cases (ltb start line_end)) [
        | inl e ↦
            let end = min (start + max_chars) line_end in
            let (step, now) =
              append_chunk-IsCovered s start end line line doc
                (subst (λ place. IsCovered s place) (ground arith) done) (ground arith)
                (ground arith) (ground arith) one (omega arith) in
            let next =
              appended s (new_chunk uuid5 d max_chars s.next_chunk_index start end line line) in
            let (t, run, last, same, place) =
              append_segments-IsCovered fuel next (start + max_chars) line_end line doc pos one fits
                (omega arith) now in
            (t, rw (append_segments, e, step) run, last, same, place)
        | inr e ↦ (
          s,
          rw (append_segments, e) refl,
          subst (λ place. IsCovered s place) (ground arith) done,
          refl,
          refl,
        )
      ]
