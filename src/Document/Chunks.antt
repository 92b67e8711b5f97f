-- ===== src/Document/Chunks.antt =====
-- `chunk_document` partitions the text of a valid document.
use mathlib.Core.Path.{subst}
use file_nest.Base.{
  ℕ, suc, ◌+◌, ◌≤◌, ◌≡◌, refl, sym, ap, ◌∙◌, false, List, [], ◌∷◌, ◌++◌, arith, ok, length, ◌==◌,
}
use file_nest.FilePath.{Text}
use file_nest.Document.Contracts.{Document, Chunk, validate_document}
use file_nest.Document.Lines.{splitlines}
use file_nest.Document.Chunker.{ChunkIds, chunk_document, initial, slice}
use file_nest.Document.Slices.{splitlines-total, slice-append, slice-all, slice_self}
use file_nest.Document.Segments.{IsDocument, document_of_valid, Covers, IsCovered}
use file_nest.Document.Packing.{flush-Pending, process_lines-goes}

module _ (uuid5 : ChunkIds) (d : Document) (max_chars : ℕ) (doc : IsDocument d)
    (pos : 1 ≤ max_chars) where
  initial-IsCovered : IsCovered uuid5 d max_chars (initial uuid5 d max_chars) 0
  initial-IsCovered = record { covered = refl; counted = refl }

  partition :
      (chunks : List Chunk) × (chunk_document uuid5 d max_chars ≡ ok chunks)
      × Covers uuid5 d max_chars 0 0 (length d.normalized_text) chunks
  unfolding chunk_document
  partition =
      let (sum, filled) = splitlines-total d.normalized_text in
      let (packed, run, place, pending) =
        process_lines-goes uuid5 d max_chars doc pos (initial uuid5 d max_chars) 1
          (splitlines d.normalized_text) (omega arith) filled (omega (arith, sum))
          initial-IsCovered in
      let (last, step, done, _) =
        flush-Pending uuid5 d max_chars doc pos packed packed.offset
          (1 + length (splitlines d.normalized_text)) packed.current_start refl
          (omega (arith, place, sum)) pending in
      let positive : (max_chars == 0) ≡ false = ground arith in
      (
        last.chunks,
        rw (chunk_document, positive, run, step) refl,
        subst (λ end. Covers uuid5 d max_chars 0 0 end last.chunks) (omega (arith, place, sum))
            done.covered,
      )

-- the texts of chunks, one after the other
abbrev pub joined_text : List Chunk → Text
joined_text [] = []
joined_text (c ∷ chunks) = c.text ++ joined_text chunks

module _ (uuid5 : ChunkIds) (d : Document) (max_chars : ℕ) where
  Covers-le :
      (index start end : ℕ) (chunks : List Chunk)
      → Covers uuid5 d max_chars index start end chunks
      → start ≤ end
  Covers-le index start end [] h = omega arith
  Covers-le index start end (c ∷ chunks) h =
      omega (arith, h.0.not_empty, Covers-le (suc index) c.end_offset end chunks h.1)

  joined-Covers :
      (index start end : ℕ) (chunks : List Chunk)
      → Covers uuid5 d max_chars index start end chunks
      → joined_text chunks ≡ slice start end d.normalized_text
  joined-Covers index start end [] h =
      sym (slice_self start d.normalized_text) ∙ ap (λ place. slice start place d.normalized_text) h
  joined-Covers index start end (c ∷ chunks) h =
      rw (h.0.held, joined-Covers (suc index) c.end_offset end chunks h.1)
        (slice-append start c.end_offset end d.normalized_text (omega (arith, h.0.not_empty))
          (Covers-le (suc index) c.end_offset end chunks h.1))

  -- For a valid document and a limit of at least one character, chunking returns chunks that pass their
  -- own validation. They are numbered from 0, each starts where the one before ends, the first at 0 and
  -- the last ends with the text; each holds its slice of the text, of at least one and at most
  -- `max_chars` characters, and their texts, one after the other, are the text.
  pub chunk_document_partitions :
      validate_document d ≡ ok tt
      → 1 ≤ max_chars
      → (chunks : List Chunk) × (chunk_document uuid5 d max_chars ≡ ok chunks)
        × Covers uuid5 d max_chars 0 0 (length d.normalized_text) chunks
        × (joined_text chunks ≡ d.normalized_text)
  chunk_document_partitions valid pos =
      let (chunks, run, covers) = partition uuid5 d max_chars (document_of_valid d valid) pos in
      (
        chunks,
        run,
        covers,
        joined-Covers 0 0 (length d.normalized_text) chunks covers ∙ slice-all d.normalized_text,
      )
