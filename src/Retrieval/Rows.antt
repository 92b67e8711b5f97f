-- ===== src/Retrieval/Rows.antt =====
-- backend/app/retrieval_context.py: from the rows of a query to a RetrievalContext. Times are instants,
-- so `_as_aware` leaves them as they are, and `observed_at` is the time that the caller has chosen.
use file_nest.Base.{
  ℕ, Bool, not, ◌||◌, Option, none, some, List, [], ◌∷◌, ◌++◌, Result, ok, err, ◌>>=◌, ◌>>◌,
  raise_if, ◌==◌,
}
use file_nest.FilePath.{Text, text_eq}
use file_nest.Document.{DocumentPosition, validate_position, validate_each}
use file_nest.Retrieval.Context.{
  RetrievedChunk, RetrievalContext, validate_retrieved_chunk, validate_snapshot, cite,
}

pub record ChunkRecord : Type 0 where
  pub chunk_id : Text
  pub document_id : Text
  pub file_entry_id : ℕ
  pub source_relative_path : Text
  pub chunk_index : ℕ
  pub text : Text
  pub start_offset : ℕ
  pub end_offset : ℕ
  pub start_line : ℕ
  pub end_line : ℕ
  pub source_positions_json : Option Text
  pub page_start : Option ℕ
  pub page_end : Option ℕ

-- the columns of a document that a retrieval reads
pub record DocumentRecord : Type 0 where
  pub document_id : Text
  pub workspace_id : ℕ
  pub file_entry_id : ℕ
  pub source_relative_path : Text
  pub source_version : Option Text
  pub source_updated_at : Option ℕ
  pub indexed_at : Option ℕ

-- a row of the query: a chunk, its document and its score
pub record Row : Type 0 where
  pub chunk : ChunkRecord
  pub document : DocumentRecord
  pub score : ℕ

-- the messages of RetrievalContextError
pub data RetrievalContextError : Type 0 where
  source_mismatch invalid_positions invalid_provenance invalid_snapshot : RetrievalContextError

unfoldable pub is_mismatched : ℕ → Row → Bool
is_mismatched workspace_id row =
    not (row.document.workspace_id == workspace_id)
    || not (text_eq row.chunk.document_id row.document.document_id)
    || not (row.chunk.file_entry_id == row.document.file_entry_id)
    || not (text_eq row.chunk.source_relative_path row.document.source_relative_path)

abbrev pub new_retrieved_chunk : ℕ → Row → List DocumentPosition → RetrievedChunk
new_retrieved_chunk workspace_id row positions = record {
  workspace_id = workspace_id;
  document_id = row.document.document_id;
  chunk_id = row.chunk.chunk_id;
  citation_id = cite ++ row.chunk.chunk_id;
  file_id = row.chunk.file_entry_id;
  source_relative_path = row.chunk.source_relative_path;
  text = row.chunk.text;
  chunk_index = row.chunk.chunk_index;
  source_version = row.document.source_version;
  source_updated_at = row.document.source_updated_at;
  indexed_at = row.document.indexed_at;
  score = row.score;
  start_offset = row.chunk.start_offset;
  end_offset = row.chunk.end_offset;
  start_line = row.chunk.start_line;
  end_line = row.chunk.end_line;
  page_start = row.chunk.page_start;
  page_end = row.chunk.page_end;
  source_positions = positions;
}

-- `except ValidationError`
abbrev pub or_raise {ℓ κ} :
    {E : Type ℓ} {A : Type κ} → RetrievalContextError → Result E A → Result RetrievalContextError A
or_raise e (ok value) = ok value
or_raise e (err _) = err e

abbrev pub or_invalid_positions :
    Option (List DocumentPosition) → Result RetrievalContextError (List DocumentPosition)
or_invalid_positions none = err invalid_positions
or_invalid_positions (some positions) = ok positions

module _ (load_positions : Text → Option (List DocumentPosition))
    (hash : RetrievalContext → Text) where
  unfoldable pub load_source_positions :
      Option Text → Result RetrievalContextError (List DocumentPosition)
  load_source_positions none = ok []
  load_source_positions (some json) = do
    positions ← or_invalid_positions (load_positions json)
    or_raise invalid_positions (validate_each validate_position positions)
    ok positions

  unfoldable pub retrieved_chunk_from_record : ℕ → Row → Result RetrievalContextError RetrievedChunk
  retrieved_chunk_from_record workspace_id row = do
    raise_if (is_mismatched workspace_id row) source_mismatch
    positions ← load_source_positions row.chunk.source_positions_json
    or_raise invalid_provenance
        (validate_retrieved_chunk (new_retrieved_chunk workspace_id row positions))

  -- the tuple of all rows, in their order; the first error ends it
  unfoldable pub retrieved_chunks :
      ℕ → List Row → Result RetrievalContextError (List RetrievedChunk)
  retrieved_chunks workspace_id [] = ok []
  retrieved_chunks workspace_id (row ∷ rows) = do
    chunk ← retrieved_chunk_from_record workspace_id row
    chunks ← retrieved_chunks workspace_id rows
    ok (chunk ∷ chunks)

  unfoldable pub build_retrieval_context_from_records :
      ℕ
      → Text
      → List Row
      → ℕ
      → ℕ
      → Bool
      → ℕ
      → Option Text
      → Result RetrievalContextError RetrievalContext
  build_retrieval_context_from_records workspace_id query rows total top_k has_more observed_at
        snapshot_hash =
      do
        chunks ← retrieved_chunks workspace_id rows
        or_raise invalid_snapshot (
            validate_snapshot hash (record {
              workspace_id = workspace_id;
              query = query;
              total = total;
              top_k = top_k;
              has_more = has_more;
              retrieved_at = observed_at;
              chunks = chunks;
              snapshot_hash = snapshot_hash;
            }))
