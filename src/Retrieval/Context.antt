-- ===== src/Retrieval/Context.antt =====
-- The contracts RetrievedChunk and RetrievalContext of backend/app/document_contracts.py, and
-- build_retrieval_context_from_records of backend/app/retrieval_context.py over rows of
-- backend/app/models.py. The JSON parser and the hash of a snapshot are parameters.
use file_nest.Base.{
  ℕ, Bool, true, false, not, ◌&&◌, ◌||◌, Option, none, some, List, [], ◌∷◌, map, codes, Result, ok,
  ◌>>=◌, ◌>>◌, raise_if, any, all, length, leb, ltb, ◌==◌, is_some, is_none, has_duplicates,
}
use file_nest.FilePath.{Text, text_eq}
use file_nest.OperationPlan.{is_lower, is_digit, is_code_char, is_hex}
use file_nest.PathPolicy.{starts_with}
use file_nest.Document.{
  DocumentError, bad_field, chunk_offsets, chunk_lines, chunk_pages_incomplete,
  chunk_pages_reversed, chunk_position, DocumentPosition, validate_source_relative_path, is_zero,
  is_empty, pages_reversed, misses, drop,
}

-- `[a-z0-9_-]`
abbrev pub is_id_char : ℕ → Bool
is_id_char c = is_code_char c || c == b'-'

-- `^[a-z0-9][a-z0-9_-]{0,127}$`
unfoldable pub is_chunk_id : Text → Bool
is_chunk_id [] = false
is_chunk_id (c ∷ rest) = (is_lower c || is_digit c) && leb (length rest) 127 && all is_id_char rest

abbrev pub cite : Text
cite = codes "cite_"

-- `^cite_[a-z0-9][a-z0-9_-]{0,127}$`
unfoldable pub is_citation_id : Text → Bool
is_citation_id id = starts_with cite id && is_chunk_id (drop 5 id)

-- `^[0-9a-f]{64}$`
abbrev pub is_sha256 : Text → Bool
is_sha256 digest = length digest == 64 && all is_hex digest

abbrev pub is_optional_sha256 : Option Text → Bool
is_optional_sha256 none = true
is_optional_sha256 (some digest) = is_sha256 digest

pub record RetrievedChunk : Type 0 where
  pub workspace_id : ℕ
  pub document_id : Text
  pub chunk_id : Text
  pub citation_id : Text
  pub file_id : ℕ
  pub source_relative_path : Text
  pub text : Text
  pub chunk_index : ℕ
  pub source_version : Option Text
  pub source_updated_at : Option ℕ
  pub indexed_at : Option ℕ
  pub score : ℕ
  pub start_offset : ℕ
  pub end_offset : ℕ
  pub start_line : ℕ
  pub end_line : ℕ
  pub page_start : Option ℕ
  pub page_end : Option ℕ
  pub source_positions : List DocumentPosition

-- the fields of `RetrievedChunk`
abbrev pub has_valid_fields : RetrievedChunk → Bool
has_valid_fields c =
    not (c.workspace_id == 0 || c.file_id == 0 || c.score == 0 || c.end_offset == 0)
    && not (is_empty c.text || c.start_line == 0 || c.end_line == 0)
    && not (is_zero c.page_start || is_zero c.page_end)
    && is_chunk_id c.document_id
    && is_chunk_id c.chunk_id
    && is_citation_id c.citation_id
    && is_optional_sha256 c.source_version

-- `RetrievedChunk(…)`: the fields and `validate_provenance`
unfoldable pub validate_retrieved_chunk : RetrievedChunk → Result DocumentError RetrievedChunk
validate_retrieved_chunk c = do
  raise_if (not (has_valid_fields c)) bad_field
  path ← validate_source_relative_path c.source_relative_path
  raise_if (leb c.end_offset c.start_offset) chunk_offsets
  raise_if (ltb c.end_line c.start_line) chunk_lines
  raise_if
      ((is_none c.page_start && is_some c.page_end) || (is_some c.page_start && is_none c.page_end))
      chunk_pages_incomplete
  raise_if (pages_reversed c.page_start c.page_end) chunk_pages_reversed
  raise_if (any (misses c.start_offset c.end_offset) c.source_positions) chunk_position
  ok c

pub record RetrievalContext : Type 0 where
  pub workspace_id : ℕ
  pub query : Text
  pub total : ℕ
  pub top_k : ℕ
  pub has_more : Bool
  pub retrieved_at : ℕ
  pub chunks : List RetrievedChunk
  pub snapshot_hash : Option Text

pub data SnapshotError : Type 0 where
  bad_snapshot_field more_than_top_k more_than_total repeated_chunk_id : SnapshotError
  repeated_citation_id chunk_outside_workspace wrong_snapshot_hash : SnapshotError

abbrev pub chunk_ids : List RetrievedChunk → List Text
chunk_ids chunks = map (λ (c : RetrievedChunk). c.chunk_id) chunks

abbrev pub citations : List RetrievedChunk → List Text
citations chunks = map (λ (c : RetrievedChunk). c.citation_id) chunks

abbrev pub hash_differs : Option Text → Text → Bool
hash_differs none computed_hash = false
hash_differs (some known) computed_hash = not (text_eq known computed_hash)

-- the model without its `snapshot_hash`, which is what is hashed
abbrev pub unsigned : RetrievalContext → RetrievalContext
unsigned c = record c { snapshot_hash = none }

-- `RetrievalContext(…)`: the fields and `validate_snapshot`, which writes the hash
unfoldable pub validate_snapshot :
    (RetrievalContext → Text) → RetrievalContext → Result SnapshotError RetrievalContext
validate_snapshot hash c = do
  raise_if (c.workspace_id == 0 || is_empty c.query || ltb 200 (length c.query)) bad_snapshot_field
  raise_if (c.top_k == 0 || ltb 10 c.top_k || not (is_optional_sha256 c.snapshot_hash))
      bad_snapshot_field
  raise_if (ltb c.top_k (length c.chunks)) more_than_top_k
  raise_if (ltb c.total (length c.chunks)) more_than_total
  raise_if (has_duplicates text_eq (chunk_ids c.chunks)) repeated_chunk_id
  raise_if (has_duplicates text_eq (citations c.chunks)) repeated_citation_id
  raise_if (any (λ (k : RetrievedChunk). not (k.workspace_id == c.workspace_id)) c.chunks)
      chunk_outside_workspace
  let computed_hash = hash (unsigned c)
  raise_if (hash_differs c.snapshot_hash computed_hash) wrong_snapshot_hash
  ok (record c { snapshot_hash = some computed_hash })

-- `has_complete_source_versions`
unfoldable pub has_complete_source_versions : RetrievalContext → Bool
has_complete_source_versions c =
    not (is_empty c.chunks) && all (λ (k : RetrievedChunk). is_some k.source_version) c.chunks
