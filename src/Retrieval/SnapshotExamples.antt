-- ===== src/Retrieval/SnapshotExamples.antt =====
-- A snapshot of one row, and rows that backend/app/retrieval_context.py refuses.
use file_nest.Base.{
  ◌≡◌, refl, true, false, Option, none, some, List, [], ◌∷◌, ok, err, codes, has_duplicates,
}
use file_nest.FilePath.{
  Text, text_eq, strip, strip_left, is_space, posix_text, pure_posix_path, split_root, split,
  keep_parts, join, has_backslash, has_windows_drive,
}
use file_nest.PathPolicy.{starts_with}
use file_nest.Document.{DocumentPosition, validate_source_relative_path, validate_position}
use file_nest.Retrieval.{
  RetrievalContext, Row, ChunkRecord, DocumentRecord, validate_snapshot, validate_retrieved_chunk,
  load_source_positions, retrieved_chunk_from_record, retrieved_chunks,
  build_retrieval_context_from_records, new_retrieved_chunk, is_chunk_id, is_citation_id,
  is_mismatched, has_complete_source_versions, source_mismatch, invalid_snapshot, invalid_positions,
}
use file_nest.Retrieval.Snapshot.{Snapshot, build_retrieval_context-Snapshot}

-- what a test of a snapshot computes with
runs : Unit {0}
unfolding text_eq strip strip_left is_space posix_text pure_posix_path split_root split keep_parts
    join has_backslash has_windows_drive starts_with validate_source_relative_path validate_position
    validate_snapshot validate_retrieved_chunk load_source_positions retrieved_chunk_from_record
    retrieved_chunks build_retrieval_context_from_records is_chunk_id is_citation_id is_mismatched
    has_duplicates has_complete_source_versions
runs = tt

abbrev pub digest : Text
digest = codes "0123456789abcdef0123456789abcdef0123456789abcdef0123456789abcdef"

-- a hash, and a parser that reads no positions, for the tests
abbrev pub hash : RetrievalContext → Text
hash context = digest

abbrev no_positions : Text → Option (List DocumentPosition)
no_positions json = none

abbrev pub chunk : ChunkRecord
chunk = record {
  chunk_id = codes "c1";
  document_id = codes "d1";
  file_entry_id = 4;
  source_relative_path = codes "notes/a.md";
  chunk_index = 0;
  text = codes "one two";
  start_offset = 0;
  end_offset = 7;
  start_line = 1;
  end_line = 1;
  source_positions_json = none;
  page_start = none;
  page_end = none;
}

abbrev pub document : DocumentRecord
document = record {
  document_id = codes "d1";
  workspace_id = 2;
  file_entry_id = 4;
  source_relative_path = codes "notes/a.md";
  source_version = some digest;
  source_updated_at = none;
  indexed_at = some 30;
}

abbrev pub row : Row
row = record { chunk = chunk; document = document; score = 3 }

abbrev pub found : RetrievalContext
found = record {
  workspace_id = 2;
  query = codes "two";
  total = 1;
  top_k = 5;
  has_more = false;
  retrieved_at = 40;
  chunks = new_retrieved_chunk 2 row [] ∷ [];
  snapshot_hash = some digest;
}

built :
    build_retrieval_context_from_records no_positions hash 2
      (codes "two")
      (row ∷ [])
      1
      5
      false
      40
      none
    ≡ ok found
unfolding runs
built = refl

-- a document of another workspace
foreign_row : retrieved_chunk_from_record no_positions hash 3 row ≡ err source_mismatch
unfolding runs
foreign_row = refl

-- positions that cannot be read
unread_positions :
    load_source_positions no_positions hash (some (codes "[")) ≡ err invalid_positions
unfolding runs
unread_positions = refl

-- the same chunk twice
repeated_row :
    build_retrieval_context_from_records no_positions hash 2
      (codes "two")
      (row ∷ row ∷ [])
      2
      5
      false
      40
      none
    ≡ err invalid_snapshot
unfolding runs
repeated_row = refl

complete : has_complete_source_versions found ≡ true
unfolding runs
complete = refl

build_retrieval_context-Snapshot_example : Snapshot hash 2 (row ∷ []) 1 5 found
build_retrieval_context-Snapshot_example =
    build_retrieval_context-Snapshot no_positions hash 2 (codes "two") (row ∷ []) 1 5 false 40 none
      found built
