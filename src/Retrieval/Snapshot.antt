-- ===== src/Retrieval/Snapshot.antt =====
-- What backend/app/retrieval_context.py lets through as a snapshot of the evidence of an answer.
use file_nest.Base.{
  ℕ, ◌≡◌, refl, sym, ap, suc, ◌≤◌, Bool, true, false, ◌==◌, Option, some, List, [], ◌∷◌, ◌++◌, map,
  arith, Result, ok, err, ◌>>=◌, all, length, ltb, has_duplicates, has_duplicates_iff, Distinct,
  >>=-eq-ok, ok-injective,
}
use file_nest.FilePath.{Text, text_eq}
use file_nest.FilePath.Laws.{text_eq_iff}
use file_nest.Document.{DocumentPosition}
use file_nest.Retrieval.{
  RetrievedChunk, RetrievalContext, RetrievalContextError, Row, validate_snapshot,
  validate_retrieved_chunk, new_retrieved_chunk, retrieved_chunk_from_record, retrieved_chunks,
  is_mismatched, load_source_positions, or_raise, invalid_snapshot, invalid_provenance,
  build_retrieval_context_from_records, cite, chunk_ids, citations, unsigned,
}

-- a row of the workspace: its document is, and its chunk is one of this document and file
pub record Owned (workspace_id : ℕ) (row : Row) : Type 0 where
  pub workspace : row.document.workspace_id ≡ workspace_id
  pub document : row.chunk.document_id ≡ row.document.document_id
  pub file : row.chunk.file_entry_id ≡ row.document.file_entry_id
  pub path : row.chunk.source_relative_path ≡ row.document.source_relative_path

-- a chunk that quotes the row
pub record Quotes (row : Row) (k : RetrievedChunk) : Type 0 where
  pub id : k.chunk_id ≡ row.chunk.chunk_id
  pub citation : k.citation_id ≡ cite ++ row.chunk.chunk_id
  pub source : k.source_relative_path ≡ row.document.source_relative_path
  pub version : k.source_version ≡ row.document.source_version
  pub text : k.text ≡ row.chunk.text
  pub start : k.start_offset ≡ row.chunk.start_offset
  pub end : k.end_offset ≡ row.chunk.end_offset

-- one chunk for each row, in their order, and every row is of the workspace
abbrev pub FromRows : ℕ → List Row → List RetrievedChunk → Type 0
FromRows workspace_id [] [] = Unit {0}
FromRows workspace_id (row ∷ rows) (k ∷ chunks) =
    Owned workspace_id row × Quotes row k × FromRows workspace_id rows chunks
FromRows workspace_id _ _ = ⊥

-- a snapshot within its bounds, whose chunks are those of the rows
pub record Snapshot (hash : RetrievalContext → Text) (workspace_id : ℕ) (rows : List Row)
    (total top_k : ℕ) (c : RetrievalContext) : Type 0 where
  pub ids : chunk_ids c.chunks ≡ map (λ (row : Row). row.chunk.chunk_id) rows
  pub cited : citations c.chunks ≡ map (λ (row : Row). cite ++ row.chunk.chunk_id) rows
  pub quoted : FromRows workspace_id rows c.chunks
  pub within_top_k : length rows ≤ top_k
  pub at_most_ten : top_k ≤ 10
  pub within_total : length rows ≤ total
  pub distinct : Distinct (citations c.chunks)
  pub inside : all (λ (k : RetrievedChunk). k.workspace_id == workspace_id) c.chunks ≡ true
  pub nonempty : all (λ (k : RetrievedChunk). ltb k.start_offset k.end_offset) c.chunks ≡ true
  pub signed : c.snapshot_hash ≡ some (hash (unsigned c))

ok_of_or_raise :
    {E A : Type 0} (e : RetrievalContextError) (r : Result E A) {a : A}
    → or_raise e r ≡ ok a
    → r ≡ ok a
ok_of_or_raise e (ok value) h = ground arith
ok_of_or_raise e (err _) h = absurd (cc h)

validated_chunk :
    (k : RetrievedChunk) {c : RetrievedChunk}
    → validate_retrieved_chunk k ≡ ok c
    → (c ≡ k) × (ltb k.start_offset k.end_offset ≡ true)
unfolding validate_retrieved_chunk
validated_chunk k {c} h = ground arith

Owned-row :
    (workspace_id : ℕ) (row : Row) → is_mismatched workspace_id row ≡ false → Owned workspace_id row
unfolding is_mismatched
Owned-row workspace_id row h =
    let document : text_eq row.chunk.document_id row.document.document_id ≡ true = ground arith in
    let path : text_eq row.chunk.source_relative_path row.document.source_relative_path ≡ true =
      ground arith in
    record {
      workspace = ground arith;
      document = (text_eq_iff row.chunk.document_id row.document.document_id).0 document;
      file = ground arith;
      path = (text_eq_iff row.chunk.source_relative_path row.document.source_relative_path).0 path;
    }

module _ (load : Text → Option (List DocumentPosition)) (hash : RetrievalContext → Text) where
  chunk_of_row :
      (workspace_id : ℕ) (row : Row) {c : RetrievedChunk}
      → retrieved_chunk_from_record load hash workspace_id row ≡ ok c
      → (c.chunk_id ≡ row.chunk.chunk_id)
        × (c.citation_id ≡ cite ++ row.chunk.chunk_id)
        × (ltb c.start_offset c.end_offset ≡ true)
        × ((c.workspace_id == workspace_id) ≡ true)
        × Owned workspace_id row
        × Quotes row c
  unfolding retrieved_chunk_from_record
  chunk_of_row workspace_id row {c} h =
      let (positions, loaded, made) =
        >>=-eq-ok (load_source_positions load hash row.chunk.source_positions_json)
          (λ positions.
            or_raise invalid_provenance
              (validate_retrieved_chunk (new_retrieved_chunk workspace_id row positions)))
          {last = c} (ground arith) in
      let (same, increasing) = validated_chunk (new_retrieved_chunk workspace_id row positions) (
        ok_of_or_raise invalid_provenance
          (validate_retrieved_chunk (new_retrieved_chunk workspace_id row positions)) made) in
      let matched : is_mismatched workspace_id row ≡ false = ground arith in
      let owned = Owned-row workspace_id row matched in
      rw same (
        refl,
        refl,
        increasing,
        ground arith,
        owned,
        record {
          id = refl;
          citation = refl;
          source = owned.path;
          version = refl;
          text = refl;
          start = refl;
          end = refl;
        },
      )

  -- the chunks of the rows, one for each and in their order
  record Taken (workspace_id : ℕ) (rows : List Row) (chunks : List RetrievedChunk) : Type 0 where
    ids : chunk_ids chunks ≡ map (λ (row : Row). row.chunk.chunk_id) rows
    cited : citations chunks ≡ map (λ (row : Row). cite ++ row.chunk.chunk_id) rows
    quoted : FromRows workspace_id rows chunks
    count : length chunks ≡ length rows
    inside : all (λ (k : RetrievedChunk). k.workspace_id == workspace_id) chunks ≡ true
    nonempty : all (λ (k : RetrievedChunk). ltb k.start_offset k.end_offset) chunks ≡ true

  chunks_of_rows :
      (workspace_id : ℕ) (rows : List Row) {chunks : List RetrievedChunk}
      → retrieved_chunks load hash workspace_id rows ≡ ok chunks
      → Taken workspace_id rows chunks
  unfolding retrieved_chunks
  chunks_of_rows workspace_id [] {chunks} h = rw (sym (ok-injective h)) (record {
    ids = refl;
    cited = refl;
    quoted = tt;
    count = refl;
    inside = refl;
    nonempty = refl;
  })
  chunks_of_rows workspace_id (row ∷ rows) {chunks} h =
      let (chunk, first, later) =
        >>=-eq-ok (retrieved_chunk_from_record load hash workspace_id row)
          (λ chunk. retrieved_chunks load hash workspace_id rows >>= λ chunks. ok (chunk ∷ chunks))
          h in
      let (rest, others, both) =
        >>=-eq-ok (retrieved_chunks load hash workspace_id rows) (λ chunks. ok (chunk ∷ chunks))
          later in
      let (id, citation, increasing, here, owned, quotes) = chunk_of_row workspace_id row first in
      let taken = chunks_of_rows workspace_id rows others in
      rw (sym (ok-injective both)) (record {
        ids = rw (id, taken.ids) refl;
        cited = rw (citation, taken.cited) refl;
        quoted = (owned, quotes, taken.quoted);
        count = ap suc taken.count;
        inside = rw here taken.inside;
        nonempty = rw increasing taken.nonempty;
      })

  validated_snapshot :
      (c : RetrievalContext) {d : RetrievalContext}
      → validate_snapshot hash c ≡ ok d
      → (d ≡ record c { snapshot_hash = some (hash (unsigned c)) })
        × (length c.chunks ≤ c.top_k)
        × (c.top_k ≤ 10)
        × (length c.chunks ≤ c.total)
        × (has_duplicates text_eq (citations c.chunks) ≡ false)
  unfolding validate_snapshot
  validated_snapshot c {d} h = ground arith

  -- A context is built only from rows whose documents are all of the workspace and whose chunks are of
  -- these documents, files and paths. It has one chunk for each row, in the order of the rows, which quotes
  -- the row and is not empty: no more than top_k, which is at most 10, and no more than total. The citations
  -- are the ids of the rows' chunks with `cite_` before them and all distinct, and the hash is that of this
  -- context.
  pub build_retrieval_context-Snapshot :
      (workspace_id : ℕ) (query : Text) (rows : List Row) (total top_k : ℕ) (has_more : Bool)
      (observed_at : ℕ) (snapshot_hash : Option Text) (c : RetrievalContext)
      → build_retrieval_context_from_records load hash workspace_id query rows total top_k has_more
          observed_at snapshot_hash
        ≡ ok c
      → Snapshot hash workspace_id rows total top_k c
  unfolding build_retrieval_context_from_records
  build_retrieval_context-Snapshot workspace_id query rows total top_k has_more at digest c h =
      let made : List RetrievedChunk → RetrievalContext = λ chunks. record {
        workspace_id = workspace_id;
        query = query;
        total = total;
        top_k = top_k;
        has_more = has_more;
        retrieved_at = at;
        chunks = chunks;
        snapshot_hash = digest;
      } in
      let (chunks, found, built) =
        >>=-eq-ok (retrieved_chunks load hash workspace_id rows)
          (λ chunks. or_raise invalid_snapshot (validate_snapshot hash (made chunks))) h in
      let taken = chunks_of_rows workspace_id rows found in
      let (same, within, ten, all_of, single) =
        validated_snapshot (made chunks)
          (ok_of_or_raise invalid_snapshot (validate_snapshot hash (made chunks)) built) in
      rw same (record {
        ids = taken.ids;
        cited = taken.cited;
        quoted = taken.quoted;
        within_top_k = omega (arith, taken.count, within);
        at_most_ten = ten;
        within_total = omega (arith, taken.count, all_of);
        distinct = (has_duplicates_iff text_eq text_eq_iff (citations chunks)).0 single;
        inside = taken.inside;
        nonempty = taken.nonempty;
        signed = refl;
      })
