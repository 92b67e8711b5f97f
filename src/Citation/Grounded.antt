-- ===== src/Citation/Grounded.antt =====
-- What an answer that `bind_citations` of backend/app/citation_runtime.py binds is grounded in.
use mathlib.Core.List.{Memᴰ}
use file_nest.Base.{
  ℕ, ◌≡◌, refl, sym, ◌∙◌, ◌≢◌, Bool, true, Option, some, is_some, List, [], ◌∷◌, ◌++◌, arith, All,
  all, ok,
}
use file_nest.FilePath.{Text}
use file_nest.Retrieval.{RetrievedChunk, RetrievalContext, is_citation_id}
use file_nest.Citation.{
  CitationBinding, Versions, bound, unique_values, values, find_matches, any_double_bracket,
  extract_citation_ids, has_version_key, current_version, has_source_position, find_chunk,
  know_contexts, source_reasons, with_id, citation_problems, problem_reasons, expected_workspace_id,
  answer_reasons, binding_status, reasons_of, bind_citations,
}
use file_nest.Citation.Known.{
  append-eq-nil, chunks_of, find_chunk-cited, contexts_inside, known_chunk, contexts_entered,
}
use file_nest.Citation.Reasons.{
  unique_values-eq-nil, bound-cases, version_agrees, source_found, wellformed_answer,
}

-- the one chunk of the contexts that a citation names
pub record Source (contexts : List RetrievalContext) (versions : Option Versions) (workspace_id : ℕ)
    (id : Text) : Type 0 where
  pub chunk : RetrievedChunk
  pub retrieved : Memᴰ chunk (chunks_of contexts)
  pub cited : chunk.citation_id ≡ id
  pub only :
      (other : RetrievedChunk)
      → Memᴰ other (chunks_of contexts)
      → other.citation_id ≡ id
      → other ≡ chunk
  pub inside : chunk.workspace_id ≡ workspace_id
  pub placed : has_source_position chunk ≡ true
  pub versioned : is_some chunk.source_version ≡ true
  pub fresh :
      (known : Versions)
      → versions ≡ some known
      → has_version_key chunk known ≡ true
      → current_version chunk known ≡ chunk.source_version

pub record Grounded (answer : Text) (contexts : List RetrievalContext) (versions : Option Versions)
    (workspace_id : ℕ) (citation_ids : List Text) : Type 0 where
  pub cites : citation_ids ≢ []
  pub sources : All (Source contexts versions workspace_id) citation_ids
  pub inside :
      (context : RetrievalContext) → Memᴰ context contexts → context.workspace_id ≡ workspace_id
  pub wellformed : all is_citation_id (values (find_matches any_double_bracket answer)) ≡ true

module _ (contexts : List RetrievalContext) (versions : Option Versions) (workspace_id : ℕ)
    (accepted : (know_contexts workspace_id [] contexts).1 ≡ []) where
  Source-of_reasons :
      (id : Text)
      → source_reasons versions (find_chunk id (know_contexts workspace_id [] contexts).0) ≡ []
      → Source contexts versions workspace_id id
  Source-of_reasons id h =
      let (c, found, placed, versioned, fresh) =
        source_found versions (find_chunk id (know_contexts workspace_id [] contexts).0) h in
      let retrieved = known_chunk workspace_id id contexts c found in
      record {
        chunk = c;
        retrieved = retrieved;
        cited = find_chunk-cited id (know_contexts workspace_id [] contexts).0 c found;
        only = λ other m e.
            let entered = (contexts_entered workspace_id [] contexts other accepted m).0 in
            let same : find_chunk id (know_contexts workspace_id [] contexts).0 ≡ some other =
              rw (sym e) entered in
            cc (found, same);
        inside = (contexts_entered workspace_id [] contexts c accepted retrieved).1;
        placed = placed;
        versioned = versioned;
        fresh = λ known e key. version_agrees known c (rw (sym e) fresh) key;
      }

  no_problems :
      (id : Text) (reasons : List Text) (others : List (Text × Text))
      → problem_reasons (with_id id reasons ++ others) ≡ []
      → (reasons ≡ []) × (problem_reasons others ≡ [])
  no_problems id [] others h = (refl, h)
  no_problems id (r ∷ reasons) others h = absurd (cc h)

  Sources-of_problems :
      (ids : List Text)
      → problem_reasons (citation_problems (know_contexts workspace_id [] contexts).0 versions ids)
        ≡ []
      → All (Source contexts versions workspace_id) ids
  unfolding citation_problems
  Sources-of_problems [] h = tt
  Sources-of_problems (id ∷ ids) h =
      let known = (know_contexts workspace_id [] contexts).0 in
      let (first, later) =
        no_problems id
          (source_reasons versions (find_chunk id (know_contexts workspace_id [] contexts).0))
          (citation_problems (know_contexts workspace_id [] contexts).0 versions ids) h in
      (Source-of_reasons id first, Sources-of_problems ids later)

Grounded-of_reasons :
    (workspace_id : ℕ) (answer : Text) (contexts : List RetrievalContext)
    (versions : Option Versions) (require_citations navigation_only : Bool)
    → reasons_of workspace_id answer contexts versions require_citations navigation_only ≡ []
    → extract_citation_ids answer ≢ []
    → Grounded answer contexts versions workspace_id (extract_citation_ids answer)
unfolding reasons_of
Grounded-of_reasons workspace_id answer contexts versions require navigation h cites =
    let (inner, last) =
      append-eq-nil
        ((know_contexts workspace_id [] contexts).1
          ++ problem_reasons (
              citation_problems (know_contexts workspace_id [] contexts).0 versions
                (extract_citation_ids answer)))
        (answer_reasons answer contexts (extract_citation_ids answer) require navigation) h in
    let (accepted, checked) =
      append-eq-nil (know_contexts workspace_id [] contexts).1
        (problem_reasons (
          citation_problems (know_contexts workspace_id [] contexts).0 versions
            (extract_citation_ids answer)))
        inner in
    record {
      cites = cites;
      sources =
          Sources-of_problems contexts versions workspace_id accepted (extract_citation_ids answer)
            checked;
      inside = λ context m. contexts_inside workspace_id [] contexts context accepted m;
      wellformed =
          wellformed_answer answer contexts (extract_citation_ids answer) require navigation last;
    }

binding_fields :
    (answer : Text) (contexts : List RetrievalContext) (workspace_id : Option ℕ)
    (versions : Option Versions) (require_citations navigation_only : Bool) (b : CitationBinding)
    → bind_citations answer contexts workspace_id versions require_citations navigation_only ≡ ok b
    → (b.workspace_id ≡ expected_workspace_id workspace_id contexts)
      × (b.citation_ids ≡ extract_citation_ids answer)
      × (b.status
          ≡ binding_status
              (unique_values (
                reasons_of
                  (expected_workspace_id workspace_id contexts)
                  answer
                  contexts
                  versions
                  require_citations
                  navigation_only))
              (extract_citation_ids answer))
unfolding bind_citations
binding_fields answer contexts workspace_id versions require navigation b h = ground arith

-- Whenever an answer is bound it cites at least one source, and all it has between double brackets are
-- well-formed citations; each citation names exactly one chunk of the contexts, which is of the workspace,
-- has a place in its source and a version, and where the current versions have a key of the chunk, the
-- first of them has that version. All contexts are of the workspace.
pub bind_citations-Grounded :
    (answer : Text) (contexts : List RetrievalContext) (workspace_id : Option ℕ)
    (versions : Option Versions) (require_citations navigation_only : Bool) (b : CitationBinding)
    → bind_citations answer contexts workspace_id versions require_citations navigation_only ≡ ok b
    → b.status ≡ bound
    → Grounded answer contexts versions b.workspace_id b.citation_ids
bind_citations-Grounded answer contexts workspace_id versions require navigation b h st =
    let expected = expected_workspace_id workspace_id contexts in
    let (ws, ids, status) =
      binding_fields answer contexts workspace_id versions require navigation b h in
    let (reasons, cites) =
      bound-cases
        (unique_values (
          reasons_of (expected_workspace_id workspace_id contexts) answer contexts versions require
            navigation))
        (extract_citation_ids answer) (sym status ∙ st) in
    rw (ws, ids)
      (Grounded-of_reasons expected answer contexts versions require navigation
        (unique_values-eq-nil
          (reasons_of (expected_workspace_id workspace_id contexts) answer contexts versions require
            navigation)
          reasons)
        cites)
