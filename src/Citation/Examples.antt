-- ===== src/Citation/Examples.antt =====
-- Answers with citations, and what `bind_citations` of backend/app/citation_runtime.py makes of them.
use file_nest.Base.{
  ◌≡◌, refl, true, false, none, some, List, [], ◌∷◌, Result, ok, codes, decimal, decimal_from,
}
use file_nest.FilePath.{Text, text_eq}
use file_nest.PathPolicy.{starts_with}
use file_nest.Retrieval.{is_chunk_id, is_citation_id}
use file_nest.Retrieval.SnapshotExamples.{found, digest}
use file_nest.Citation.{
  CitationBinding, BindingError, Versions, bound, before_bracket, any_double_bracket,
  citation_token, matches_from, unique_from, extract_citation_ids, malformed_ids, trim_left, trim,
  claim_text, claims_from, parse_citation_claims, find_version, has_version_key, current_version,
  has_source_position, find_chunk, chunk_reasons, know_chunks, know_contexts, version_reasons,
  source_reasons, citation_problems, expected_workspace_id, answer_reasons, reasons_of,
  bind_citations,
}
use file_nest.Citation.Grounded.{Grounded, bind_citations-Grounded}

-- what a test of a binding computes with
runs : Unit {0}
unfolding text_eq decimal decimal_from starts_with is_chunk_id is_citation_id before_bracket
    any_double_bracket citation_token matches_from unique_from extract_citation_ids malformed_ids
    trim_left trim claim_text claims_from parse_citation_claims find_version has_version_key
    current_version has_source_position find_chunk chunk_reasons know_chunks know_contexts
    version_reasons source_reasons citation_problems expected_workspace_id answer_reasons reasons_of
    bind_citations
runs = tt

abbrev answer : Text
answer = codes "It is two [[cite_c1]]."

abbrev versions : Versions
versions = (codes "c1", some digest) ∷ []

abbrev binding : CitationBinding
binding = record {
  workspace_id = 2;
  status = bound;
  navigation_only = false;
  citation_ids = codes "cite_c1" ∷ [];
  claims =
      (record {
        claim_id = codes "claim_1";
        text = codes "It is two";
        citation_ids = codes "cite_c1" ∷ [];
      })
      ∷ [];
  invalid_citation_ids = [];
  invalid_reasons = [];
  snapshot_hash = some digest;
}

bound_answer : bind_citations answer (found ∷ []) none (some versions) true false ≡ ok binding
unfolding runs
bound_answer = refl

-- the reasons against an answer
abbrev reasons_against : Result BindingError CitationBinding → List Text
reasons_against (ok b) = b.invalid_reasons
reasons_against _ = []

unknown_citation :
    reasons_against (bind_citations (codes "[[cite_x]] [[y]]") (found ∷ []) none none true false)
    ≡ codes "unknown_citation_id" ∷ codes "malformed_citation_token" ∷ []
unfolding runs
unknown_citation = refl

-- the current version of the document is none, so that of the chunk is not read
deleted_source :
    reasons_against
      (bind_citations answer (found ∷ []) none (some ((codes "d1", none) ∷ versions)) true false)
    ≡ codes "source_deleted" ∷ []
unfolding runs
deleted_source = refl

twice :
    reasons_against (bind_citations answer (found ∷ found ∷ []) none none true false)
    ≡ codes "duplicate_citation_id" ∷ []
unfolding runs
twice = refl

bind_citations-Grounded_example :
    Grounded answer (found ∷ []) (some versions) 2 (codes "cite_c1" ∷ [])
bind_citations-Grounded_example =
    bind_citations-Grounded answer (found ∷ []) none (some versions) true false binding bound_answer
      refl
