-- ===== src/Citation/Binding.antt =====
-- `bind_citations` of backend/app/citation_runtime.py. The dictionary of known chunks is a list, the last
-- assignment first; each citation that is refused goes into the list of problems with its reason.
use file_nest.Base.{
  ℕ, Bool, true, false, not, ◌&&◌, ◌||◌, Option, none, some, List, [], ◌∷◌, ◌++◌, map, codes, any,
  Result, ok, ◌>>◌, raise_if, ltb, leb, ◌==◌, is_some, is_none, if◌then◌else◌,
}
use file_nest.FilePath.{Text, text_eq}
use file_nest.Document.{is_empty}
use file_nest.Retrieval.{RetrievedChunk, RetrievalContext, is_optional_sha256}
use file_nest.Citation.Tokens.{extract_citation_ids, malformed_ids, unique_values}
use file_nest.Citation.Claims.{CitationClaim, parse_citation_claims}

pub data CitationBindingStatus : Type 0 where
  bound unbound invalid : CitationBindingStatus

pub record CitationBinding : Type 0 where
  pub workspace_id : ℕ
  pub status : CitationBindingStatus
  pub navigation_only : Bool
  pub citation_ids : List Text
  pub claims : List CitationClaim
  pub invalid_citation_ids : List Text
  pub invalid_reasons : List Text
  pub snapshot_hash : Option Text

pub data BindingError : Type 0 where
  invalid_binding : BindingError

-- `current_source_versions`
abbrev pub Versions : Type 0
Versions = List (Text × Option Text)

unfoldable pub find_version : Text → Versions → Option (Option Text)
find_version key [] = none
find_version key ((k, version) ∷ versions) =
    let later = find_version key versions in if text_eq key k then some version else later

abbrev pub version_keys : RetrievedChunk → List Text
version_keys c = c.document_id ∷ c.chunk_id ∷ c.citation_id ∷ []

unfoldable pub has_version_key : RetrievedChunk → Versions → Bool
has_version_key c versions = any (λ key. is_some (find_version key versions)) (version_keys c)

abbrev pub first_version : List Text → Versions → Option Text
first_version [] versions = none
first_version (key ∷ keys) versions = elim (find_version key versions) [
  | some version ↦ version
  | none ↦ first_version keys versions
]

unfoldable pub current_version : RetrievedChunk → Versions → Option Text
current_version c versions = first_version (version_keys c) versions

unfoldable pub has_source_position : RetrievedChunk → Bool
has_source_position c =
    (ltb c.start_offset c.end_offset && leb c.start_line c.end_line)
    || is_some c.page_start
    || not (is_empty c.source_positions)

-- `known_chunks.get(citation_id)`
unfoldable pub find_chunk : Text → List RetrievedChunk → Option RetrievedChunk
find_chunk id [] = none
find_chunk id (c ∷ known) =
    let earlier = find_chunk id known in if text_eq c.citation_id id then some c else earlier

abbrev pub when : Bool → Text → List Text
when true reason = reason ∷ []
when false reason = []

unfoldable pub chunk_reasons : ℕ → List RetrievedChunk → RetrievedChunk → List Text
chunk_reasons workspace_id known c =
    when (not (c.workspace_id == workspace_id)) (codes "cross_workspace_source")
    ++ when (is_some (find_chunk c.citation_id known)) (codes "duplicate_citation_id")

-- the loop over the chunks of a context: the known chunks, and the reasons
unfoldable pub know_chunks :
    ℕ → List RetrievedChunk → List RetrievedChunk → List RetrievedChunk × List Text
know_chunks workspace_id known [] = (known, [])
know_chunks workspace_id known (c ∷ chunks) =
    let later = know_chunks workspace_id (c ∷ known) chunks in
    (later.0, chunk_reasons workspace_id known c ++ later.1)

-- the loop over the contexts
unfoldable pub know_contexts :
    ℕ → List RetrievedChunk → List RetrievalContext → List RetrievedChunk × List Text
know_contexts workspace_id known [] = (known, [])
know_contexts workspace_id known (context ∷ contexts) =
    let here = know_chunks workspace_id known context.chunks in
    let later = know_contexts workspace_id here.0 contexts in
    (
      later.0,
      when (not (context.workspace_id == workspace_id)) (codes "cross_workspace_context")
          ++ here.1
          ++ later.1,
    )

abbrev pub is_other_version : Option Text → Text → Bool
is_other_version none current = true
is_other_version (some version) current = not (text_eq version current)

unfoldable pub version_reasons : Option Versions → RetrievedChunk → List Text
version_reasons none c = []
version_reasons (some versions) c = elim (current_version c versions) [
  | some current ↦
      when (is_other_version c.source_version current) (codes "source_version_mismatch")
  | none ↦ when (has_version_key c versions) (codes "source_deleted")
]

-- what is wrong with a citation of a chunk
unfoldable pub source_reasons : Option Versions → Option RetrievedChunk → List Text
source_reasons versions none = codes "unknown_citation_id" ∷ []
source_reasons versions (some c) =
    when (not (has_source_position c)) (codes "citation_without_source_position")
    ++ when (is_none c.source_version) (codes "missing_source_version")
    ++ version_reasons versions c

abbrev pub with_id : Text → List Text → List (Text × Text)
with_id id reasons = map (λ reason. (id, reason)) reasons

-- the loop over the citations
unfoldable pub citation_problems :
    List RetrievedChunk → Option Versions → List Text → List (Text × Text)
citation_problems known versions [] = []
citation_problems known versions (id ∷ ids) =
    with_id id (source_reasons versions (find_chunk id known))
    ++ citation_problems known versions ids

unfoldable pub expected_workspace_id : Option ℕ → List RetrievalContext → ℕ
expected_workspace_id (some workspace_id) contexts = workspace_id
expected_workspace_id none (context ∷ contexts) = context.workspace_id
expected_workspace_id none [] = 1

-- the reasons that concern the answer as a whole
unfoldable pub answer_reasons : Text → List RetrievalContext → List Text → Bool → Bool → List Text
answer_reasons answer contexts citation_ids require_citations navigation_only =
    when (not (is_empty (malformed_ids answer))) (codes "malformed_citation_token")
    ++ when (is_empty contexts && not (is_empty citation_ids)) (codes "missing_retrieval_context")
    ++ when (is_empty citation_ids && require_citations && not navigation_only)
        (codes "citations_required")

abbrev pub binding_status : List Text → List Text → CitationBindingStatus
binding_status (_ ∷ _) citation_ids = invalid
binding_status [] (_ ∷ _) = bound
binding_status [] [] = unbound

abbrev pub only_hash : List RetrievalContext → Option Text
only_hash (context ∷ []) = context.snapshot_hash
only_hash _ = none

abbrev pub problem_reasons : List (Text × Text) → List Text
problem_reasons problems = map (λ (p : Text × Text). p.1) problems

abbrev pub problem_ids : List (Text × Text) → List Text
problem_ids problems = map (λ (p : Text × Text). p.0) problems

-- all that `reasons` collects
unfoldable pub reasons_of :
    ℕ → Text → List RetrievalContext → Option Versions → Bool → Bool → List Text
reasons_of workspace_id answer contexts versions require_citations navigation_only =
    let citation_ids = extract_citation_ids answer in
    let known = know_contexts workspace_id [] contexts in
    known.1
    ++ problem_reasons (citation_problems known.0 versions citation_ids)
    ++ answer_reasons answer contexts citation_ids require_citations navigation_only

-- with the contexts that `_as_contexts` makes of the argument
unfoldable pub bind_citations :
    Text
    → List RetrievalContext
    → Option ℕ
    → Option Versions
    → Bool
    → Bool
    → Result BindingError CitationBinding
bind_citations answer contexts workspace_id versions require_citations navigation_only = do
  let expected = expected_workspace_id workspace_id contexts
  let citation_ids = extract_citation_ids answer
  let known = (know_contexts expected [] contexts).0
  let reasons =
      unique_values (reasons_of expected answer contexts versions require_citations navigation_only)
  raise_if (expected == 0 || not (is_optional_sha256 (only_hash contexts))) invalid_binding
  ok (record {
    workspace_id = expected;
    status = binding_status reasons citation_ids;
    navigation_only = navigation_only;
    citation_ids = citation_ids;
    claims = parse_citation_claims answer;
    invalid_citation_ids =
        unique_values
          (malformed_ids answer ++ problem_ids (citation_problems known versions citation_ids));
    invalid_reasons = reasons;
    snapshot_hash = only_hash contexts;
  })
