-- ===== src/Citation/Reasons.antt =====
-- What holds of a citation against which backend/app/citation_runtime.py has no reason.
use file_nest.Base.{
  ◌≡◌, refl, sym, ap, ◌∙◌, ◌≢◌, Bool, true, false, not, ◌&&◌, Option, none, some, is_some, is_none,
  List, [], ◌∷◌, ◌++◌, codes, arith, all, Bool-cases, Option-cases, inl, inr,
}
use file_nest.FilePath.{Text, text_eq}
use file_nest.FilePath.Laws.{text_eq_iff}
use file_nest.Document.{is_empty}
use file_nest.Retrieval.{RetrievedChunk, RetrievalContext, is_citation_id}
use file_nest.Citation.{
  Versions, bound, unique_values, unique_from, values, find_matches, any_double_bracket, malformed,
  malformed_ids, has_version_key, current_version, has_source_position, when, is_other_version,
  version_reasons, source_reasons, answer_reasons, binding_status,
}
use file_nest.Citation.Known.{append-eq-nil, when-eq-nil}

pub unique_values-eq-nil : (xs : List Text) → unique_values xs ≡ [] → xs ≡ []
unfolding unique_from
unique_values-eq-nil [] h = refl
unique_values-eq-nil (x ∷ xs) h = absurd (cc h)

pub bound-cases :
    (reasons ids : List Text) → binding_status reasons ids ≡ bound → (reasons ≡ []) × (ids ≢ [])
bound-cases [] [] h = absurd (cc h)
bound-cases [] (id ∷ ids) h = (refl, λ e. absurd (cc e))
bound-cases (r ∷ reasons) ids h = absurd (cc h)

no_malformed : (ids : List Text) → malformed ids ≡ [] → all is_citation_id ids ≡ true
no_malformed [] h = refl
no_malformed (id ∷ ids) h = elim (Bool-cases (is_citation_id id)) [
  | inl e ↦ ground (arith, no_malformed ids)
  | inr e ↦ ground arith
]

same_version :
    (o : Option Text) (current : Text) → is_other_version o current ≡ false → some current ≡ o
same_version none current h = absurd (cc h)
same_version (some version) current h =
    let equal : text_eq version current ≡ true = ground arith in
    ap some (sym ((text_eq_iff version current).0 equal))

deleted_reasons :
    (known : Versions) (c : RetrievedChunk)
    → current_version c known ≡ none
    → version_reasons (some known) c ≡ when (has_version_key c known) (codes "source_deleted")
unfolding version_reasons
deleted_reasons known c gone = rw (gone, version_reasons) refl

changed_reasons :
    (known : Versions) (c : RetrievedChunk) (current : Text)
    → current_version c known ≡ some current
    → version_reasons (some known) c
      ≡ when (is_other_version c.source_version current) (codes "source_version_mismatch")
unfolding version_reasons
changed_reasons known c current found = rw (found, version_reasons) refl

empty_if : (xs : List Text) → is_empty xs ≡ true → xs ≡ []
empty_if [] h = refl
empty_if (x ∷ xs) h = absurd (cc h)

pub wellformed_answer :
    (answer : Text) (contexts : List RetrievalContext) (ids : List Text) (require navigation : Bool)
    → answer_reasons answer contexts ids require navigation ≡ []
    → all is_citation_id (values (find_matches any_double_bracket answer)) ≡ true
unfolding answer_reasons malformed_ids
wellformed_answer answer contexts ids require navigation h =
    let (both, _) =
      append-eq-nil
        (when (not (is_empty (malformed_ids answer))) (codes "malformed_citation_token")
          ++ when (is_empty contexts && not (is_empty ids)) (codes "missing_retrieval_context"))
        (when (is_empty ids && require && not navigation) (codes "citations_required")) h in
    let (first, _) =
      append-eq-nil
        (when (not (is_empty (malformed_ids answer))) (codes "malformed_citation_token"))
        (when (is_empty contexts && not (is_empty ids)) (codes "missing_retrieval_context")) both in
    let test : not (is_empty (malformed_ids answer)) ≡ false =
      when-eq-nil (not (is_empty (malformed_ids answer))) (codes "malformed_citation_token")
        first in
    no_malformed (values (find_matches any_double_bracket answer))
      (empty_if (malformed_ids answer) (ground arith))

-- no reason against the version of a chunk
pub version_agrees :
    (known : Versions) (c : RetrievedChunk)
    → version_reasons (some known) c ≡ []
    → has_version_key c known ≡ true
    → current_version c known ≡ c.source_version
version_agrees known c h key = elim (Option-cases (current_version c known)) [
  | inl gone ↦
      let test =
        when-eq-nil (has_version_key c known) (codes "source_deleted")
          (sym (deleted_reasons known c gone) ∙ h) in
      absurd (cc (key, test))
  | inr (current, found) ↦
      found
      ∙ same_version c.source_version current (
          when-eq-nil (is_other_version c.source_version current) (codes "source_version_mismatch")
            (sym (changed_reasons known c current found) ∙ h))
]

some_if : (o : Option Text) → is_none o ≡ false → is_some o ≡ true
some_if none h = absurd (cc h)
some_if (some version) h = refl

pub source_found :
    (versions : Option Versions) (o : Option RetrievedChunk)
    → source_reasons versions o ≡ []
    → (c : RetrievedChunk) × (o ≡ some c)
      × (has_source_position c ≡ true)
      × (is_some c.source_version ≡ true)
      × (version_reasons versions c ≡ [])
unfolding source_reasons
source_found versions none h = absurd (cc h)
source_found versions (some c) h =
    let (first, fresh) =
      append-eq-nil
        (when (not (has_source_position c)) (codes "citation_without_source_position")
          ++ when (is_none c.source_version) (codes "missing_source_version"))
        (version_reasons versions c) h in
    let (placed, versioned) =
      append-eq-nil (when (not (has_source_position c)) (codes "citation_without_source_position"))
        (when (is_none c.source_version) (codes "missing_source_version")) first in
    let place : not (has_source_position c) ≡ false =
      when-eq-nil (not (has_source_position c)) (codes "citation_without_source_position") placed in
    let version : is_none c.source_version ≡ false =
      when-eq-nil (is_none c.source_version) (codes "missing_source_version") versioned in
    (c, refl, ground arith, some_if c.source_version version, fresh)
