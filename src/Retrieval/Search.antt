-- ===== src/Retrieval/Search.antt =====
-- `search_keyword_results` as a whole.
use file_nest.Base.{
  filter, ℕ, zero, suc, ◌≤◌, ◌≡◌, refl, sym, ap, ◌∙◌, inl, inr, Bool, true, false, List, [], ◌∷◌,
  arith, ok, err, ◌-◌, length, map, All, Bool-cases, ◌==◌,
}
use file_nest.FilePath.{Text, is_blank}
use file_nest.Document.{drop, take, slice}
use file_nest.Retrieval.Keyword.{
  KeywordBaselineDocument, KeywordSearchSource, KeywordSearchResult, invalid_source, new_source,
  validate_source, build_source, validate_result, normalize_keyword, find_match_ranges,
  build_sources, sort_ranked, is_no_match, collect_results, search_keyword_results,
}
use file_nest.Retrieval.Results.{find_match_ranges-IsScan, range_of, Quotes, build_sources-IsScan}
use file_nest.Retrieval.Ranking.{
  Falling, has_score, All-sort_ranked, Falling-sort_ranked, filter-sort_ranked, length-map,
}

IsValid-result :
    (r : KeywordSearchResult) → 1 ≤ r.score → r.score ≡ length r.sources → validate_result r ≡ ok r
unfolding validate_result
IsValid-result r h k = ground arith

matched : (ranges : List (ℕ × ℕ)) → is_no_match ranges ≡ false → 1 ≤ length ranges
matched [] h = absurd (cc h)
matched (range ∷ ranges) h = omega arith

unmatched : (ranges : List (ℕ × ℕ)) → is_no_match ranges ≡ true → length ranges ≡ 0
unmatched [] h = refl
unmatched (range ∷ ranges) h = absurd (cc h)

module _ (casefold : Text → Text) (keyword : Text) where
  -- a document with a path whose text keeps its length under `casefold`
  pub record IsSearchable (document : KeywordBaselineDocument) : Type 0 where
    pub has_path : is_blank document.relative_path ≡ false
    pub same_length : length (casefold document.content) ≡ length document.content

  abbrev pub matches_of : KeywordBaselineDocument → List (ℕ × ℕ)
  matches_of document = find_match_ranges casefold document.content keyword

  -- a result has all matches of its document, and quotes them
  pub record IsHit (r : KeywordSearchResult) : Type 0 where
    pub scored : r.score ≡ length (matches_of r.document)
    pub located : map range_of r.sources ≡ matches_of r.document
    pub quoted : All (Quotes r.document) r.sources

  abbrev pub has_matches : ℕ → KeywordBaselineDocument → Bool
  has_matches n document = length (matches_of document) == n

  abbrev pub documents_of : List KeywordSearchResult → List KeywordBaselineDocument
  documents_of results = map (λ (r : KeywordSearchResult). r.document) results

  record AreHits (documents : List KeywordBaselineDocument) (results : List KeywordSearchResult)
      : Type 0 where
    hits : All IsHit results
    found :
        (n : ℕ)
        → 1 ≤ n
        → documents_of (filter (has_score n) results) ≡ filter (has_matches n) documents

  documents_of-cons :
      (n : ℕ) (r : KeywordSearchResult) (results : List KeywordSearchResult)
      (documents : List KeywordBaselineDocument)
      → IsHit r
      → documents_of (filter (has_score n) results) ≡ filter (has_matches n) documents
      → documents_of (filter (has_score n) (r ∷ results))
        ≡ filter (has_matches n) (r.document ∷ documents)
  documents_of-cons n r results documents hit h = elim (Bool-cases (has_score n r)) [
    | inl e ↦
        let m : has_matches n r.document ≡ true = ground (arith, hit.scored) in
        rw (e, m) (ap (λ ds. r.document ∷ ds) h)
    | inr e ↦ let m : has_matches n r.document ≡ false = ground (arith, hit.scored) in rw (e, m) h
  ]

  collect_results-AreHits :
      (documents : List KeywordBaselineDocument)
      → 1 ≤ length keyword
      → All IsSearchable documents
      → (results : List KeywordSearchResult) × (collect_results casefold keyword documents
          ≡ ok results)
        × AreHits documents results
  unfolding collect_results
  collect_results-AreHits [] filled h = ([], refl, record { hits = tt; found = λ n one. refl })
  collect_results-AreHits (document ∷ documents) filled h =
      let (results, collected, are) = collect_results-AreHits documents filled h.1 in
      elim (Bool-cases (is_no_match (matches_of document))) [
        | inl e ↦ (
          results,
          rw (collect_results, e) collected,
          record {
            hits = are.hits;
            found = λ n one.
                let m : has_matches n document ≡ false =
                  ground (arith, unmatched (matches_of document) e) in
                rw m (are.found n one);
          },
        )
        | inr e ↦
            let scan = find_match_ranges-IsScan casefold document.content keyword filled in
            let (sources, built, kept) =
              build_sources-IsScan document keyword (casefold document.content) 0
                (matches_of document) h.0.has_path filled h.0.same_length scan in
            let counted : length sources ≡ length (matches_of document) =
              sym (length-map range_of sources) ∙ ap length kept.ranges_kept in
            let r : KeywordSearchResult = record {
              document = document;
              score = length sources;
              sources = sources;
            } in
            let valid =
              IsValid-result r (omega (arith, counted, matched (matches_of document) e)) refl in
            let hit : IsHit r = record {
              scored = counted;
              located = kept.ranges_kept;
              quoted = kept.quoted;
            } in
            (
              r ∷ results,
              rw (collect_results, e, built, valid, collected) refl,
              record {
                hits = (hit, are.hits);
                found = λ n one. documents_of-cons n r results documents hit (are.found n one);
              },
            )
      ]

-- A search with a keyword that is not empty after `strip` and `casefold`, over documents with a path whose
-- texts keep their length under `casefold`, returns results with falling scores. Each has as its score the
-- number of matches in its document, their offsets, and the slices of the document there. For every
-- number of matches from 1 on, the documents of the results with that score are the documents with that
-- many matches, in the order of the corpus.
pub search_keyword_results_ranked :
    (casefold : Text → Text) (documents : List KeywordBaselineDocument) (asked keyword : Text)
    → normalize_keyword casefold asked ≡ ok keyword
    → 1 ≤ length keyword
    → All (IsSearchable casefold keyword) documents
    → (results : List KeywordSearchResult) × (search_keyword_results casefold documents asked
        ≡ ok results)
      × All (IsHit casefold keyword) results
      × Falling results
      × ((n : ℕ)
          → documents_of casefold keyword (filter (has_score (suc n)) results)
            ≡ filter (has_matches casefold keyword (suc n)) documents)
unfolding search_keyword_results
search_keyword_results_ranked casefold documents asked keyword normal filled h =
    let (collected, run, are) = collect_results-AreHits casefold keyword documents filled h in
    (
      sort_ranked collected,
      rw (search_keyword_results, normal, run) refl,
      All-sort_ranked (IsHit casefold keyword) collected are.hits,
      Falling-sort_ranked collected,
      λ n.
          ap (documents_of casefold keyword) (filter-sort_ranked (suc n) collected)
          ∙ are.found (suc n) (omega arith),
    )

drop_behind : (n : ℕ) (s : Text) → length s ≤ n → drop n s ≡ []
drop_behind zero [] h = refl
drop_behind zero (c ∷ s) h = absurd (omega arith)
drop_behind (suc n) [] h = refl
drop_behind (suc n) (c ∷ s) h = drop_behind n s (omega arith)

take_nothing : (n : ℕ) → take n [] ≡ []
take_nothing zero = refl
take_nothing (suc n) = refl

slice_behind : (start end : ℕ) (s : Text) → length s ≤ start → is_blank (slice start end s) ≡ true
slice_behind start end s h = rw (drop_behind start s h, take_nothing (end - start)) refl

blank_source :
    (source : KeywordSearchSource)
    → is_blank source.source_relative_path ≡ false
    → is_blank source.matched_text ≡ true
    → validate_source source ≡ err invalid_source
unfolding validate_source
blank_source source path text = ground arith

-- Where `casefold` makes the text of the first document longer and its first match starts behind the end
-- of the text itself, the search raises the ValidationError of the empty quote.
pub match_behind_the_end :
    (casefold : Text → Text) (document : KeywordBaselineDocument)
    (documents : List KeywordBaselineDocument) (asked keyword : Text) (start end : ℕ)
    (ranges : List (ℕ × ℕ))
    → normalize_keyword casefold asked ≡ ok keyword
    → find_match_ranges casefold document.content keyword ≡ (start, end) ∷ ranges
    → is_blank document.relative_path ≡ false
    → length document.content ≤ start
    → search_keyword_results casefold (document ∷ documents) asked ≡ err invalid_source
unfolding search_keyword_results collect_results build_sources build_source
match_behind_the_end casefold document documents asked keyword start end ranges normal found path
      behind =
    let refused =
      blank_source (new_source document start end) path
        (slice_behind start end document.content behind) in
    rw
      (search_keyword_results, normal, collect_results, found, build_sources, build_source, refused)
      refl
