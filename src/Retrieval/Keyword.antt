-- ===== src/Retrieval/Keyword.antt =====
-- backend/app/keyword_retrieval.py: matches of a keyword and the ranked results.
use file_nest.Base.{
  ℕ, zero, suc, ◌+◌, ◌-◌, Bool, true, false, not, ◌||◌, Option, none, some, List, [], ◌∷◌, Result,
  ok, ◌>>=◌, ◌>>◌, raise_if, length, leb, ltb, ◌==◌, if◌then◌else◌,
}
use file_nest.FilePath.{Text, strip, is_blank}
use file_nest.PathPolicy.{starts_with}
use file_nest.Document.{slice, drop, max}

pub record KeywordBaselineDocument : Type 0 where
  pub relative_path : Text
  pub content : Text

pub record KeywordSearchSource : Type 0 where
  pub source_relative_path : Text
  pub matched_text : Text
  pub start_offset : ℕ
  pub end_offset : ℕ
  pub start_line : ℕ
  pub end_line : ℕ

pub record KeywordSearchResult : Type 0 where
  pub document : KeywordBaselineDocument
  pub score : ℕ
  pub sources : List KeywordSearchSource

pub data SearchError : Type 0 where
  blank_keyword invalid_source invalid_result : SearchError

-- `KeywordSearchSource(…)`: the fields and `validate_source_position`
unfoldable pub validate_source : KeywordSearchSource → Result SearchError KeywordSearchSource
validate_source s = do
  raise_if (is_blank s.source_relative_path || is_blank s.matched_text) invalid_source
  raise_if (s.end_offset == 0 || s.start_line == 0 || s.end_line == 0) invalid_source
  raise_if (leb s.end_offset s.start_offset || ltb s.end_line s.start_line) invalid_source
  ok s

-- `KeywordSearchResult(…)`: the fields and `validate_score`
unfoldable pub validate_result : KeywordSearchResult → Result SearchError KeywordSearchResult
validate_result r = do
  raise_if (r.score == 0 || length r.sources == 0) invalid_result
  raise_if (not (r.score == length r.sources)) invalid_result
  ok r

unfoldable pub normalize_keyword : (Text → Text) → Text → Result SearchError Text
normalize_keyword casefold keyword = do
  raise_if (is_blank (strip keyword)) blank_keyword
  ok (casefold (strip keyword))

-- `text.find(keyword, start)`, over the rest of the text and the place where that starts
unfoldable pub find : Text → ℕ → Text → Option ℕ
find keyword place [] = if starts_with keyword [] then some place else none
find keyword place (c ∷ s) =
    let later = find keyword (suc place) s in
    if starts_with keyword (c ∷ s) then some place else later

-- the loop of `_find_match_ranges`, on fuel
unfoldable pub ranges_from : ℕ → Text → Text → ℕ → List (ℕ × ℕ)
ranges_from zero content keyword search_start = []
ranges_from (suc fuel) content keyword search_start =
    elim (find keyword search_start (drop search_start content)) [
      | none ↦ []
      | some match_start ↦
          let match_end = match_start + length keyword in
          (match_start, match_end) ∷ ranges_from fuel content keyword match_end
    ]

-- a match ends at least one character further, so one round more than characters is enough
unfoldable pub find_match_ranges : (Text → Text) → Text → Text → List (ℕ × ℕ)
find_match_ranges casefold content keyword =
    let normalized_content = casefold content in
    ranges_from (suc (length normalized_content)) normalized_content keyword 0

-- `s.count("\n")`
unfoldable pub count_lines : Text → ℕ
count_lines [] = 0
count_lines (c ∷ s) = let rest = count_lines s in if c == 10 then suc rest else rest

abbrev pub new_source : KeywordBaselineDocument → ℕ → ℕ → KeywordSearchSource
new_source document start_offset end_offset = record {
  source_relative_path = document.relative_path;
  matched_text = slice start_offset end_offset document.content;
  start_offset = start_offset;
  end_offset = end_offset;
  start_line = count_lines (slice 0 start_offset document.content) + 1;
  end_line = count_lines (slice 0 (max start_offset (end_offset - 1)) document.content) + 1;
}

unfoldable pub build_source :
    KeywordBaselineDocument → ℕ × ℕ → Result SearchError KeywordSearchSource
build_source document range = validate_source (new_source document range.0 range.1)

unfoldable pub build_sources :
    KeywordBaselineDocument → List (ℕ × ℕ) → Result SearchError (List KeywordSearchSource)
build_sources document [] = ok []
build_sources document (range ∷ ranges) = do
  source ← build_source document range
  sources ← build_sources document ranges
  ok (source ∷ sources)

-- `list.sort` by the falling score; the order of the documents decides between equal scores
unfoldable pub insert_ranked :
    KeywordSearchResult → List KeywordSearchResult → List KeywordSearchResult
insert_ranked r [] = r ∷ []
insert_ranked r (s ∷ rest) =
    let later = insert_ranked r rest in if ltb r.score s.score then s ∷ later else r ∷ s ∷ rest

unfoldable pub sort_ranked : List KeywordSearchResult → List KeywordSearchResult
sort_ranked [] = []
sort_ranked (r ∷ rest) = insert_ranked r (sort_ranked rest)

abbrev pub is_no_match : List (ℕ × ℕ) → Bool
is_no_match [] = true
is_no_match (_ ∷ _) = false

-- the loop over the documents, before the sort
unfoldable pub collect_results :
    (Text → Text)
    → Text
    → List KeywordBaselineDocument
    → Result SearchError (List KeywordSearchResult)
collect_results casefold keyword [] = ok []
collect_results casefold keyword (document ∷ documents) =
    let ranges = find_match_ranges casefold document.content keyword in
    let rest = collect_results casefold keyword documents in
    if is_no_match ranges then rest else do
      sources ← build_sources document ranges
      result ←
          validate_result
            (record { document = document; score = length sources; sources = sources })
      results ← rest
      ok (result ∷ results)

unfoldable pub search_keyword_results :
    (Text → Text)
    → List KeywordBaselineDocument
    → Text
    → Result SearchError (List KeywordSearchResult)
search_keyword_results casefold documents keyword = do
  normalized_keyword ← normalize_keyword casefold keyword
  ranked_results ← collect_results casefold normalized_keyword documents
  ok (sort_ranked ranked_results)
