-- ===== src/Retrieval/Examples.antt =====
-- A corpus of three documents, tests of the search, and the theorems at them. The last test is a document
-- with a letter that `casefold` writes as two.
use file_nest.Base.{
  filter, ℕ, suc, ◌+◌, ◌≡◌, refl, List, [], ◌∷◌, ok, err, codes, All, arith, leb, ◌==◌,
  if◌then◌else◌, ◌&&◌, ◌>>=◌,
}
use file_nest.FilePath.{Text}
use file_nest.PathPolicy.{starts_with}
use file_nest.OperationPlan.Examples.{tools}
use file_nest.Retrieval.Keyword.{
  KeywordBaselineDocument, KeywordSearchResult, blank_keyword, invalid_source, validate_source,
  validate_result, normalize_keyword, find, ranges_from, find_match_ranges, count_lines,
  build_source, build_sources, insert_ranked, sort_ranked, collect_results, search_keyword_results,
}
use file_nest.Retrieval.Scan.{IsScan}
use file_nest.Retrieval.Results.{find_match_ranges-IsScan}
use file_nest.Retrieval.Ranking.{Falling, has_score}
use file_nest.Retrieval.Search.{
  IsSearchable, IsHit, documents_of, has_matches, match_behind_the_end,
  search_keyword_results_ranked,
}

unfoldable runs : Unit {0}
unfolding tools starts_with validate_source validate_result normalize_keyword find ranges_from
    find_match_ranges count_lines build_source build_sources insert_ranked sort_ranked
    collect_results search_keyword_results
runs = tt

-- `casefold` on ASCII and on the letter 223, which becomes two
abbrev fold : Text → Text
fold [] = []
fold (c ∷ s) =
    if leb 65 c && leb c 90
    then (c + 32) ∷ fold s
    else if c == 223
    then 115 ∷ 115 ∷ fold s
    else c ∷ fold s

abbrev note : KeywordBaselineDocument
note = record { relative_path = codes "a.md"; content = codes "Move the file" }

abbrev log : KeywordBaselineDocument
log = record { relative_path = codes "b.md"; content = codes "file\nFILE" }

abbrev other : KeywordBaselineDocument
other = record { relative_path = codes "c.md"; content = codes "none" }

abbrev corpus : List KeywordBaselineDocument
corpus = note ∷ other ∷ log ∷ []

offsets : find_match_ranges fold (codes "file\nFILE") (codes "file") ≡ (0, 4) ∷ (5, 9) ∷ []
unfolding runs
offsets = refl

no_overlap : find_match_ranges fold (codes "aaaa") (codes "aa") ≡ (0, 2) ∷ (2, 4) ∷ []
unfolding runs
no_overlap = refl

ranked :
    (search_keyword_results fold corpus (codes " File ") >>= λ results.
    ok (documents_of fold (codes "file") results))
    ≡ ok (log ∷ note ∷ [])
unfolding runs
ranked = refl

blank : search_keyword_results fold corpus (codes "  ") ≡ err blank_keyword
unfolding runs
blank = refl

abbrev street : KeywordBaselineDocument
street = record { relative_path = codes "d.md"; content = 223 ∷ codes "a" }

-- the offsets in the folded text point behind the end of the document
street_match : find_match_ranges fold street.content (codes "a") ≡ (2, 3) ∷ []
unfolding runs
street_match = refl

letter_normal : normalize_keyword fold (codes "a") ≡ ok (codes "a")
unfolding runs
letter_normal = refl

match_behind_the_end_example :
    search_keyword_results fold (street ∷ corpus) (codes "a") ≡ err invalid_source
match_behind_the_end_example =
    match_behind_the_end fold street corpus (codes "a") (codes "a") 2 3 [] letter_normal
      street_match refl (omega arith)

find_match_ranges-IsScan_example :
    IsScan
      (codes "file")
      (fold (codes "file\nFILE"))
      0
      (find_match_ranges fold (codes "file\nFILE") (codes "file"))
find_match_ranges-IsScan_example =
    find_match_ranges-IsScan fold (codes "file\nFILE") (codes "file") (omega arith)

corpus_normal : normalize_keyword fold (codes " File ") ≡ ok (codes "file")
unfolding runs
corpus_normal = refl

corpus-IsSearchable : All (IsSearchable fold (codes "file")) corpus
corpus-IsSearchable = (
  record { has_path = refl; same_length = refl },
  (
    record { has_path = refl; same_length = refl },
    (record { has_path = refl; same_length = refl }, tt),
  ),
)

search_keyword_results_ranked_example :
    (results : List KeywordSearchResult) × (search_keyword_results fold corpus (codes " File ")
      ≡ ok results)
    × All (IsHit fold (codes "file")) results
    × Falling results
    × ((n : ℕ)
        → documents_of fold (codes "file") (filter (has_score (suc n)) results)
          ≡ filter (has_matches fold (codes "file") (suc n)) corpus)
search_keyword_results_ranked_example =
    search_keyword_results_ranked fold corpus (codes " File ") (codes "file") corpus_normal
      (omega arith) corpus-IsSearchable
