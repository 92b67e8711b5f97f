-- ===== src/Retrieval/Results.antt =====
-- What `search_keyword_results` returns, where `str.casefold` keeps the length of the documents.
use file_nest.Base.{
  ℕ, zero, suc, ◌+◌, ◌-◌, ◌≤◌, ◌<◌, ◌≡◌, refl, ap, false, List, [], ◌∷◌, arith, ok, length, map,
  All,
}
use file_nest.FilePath.{Text, is_blank}
use file_nest.Document.{take, slice, max}
use file_nest.Document.Slices.{length-slice}
use file_nest.Retrieval.Keyword.{
  KeywordBaselineDocument, KeywordSearchSource, validate_source, find_match_ranges, count_lines,
  new_source, build_source, build_sources,
}
use file_nest.Retrieval.Scan.{IsScan, ends, next, ranges_from-IsScan}

-- All matches of a keyword of at least one character in the casefolded text are found, from left to
-- right and each from the end of the one before on.
pub find_match_ranges-IsScan :
    (casefold : Text → Text) (content keyword : Text)
    → 1 ≤ length keyword
    → IsScan keyword (casefold content) 0 (find_match_ranges casefold content keyword)
unfolding find_match_ranges
find_match_ranges-IsScan casefold content keyword filled =
    ranges_from-IsScan keyword (casefold content) filled (suc (length (casefold content))) 0
      (omega arith) (omega arith)

count_lines-take : (m n : ℕ) (s : Text) → m ≤ n → count_lines (take m s) ≤ count_lines (take n s)
unfolding count_lines
count_lines-take zero n s h = omega arith
count_lines-take (suc m) zero s h = absurd (omega arith)
count_lines-take (suc m) (suc n) [] h = omega arith
count_lines-take (suc m) (suc n) (c ∷ s) h = ground (arith, count_lines-take m n s)

filled_is_not_blank : (s : Text) → 1 ≤ length s → is_blank s ≡ false
filled_is_not_blank [] h = absurd (omega arith)
filled_is_not_blank (c ∷ s) h = refl

-- the offsets of a source
abbrev pub range_of : KeywordSearchSource → ℕ × ℕ
range_of source = (source.start_offset, source.end_offset)

-- a source that quotes its range of the document
abbrev pub Quotes : KeywordBaselineDocument → KeywordSearchSource → Type 0
Quotes document source =
    source.matched_text ≡ slice source.start_offset source.end_offset document.content

valid_source :
    (source : KeywordSearchSource)
    → is_blank source.source_relative_path ≡ false
    → is_blank source.matched_text ≡ false
    → source.start_offset < source.end_offset
    → 1 ≤ source.start_line
    → source.start_line ≤ source.end_line
    → validate_source source ≡ ok source
unfolding validate_source
valid_source source path text lt line lines = ground arith

build_source-new :
    (document : KeywordBaselineDocument) (start end : ℕ)
    → is_blank document.relative_path ≡ false
    → start < end
    → end ≤ length document.content
    → build_source document (start, end) ≡ ok (new_source document start end)
unfolding build_source
build_source-new document start end path lt fits =
    let size = length-slice start end document.content (omega arith) fits in
    let later : start - 0 ≤ max start (end - 1) - 0 = ground arith in
    let lines = count_lines-take (start - 0) (max start (end - 1) - 0) document.content later in
    valid_source (new_source document start end) path (filled_is_not_blank _ (omega (arith, size)))
      lt (omega arith) (omega (arith, lines))

-- the ranges are those of the sources, and every source quotes its range
pub record AreSources (document : KeywordBaselineDocument) (ranges : List (ℕ × ℕ))
    (sources : List KeywordSearchSource) : Type 0 where
  pub ranges_kept : map range_of sources ≡ ranges
  pub quoted : All (Quotes document) sources

pub build_sources-IsScan :
    (document : KeywordBaselineDocument) (keyword text : Text) (start : ℕ) (ranges : List (ℕ × ℕ))
    → is_blank document.relative_path ≡ false
    → 1 ≤ length keyword
    → length text ≡ length document.content
    → IsScan keyword text start ranges
    → (sources : List KeywordSearchSource) × (build_sources document ranges ≡ ok sources)
      × AreSources document ranges sources
unfolding build_sources
build_sources-IsScan document keyword text start _ path filled same (ends _ free) =
    ([], refl, record { ranges_kept = refl; quoted = tt })
build_sources-IsScan document keyword text start _ path filled same
      (next _ place rest le fits free matches scan) =
    let (sources, built, kept) =
      build_sources-IsScan document keyword text (place + length keyword) rest path filled same
        scan in
    let first =
      build_source-new document place (place + length keyword) path (omega arith)
        (omega (arith, fits, same)) in
    (
      new_source document place (place + length keyword) ∷ sources,
      rw (build_sources, first, built) refl,
      record {
        ranges_kept = ap (λ ranges. (place, place + length keyword) ∷ ranges) kept.ranges_kept;
        quoted = (refl, kept.quoted);
      },
    )
