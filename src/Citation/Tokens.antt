-- ===== src/Citation/Tokens.antt =====
-- The tokens `[[…]]` of an answer, as backend/app/citation_runtime.py finds them with regular expressions.
use file_nest.Base.{
  ℕ, zero, suc, ◌+◌, true, false, not, ◌&&◌, Option, none, some, List, [], ◌∷◌, map, codes, length,
  ◌==◌, if◌then◌else◌,
}
use file_nest.FilePath.{Text}
use file_nest.PathPolicy.{starts_with, is_member}
use file_nest.Document.{is_empty, drop}
use file_nest.Retrieval.{is_citation_id}

-- a match of `finditer`: where it starts and ends, and its group
pub record Match : Type 0 where
  pub start : ℕ
  pub finish : ℕ
  pub value : Text

-- the characters before the first `]`
unfoldable pub before_bracket : Text → Text
before_bracket [] = []
before_bracket (c ∷ s) = let rest = before_bracket s in if c == b']' then [] else c ∷ rest

-- `_ANY_DOUBLE_BRACKET`, `\[\[([^\]]+)\]\]`, matched at the start of the text
unfoldable pub any_double_bracket : Text → Option Text
any_double_bracket s =
    let value = before_bracket (drop 2 s) in
    if starts_with (codes "[[") s
      && not (is_empty value)
      && starts_with (codes "]]") (drop (length value) (drop 2 s))
    then some value
    else none

abbrev pub if_citation : Option Text → Option Text
if_citation none = none
if_citation (some value) = if is_citation_id value then some value else none

-- `_CITATION_TOKEN`: an identifier has no `]`, so it is all that stands between the brackets
unfoldable pub citation_token : Text → Option Text
citation_token s = if_citation (any_double_bracket s)

-- `pattern.finditer(text)`, from a place on, with so many characters of the last match still to pass
unfoldable pub matches_from : (Text → Option Text) → ℕ → ℕ → Text → List Match
matches_from pattern passed place [] = []
matches_from pattern (suc passed) place (c ∷ s) = matches_from pattern passed (place + 1) s
matches_from pattern zero place (c ∷ s) = elim (pattern (c ∷ s)) [
  | none ↦ matches_from pattern 0 (place + 1) s
  | some value ↦
      (record { start = place; finish = place + length value + 4; value = value })
      ∷ matches_from pattern (length value + 3) (place + 1) s
]

abbrev pub find_matches : (Text → Option Text) → Text → List Match
find_matches pattern answer = matches_from pattern 0 0 answer

abbrev pub values : List Match → List Text
values matches = map (λ (m : Match). m.value) matches

-- the loop of `_unique`
unfoldable pub unique_from : List Text → List Text → List Text
unique_from seen [] = []
unique_from seen (x ∷ xs) = elim (is_member x seen) [
  | true ↦ unique_from seen xs
  | false ↦ x ∷ unique_from (x ∷ seen) xs
]

abbrev pub unique_values : List Text → List Text
unique_values xs = unique_from [] xs

unfoldable pub extract_citation_ids : Text → List Text
extract_citation_ids answer = unique_values (values (find_matches citation_token answer))

abbrev pub malformed : List Text → List Text
malformed [] = []
malformed (id ∷ ids) = let rest = malformed ids in if is_citation_id id then rest else id ∷ rest

-- `malformed_ids` of `bind_citations`
unfoldable pub malformed_ids : Text → List Text
malformed_ids answer = malformed (values (find_matches any_double_bracket answer))
