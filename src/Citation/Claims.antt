-- ===== src/Citation/Claims.antt =====
-- The claims of an answer, the text before each citation: `parse_citation_claims` of
-- backend/app/citation_runtime.py.
use mathlib.Core.List.{reverse}
use file_nest.Base.{ℕ, ◌+◌, Bool, ◌||◌, List, [], ◌∷◌, ◌++◌, codes, decimal, ◌==◌, if◌then◌else◌}
use file_nest.FilePath.{Text}
use file_nest.Document.{is_empty, slice}
use file_nest.Citation.Tokens.{Match, find_matches, citation_token}

pub record CitationClaim : Type 0 where
  pub claim_id : Text
  pub text : Text
  pub citation_ids : List Text

-- a blank, tab, return or newline, or one of `，。；;:`
abbrev pub is_separator : ℕ → Bool
is_separator c =
    c == 32
    || c == 9
    || c == 13
    || c == 10
    || c == 65292
    || c == 12290
    || c == 65307
    || c == 59
    || c == 58

unfoldable pub trim_left : Text → Text
trim_left [] = []
trim_left (c ∷ s) = let rest = trim_left s in if is_separator c then rest else c ∷ s

-- `text.strip(" \t\r\n，。；;:")`
unfoldable pub trim : Text → Text
trim s = reverse (trim_left (reverse (trim_left s)))

unfoldable pub claim_text : Text → ℕ → Match → Text
claim_text answer cursor m =
    let text = trim (slice cursor m.start answer) in
    if is_empty text then trim (slice 0 m.start answer) else text

-- the loop over the matches
unfoldable pub claims_from : Text → ℕ → ℕ → List Match → List CitationClaim
claims_from answer index cursor [] = []
claims_from answer index cursor (m ∷ matches) =
    let text = claim_text answer cursor m in
    let later = claims_from answer (index + 1) m.finish matches in
    if is_empty text
    then later
    else (record {
      claim_id = codes "claim_" ++ decimal index;
      text = text;
      citation_ids = m.value ∷ [];
    })
      ∷ later

unfoldable pub parse_citation_claims : Text → List CitationClaim
parse_citation_claims answer = claims_from answer 1 0 (find_matches citation_token answer)
