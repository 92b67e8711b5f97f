-- ===== src/Document/Lines.antt =====
-- Python's `str.splitlines(keepends=True)`.
use file_nest.Base.{ℕ, Bool, false, not, ◌&&◌, ◌||◌, List, [], ◌∷◌, leb, ◌==◌, if◌then◌else◌}
use file_nest.FilePath.{Text, push}

abbrev pub is_line_break : ℕ → Bool
is_line_break c =
    (leb 10 c && leb c 13) || (leb 28 c && leb c 30) || c == 133 || c == 8232 || c == 8233

abbrev pub starts_with_newline : Text → Bool
starts_with_newline [] = false
starts_with_newline (c ∷ _) = c == 10

-- a carriage return and a newline are one break
unfoldable pub splitlines : Text → List Text
splitlines [] = []
splitlines (c ∷ s) =
    let rest = splitlines s in
    if is_line_break c && not (c == 13 && starts_with_newline s)
    then (c ∷ []) ∷ rest
    else push c rest
