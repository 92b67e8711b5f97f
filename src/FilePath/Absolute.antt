-- ===== src/FilePath/Absolute.antt =====
-- Absolute paths as the list of their parts: `os.path.abspath` and `Path.relative_to`.
use file_nest.Base.{Bool, true, false, ◌&&◌, ◌||◌, List, [], ◌∷◌, if◌then◌else◌}
use file_nest.FilePath.Parse.{Text, text_eq, is_blank, is_dot, is_dot_dot}

abbrev pub pop : List Text → List Text
pop [] = []
pop (_ ∷ done) = done

-- the loop body of `posixpath.normpath` below a root, over the parts so far, the last one first
unfoldable pub normalize_step : List Text → Text → List Text
normalize_step done part =
    if is_blank part || is_dot part then done else if is_dot_dot part then pop done else part ∷ done

abbrev pub unwind : List Text → List Text → List Text
unwind [] rest = rest
unwind (part ∷ done) rest = unwind done (part ∷ rest)

unfoldable pub normalize_onto : List Text → List Text → List Text
normalize_onto done [] = unwind done []
normalize_onto done (part ∷ rest) = normalize_onto (normalize_step done part) rest

-- `os.path.abspath` of an absolute path
unfoldable pub normalize : List Text → List Text
unfolding normalize_onto
normalize parts = normalize_onto [] parts

-- `path.relative_to(root)` does not raise
unfoldable pub is_within : List Text → List Text → Bool
is_within path [] = true
is_within [] (r ∷ root) = false
is_within (p ∷ path) (r ∷ root) = text_eq p r && is_within path root
