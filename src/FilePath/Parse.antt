-- ===== src/FilePath/Parse.antt =====
-- Text as a list of code points, its `strip` and `split`, and `PurePosixPath`.
use mathlib.Core.List.{reverse}
use file_nest.Base.{
  ℕ, Bool, true, false, not, ◌&&◌, ◌||◌, List, [], ◌∷◌, ◌++◌, leb, ◌==◌, if◌then◌else◌,
}

abbrev pub Text : Type 0
Text = List ℕ

unfoldable pub text_eq : Text → Text → Bool
text_eq [] [] = true
text_eq (a ∷ s) (b ∷ t) = a == b && text_eq s t
text_eq _ _ = false

-- `str.isspace`, for one character
unfoldable pub is_space : ℕ → Bool
is_space c =
    (leb 9 c && leb c 13)
    || (leb 28 c && leb c 32)
    || c == 133
    || c == 160
    || c == 5760
    || (leb 8192 c && leb c 8202)
    || c == 8232
    || c == 8233
    || c == 8239
    || c == 8287
    || c == 12288

unfoldable pub strip_left : Text → Text
strip_left [] = []
strip_left (c ∷ s) = let rest = strip_left s in if is_space c then rest else c ∷ s

unfoldable pub strip : Text → Text
strip s = reverse (strip_left (reverse (strip_left s)))

abbrev pub push : ℕ → List Text → List Text
push c [] = (c ∷ []) ∷ []
push c (s ∷ rest) = (c ∷ s) ∷ rest

-- `s.split(sep)` at a separator of one character
unfoldable pub split : ℕ → Text → List Text
split sep [] = [] ∷ []
split sep (c ∷ s) = let rest = split sep s in if c == sep then [] ∷ rest else push c rest

-- `sep.join(parts)`
unfoldable pub join : ℕ → List Text → Text
join sep [] = []
join sep (s ∷ rest) = elim rest [ [] ↦ s | t ∷ more ↦ s ++ (sep ∷ join sep rest) ]

abbrev pub slash : ℕ
slash = b'/'

abbrev pub is_dot : Text → Bool
is_dot s = text_eq s (b'.' ∷ [])

abbrev pub is_dot_dot : Text → Bool
is_dot_dot s = text_eq s (b'.' ∷ b'.' ∷ [])

abbrev pub is_blank : Text → Bool
is_blank [] = true
is_blank (_ ∷ _) = false

pub record PurePosixPath : Type 0 where
  pub root : Text
  pub parts : List Text

-- `[x for x in rel.split("/") if x and x != "."]`
unfoldable pub keep_parts : List Text → List Text
keep_parts [] = []
keep_parts (s ∷ rest) =
    let kept = keep_parts rest in if is_blank s || is_dot s then kept else s ∷ kept

-- `posixpath.splitroot`: exactly two leading slashes are kept, any other number is one
unfoldable pub split_root : Text → Text × Text
split_root [] = ([], [])
split_root (a ∷ []) = if a == slash then (slash ∷ [], []) else ([], a ∷ [])
split_root (a ∷ b ∷ []) =
    if a == slash
    then (if b == slash then (slash ∷ slash ∷ [], []) else (slash ∷ [], b ∷ []))
    else ([], a ∷ b ∷ [])
split_root (a ∷ b ∷ c ∷ rest) =
    if a == slash
    then (if b == slash && not (c == slash)
        then (slash ∷ slash ∷ [], c ∷ rest)
        else (slash ∷ [], b ∷ c ∷ rest))
    else ([], a ∷ b ∷ c ∷ rest)

unfoldable pub pure_posix_path : Text → PurePosixPath
pure_posix_path value =
    let (root, rel) = split_root value in
    record { root = root; parts = keep_parts (split slash rel) }

abbrev pub is_absolute : PurePosixPath → Bool
is_absolute path = not (is_blank path.root)

-- `str(path)`
unfoldable pub posix_text : PurePosixPath → Text
posix_text path =
    let text = path.root ++ join slash path.parts in if is_blank text then b'.' ∷ [] else text

abbrev pub is_windows_sep : ℕ → Bool
is_windows_sep c = c == slash || c == b'\\'

-- `bool(PureWindowsPath(value).drive)`: a letter drive or a UNC share
unfoldable pub has_windows_drive : Text → Bool
has_windows_drive (a ∷ b ∷ rest) = b == b':' || (is_windows_sep a && is_windows_sep b)
has_windows_drive _ = false

-- `"\\\\" in value`
unfoldable pub has_backslash : Text → Bool
has_backslash [] = false
has_backslash (c ∷ s) = c == b'\\' || has_backslash s
