-- ===== src/FileSystem/Roots.antt =====
-- Roots that backend/app/quarantine.py accepts as independent share no path.
use file_nest.Base.{
  ◌≡◌, ◌⊎◌, refl, sym, ◌∙◌, Bool, true, false, ◌||◌, ◌&&◌, List, [], ◌∷◌, arith, Bool-cases, inl,
  inr,
}
use file_nest.FilePath.{Text, text_eq, PurePosixPath}
use file_nest.FilePath.Laws.{text_eq_iff, text_eq_refl}
use file_nest.FilePath.Absolute.{is_within}
use file_nest.PathPolicy.{is_within_path}
use file_nest.FileSystem.Mover.{path_eq}

within_nothing : (path : List Text) → is_within path [] ≡ true
unfolding is_within
within_nothing [] = refl
within_nothing (p ∷ path) = refl

both_true : {a b : Bool} → a ≡ true → b ≡ true → (a && b) ≡ true
both_true h k = ground arith

-- two directories with a path in common: one lies within the other
is_within-both :
    (path a b : List Text)
    → is_within path a ≡ true
    → is_within path b ≡ true
    → (is_within a b ≡ true) ⊎ (is_within b a ≡ true)
unfolding is_within
is_within-both [] [] b h k = inr (within_nothing b)
is_within-both (p ∷ path) [] b h k = inr (within_nothing b)
is_within-both [] (x ∷ a) b h k = absurd (cc h)
is_within-both (p ∷ path) (x ∷ a) [] h k = inl refl
is_within-both (p ∷ path) (x ∷ a) (y ∷ b) h k =
    let tail = is_within-both path a b (ground arith) (ground arith) in
    let first : text_eq p x ≡ true = ground arith in
    let second : text_eq p y ≡ true = ground arith in
    let same : x ≡ y = sym ((text_eq_iff p x).0 first) ∙ (text_eq_iff p y).0 second in
    elim tail [
      | inl inside ↦ inl (rw same (both_true (text_eq_refl y) inside))
      | inr inside ↦ inr (rw same (both_true (text_eq_refl y) inside))
    ]

-- disjoint roots share no path
pub apart_roots :
    (path a b : PurePosixPath)
    → (path_eq a b || is_within_path a b || is_within_path b a) ≡ false
    → is_within_path path b ≡ true
    → is_within_path path a ≡ false
unfolding is_within_path
apart_roots path a b apart inside = elim (Bool-cases (is_within_path path a)) [
  | inr outside ↦ outside
  | inl within ↦
      let roots : a.root ≡ b.root =
        sym ((text_eq_iff path.root a.root).0 (ground arith))
        ∙ (text_eq_iff path.root b.root).0 (ground arith) in
      let forth : text_eq a.root b.root ≡ true = rw roots (text_eq_refl b.root) in
      let back : text_eq b.root a.root ≡ true = rw roots (text_eq_refl b.root) in
      elim (is_within-both path.parts a.parts b.parts (ground arith) (ground arith)) [
        | inl inner ↦ absurd (ground arith)
        | inr outer ↦ absurd (ground arith)
      ]
]
