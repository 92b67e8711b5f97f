-- ===== src/FilePath/Inside.antt =====
-- Where normalised paths lie.
use file_nest.Base.{◌≡◌, ◌↔◌, refl, true, List, [], ◌∷◌, ◌++◌, arith}
use file_nest.FilePath.Parse.{Text}
use file_nest.FilePath.Laws.{text_eq_refl, text_eq_iff, IsName, EachName}
use file_nest.FilePath.Absolute.{normalize_step, normalize_onto, normalize, unwind, is_within}

normalize_step-IsName :
    (done : List Text) (part : Text) → IsName part → normalize_step done part ≡ part ∷ done
unfolding normalize_step
normalize_step-IsName done part n = rw (n.not_blank, n.not_dot, n.not_dot_dot)

normalize_onto-EachName :
    (done parts : List Text) → EachName parts → normalize_onto done parts ≡ unwind done parts
unfolding normalize_onto
normalize_onto-EachName done [] n = refl
normalize_onto-EachName done (part ∷ rest) n =
    rw (normalize_step-IsName done part n.0) (normalize_onto-EachName (part ∷ done) rest n.1)

EachName-append : (xs ys : List Text) → EachName xs → EachName ys → EachName (xs ++ ys)
EachName-append [] ys hx hy = hy
EachName-append (x ∷ xs) ys hx hy = (hx.0, EachName-append xs ys hx.1 hy)

-- A path of proper names is normalised.
pub normalize-EachName : (parts : List Text) → EachName parts → normalize parts ≡ parts
unfolding normalize
normalize-EachName parts n = normalize_onto-EachName [] parts n

pub is_within-append : (root rest : List Text) → is_within (root ++ rest) root ≡ true
unfolding is_within
is_within-append [] rest = refl
is_within-append (r ∷ root) rest = ground (arith, text_eq_refl r, is_within-append root rest)

prefix_of_is_within :
    (path root : List Text)
    → is_within path root ≡ true
    → (rest : List Text) × (path ≡ root ++ rest)
unfolding is_within
prefix_of_is_within path [] h = (path, refl)
prefix_of_is_within [] (r ∷ root) h = absurd (cc h)
prefix_of_is_within (p ∷ path) (r ∷ root) h =
    let (rest, e) = prefix_of_is_within path root (ground arith) in
    (rest, ground (arith, text_eq_iff p r))

-- `relative_to` succeeds exactly on the paths that continue the root, part by part.
pub is_within_iff :
    (path root : List Text)
    → (is_within path root ≡ true) ↔ ((rest : List Text) × (path ≡ root ++ rest))
is_within_iff path root = (prefix_of_is_within path root, λ w. rw w.1 (is_within-append root w.0))

pub normalize-inside :
    (root parts : List Text)
    → EachName root
    → EachName parts
    → (normalize (root ++ parts) ≡ root ++ parts)
      × (is_within (normalize (root ++ parts)) root ≡ true)
normalize-inside root parts hr hp =
    let same = normalize-EachName (root ++ parts) (EachName-append root parts hr hp) in
    (same, rw same (is_within-append root parts))
