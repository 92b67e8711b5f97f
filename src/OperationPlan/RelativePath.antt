-- ===== src/OperationPlan/RelativePath.antt =====
-- What `_validate_relative_path` accepts.
use file_nest.Base.{
  ◌≡◌, ◌≢◌, refl, ap, if◌then◌else◌, true, false, ◌||◌, List, [], ◌∷◌, ◌++◌, any, arith, ok, err,
  Result-cases, ◌⊎◌, Bool-cases, inl, inr,
}
use file_nest.FilePath.{
  Text, text_eq, strip, pure_posix_path, posix_text, is_blank, is_dot, is_dot_dot, PurePosixPath,
  is_absolute, split_root, slash, join, split, keep_parts, has_backslash, has_windows_drive,
}
use file_nest.FilePath.Laws.{
  text_eq_iff, text_eq_refl, pure_posix_path-join, EachName, EachLacks, split-EachLacks,
  keep_parts-EachLacks,
}
use file_nest.FilePath.Absolute.{normalize, is_within}
use file_nest.FilePath.Inside.{normalize-inside}
use file_nest.OperationPlan.{PlanError, validate_relative_path}

EachName-of_tests :
    (parts : List Text)
    → EachLacks slash parts
    → any (λ part. is_blank part || is_dot part || is_dot_dot part) parts ≡ false
    → EachName parts
EachName-of_tests [] k h = tt
EachName-of_tests (s ∷ rest) k h = (
  record {
    not_blank = ground arith;
    not_dot = ground arith;
    not_dot_dot = ground arith;
    no_slash = k.0;
  },
  EachName-of_tests rest k.1 (ground arith),
)

parts-EachLacks : (value : Text) → EachLacks slash (pure_posix_path value).parts
unfolding pure_posix_path
parts-EachLacks value =
    keep_parts-EachLacks (split slash (split_root value).1)
      (split-EachLacks slash (split_root value).1)

-- what the tests of one accepted value have found
record Accepted (value result : Text) : Type 0 where
  same : result ≡ value
  stripped : text_eq value (strip value) ≡ true
  no_backslash : has_backslash value ≡ false
  relative : is_absolute (pure_posix_path value) ≡ false
  proper :
      any (λ part. is_blank part || is_dot part || is_dot_dot part) (pure_posix_path value).parts
      ≡ false
  normal : text_eq (posix_text (pure_posix_path value)) value ≡ true
  not_dot : is_dot value ≡ false

accepted : (value result : Text) → validate_relative_path value ≡ ok result → Accepted value result
unfolding validate_relative_path
accepted value result h = ground arith

-- The validator returns its argument or raises.
pub validate_relative_path_cases :
    (value : Text)
    → (validate_relative_path value ≡ ok value)
      ⊎ ((e : PlanError) × (validate_relative_path value ≡ err e))
validate_relative_path_cases value = elim (Result-cases (validate_relative_path value)) [
  | inl (result, e) ↦ inl (rw e (ap ok (accepted value result e).same))
  | inr raised ↦ inr raised
]

root_is_blank : (path : PurePosixPath) → is_absolute path ≡ false → path.root ≡ []
root_is_blank path h = ground arith

shown_text :
    (text value : Text)
    → (if is_blank text then b'.' ∷ [] else text) ≡ value
    → is_dot value ≡ false
    → (text ≡ value) × (is_blank text ≡ false)
unfolding text_eq
shown_text [] value e d = absurd (cc (e, d))
shown_text (c ∷ text) value e d = (e, refl)

not_empty : (parts : List Text) → is_blank (join slash parts) ≡ false → parts ≢ []
unfolding join
not_empty [] h e = cc
not_empty (s ∷ rest) h e = cc

joined :
    (path : PurePosixPath) (value : Text)
    → path.root ≡ []
    → posix_text path ≡ value
    → is_dot value ≡ false
    → (join slash path.parts ≡ value) × (path.parts ≢ [])
unfolding posix_text
joined path value r e d =
    let (text, filled) = shown_text (join slash path.parts) value (rw r at e) d in
    (text, not_empty path.parts filled)

-- An accepted text is returned as it is. It is the join of one or more proper names, none of them
-- `.`, `..` or with a slash, and below any root of proper names `os.path.abspath` leaves it as it is
-- and inside that root.
pub validate_relative_path_sound :
    (root : List Text) (value result : Text)
    → EachName root
    → validate_relative_path value ≡ ok result
    → let parts = (pure_posix_path value).parts in
      (result ≡ value)
      × (join slash parts ≡ value)
      × (parts ≢ [])
      × EachName parts
      × (normalize (root ++ parts) ≡ root ++ parts)
      × (is_within (normalize (root ++ parts)) root ≡ true)
validate_relative_path_sound root value result n h =
    let found = accepted value result h in
    let path = pure_posix_path value in
    let names = EachName-of_tests path.parts (parts-EachLacks value) found.proper in
    let (text, some_part) =
      joined path value (root_is_blank path found.relative) ((text_eq_iff _ _).0 found.normal)
        found.not_dot in
    let (still, inside) = normalize-inside root path.parts n names in
    (found.same, text, some_part, names, still, inside)

names_pass :
    (parts : List Text)
    → EachName parts
    → any (λ part. is_blank part || is_dot part || is_dot_dot part) parts ≡ false
names_pass [] n = refl
names_pass (s ∷ rest) n = rw (n.0.not_blank, n.0.not_dot, n.0.not_dot_dot) (names_pass rest n.1)

join-filled :
    (s : Text) (rest : List Text) → is_blank s ≡ false → is_blank (join slash (s ∷ rest)) ≡ false
unfolding join
join-filled [] rest h = absurd (cc h)
join-filled (c ∷ s) [] h = refl
join-filled (c ∷ s) (t ∷ rest) h = refl

posix_text-join :
    (s : Text) (rest : List Text)
    → is_blank s ≡ false
    → posix_text (record { root = []; parts = s ∷ rest }) ≡ join slash (s ∷ rest)
unfolding posix_text
posix_text-join s rest h = rw (join-filled s rest h) refl

dot_has_no_parts : (value : Text) → is_dot value ≡ true → (pure_posix_path value).parts ≡ []
dot_has_no_parts value h =
    rw ((text_eq_iff value (b'.' ∷ [])).0 h)
      (unfold pure_posix_path split_root split keep_parts text_eq in refl)

module _ (s : Text) (rest : List Text) (n : EachName (s ∷ rest))
    (stripped : strip (join slash (s ∷ rest)) ≡ join slash (s ∷ rest))
    (no_backslash : has_backslash (join slash (s ∷ rest)) ≡ false)
    (no_drive : has_windows_drive (join slash (s ∷ rest)) ≡ false) where
  not_just_dot : is_dot (join slash (s ∷ rest)) ≡ false
  not_just_dot = elim (Bool-cases (is_dot (join slash (s ∷ rest)))) [
    | inl h ↦
        absurd (cc (dot_has_no_parts (join slash (s ∷ rest)) h, pure_posix_path-join s rest n))
    | inr h ↦ h
  ]

  -- One or more proper names, joined by slashes, are accepted and parsed back to the same names, if
  -- the text has no space at either end, no backslash, and no Windows drive.
  pub validate_relative_path_complete :
      (validate_relative_path (join slash (s ∷ rest)) ≡ ok (join slash (s ∷ rest)))
      × ((pure_posix_path (join slash (s ∷ rest))).parts ≡ s ∷ rest)
  validate_relative_path_complete = (
    unfold validate_relative_path in
        rw
          (
            stripped,
            text_eq_refl (join slash (s ∷ rest)),
            no_backslash,
            not_just_dot,
            pure_posix_path-join s rest n,
            no_drive,
            names_pass (s ∷ rest) n,
            posix_text-join s rest n.0.not_blank,
            text_eq_refl (join slash (s ∷ rest)),
          )
          refl,
    ap (λ (path : PurePosixPath). path.parts) (pure_posix_path-join s rest n),
  )
