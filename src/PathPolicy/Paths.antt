-- ===== src/PathPolicy/Paths.antt =====
-- What the Boolean tests of backend/app/path_policy.py on two paths, on sensitive names and on a denylist
-- say of the parts of the paths.
use file_nest.Base.{
  ◌≡◌, ◌≢◌, ◌↔◌, refl, ap, ◌∙◌, Bool, true, false, List, [], ◌∷◌, ◌++◌, arith, any, All, Bool-cases,
  inl, inr,
}
use file_nest.FilePath.{Text, text_eq, PurePosixPath}
use file_nest.FilePath.Laws.{text_eq_iff}
use file_nest.FilePath.Inside.{is_within_iff}
use file_nest.PathPolicy.Rules.{
  System, SensitivePathRules, is_within_path, is_member, starts_with, is_sensitive_path, path_parts,
  path_name, path_suffix, is_user_denylisted, normalize_path, below,
}

-- the path continues the root, part by part
abbrev pub Inside : PurePosixPath → PurePosixPath → Type 0
Inside path root = (path.root ≡ root.root) × (rest : List Text) × (path.parts ≡ root.parts ++ rest)

pub is_within_path_iff :
    (path root : PurePosixPath) → (is_within_path path root ≡ true) ↔ Inside path root
unfolding is_within_path
is_within_path_iff path root = (
  λ h.
      let same : text_eq path.root root.root ≡ true = ground arith in
      let (rest, parts) = (is_within_iff path.parts root.parts).0 (ground arith) in
      ((text_eq_iff path.root root.root).0 same, rest, parts),
  λ h.
      rw ((text_eq_iff path.root root.root).1 h.0)
        ((is_within_iff path.parts root.parts).1 (h.1, h.2)),
)

-- a test fails on every element exactly if what it tests does
pub any-All {ℓ κ} :
    {A : Type ℓ} (p : A → Bool) (P : A → Type κ)
    → ((x : A) → (p x ≡ false) ↔ P x)
    → (xs : List A) → (any p xs ≡ false) ↔ All P xs
any-All p P each [] = (λ h. tt, λ h. refl)
any-All p P each (x ∷ xs) =
    let rest = any-All p P each xs in
    (λ h. ((each x).0 (ground arith), rest.0 (ground arith)), λ h. rw ((each x).1 h.0) (rest.1 h.1))

differs_iff : (x y : Text) → (text_eq x y ≡ false) ↔ (x ≢ y)
differs_iff x y = (
  λ h e. cc (h, (text_eq_iff x y).1 e),
  λ n. elim (Bool-cases (text_eq x y)) [ inl e ↦ absurd (n ((text_eq_iff x y).0 e)) | inr e ↦ e ],
)

other_member_iff : (x : Text) (xs : List Text) → (is_member x xs ≡ false) ↔ All (λ y. x ≢ y) xs
other_member_iff x xs = any-All (text_eq x) (λ y. x ≢ y) (differs_iff x) xs

starts_with-append : (prefix rest : Text) → starts_with prefix (prefix ++ rest) ≡ true
unfolding starts_with
starts_with-append [] rest = refl
starts_with-append (c ∷ prefix) rest = ground (arith, starts_with-append prefix rest)

rest_of_start :
    (prefix name : Text) → starts_with prefix name ≡ true → (rest : Text) × (name ≡ prefix ++ rest)
unfolding starts_with
rest_of_start [] name h = (name, refl)
rest_of_start (c ∷ prefix) [] h = absurd (cc h)
rest_of_start (c ∷ prefix) (d ∷ name) h =
    let (rest, e) = rest_of_start prefix name (ground arith) in (rest, ground arith)

other_start_iff :
    (prefix name : Text)
    → (starts_with prefix name ≡ false) ↔ ((rest : Text) → name ≢ prefix ++ rest)
other_start_iff prefix name = (
  λ h rest e. cc (h, ap (starts_with prefix) e ∙ starts_with-append prefix rest),
  λ n. elim (Bool-cases (starts_with prefix name)) [
    | inl e ↦ let (rest, same) = rest_of_start prefix name e in absurd (n rest same)
    | inr e ↦ e
  ],
)

-- no part, name or suffix of the path is, after `casefold`, one of the rules
pub record Plain (casefold : Text → Text) (path : PurePosixPath) (rules : SensitivePathRules)
    : Type 0 where
  pub directories :
      All (λ part. All (λ name. casefold part ≢ name) rules.directory_names) (path_parts path)
  pub name : All (λ name. casefold (path_name path) ≢ name) rules.file_names
  pub start :
      All
        (λ prefix. (rest : Text) → casefold (path_name path) ≢ prefix ++ rest)
        rules.file_name_prefixes
  pub suffix : All (λ suffix. casefold (path_suffix path) ≢ suffix) rules.file_suffixes

module _ (casefold : Text → Text) (path : PurePosixPath) (rules : SensitivePathRules) where
  directories_iff :
      (any (λ part. is_member (casefold part) rules.directory_names) (path_parts path) ≡ false)
      ↔ All (λ part. All (λ name. casefold part ≢ name) rules.directory_names) (path_parts path)
  directories_iff =
      any-All (λ part. is_member (casefold part) rules.directory_names)
        (λ part. All (λ name. casefold part ≢ name) rules.directory_names)
        (λ part. other_member_iff (casefold part) rules.directory_names) (path_parts path)

  starts_iff :
      (any (λ prefix. starts_with prefix (casefold (path_name path))) rules.file_name_prefixes
        ≡ false)
      ↔ All
          (λ prefix. (rest : Text) → casefold (path_name path) ≢ prefix ++ rest)
          rules.file_name_prefixes
  starts_iff =
      any-All (λ prefix. starts_with prefix (casefold (path_name path)))
        (λ prefix. (rest : Text) → casefold (path_name path) ≢ prefix ++ rest)
        (λ prefix. other_start_iff prefix (casefold (path_name path))) rules.file_name_prefixes

  pub is_sensitive_path_iff :
      (is_sensitive_path casefold path rules ≡ false) ↔ Plain casefold path rules
  unfolding is_sensitive_path
  is_sensitive_path_iff = (
    λ h. record {
      directories = directories_iff.0 (ground arith);
      name = (other_member_iff (casefold (path_name path)) rules.file_names).0 (ground arith);
      start = starts_iff.0 (ground arith);
      suffix =
          (other_member_iff (casefold (path_suffix path)) rules.file_suffixes).0 (ground arith);
    },
    λ p.
        rw
          (
            directories_iff.1 p.directories,
            (other_member_iff (casefold (path_name path)) rules.file_names).1 p.name,
            starts_iff.1 p.start,
            (other_member_iff (casefold (path_suffix path)) rules.file_suffixes).1 p.suffix,
          )
          refl,
  )

-- neither the path nor what it resolves to is in a subtree of the denylist
abbrev pub Undenied :
    System → PurePosixPath → PurePosixPath → PurePosixPath → List PurePosixPath → Type 0
Undenied system normalized resolved root denylist =
    All
      (λ denied.
        (Inside normalized (normalize_path system (below root denied)) → ⊥)
        × (Inside resolved (normalize_path system (below root denied)) → ⊥))
      denylist

outside_iff :
    (path root : PurePosixPath) → (is_within_path path root ≡ false) ↔ (Inside path root → ⊥)
outside_iff path root = (
  λ h i. cc (h, (is_within_path_iff path root).1 i),
  λ n. elim (Bool-cases (is_within_path path root)) [
    | inl e ↦ absurd (n ((is_within_path_iff path root).0 e))
    | inr e ↦ e
  ],
)

pub is_user_denylisted_iff :
    (system : System) (normalized resolved root : PurePosixPath) (denylist : List PurePosixPath)
    → (is_user_denylisted system normalized resolved root denylist ≡ false)
      ↔ Undenied system normalized resolved root denylist
unfolding is_user_denylisted
is_user_denylisted_iff system n r root [] = (λ h. tt, λ h. refl)
is_user_denylisted_iff system n r root (denied ∷ rest) =
    let place = normalize_path system (below root denied) in
    let later = is_user_denylisted_iff system n r root rest in
    (
      λ h. (
        (
          (outside_iff n (normalize_path system (below root denied))).0 (ground arith),
          (outside_iff r (normalize_path system (below root denied))).0 (ground arith),
        ),
        later.0 (ground arith),
      ),
      λ u.
          rw
            (
              (outside_iff n (normalize_path system (below root denied))).1 u.0.0,
              (outside_iff r (normalize_path system (below root denied))).1 u.0.1,
              later.1 u.1,
            )
            refl,
    )
