-- ===== src/PathPolicy/Sensitive.antt =====
-- What the configured sensitive names of backend/app/path_policy.py refuse.
use file_nest.Base.{
  ◌≡◌, ◌≢◌, refl, sym, List, [], ◌∷◌, ◌++◌, map, ok, arith, All, >>=-eq-ok, ok-injective,
}
use mathlib.Core.Path.{subst}
use file_nest.FilePath.{Text, PurePosixPath}
use file_nest.PathPolicy.Rules.{
  System, PathPolicyRequest, AuthorizedPath, RuleName, directory_names, file_names,
  file_name_prefixes, file_suffixes, normalize_rule_values, SensitivePathRules,
  sensitive_path_rules, path_parts, path_name, path_suffix, authorize_path,
}
use file_nest.PathPolicy.Paths.{Plain}
use file_nest.PathPolicy.Access.{authorize_path_iff}

-- the configured names, as they are written
pub record Names : Type 0 where
  pub directories : List Text
  pub files : List Text
  pub prefixes : List Text
  pub suffixes : List Text

-- no part, name or suffix of the path is one of the names, up to `casefold` of both
pub record Unnamed (casefold : Text → Text) (names : Names) (path : PurePosixPath) : Type 0 where
  pub directories :
      All (λ part. All (λ name. casefold part ≢ casefold name) names.directories) (path_parts path)
  pub name : All (λ name. casefold (path_name path) ≢ casefold name) names.files
  pub start :
      All
        (λ prefix. (rest : Text) → casefold (path_name path) ≢ casefold prefix ++ rest)
        names.prefixes
  pub suffix : All (λ suffix. casefold (path_suffix path) ≢ casefold suffix) names.suffixes

All-map {ℓ κ} :
    {A B : Type ℓ} (P : B → Type κ) (f : A → B) (xs : List A)
    → All P (map f xs)
    → All (λ x. P (f x)) xs
All-map P f [] h = tt
All-map P f (x ∷ xs) h = (h.0, All-map P f xs h.1)

All-each {ℓ κ} :
    {A : Type ℓ} (P Q : A → Type κ) → ((x : A) → P x → Q x) → (xs : List A) → All P xs → All Q xs
All-each P Q step [] h = tt
All-each P Q step (x ∷ xs) h = (step x h.0, All-each P Q step xs h.1)

folded_values :
    (f : Text → Text) (name : RuleName) (values result : List Text)
    → normalize_rule_values f name values ≡ ok result
    → result ≡ map f values
unfolding normalize_rule_values
folded_values f name values result h = ground arith

folded_rules :
    (f : Text → Text) (names : Names) (rules : SensitivePathRules)
    → sensitive_path_rules f names.directories names.files names.prefixes names.suffixes ≡ ok rules
    → rules ≡ record {
      directory_names = map f names.directories;
      file_names = map f names.files;
      file_name_prefixes = map f names.prefixes;
      file_suffixes = map f names.suffixes;
    }
unfolding sensitive_path_rules
folded_rules f names rules h =
    let (ds, d, h1) = >>=-eq-ok (normalize_rule_values f directory_names names.directories) _ h in
    let (fs, n, h2) = >>=-eq-ok (normalize_rule_values f file_names names.files) _ h1 in
    let (ps, p, h3) = >>=-eq-ok (normalize_rule_values f file_name_prefixes names.prefixes) _ h2 in
    let (ss, s, h4) = >>=-eq-ok (normalize_rule_values f file_suffixes names.suffixes) _ h3 in
    rw (sym (ok-injective h4)) (
      rw
        (
          folded_values f directory_names names.directories ds d,
          folded_values f file_names names.files fs n,
          folded_values f file_name_prefixes names.prefixes ps p,
          folded_values f file_suffixes names.suffixes ss s,
        )
        refl)

Unnamed-of_Plain :
    (f : Text → Text) (names : Names) (path : PurePosixPath)
    → Plain f path (record {
      directory_names = map f names.directories;
      file_names = map f names.files;
      file_name_prefixes = map f names.prefixes;
      file_suffixes = map f names.suffixes;
    })
    → Unnamed f names path
Unnamed-of_Plain f names path p = record {
  directories =
      All-each (λ part. All (λ name. f part ≢ name) (map f names.directories))
        (λ part. All (λ name. f part ≢ f name) names.directories)
        (λ part. All-map (λ name. f part ≢ name) f names.directories) (path_parts path)
        p.directories;
  name = All-map (λ name. f (path_name path) ≢ name) f names.files p.name;
  start =
      All-map (λ prefix. (rest : Text) → f (path_name path) ≢ prefix ++ rest) f names.prefixes
        p.start;
  suffix = All-map (λ suffix. f (path_suffix path) ≢ suffix) f names.suffixes p.suffix;
}

-- With rules that were built from configured names, the path that a request is answered with has, up to
-- `casefold` of both sides, no part that is a directory name, no name that is a file name or begins with
-- a prefix, and no suffix of the list.
pub sensitive_names_refused :
    (system : System) (names : Names) (request : PathPolicyRequest) (answer : AuthorizedPath)
    → sensitive_path_rules system.casefold names.directories names.files names.prefixes
        names.suffixes
      ≡ ok request.sensitive_path_rules
    → authorize_path system request ≡ ok answer
    → Unnamed system.casefold names answer.path
sensitive_names_refused system names request answer built h =
    let plain = ((authorize_path_iff system request answer).0 h).plain in
    Unnamed-of_Plain system.casefold names answer.path (
      subst (Plain system.casefold answer.path)
        (folded_rules system.casefold names request.sensitive_path_rules built) plain)
