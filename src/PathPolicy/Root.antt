-- ===== src/PathPolicy/Root.antt =====
-- A validated workspace root and the paths below it.
use file_nest.Base.{◌≡◌, refl, sym, ap, ◌∙◌, true, false, some, List, [], ◌∷◌, ◌++◌, ok, arith}
use file_nest.FilePath.{Text, PurePosixPath, is_absolute}
use file_nest.FilePath.Laws.{EachName, text_eq_refl}
use file_nest.FilePath.Absolute.{is_within}
use file_nest.FilePath.Inside.{is_within-append, normalize-EachName}
use file_nest.PathPolicy.Rules.{
  System, SensitivePathRules, is_within_path, is_user_denylisted, is_sensitive_path, normalize_path,
  below, normalize_workspace_root, resolve_path, validate_workspace_root, authorize_path,
}
use file_nest.PathPolicy.Authorize.{authorize_path-Permitted_iff}
use file_nest.PathPolicy.Denied.{Resolves, normalize_path-absolute}

-- documented of `Path.resolve`: what it answers holds no link
abbrev pub Settles : System → Type 0
Settles system =
    (path resolved : PurePosixPath)
    → system.resolve path ≡ some resolved
    → system.resolve resolved ≡ some resolved

-- `Path(".")`
abbrev pub here : PurePosixPath
here = record { root = []; parts = [] }

append_nothing : (parts : List Text) → parts ++ [] ≡ parts
append_nothing [] = refl
append_nothing (part ∷ parts) = ap (λ ps. part ∷ ps) (append_nothing parts)

is_within_path_self : (path : PurePosixPath) → is_within_path path path ≡ true
unfolding is_within_path
is_within_path_self path =
    let whole : is_within path.parts path.parts ≡ true =
      ap (λ parts. is_within parts path.parts) (sym (append_nothing path.parts))
      ∙ is_within-append path.parts [] in
    rw (text_eq_refl path.root, whole) refl

-- what the validation of a root has found
record IsRoot (system : System) (root found : PurePosixPath) (rules : SensitivePathRules)
    : Type 0 where
  resolved : system.resolve (normalize_path system root) ≡ some found
  not_sensitive : is_sensitive_path system.casefold found rules ≡ false

IsRoot-of_valid :
    (system : System) (root found : PurePosixPath) (rules : SensitivePathRules)
    → validate_workspace_root system root rules ≡ ok found
    → IsRoot system root found rules
unfolding validate_workspace_root normalize_workspace_root resolve_path
IsRoot-of_valid system root found rules h = ground arith

normalize_path-found :
    (system : System) (path : PurePosixPath)
    → is_absolute path ≡ true
    → EachName path.parts
    → normalize_path system path ≡ path
normalize_path-found system path h n =
    normalize_path-absolute system path h
    ∙ ap (λ parts. record { root = path.root; parts = parts }) (normalize-EachName path.parts n)

below-here : (path : PurePosixPath) → below path here ≡ path
below-here path =
    ap (λ parts. record { root = path.root; parts = parts }) (append_nothing path.parts)

root_again :
    (system : System) (found : PurePosixPath)
    → normalize_path system found ≡ found
    → system.resolve found ≡ some found
    → normalize_workspace_root system found ≡ ok found
unfolding normalize_workspace_root resolve_path
root_again system found still resolved = rw still (ground arith)

-- On a system where `resolve` answers with absolute paths free of dots and links, the root that
-- `validate_workspace_root` answers with is accepted again as a workspace: with the same sensitive path rules
-- and no denylist, the path `.` is authorised there, and is that root.
pub validated_root_is_authorized :
    (system : System) (root found : PurePosixPath) (rules : SensitivePathRules)
    → Resolves system
    → Settles system
    → validate_workspace_root system root rules ≡ ok found
    → authorize_path system (record {
      workspace_root = found;
      requested_path = here;
      sensitive_path_rules = rules;
      user_denylist = [];
    })
      ≡ ok (record { workspace_root = found; path = found })
unfolding is_user_denylisted
validated_root_is_authorized system root found rules resolves settles h =
    let valid = IsRoot-of_valid system root found rules h in
    let (absolute, names) = resolves (normalize_path system root) found valid.resolved in
    let still = normalize_path-found system found absolute names in
    let place : normalize_path system (below found here) ≡ found =
      ap (normalize_path system) (below-here found) ∙ still in
    let fixed = settles (normalize_path system root) found valid.resolved in
    (authorize_path-Permitted_iff system _ _).1 (record {
      root = root_again system found still fixed;
      lexically_inside = ap (λ path. is_within_path path found) place ∙ is_within_path_self found;
      resolved = ap system.resolve place ∙ fixed;
      inside = is_within_path_self found;
      not_sensitive = valid.not_sensitive;
      not_denied = refl;
    })
