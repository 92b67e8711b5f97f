-- ===== src/PathPolicy/Denied.antt =====
-- A policy that its constructor has accepted: its values, and the subtrees that it denies.
use file_nest.Base.{
  ◌≡◌, ◌≢◌, refl, sym, ap, ◌∙◌, some, ◌≤◌, Bool, true, false, List, [], ◌∷◌, ◌++◌, map, ok, arith,
  any, length, All, Distinct, ok-injective, after_guard, >>=-eq-ok,
}
use mathlib.Core.Path.{subst}
use file_nest.FilePath.{Text, text_eq, PurePosixPath, pure_posix_path, is_absolute}
use file_nest.FilePath.Laws.{EachName, text_eq_refl}
use file_nest.FilePath.Absolute.{normalize}
use file_nest.FilePath.Inside.{is_within-append}
use file_nest.OperationPlan.{validate_relative_path}
use file_nest.OperationPlan.RelativePath.{validate_relative_path_sound}
use file_nest.PathPolicy.Rules.{
  System, PathPolicyRequest, AuthorizedPath, is_within_path, RuleName, user_denylist,
  ignore_patterns, is_user_denylisted, normalize_path, below, join_path, normalize_workspace_root,
  resolve_path, authorize_path, is_member,
}
use file_nest.PathPolicy.Workspace.{
  WorkspacePolicy, workspace_policy, denylisted_paths, validate_relative_value, normalize_values,
  is_wildcard, normalize_workspace_relative_values,
}
use file_nest.PathPolicy.Authorize.{authorize_path-Permitted_iff}

-- an accepted value: a relative path as in an operation plan, without a wildcard where globs are off
pub record IsValue (allow_glob : Bool) (value : Text) : Type 0 where
  pub relative : validate_relative_path value ≡ ok value
  pub short : length value ≤ 500
  pub no_wildcard : allow_glob ≡ false → any is_wildcard value ≡ false

IsValue-of_valid :
    (name : RuleName) (allow_glob : Bool) (value : Text)
    → validate_relative_value name allow_glob value ≡ ok tt
    → IsValue allow_glob value
unfolding validate_relative_value validate_relative_path
IsValue-of_valid name allow_glob value h = ground arith

-- no value occurs among those already seen, or twice
abbrev AllNew : (Text → Text) → List Text → List Text → Type 0
AllNew f seen [] = Unit {0}
AllNew f seen (x ∷ xs) = (is_member (f x) seen ≡ false) × AllNew f (f x ∷ seen) xs

normalize_values_sound :
    (f : Text → Text) (name : RuleName) (allow_glob : Bool) (seen values result : List Text)
    → normalize_values f name allow_glob seen values ≡ ok result
    → (result ≡ values) × All (IsValue allow_glob) values × AllNew f seen values
unfolding normalize_values
normalize_values_sound f name allow_glob seen [] result h = (ground arith, tt, tt)
normalize_values_sound f name allow_glob seen (x ∷ xs) result h =
    let (unit, valid, after) = >>=-eq-ok (validate_relative_value name allow_glob x) _ h in
    let (new, looped) = after_guard (is_member (f x) seen) _ _ after in
    let (found, rest, last) =
      >>=-eq-ok (normalize_values f name allow_glob (f x ∷ seen) xs) _ looped in
    let (same, all_valid, all_new) =
      normalize_values_sound f name allow_glob (f x ∷ seen) xs found rest in
    (
      sym (ok-injective last) ∙ ap (λ ys. x ∷ ys) same,
      (IsValue-of_valid name allow_glob x valid, all_valid),
      (new, all_new),
    )

differs_of_seen :
    (f : Text → Text) (seen xs : List Text) (y : Text)
    → is_member y seen ≡ true
    → AllNew f seen xs
    → All (λ z. y ≢ z) (map f xs)
differs_of_seen f seen [] y h k = tt
differs_of_seen f seen (x ∷ xs) y h k = (
  λ e. cc (subst (λ z. is_member z seen ≡ true) e h, k.0),
  differs_of_seen f (f x ∷ seen) xs y (ground arith) k.1,
)

Distinct-of_new : (f : Text → Text) (seen xs : List Text) → AllNew f seen xs → Distinct (map f xs)
Distinct-of_new f seen [] h = tt
Distinct-of_new f seen (x ∷ xs) h = (
  differs_of_seen f (f x ∷ seen) xs (f x) (rw (text_eq_refl (f x)) refl) h.1,
  Distinct-of_new f (f x ∷ seen) xs h.1,
)

normalize_workspace_relative_values_sound :
    (f : Text → Text) (name : RuleName) (allow_glob : Bool) (values result : List Text)
    → normalize_workspace_relative_values f name allow_glob values ≡ ok result
    → (result ≡ values)
      × (length values ≤ 200)
      × All (IsValue allow_glob) values
      × Distinct (map f values)
unfolding normalize_workspace_relative_values
normalize_workspace_relative_values_sound f name allow_glob values result h =
    let (same, valid, new) =
      normalize_values_sound f name allow_glob [] values result (ground arith) in
    (same, ground arith, valid, Distinct-of_new f [] values new)

-- An accepted policy is the one given. Its denylist and its ignore patterns have at most 200 values
-- each, every one a normalised relative path of at most 500 characters, no two of one list equal after
-- `casefold`, and those of the denylist have no wildcard.
pub workspace_policy_sound :
    (f : Text → Text) (draft policy : WorkspacePolicy)
    → workspace_policy f draft ≡ ok policy
    → (policy ≡ draft)
      × (length policy.user_denylist ≤ 200)
      × All (IsValue false) policy.user_denylist
      × Distinct (map f policy.user_denylist)
      × (length policy.ignore_patterns ≤ 200)
      × All (IsValue true) policy.ignore_patterns
      × Distinct (map f policy.ignore_patterns)
unfolding workspace_policy
workspace_policy_sound f draft policy h =
    let (denied, checked, rest) =
      >>=-eq-ok (normalize_workspace_relative_values f user_denylist false draft.user_denylist) _
        h in
    let (patterns, checked_too, last) =
      >>=-eq-ok (normalize_workspace_relative_values f ignore_patterns true draft.ignore_patterns) _
        rest in
    let (same, few, valid, distinct) =
      normalize_workspace_relative_values_sound f user_denylist false draft.user_denylist denied
        checked in
    let (same_too, few_too, valid_too, distinct_too) =
      normalize_workspace_relative_values_sound f ignore_patterns true draft.ignore_patterns
        patterns checked_too in
    let unchanged : policy ≡ draft = sym (ok-injective last) ∙ rw (same, same_too) refl in
    rw unchanged (refl, few, valid, distinct, few_too, valid_too, distinct_too)

-- documented of `Path.resolve`: an absolute path without `.` and `..`
abbrev pub Resolves : System → Type 0
Resolves system =
    (path resolved : PurePosixPath)
    → system.resolve path ≡ some resolved
    → (is_absolute resolved ≡ true) × EachName resolved.parts

below_relative :
    (root path : PurePosixPath) → is_absolute path ≡ false → below root path ≡ join_path root path
below_relative root path h = rw h refl

pub normalize_path-absolute :
    (system : System) (path : PurePosixPath)
    → is_absolute path ≡ true
    → normalize_path system path ≡ record { root = path.root; parts = normalize path.parts }
unfolding normalize_path
normalize_path-absolute system path h = rw h refl

pub root-Resolves :
    (system : System) (path root : PurePosixPath)
    → Resolves system
    → normalize_workspace_root system path ≡ ok root
    → (is_absolute root ≡ true) × EachName root.parts
unfolding normalize_workspace_root resolve_path
root-Resolves system path root resolves h =
    resolves (normalize_path system path) root (ground arith)

relative_of_valid :
    (value : Text)
    → validate_relative_path value ≡ ok value
    → is_absolute (pure_posix_path value) ≡ false
unfolding validate_relative_path
relative_of_valid value h = ground arith

denied_place :
    (system : System) (root : PurePosixPath) (value : Text)
    → is_absolute root ≡ true
    → EachName root.parts
    → validate_relative_path value ≡ ok value
    → normalize_path system (below root (pure_posix_path value))
      ≡ join_path root (pure_posix_path value)
denied_place system root value h n valid =
    let (_, _, _, _, still, _) = validate_relative_path_sound root.parts value value n valid in
    rw
      (
        below_relative root (pure_posix_path value) (relative_of_valid value valid),
        normalize_path-absolute system (join_path root (pure_posix_path value)) h,
        still,
      )
      refl

-- no path of the subtree
abbrev pub Outside : AuthorizedPath → Text → Type 0
Outside answer value =
    (rest : List Text)
    → answer.path.parts ≢ (answer.workspace_root.parts ++ (pure_posix_path value).parts) ++ rest

within_subtree :
    (answer : AuthorizedPath) (path : PurePosixPath) (rest : List Text)
    → is_within_path answer.path answer.workspace_root ≡ true
    → answer.path.parts ≡ (answer.workspace_root.parts ++ path.parts) ++ rest
    → is_within_path answer.path (join_path answer.workspace_root path) ≡ true
unfolding is_within_path
within_subtree answer path rest h e =
    let same_root : text_eq answer.path.root answer.workspace_root.root ≡ true = ground arith in
    rw (same_root, e) (is_within-append (answer.workspace_root.parts ++ path.parts) rest)

Outside-of_test :
    (system : System) (normalized : PurePosixPath) (answer : AuthorizedPath) (values : List Text)
    → is_absolute answer.workspace_root ≡ true
    → EachName answer.workspace_root.parts
    → is_within_path answer.path answer.workspace_root ≡ true
    → All (IsValue false) values
    → is_user_denylisted system normalized answer.path answer.workspace_root
        (map pure_posix_path values)
      ≡ false
    → All (Outside answer) values
unfolding is_user_denylisted
Outside-of_test system n answer [] a names inside valid h = tt
Outside-of_test system n answer (value ∷ values) a names inside valid h = (
  λ rest e.
      let place = denied_place system answer.workspace_root value a names valid.0.relative in
      let hit = within_subtree answer (pure_posix_path value) rest inside e in
      ground (arith, place, hit),
  Outside-of_test system n answer values a names inside valid.1 (ground arith),
)

-- With the denylist of an accepted policy, on a system where `resolve` answers with absolute paths free
-- of `.` and `..`, no authorised path is in the subtree of a denied value below the root.
pub denied_subtrees_refused :
    (system : System) (draft policy : WorkspacePolicy) (request : PathPolicyRequest)
    (answer : AuthorizedPath)
    → Resolves system
    → workspace_policy system.casefold draft ≡ ok policy
    → request.user_denylist ≡ denylisted_paths policy
    → authorize_path system request ≡ ok answer
    → All (Outside answer) policy.user_denylist
unfolding denylisted_paths
denied_subtrees_refused system draft policy request answer resolves accepted list h =
    let p = (authorize_path-Permitted_iff system request answer).0 h in
    let (absolute, names) =
      root-Resolves system request.workspace_root answer.workspace_root resolves p.root in
    let (_, _, valid, _, _, _, _) = workspace_policy_sound system.casefold draft policy accepted in
    Outside-of_test system _ answer policy.user_denylist absolute names p.inside valid (
      subst
        (λ denied.
          is_user_denylisted system
            (normalize_path system (below answer.workspace_root request.requested_path)) answer.path
            answer.workspace_root denied
          ≡ false)
        list p.not_denied)
