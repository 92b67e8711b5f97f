-- ===== src/PathPolicy/Examples.antt =====
-- A workspace `/work` with a link that leaves it, tests of the policy, and the theorems there.
use file_nest.Base.{
  ◌≤◌, ◌≡◌, ◌↔◌, refl, Bool, true, false, ◌&&◌, ◌||◌, ◌+◌, List, [], ◌∷◌, Option, some, none, ok,
  err, length, codes, All, Distinct, arith, map, leb, if◌then◌else◌,
}
use mathlib.Core.Path.{subst}
use file_nest.FilePath.{Text, text_eq, PurePosixPath, posix_text, is_absolute, slash}
use file_nest.FilePath.Laws.{EachName, EachName-of_test}
use file_nest.FilePath.Absolute.{normalize, normalize_onto, normalize_step, is_within}
use file_nest.OperationPlan.Examples.{tools}
use file_nest.PathPolicy.Rules.{
  System, PathPolicyRequest, AuthorizedPath, SensitivePathRules, sensitive_path_rules,
  normalize_rule_values, path_outside_workspace, path_link_outside_workspace, sensitive_path,
  path_denylisted, authorize_path, normalize_workspace_root, normalize_path, resolve_path,
  is_within_path, is_sensitive_path, path_parts, path_name, path_suffix, starts_with,
  is_user_denylisted, validate_workspace_root, repeated, has_wildcard, user_denylist, file_names,
  empty_value,
}
use file_nest.PathPolicy.Workspace.{
  WorkspacePolicy, workspace_policy, normalize_workspace_relative_values, normalize_values,
  validate_relative_value, denylisted_paths,
}
use file_nest.PathPolicy.Access.{Allowed, authorize_path_iff}
use file_nest.PathPolicy.Sensitive.{Names, Unnamed, sensitive_names_refused}
use file_nest.PathPolicy.Root.{here, Settles, validated_root_is_authorized}
use file_nest.PathPolicy.Denied.{
  IsValue, workspace_policy_sound, Resolves, Outside, denied_subtrees_refused,
}

abbrev absolute : List Text → PurePosixPath
absolute parts = record { root = slash ∷ []; parts = parts }

abbrev relative : List Text → PurePosixPath
relative parts = record { root = []; parts = parts }

abbrev work : PurePosixPath
work = absolute (codes "work" ∷ [])

abbrev note : PurePosixPath
note = absolute (codes "work" ∷ codes "docs" ∷ codes "a.txt" ∷ [])

abbrev key : PurePosixPath
key = absolute (codes "work" ∷ codes "docs" ∷ codes "Server.KEY" ∷ [])

abbrev draft_note : PurePosixPath
draft_note = absolute (codes "work" ∷ codes "drafts" ∷ codes "b.txt" ∷ [])

abbrev elsewhere : PurePosixPath
elsewhere = absolute (codes "etc" ∷ codes "passwd" ∷ [])

-- the paths of five places, and a link to one of them
unfoldable resolve_demo : PurePosixPath → Option PurePosixPath
resolve_demo path =
    let text = posix_text path in
    if text_eq text (codes "/work")
    then some work
    else if text_eq text (codes "/work/docs/a.txt")
    then some note
    else if text_eq text (codes "/work/docs/Server.KEY")
    then some key
    else if text_eq text (codes "/work/drafts/b.txt")
    then some draft_note
    else if text_eq text (codes "/work/link") || text_eq text (codes "/etc/passwd")
    then some elsewhere
    else none

abbrev lower : Text → Text
lower [] = []
lower (c ∷ s) = if leb 65 c && leb c 90 then (c + 32) ∷ lower s else c ∷ lower s

abbrev demo : System
demo = record {
  cwd = absolute (codes "srv" ∷ []);
  resolve = resolve_demo;
  exists = λ path. some true;
  is_dir = λ path. some true;
  casefold = lower;
}

abbrev rules : SensitivePathRules
rules = record {
  directory_names = codes ".git" ∷ [];
  file_names = codes "id_rsa" ∷ [];
  file_name_prefixes = codes ".env." ∷ [];
  file_suffixes = codes ".key" ∷ [];
}

abbrev request : List Text → PathPolicyRequest
request parts = record {
  workspace_root = work;
  requested_path = relative parts;
  sensitive_path_rules = rules;
  user_denylist = relative (codes "drafts" ∷ []) ∷ [];
}

unfoldable runs : Unit {0}
unfolding tools resolve_demo normalize normalize_onto normalize_step is_within sensitive_path_rules
    normalize_rule_values authorize_path normalize_workspace_root normalize_path resolve_path
    is_within_path is_sensitive_path path_parts path_name path_suffix starts_with is_user_denylisted
    validate_workspace_root workspace_policy normalize_workspace_relative_values normalize_values
    validate_relative_value denylisted_paths
runs = tt

plain_path :
    authorize_path demo (request (codes "docs" ∷ codes "a.txt" ∷ []))
    ≡ ok (record { workspace_root = work; path = note })
unfolding runs
plain_path = refl

dotted_path :
    authorize_path demo (request (codes "x" ∷ codes ".." ∷ codes "docs" ∷ codes "a.txt" ∷ []))
    ≡ ok (record { workspace_root = work; path = note })
unfolding runs
dotted_path = refl

escape : authorize_path demo (request (codes ".." ∷ codes "etc" ∷ [])) ≡ err path_outside_workspace
unfolding runs
escape = refl

escape_by_link : authorize_path demo (request (codes "link" ∷ [])) ≡ err path_link_outside_workspace
unfolding runs
escape_by_link = refl

upper_case_suffix :
    authorize_path demo (request (codes "docs" ∷ codes "Server.KEY" ∷ [])) ≡ err sensitive_path
unfolding runs
upper_case_suffix = refl

denied : authorize_path demo (request (codes "drafts" ∷ codes "b.txt" ∷ [])) ≡ err path_denylisted
unfolding runs
denied = refl

empty_rule :
    normalize_rule_values lower file_names (codes "A" ∷ [] ∷ []) ≡ err (empty_value file_names)
unfolding runs
empty_rule = refl

suffixes :
    (path_suffix (relative (codes "a.tar.gz" ∷ [])) ≡ codes ".gz")
    × (path_suffix (relative (codes ".env" ∷ [])) ≡ [])
    × (path_suffix (relative (codes "a." ∷ [])) ≡ [])
    × (path_suffix (relative (codes "plain" ∷ [])) ≡ [])
unfolding runs
suffixes = (refl, refl, refl, refl)

abbrev policy : WorkspacePolicy
policy = record {
  policy_revision = 3;
  read_enabled = true;
  proposal_enabled = true;
  safe_execution_enabled = false;
  user_denylist = codes "drafts" ∷ codes "tmp/old" ∷ [];
  ignore_patterns = codes "*.bak" ∷ [];
}

policy_accepted : workspace_policy lower policy ≡ ok policy
unfolding runs
policy_accepted = refl

same_after_casefold :
    workspace_policy lower (record policy { user_denylist = codes "Drafts" ∷ codes "drafts" ∷ [] })
    ≡ err (repeated user_denylist)
unfolding runs
same_after_casefold = refl

glob_in_denylist :
    workspace_policy lower (record policy { user_denylist = codes "*.txt" ∷ [] })
    ≡ err (has_wildcard user_denylist)
unfolding runs
glob_in_denylist = refl

abbrev docs_request : PathPolicyRequest
docs_request = request (codes "docs" ∷ codes "a.txt" ∷ [])

abbrev docs_answer : AuthorizedPath
docs_answer = record { workspace_root = work; path = note }

docs_answered : authorize_path demo docs_request ≡ ok docs_answer
unfolding runs
docs_answered = refl

authorize_path_iff_example :
    (authorize_path demo docs_request ≡ ok docs_answer) ↔ Allowed demo docs_request docs_answer
authorize_path_iff_example = authorize_path_iff demo docs_request docs_answer

abbrev names : Names
names = record {
  directories = codes ".Git" ∷ [];
  files = codes "id_rsa" ∷ [];
  prefixes = codes ".ENV." ∷ [];
  suffixes = codes ".key" ∷ [];
}

names_folded :
    sensitive_path_rules lower names.directories names.files names.prefixes names.suffixes
    ≡ ok rules
unfolding runs
names_folded = refl

sensitive_names_refused_example : Unnamed lower names note
sensitive_names_refused_example =
    sensitive_names_refused demo names docs_request docs_answer names_folded docs_answered

workspace_policy_sound_example :
    (policy ≡ policy)
    × (length policy.user_denylist ≤ 200)
    × All (IsValue false) policy.user_denylist
    × Distinct (map lower policy.user_denylist)
    × (length policy.ignore_patterns ≤ 200)
    × All (IsValue true) policy.ignore_patterns
    × Distinct (map lower policy.ignore_patterns)
workspace_policy_sound_example = workspace_policy_sound lower policy policy policy_accepted

abbrev IsPlace : PurePosixPath → Type 0
IsPlace path = (is_absolute path ≡ true) × EachName path.parts

places : IsPlace work × IsPlace note × IsPlace key × IsPlace draft_note × IsPlace elsewhere
unfolding text_eq
places = (
  (refl, EachName-of_test work.parts refl),
  (refl, EachName-of_test note.parts refl),
  (refl, EachName-of_test key.parts refl),
  (refl, EachName-of_test draft_note.parts refl),
  (refl, EachName-of_test elsewhere.parts refl),
)

chosen :
    (P : PurePosixPath → Type 0) (test : Bool) (place resolved : PurePosixPath)
    (rest : Option PurePosixPath)
    → P place
    → (rest ≡ some resolved → P resolved)
    → (if test then some place else rest) ≡ some resolved
    → P resolved
chosen P true place resolved rest p k h = subst P (ground arith) p
chosen P false place resolved rest p k h = k h

-- what holds of the five places holds of every answer
answered :
    (P : PurePosixPath → Type 0) (path resolved : PurePosixPath)
    → P work
    → P note
    → P key
    → P draft_note
    → P elsewhere
    → resolve_demo path ≡ some resolved
    → P resolved
unfolding resolve_demo
answered P path resolved w n k d e = chosen P _ work resolved _ w (
    chosen P _ note resolved _ n (
      chosen P _ key resolved _ k (
        chosen P _ draft_note resolved _ d
          (chosen P _ elsewhere resolved none e (λ h. absurd (cc h))))))

demo-Resolves : Resolves demo
demo-Resolves path resolved h =
    let (w, n, k, d, e) = places in answered IsPlace path resolved w n k d e h

abbrev denying_request : PathPolicyRequest
denying_request = record docs_request { user_denylist = denylisted_paths policy }

denying_answered : authorize_path demo denying_request ≡ ok docs_answer
unfolding runs
denying_answered = refl

denied_subtrees_refused_example : All (Outside docs_answer) policy.user_denylist
denied_subtrees_refused_example =
    denied_subtrees_refused demo policy policy denying_request docs_answer demo-Resolves
      policy_accepted refl denying_answered

demo-Settles : Settles demo
unfolding runs
demo-Settles path resolved h =
    answered (λ place. resolve_demo place ≡ some place) path resolved refl refl refl refl refl h

validated_root_is_authorized_example :
    authorize_path demo (record {
      workspace_root = work;
      requested_path = here;
      sensitive_path_rules = rules;
      user_denylist = [];
    })
    ≡ ok (record { workspace_root = work; path = work })
unfolding runs
validated_root_is_authorized_example =
    validated_root_is_authorized demo (absolute (codes "x" ∷ codes ".." ∷ codes "work" ∷ [])) work
      rules demo-Resolves demo-Settles refl
