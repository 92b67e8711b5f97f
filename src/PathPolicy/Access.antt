-- ===== src/PathPolicy/Access.antt =====
-- Which paths `authorize_path` of backend/app/path_policy.py answers with, said of their parts.
use file_nest.Base.{◌≡◌, ◌↔◌, some, ok, arith}
use file_nest.FilePath.{PurePosixPath}
use file_nest.PathPolicy.Rules.{
  System, PathPolicyRequest, AuthorizedPath, normalize_path, below, normalize_workspace_root,
  resolve_path, authorize_path,
}
use file_nest.PathPolicy.Authorize.{authorize_path-Permitted_iff}
use file_nest.PathPolicy.Paths.{
  Inside, is_within_path_iff, Plain, is_sensitive_path_iff, Undenied, is_user_denylisted_iff,
}

-- the requested path below the answered root, without `.` and `..`
abbrev pub requested_place : System → PathPolicyRequest → AuthorizedPath → PurePosixPath
requested_place system request answer =
    normalize_path system (below answer.workspace_root request.requested_path)

-- an answer that the policy grants, by the parts of the paths
pub record Allowed (system : System) (request : PathPolicyRequest) (answer : AuthorizedPath)
    : Type 0 where
  pub root :
      system.resolve (normalize_path system request.workspace_root) ≡ some answer.workspace_root
  pub written_inside : Inside (requested_place system request answer) answer.workspace_root
  pub resolved : system.resolve (requested_place system request answer) ≡ some answer.path
  pub inside : Inside answer.path answer.workspace_root
  pub plain : Plain system.casefold answer.path request.sensitive_path_rules
  pub undenied :
      Undenied system
        (requested_place system request answer)
        answer.path
        answer.workspace_root
        request.user_denylist

root_iff :
    (system : System) (path root : PurePosixPath)
    → (normalize_workspace_root system path ≡ ok root)
      ↔ (system.resolve (normalize_path system path) ≡ some root)
unfolding normalize_workspace_root resolve_path
root_iff system path root = (λ h. ground arith, λ h. ground arith)

-- A request is answered with a root and a path exactly if: the root is what the root of the request
-- resolves to; the requested path, taken below it and freed of `.` and `..`, continues its parts and
-- resolves to the answered path, which does so too; no part of this path is after `casefold` a
-- sensitive directory name, and its name no sensitive file name and no continuation of a sensitive
-- prefix, and its suffix is not sensitive; and neither of the two paths continues the parts of a denied
-- path.
pub authorize_path_iff :
    (system : System) (request : PathPolicyRequest) (answer : AuthorizedPath)
    → (authorize_path system request ≡ ok answer) ↔ Allowed system request answer
authorize_path_iff system request answer =
    let place = requested_place system request answer in
    let written =
      is_within_path_iff (requested_place system request answer) answer.workspace_root in
    let reached = is_within_path_iff answer.path answer.workspace_root in
    let plain = is_sensitive_path_iff system.casefold answer.path request.sensitive_path_rules in
    let denied =
      is_user_denylisted_iff system (requested_place system request answer) answer.path
        answer.workspace_root request.user_denylist in
    let policy = authorize_path-Permitted_iff system request answer in
    (
      λ h.
          let p = policy.0 h in
          record {
            root = (root_iff system request.workspace_root answer.workspace_root).0 p.root;
            written_inside = written.0 p.lexically_inside;
            resolved = p.resolved;
            inside = reached.0 p.inside;
            plain = plain.0 p.not_sensitive;
            undenied = denied.0 p.not_denied;
          },
      λ g. policy.1 (record {
        root = (root_iff system request.workspace_root answer.workspace_root).1 g.root;
        lexically_inside = written.1 g.written_inside;
        resolved = g.resolved;
        inside = reached.1 g.inside;
        not_sensitive = plain.1 g.plain;
        not_denied = denied.1 g.undenied;
      }),
    )
