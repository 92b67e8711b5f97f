-- ===== src/PathPolicy/Authorize.antt =====
-- When `authorize_path` answers with a path, and which error it raises when it does not.
use file_nest.Base.{◌≡◌, ◌↔◌, refl, true, false, some, ok, arith}
use file_nest.FilePath.{PurePosixPath}
use file_nest.PathPolicy.Rules.{
  System, PathPolicyRequest, AuthorizedPath, is_within_path, is_sensitive_path, is_user_denylisted,
  normalize_path, below, normalize_workspace_root, resolve_path, authorize_path,
}

-- What an authorised path has passed.
pub record Permitted (system : System) (request : PathPolicyRequest) (answer : AuthorizedPath)
    : Type 0 where
  pub root : normalize_workspace_root system request.workspace_root ≡ ok answer.workspace_root
  pub lexically_inside :
      is_within_path
        (normalize_path system (below answer.workspace_root request.requested_path))
        answer.workspace_root
      ≡ true
  pub resolved :
      system.resolve (normalize_path system (below answer.workspace_root request.requested_path))
      ≡ some answer.path
  pub inside : is_within_path answer.path answer.workspace_root ≡ true
  pub not_sensitive :
      is_sensitive_path system.casefold answer.path request.sensitive_path_rules ≡ false
  pub not_denied :
      is_user_denylisted system
        (normalize_path system (below answer.workspace_root request.requested_path))
        answer.path
        answer.workspace_root
        request.user_denylist
      ≡ false

permitted :
    (system : System) (request : PathPolicyRequest) (answer : AuthorizedPath)
    → authorize_path system request ≡ ok answer
    → Permitted system request answer
unfolding authorize_path resolve_path
permitted system request answer h = ground arith

resolve_path-some :
    (system : System) (path resolved : PurePosixPath)
    → system.resolve path ≡ some resolved
    → resolve_path system path ≡ ok resolved
unfolding resolve_path
resolve_path-some system path resolved h = ground arith

answered :
    (system : System) (request : PathPolicyRequest) (answer : AuthorizedPath)
    → Permitted system request answer
    → authorize_path system request ≡ ok answer
unfolding authorize_path
answered system request answer p =
    let step = resolve_path-some system _ answer.path p.resolved in
    rw (p.root, p.lexically_inside, step, p.inside, p.not_sensitive, p.not_denied) refl

-- A request is answered with a root and a path exactly if the root is the resolved root of the
-- request, the requested path, taken below the root and freed of `.` and `..`, is inside the root, it
-- resolves to the answered path, and this is inside the root too, not sensitive, and like the
-- unresolved one not on the denylist.
pub authorize_path-Permitted_iff :
    (system : System) (request : PathPolicyRequest) (answer : AuthorizedPath)
    → (authorize_path system request ≡ ok answer) ↔ Permitted system request answer
authorize_path-Permitted_iff system request answer =
    (permitted system request answer, answered system request answer)
