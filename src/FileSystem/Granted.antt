-- ===== src/FileSystem/Granted.antt =====
-- What a path has passed that the adapter of backend/app/filesystem_adapter.py answers with.
use file_nest.Base.{
  ◌≡◌, refl, true, false, List, [], ◌∷◌, ok, err, arith, >>=-eq-ok, after_guard, Result,
  ok-injective,
}
use mathlib.Core.Path.{subst}
use file_nest.FilePath.{Text, PurePosixPath}
use file_nest.FilePath.Laws.{text_eq_iff}
use file_nest.PathPolicy.{AuthorizedPath, authorize_path, PathPolicyErrorCode}
use file_nest.PathPolicy.Authorize.{Permitted, authorize_path-Permitted_iff}
use file_nest.FileSystem.Adapter.{
  FileSystem, FileSystemAdapter, or_policy_error, request_of, is_ignored, authorize,
  authorized_path,
}
use file_nest.FileSystem.Mover.{are_parts_eq, path_eq}

-- the path policy and the ignore patterns have let the request pass, and it resolves to the path
pub record Granted (fs : FileSystem) (adapter : FileSystemAdapter) (requested path : PurePosixPath)
    : Type 0 where
  pub answer : AuthorizedPath
  pub permitted : Permitted fs.system (request_of adapter requested) answer
  pub not_ignored : is_ignored fs adapter requested answer ≡ false
  pub own : answer.path ≡ path

policy_answer :
    {A : Type 0} (r : Result PathPolicyErrorCode A) (a : A) → or_policy_error r ≡ ok a → r ≡ ok a
policy_answer (ok b) a h = ground arith
policy_answer (err e) a h = absurd (cc h)

-- the answer of the adapter has passed the policy, and is not ignored
pub authorize-Permitted :
    (fs : FileSystem) (adapter : FileSystemAdapter) (requested : PurePosixPath)
    (answer : AuthorizedPath)
    → authorize fs adapter requested ≡ ok answer
    → Permitted fs.system (request_of adapter requested) answer
      × (is_ignored fs adapter requested answer ≡ false)
unfolding authorize
authorize-Permitted fs adapter requested answer h =
    let (a, passed, rest) =
      >>=-eq-ok (or_policy_error (authorize_path fs.system (request_of adapter requested))) _ h in
    let (kept, same) = after_guard (is_ignored fs adapter requested a) _ _ rest in
    let policy = policy_answer (authorize_path fs.system (request_of adapter requested)) a passed in
    subst
      (λ x.
        Permitted fs.system (request_of adapter requested) x
        × (is_ignored fs adapter requested x ≡ false))
      (ok-injective same)
      ((authorize_path-Permitted_iff fs.system (request_of adapter requested) a).0 policy, kept)

pub authorized_path-Granted :
    (fs : FileSystem) (adapter : FileSystemAdapter) (requested path : PurePosixPath)
    → authorized_path fs adapter requested ≡ ok path
    → Granted fs adapter requested path
unfolding authorized_path
authorized_path-Granted fs adapter requested path h =
    let (answer, given, last) = >>=-eq-ok (authorize fs adapter requested) _ h in
    let (permitted, kept) = authorize-Permitted fs adapter requested answer given in
    record { answer = answer; permitted = permitted; not_ignored = kept; own = ok-injective last }

are_parts_eq_sound : (s t : List Text) → are_parts_eq s t ≡ true → s ≡ t
are_parts_eq_sound [] [] h = refl
are_parts_eq_sound [] (b ∷ t) h = cc
are_parts_eq_sound (a ∷ s) [] h = cc
are_parts_eq_sound (a ∷ s) (b ∷ t) h = ground (arith, text_eq_iff a b, are_parts_eq_sound s t)

pub path_eq_sound : (p q : PurePosixPath) → path_eq p q ≡ true → p ≡ q
unfolding path_eq
path_eq_sound p q h = ground (arith, text_eq_iff p.root q.root, are_parts_eq_sound p.parts q.parts)
