-- ===== src/FileSystem/Leaving.antt =====
-- A file that backend/app/quarantine.py has quarantined lies outside of the workspace.
use file_nest.Base.{
  ℕ, ◌≡◌, sym, ap, ◌∙◌, true, false, ◌||◌, [], ok, arith, >>=-eq-ok, after_guard, ok-injective,
}
use mathlib.Core.Path.{subst}
use file_nest.FilePath.{Text, PurePosixPath}
use file_nest.PathPolicy.{is_within_path, normalize_workspace_root}
use file_nest.FileSystem.Adapter.{FileSystem, FileSystemAdapter, authorize, adapter_root}
use file_nest.FileSystem.Mover.{or_raised, Move, path_eq}
use file_nest.FileSystem.Quarantine.{
  or_moving, QuarantineManager, quarantine_manager, QuarantinedFile, Mkdir, quarantine,
}
use file_nest.FileSystem.Granted.{authorize-Permitted, Granted}
use file_nest.FileSystem.Adapter.{request_of}
use file_nest.FileSystem.Roots.{apart_roots}
use file_nest.FileSystem.Isolation.{quarantine_sound}

adapter_root-normalized :
    (fs : FileSystem) (adapter : FileSystemAdapter) (root : PurePosixPath)
    → adapter_root fs adapter ≡ ok root
    → normalize_workspace_root fs.system adapter.workspace_root ≡ ok root
unfolding adapter_root request_of
adapter_root-normalized fs adapter root h =
    let (answer, given, last) =
      >>=-eq-ok (authorize fs adapter (record { root = []; parts = [] })) _ h in
    let (permitted, _) =
      authorize-Permitted fs adapter (record { root = []; parts = [] }) answer given in
    permitted.root ∙ ap ok (ok-injective last)

-- the managed adapters are the given ones, and their roots are apart
manager_roots :
    (fs : FileSystem) (a b : FileSystemAdapter) (manager : QuarantineManager)
    → quarantine_manager fs a b ≡ ok manager
    → (x : PurePosixPath) × (y : PurePosixPath) × (adapter_root fs a ≡ ok x)
      × (adapter_root fs b ≡ ok y)
      × ((path_eq x y || is_within_path x y || is_within_path y x) ≡ false)
      × (manager ≡ record { workspace_adapter = a; quarantine_adapter = b })
unfolding quarantine_manager
manager_roots fs a b manager h =
    let (x, found_x, h1) = >>=-eq-ok (or_moving (or_raised (adapter_root fs a))) _ h in
    let (y, found_y, h2) = >>=-eq-ok (or_moving (or_raised (adapter_root fs b))) _ h1 in
    let (apart, last) =
      after_guard (path_eq x y || is_within_path x y || is_within_path y x) _ _ h2 in
    (x, y, ground arith, ground arith, apart, sym (ok-injective last))

-- a path that the adapter has granted lies within the adapter's root, and this is the resolved one
Granted-within :
    (fs : FileSystem) (adapter : FileSystemAdapter) (requested path root : PurePosixPath)
    → Granted fs adapter requested path
    → normalize_workspace_root fs.system adapter.workspace_root ≡ ok root
    → is_within_path path root ≡ true
unfolding request_of
Granted-within fs adapter requested path root granted resolved =
    let same : granted.answer.workspace_root ≡ root =
      ok-injective (sym granted.permitted.root ∙ resolved) in
    subst (λ x. is_within_path path x ≡ true) same
      (subst (λ x. is_within_path x granted.answer.workspace_root ≡ true) granted.own
        granted.permitted.inside)

-- A file that is quarantined by a manager whose roots were accepted lies outside of the workspace, if
-- the creation of directories does not change what the quarantine root resolves to.
pub quarantine_leaves_workspace :
    (shutil_move : Move) (others : FileSystem → FileSystem) (mkdir : Mkdir) (fs fs' : FileSystem)
    (a b : FileSystemAdapter) (manager : QuarantineManager) (source_path root : PurePosixPath)
    (w : ℕ) (p : Text) (f : ℕ) (file : QuarantinedFile)
    → ((d : PurePosixPath)
        → normalize_workspace_root (mkdir fs d).1.system b.workspace_root
          ≡ normalize_workspace_root fs.system b.workspace_root)
    → quarantine_manager fs a b ≡ ok manager
    → adapter_root fs a ≡ ok root
    → quarantine shutil_move others mkdir fs manager source_path w p f ≡ (ok file, fs')
    → is_within_path file.quarantine_path root ≡ false
quarantine_leaves_workspace shutil_move others mkdir fs fs' a b manager source_path root w p f file
      keeps managed workspace h =
    let (x, y, found_x, found_y, apart, same) = manager_roots fs a b manager managed in
    let q = quarantine_sound shutil_move others mkdir fs fs' manager source_path w p f file h in
    let granted : Granted (mkdir fs q.directory).1 b q.relative file.quarantine_path =
      subst
        (λ (m : QuarantineManager).
          Granted (mkdir fs q.directory).1 m.quarantine_adapter q.relative file.quarantine_path)
        same q.target in
    let inside =
      Granted-within (mkdir fs q.directory).1 b q.relative file.quarantine_path y granted
        (keeps q.directory ∙ adapter_root-normalized fs b y found_y) in
    let workspace_root : x ≡ root = ok-injective (sym found_x ∙ workspace) in
    subst (λ r. is_within_path file.quarantine_path r ≡ false) workspace_root
      (apart_roots file.quarantine_path x y apart inside)
