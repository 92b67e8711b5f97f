-- ===== src/FileSystem/Moves.antt =====
-- What `SafeFileMover.move` of backend/app/safe_file_mover.py does to the file system.
use file_nest.Base.{
  ◌≡◌, ◌⊎◌, refl, sym, ap, ◌∙◌, true, false, Option, none, some, Result, ok, err, arith, >>=-eq-ok,
  Result-cases, Option-cases, inl, inr,
}
use mathlib.Core.Path.{subst}
use file_nest.FilePath.{PurePosixPath}
use file_nest.FileSystem.Adapter.{
  FileMetadata, FileSystem, FileError, FileSystemAdapter, parent, authorized_path, is_directory,
  path_exists, get_file_metadata,
}
use file_nest.FileSystem.Mover.{
  Move, can_move, move_file, MoveError, result_mismatch, or_raised, catch_os_error, check_move,
  check_result, conclude, safe_move, resolve_moved,
}
use file_nest.FileSystem.Granted.{Granted, authorized_path-Granted, path_eq_sound}

-- what the checks have established
pub record Checked (fs : FileSystem) (adapter : FileSystemAdapter)
    (source_path target_path source target : PurePosixPath) : Type 0 where
  pub from : Granted fs adapter source_path source
  pub to : Granted fs adapter target_path target
  pub directory : is_directory fs adapter (parent target) ≡ ok true
  pub free : path_exists fs adapter target ≡ ok false

check_move-Checked :
    (fs : FileSystem) (adapter : FileSystemAdapter)
    (source_path target_path source target : PurePosixPath)
    → check_move fs adapter source_path target_path ≡ ok (source, target)
    → Checked fs adapter source_path target_path source target
unfolding check_move
check_move-Checked fs adapter source_path target_path source target h = record {
  from = authorized_path-Granted fs adapter source_path source (ground arith);
  to = authorized_path-Granted fs adapter target_path target (ground arith);
  directory = ground arith;
  free = ground arith;
}

pub caught :
    {A : Type 0} (instead : MoveError) (r : Result FileError A) (a : A)
    → catch_os_error instead r ≡ ok a
    → r ≡ ok a
caught instead (ok b) a h = ground arith
caught instead (err (FileError.policy_error code)) a h = absurd (cc h)
caught instead (err FileError.os_error) a h = absurd (cc h)

-- the result that is answered is the expected target, a regular file
check_result-target :
    (fs : FileSystem) (adapter : FileSystemAdapter) (target r : PurePosixPath)
    (answer : Result FileError (Option PurePosixPath))
    → check_result fs adapter target answer ≡ ok r
    → (path : PurePosixPath) × (m : FileMetadata) × (answer ≡ ok (some path))
      × (r ≡ target)
      × (get_file_metadata fs adapter r ≡ ok (some m))
unfolding check_result
check_result-target fs adapter target r (err e) h = absurd (cc h)
check_result-target fs adapter target r (ok none) h = absurd (ground arith)
check_result-target fs adapter target r (ok (some path)) h =
    let (result, authorized, h1) = >>=-eq-ok (or_raised (authorized_path fs adapter path)) _ h in
    let (metadata, found, h2) =
      >>=-eq-ok (catch_os_error result_mismatch (get_file_metadata fs adapter result)) _ h1 in
    elim (Option-cases metadata) [
      | inl none_found ↦ absurd (ground arith)
      | inr (m, some_found) ↦ (
        path,
        m,
        refl,
        path_eq_sound r target (ground arith),
        caught result_mismatch (get_file_metadata fs adapter r) (some m) (ground arith),
      )
    ]

-- a move that has taken place found its target free
move_file-moved :
    (shutil_move : Move) (fs fs' : FileSystem) (source target path : PurePosixPath)
    → move_file shutil_move fs source target ≡ (ok (some path), fs')
    → (fs.system.exists target ≡ some false) × (fs' ≡ (shutil_move fs source target).1)
unfolding move_file can_move
move_file-moved shutil_move fs fs' source target path h = (ground arith, ground arith)

can_move-free :
    (fs : FileSystem) (source target : PurePosixPath)
    → can_move fs source target ≡ ok true
    → fs.system.exists target ≡ some false
unfolding can_move
can_move-free fs source target h = ground arith

-- resolving what the move answers changes nothing
resolve_moved-state : (p : Option PurePosixPath × FileSystem) → (resolve_moved p).1 ≡ p.1
resolve_moved-state (none, fs) = refl
resolve_moved-state (some path, fs) = refl

module _ (shutil_move : Move) (others : FileSystem → FileSystem) where
  -- what a move that has answered with `r` has done
  pub record Moved (fs : FileSystem) (adapter : FileSystemAdapter)
      (source_path target_path r : PurePosixPath) (fs' : FileSystem) : Type 0 where
    pub source : PurePosixPath
    pub checked : Checked fs adapter source_path target_path source r
    pub still_free : (others fs).system.exists r ≡ some false
    pub state : fs' ≡ (shutil_move (others fs) source r).1
    pub metadata : FileMetadata
    pub file : get_file_metadata fs' adapter r ≡ ok (some metadata)

  -- what a move has done, whether or not it has answered with a path
  pub data Effect (fs : FileSystem) (adapter : FileSystemAdapter)
      (source_path target_path : PurePosixPath) (fs' : FileSystem) : Type 0 where
    untouched : fs' ≡ fs → Effect fs adapter source_path target_path fs'
    left_to_others : fs' ≡ others fs → Effect fs adapter source_path target_path fs'
    moved :
        (source target : PurePosixPath)
        → Checked fs adapter source_path target_path source target
        → (others fs).system.exists target ≡ some false
        → fs' ≡ (shutil_move (others fs) source target).1
        → Effect fs adapter source_path target_path fs'

  move_file-effect :
      (fs : FileSystem) (source target : PurePosixPath)
      → ((move_file shutil_move fs source target).1 ≡ fs)
        ⊎ ((fs.system.exists target ≡ some false)
            × ((move_file shutil_move fs source target).1 ≡ (shutil_move fs source target).1))
  unfolding move_file
  move_file-effect fs source target = elim (Result-cases (can_move fs source target)) [
    | inr (e, stuck) ↦ inl (rw (stuck, move_file) refl)
    | inl (true, possible) ↦ inr (
      can_move-free fs source target possible,
      rw (possible, move_file) (resolve_moved-state (shutil_move fs source target)),
    )
    | inl (false, possible) ↦ inl (rw (possible, move_file) refl)
  ]

  after_checks :
      (fs : FileSystem) (adapter : FileSystemAdapter)
      (source_path target_path source target : PurePosixPath)
      → check_move fs adapter source_path target_path ≡ ok (source, target)
      → safe_move shutil_move others fs adapter source_path target_path
        ≡ conclude adapter target (move_file shutil_move (others fs) source target)
  unfolding safe_move
  after_checks fs adapter source_path target_path source target h = rw (h, safe_move) refl

  refused_by_checks :
      (fs : FileSystem) (adapter : FileSystemAdapter) (source_path target_path : PurePosixPath)
      (e : MoveError)
      → check_move fs adapter source_path target_path ≡ err e
      → safe_move shutil_move others fs adapter source_path target_path ≡ (err e, fs)
  unfolding safe_move
  refused_by_checks fs adapter source_path target_path e h = rw (h, safe_move) refl

  pair_of : {A B : Type 0} (p : A × B) {a : A} {b : B} → p.0 ≡ a → p.1 ≡ b → p ≡ (a, b)
  pair_of p h k = ground (arith, h, k)

  pub concluded :
      (fs : FileSystem) (adapter : FileSystemAdapter) (source target r : PurePosixPath)
      (fs' : FileSystem)
      → conclude adapter target (move_file shutil_move fs source target) ≡ (ok r, fs')
      → (r ≡ target)
        × (fs.system.exists target ≡ some false)
        × (fs' ≡ (shutil_move fs source target).1)
        × ((m : FileMetadata) × (get_file_metadata fs' adapter r ≡ ok (some m)))
  concluded fs adapter source target r fs' h =
      let moving = move_file shutil_move fs source target in
      let (path, m, answered, own, file) =
        check_result-target moving.1 adapter target r moving.0 (ap (λ p. p.0) h) in
      let state : moving.1 ≡ fs' = ap (λ p. p.1) h in
      let (free, left) =
        move_file-moved shutil_move fs fs' source target path (pair_of moving answered state) in
      (own, free, left, (m, subst (λ f. get_file_metadata f adapter r ≡ ok (some m)) state file))

  -- If a safe move answers with a path, the path is the one that the policy has authorised for the
  -- target, the policy has authorised the source too, the target was free at the check and when the
  -- move began, the file system is the one that the move has left, and the path is a regular file in it.
  pub safe_move_sound :
      (fs fs' : FileSystem) (adapter : FileSystemAdapter)
      (source_path target_path r : PurePosixPath)
      → safe_move shutil_move others fs adapter source_path target_path ≡ (ok r, fs')
      → Moved fs adapter source_path target_path r fs'
  safe_move_sound fs fs' adapter source_path target_path r h =
      elim (Result-cases (check_move fs adapter source_path target_path)) [
        | inr (e, stuck) ↦
            absurd (cc (sym (refused_by_checks fs adapter source_path target_path e stuck) ∙ h))
        | inl ((source, target), passed) ↦
            let (own, free, state, (m, file)) =
              concluded (others fs) adapter source target r fs'
                (sym (after_checks fs adapter source_path target_path source target passed) ∙ h) in
            record {
              source = source;
              checked =
                  subst (Checked fs adapter source_path target_path source) (sym own)
                    (check_move-Checked fs adapter source_path target_path source target passed);
              still_free = rw own free;
              state = rw own state;
              metadata = m;
              file = file;
            }
      ]

  -- Whatever a safe move answers, it has not touched the file system, or it has called the move once,
  -- for a source and a target that the policy has authorised, with the target free at both times.
  pub safe_move_effect :
      (fs : FileSystem) (adapter : FileSystemAdapter) (source_path target_path : PurePosixPath)
      → Effect fs adapter source_path target_path
          (safe_move shutil_move others fs adapter source_path target_path).1
  safe_move_effect fs adapter source_path target_path =
      elim (Result-cases (check_move fs adapter source_path target_path)) [
        | inr (e, stuck) ↦
            untouched (ap (λ p. p.1) (refused_by_checks fs adapter source_path target_path e stuck))
        | inl ((source, target), passed) ↦
            let step =
              ap (λ p. p.1)
                (after_checks fs adapter source_path target_path source target passed) in
            elim (move_file-effect (others fs) source target) [
              | inl same ↦ left_to_others (step ∙ same)
              | inr (free, state) ↦
                  moved source target
                    (check_move-Checked fs adapter source_path target_path source target passed)
                    free (step ∙ state)
            ]
      ]
