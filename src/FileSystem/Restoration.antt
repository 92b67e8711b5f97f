-- ===== src/FileSystem/Restoration.antt =====
-- What `restore` of backend/app/quarantine.py does to a quarantined file.
use file_nest.Base.{◌≡◌, refl, sym, ◌∙◌, false, some, ok, err, arith, Result-cases, inl, inr}
use mathlib.Core.Path.{subst}
use file_nest.FilePath.{PurePosixPath}
use file_nest.FileSystem.Adapter.{FileMetadata, FileSystem, path_exists, get_file_metadata}
use file_nest.FileSystem.Mover.{Move, move_file, conclude}
use file_nest.FileSystem.Quarantine.{
  QuarantineError, QuarantineManager, concluded_move, check_restore, restore,
}
use file_nest.FileSystem.Granted.{Granted, authorized_path-Granted}
use file_nest.FileSystem.Moves.{concluded}
use file_nest.FileSystem.Isolation.{available_source-Granted, concluded_move-ok}

-- what a restore that has answered with `r` has done
pub record Restored (shutil_move : Move) (others : FileSystem → FileSystem) (fs : FileSystem)
    (manager : QuarantineManager) (quarantine_path original_path r : PurePosixPath)
    (fs' : FileSystem) : Type 0 where
  pub source : PurePosixPath
  pub from : Granted fs manager.quarantine_adapter quarantine_path source
  pub to : Granted fs manager.workspace_adapter original_path r
  pub free : path_exists fs manager.workspace_adapter r ≡ ok false
  pub still_free : (others fs).system.exists r ≡ some false
  pub state : fs' ≡ (shutil_move (others fs) source r).1
  pub metadata : FileMetadata
  pub regular : get_file_metadata fs' manager.workspace_adapter r ≡ ok (some metadata)

-- what the checks have established
record Checked (fs : FileSystem) (manager : QuarantineManager)
    (quarantine_path original_path source target : PurePosixPath) : Type 0 where
  pub from : Granted fs manager.quarantine_adapter quarantine_path source
  pub to : Granted fs manager.workspace_adapter original_path target
  pub free : path_exists fs manager.workspace_adapter target ≡ ok false

check_restore-Checked :
    (fs : FileSystem) (manager : QuarantineManager)
    (quarantine_path original_path source target : PurePosixPath)
    → check_restore fs manager quarantine_path original_path ≡ ok (source, target)
    → Checked fs manager quarantine_path original_path source target
unfolding check_restore
check_restore-Checked fs manager quarantine_path original_path source target h = record {
  from =
      available_source-Granted fs manager.quarantine_adapter quarantine_path source (ground arith);
  to = authorized_path-Granted fs manager.workspace_adapter original_path target (ground arith);
  free = ground arith;
}

module _ (shutil_move : Move) (others : FileSystem → FileSystem) where
  after_checks :
      (fs : FileSystem) (manager : QuarantineManager)
      (quarantine_path original_path source target : PurePosixPath)
      → check_restore fs manager quarantine_path original_path ≡ ok (source, target)
      → restore shutil_move others fs manager quarantine_path original_path
        ≡ concluded_move (
            conclude manager.workspace_adapter target
              (move_file shutil_move (others fs) source target))
  unfolding restore
  after_checks fs manager quarantine_path original_path source target h = rw (h, restore) refl

  refused_by_checks :
      (fs : FileSystem) (manager : QuarantineManager)
      (quarantine_path original_path : PurePosixPath) (e : QuarantineError)
      → check_restore fs manager quarantine_path original_path ≡ err e
      → restore shutil_move others fs manager quarantine_path original_path ≡ (err e, fs)
  unfolding restore
  refused_by_checks fs manager quarantine_path original_path e h = rw (h, restore) refl

  -- If a restore answers with a path, the policy of the quarantine has authorised the source, that of the
  -- workspace the path, nothing was there at the check and when the move began, so that nothing is
  -- overwritten, and the path holds a regular file afterwards.
  pub restore_sound :
      (fs fs' : FileSystem) (manager : QuarantineManager)
      (quarantine_path original_path r : PurePosixPath)
      → restore shutil_move others fs manager quarantine_path original_path ≡ (ok r, fs')
      → Restored shutil_move others fs manager quarantine_path original_path r fs'
  restore_sound fs fs' manager quarantine_path original_path r h =
      elim (Result-cases (check_restore fs manager quarantine_path original_path)) [
        | inr (e, stuck) ↦
            absurd
              (cc (sym (refused_by_checks fs manager quarantine_path original_path e stuck) ∙ h))
        | inl ((source, target), passed) ↦
            let adapter = manager.workspace_adapter in
            let (own, still_free, state, (m, file)) =
              concluded shutil_move others (others fs) adapter source target r fs' (
                concluded_move-ok
                  (conclude adapter target (move_file shutil_move (others fs) source target)) r fs'
                  (sym (after_checks fs manager quarantine_path original_path source target passed)
                    ∙ h)) in
            let checked =
              check_restore-Checked fs manager quarantine_path original_path source target passed in
            record {
              source = source;
              from = checked.from;
              to = subst (Granted fs adapter original_path) (sym own) checked.to;
              free = rw own checked.free;
              still_free = rw own still_free;
              state = rw own state;
              metadata = m;
              regular = file;
            }
      ]
