-- ===== src/FileSystem/Isolation.antt =====
-- What `QuarantineManager` of backend/app/quarantine.py does to files: where they go, and that they
-- leave the workspace.
use file_nest.Base.{
  ℕ, ◌≡◌, refl, sym, ◌∙◌, Bool, true, false, some, Result, ok, err, arith, Result-cases, inl, inr,
}
use mathlib.Core.Path.{subst}
use file_nest.FilePath.{Text, PurePosixPath}
use file_nest.PathPolicy.{path_name}
use file_nest.FileSystem.Adapter.{
  FileMetadata, FileSystem, FileSystemAdapter, parent, path_exists, get_file_metadata,
}
use file_nest.FileSystem.Mover.{Move, MoveError, move_file, conclude}
use file_nest.FileSystem.Quarantine.{
  QuarantineError, build_quarantine_relative_path, QuarantineManager, available_source, Prepared,
  prepare, recheck, QuarantinedFile, concluded_move, quarantined, Mkdir, move_into_quarantine,
  after_mkdir, quarantine,
}
use file_nest.FileSystem.Granted.{Granted, authorized_path-Granted}
use file_nest.FileSystem.Moves.{concluded}

-- what the checks in front of the directory have found
record Found (fs : FileSystem) (manager : QuarantineManager) (source_path : PurePosixPath)
    (workspace_id : ℕ) (plan_id : Text) (source_file_id : ℕ) (prepared : Prepared) : Type 0 where
  pub source : Granted fs manager.workspace_adapter source_path prepared.source
  pub built :
      build_quarantine_relative_path workspace_id plan_id source_file_id (path_name prepared.source)
      ≡ ok prepared.relative
  pub target : Granted fs manager.quarantine_adapter prepared.relative prepared.target

pub available_source-Granted :
    (fs : FileSystem) (adapter : FileSystemAdapter) (requested path : PurePosixPath)
    → available_source fs adapter requested ≡ ok path
    → Granted fs adapter requested path
unfolding available_source
available_source-Granted fs adapter requested path h =
    authorized_path-Granted fs adapter requested path (ground arith)

prepare-Found :
    (fs : FileSystem) (manager : QuarantineManager) (source_path : PurePosixPath) (workspace_id : ℕ)
    (plan_id : Text) (source_file_id : ℕ) (prepared : Prepared)
    → prepare fs manager source_path workspace_id plan_id source_file_id ≡ ok prepared
    → Found fs manager source_path workspace_id plan_id source_file_id prepared
unfolding prepare
prepare-Found fs manager source_path w p f prepared h = record {
  source =
      available_source-Granted fs manager.workspace_adapter source_path prepared.source
        (ground arith);
  built = ground arith;
  target =
      authorized_path-Granted fs manager.quarantine_adapter prepared.relative prepared.target
        (ground arith);
}

recheck-Granted :
    (fs : FileSystem) (manager : QuarantineManager) (relative target : PurePosixPath)
    → recheck fs manager relative ≡ ok target
    → Granted fs manager.quarantine_adapter relative target
      × (path_exists fs manager.quarantine_adapter target ≡ ok false)
unfolding recheck
recheck-Granted fs manager relative target h = (
  authorized_path-Granted fs manager.quarantine_adapter relative target (ground arith),
  ground arith,
)

quarantined-ok :
    (source : PurePosixPath) (x : Result QuarantineError PurePosixPath × FileSystem)
    (file : QuarantinedFile) (fs' : FileSystem)
    → quarantined source x ≡ (ok file, fs')
    → (x ≡ (ok file.quarantine_path, fs')) × (file.original_path ≡ source)
quarantined-ok source (err e, fs) file fs' h = absurd (ground arith)
quarantined-ok source (ok path, fs) file fs' h = (ground arith, ground arith)

pub concluded_move-ok :
    (x : Result MoveError PurePosixPath × FileSystem) (r : PurePosixPath) (fs' : FileSystem)
    → concluded_move x ≡ (ok r, fs')
    → x ≡ (ok r, fs')
concluded_move-ok (err e, fs) r fs' h = absurd (ground arith)
concluded_move-ok (ok path, fs) r fs' h = ground arith

module _ (shutil_move : Move) (others : FileSystem → FileSystem) where
  -- what a quarantine that has answered has done
  pub record Quarantined (mkdir : Mkdir) (fs : FileSystem) (manager : QuarantineManager)
      (source_path : PurePosixPath) (workspace_id : ℕ) (plan_id : Text) (source_file_id : ℕ)
      (file : QuarantinedFile) (fs' : FileSystem) : Type 0 where
    pub relative : PurePosixPath
    pub directory : PurePosixPath
    pub source : Granted fs manager.workspace_adapter source_path file.original_path
    pub built :
        build_quarantine_relative_path workspace_id plan_id source_file_id
          (path_name file.original_path)
        ≡ ok relative
    pub target :
        Granted (mkdir fs directory).1 manager.quarantine_adapter relative file.quarantine_path
    pub free :
        path_exists (mkdir fs directory).1 manager.quarantine_adapter file.quarantine_path
        ≡ ok false
    pub still_free : (others (mkdir fs directory).1).system.exists file.quarantine_path ≡ some false
    pub state :
        fs'
        ≡ (shutil_move (others (mkdir fs directory).1) file.original_path file.quarantine_path).1
    pub metadata : FileMetadata
    pub regular :
        get_file_metadata fs' manager.quarantine_adapter file.quarantine_path ≡ ok (some metadata)

  after_prepare :
      (mkdir : Mkdir) (fs : FileSystem) (manager : QuarantineManager) (source_path : PurePosixPath)
      (w : ℕ) (p : Text) (f : ℕ) (prepared : Prepared)
      → prepare fs manager source_path w p f ≡ ok prepared
      → quarantine shutil_move others mkdir fs manager source_path w p f
        ≡ after_mkdir shutil_move others manager prepared (mkdir fs (parent prepared.target))
  unfolding quarantine
  after_prepare mkdir fs manager source_path w p f prepared h = rw (h, quarantine) refl

  not_prepared :
      (mkdir : Mkdir) (fs : FileSystem) (manager : QuarantineManager) (source_path : PurePosixPath)
      (w : ℕ) (p : Text) (f : ℕ) (e : QuarantineError)
      → prepare fs manager source_path w p f ≡ err e
      → quarantine shutil_move others mkdir fs manager source_path w p f ≡ (err e, fs)
  unfolding quarantine
  not_prepared mkdir fs manager source_path w p f e h = rw (h, quarantine) refl

  -- the answer of `mkdir` was a success, and the rest has answered
  made_and_moved :
      (manager : QuarantineManager) (prepared : Prepared) (made : Bool × FileSystem)
      (file : QuarantinedFile) (fs' : FileSystem)
      → after_mkdir shutil_move others manager prepared made ≡ (ok file, fs')
      → (move_into_quarantine shutil_move others made.1 manager prepared.source prepared.relative
          ≡ (ok file.quarantine_path, fs'))
        × (file.original_path ≡ prepared.source)
  made_and_moved manager prepared (false, fs) file fs' h = absurd (ground arith)
  made_and_moved manager prepared (true, fs) file fs' h =
      quarantined-ok prepared.source
        (move_into_quarantine shutil_move others fs manager prepared.source prepared.relative) file
        fs' h

  after_recheck :
      (fs : FileSystem) (manager : QuarantineManager) (source relative target : PurePosixPath)
      → recheck fs manager relative ≡ ok target
      → move_into_quarantine shutil_move others fs manager source relative
        ≡ concluded_move (
            conclude manager.quarantine_adapter target
              (move_file shutil_move (others fs) source target))
  unfolding move_into_quarantine
  after_recheck fs manager source relative target h = rw (h, move_into_quarantine) refl

  not_rechecked :
      (fs : FileSystem) (manager : QuarantineManager) (source relative : PurePosixPath)
      (e : QuarantineError)
      → recheck fs manager relative ≡ err e
      → move_into_quarantine shutil_move others fs manager source relative ≡ (err e, fs)
  unfolding move_into_quarantine
  not_rechecked fs manager source relative e h = rw (h, move_into_quarantine) refl

  moved_in :
      (fs : FileSystem) (manager : QuarantineManager) (source relative r : PurePosixPath)
      (fs' : FileSystem)
      → move_into_quarantine shutil_move others fs manager source relative ≡ (ok r, fs')
      → Granted fs manager.quarantine_adapter relative r
        × (path_exists fs manager.quarantine_adapter r ≡ ok false)
        × ((others fs).system.exists r ≡ some false)
        × (fs' ≡ (shutil_move (others fs) source r).1)
        × ((m : FileMetadata) × (get_file_metadata fs' manager.quarantine_adapter r ≡ ok (some m)))
  moved_in fs manager source relative r fs' h = elim (Result-cases (recheck fs manager relative)) [
    | inr (e, stuck) ↦ absurd (cc (sym (not_rechecked fs manager source relative e stuck) ∙ h))
    | inl (target, passed) ↦
        let adapter = manager.quarantine_adapter in
        let (own, still_free, state, file) =
          concluded shutil_move others (others fs) adapter source target r fs' (
            concluded_move-ok
              (conclude adapter target (move_file shutil_move (others fs) source target)) r fs'
              (sym (after_recheck fs manager source relative target passed) ∙ h)) in
        let (granted, free) = recheck-Granted fs manager relative target passed in
        rw own (
          granted,
          free,
          still_free,
          state,
          subst (λ x. (m : FileMetadata) × (get_file_metadata fs' adapter x ≡ ok (some m))) own
              file,
        )
  ]

  -- If a file is quarantined, its source is authorised in the workspace, its new path is the one built
  -- of the workspace, the plan, the file and its name, authorised in the quarantine once the directory is
  -- there, free at the check and when the move began, and holds a regular file afterwards.
  pub quarantine_sound :
      (mkdir : Mkdir) (fs fs' : FileSystem) (manager : QuarantineManager)
      (source_path : PurePosixPath) (w : ℕ) (p : Text) (f : ℕ) (file : QuarantinedFile)
      → quarantine shutil_move others mkdir fs manager source_path w p f ≡ (ok file, fs')
      → Quarantined mkdir fs manager source_path w p f file fs'
  quarantine_sound mkdir fs fs' manager source_path w p f file h =
      elim (Result-cases (prepare fs manager source_path w p f)) [
        | inr (e, stuck) ↦
            absurd (cc (sym (not_prepared mkdir fs manager source_path w p f e stuck) ∙ h))
        | inl (prepared, passed) ↦
            let found = prepare-Found fs manager source_path w p f prepared passed in
            let directory = parent prepared.target in
            let (moving, own) =
              made_and_moved manager prepared (mkdir fs directory) file fs'
                (sym (after_prepare mkdir fs manager source_path w p f prepared passed) ∙ h) in
            let (granted, free, still_free, state, (m, regular)) =
              moved_in (mkdir fs directory).1 manager prepared.source prepared.relative
                file.quarantine_path fs' moving in
            record {
              relative = prepared.relative;
              directory = directory;
              source =
                  subst (Granted fs manager.workspace_adapter source_path) (sym own) found.source;
              built = rw own found.built;
              target = granted;
              free = free;
              still_free = still_free;
              state = rw own state;
              metadata = m;
              regular = regular;
            }
      ]
