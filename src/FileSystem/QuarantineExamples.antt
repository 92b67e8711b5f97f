-- ===== src/FileSystem/QuarantineExamples.antt =====
-- A file of `/work` goes to the quarantine `/bin` and comes back, and the theorems there.
use file_nest.Base.{◌≡◌, refl, false, [], ◌∷◌, ok, err, codes, ℕ}
use file_nest.FilePath.{Text, PurePosixPath}
use file_nest.PathPolicy.{is_within_path, normalize_workspace_root}
use file_nest.FileSystem.Adapter.{FileSystem, adapter_root}
use file_nest.FileSystem.Quarantine.{
  invalid_roots, invalid_identifier, build_quarantine_relative_path, QuarantineManager,
  quarantine_manager, QuarantinedFile, quarantine, restore,
}
use file_nest.FileSystem.QuarantinePath.{build_quarantine_relative_path_injective}
use file_nest.FileSystem.Leaving.{quarantine_leaves_workspace}
use file_nest.FileSystem.Examples.{
  runs, absolute, relative, work, note, disk, rename, make, quiet, workspace, bin_adapter, a_txt,
}

abbrev manager : QuarantineManager
manager = record { workspace_adapter = workspace; quarantine_adapter = bin_adapter }

abbrev plan : Text
plan = codes "00000000-0000-0000-0000-0000000000a7"

abbrev kept : PurePosixPath
kept = absolute (codes "bin" ∷ codes "workspace-12" ∷ plan ∷ codes "9" ∷ codes "a.txt" ∷ [])

abbrev kept_relative : PurePosixPath
kept_relative = relative (codes "workspace-12" ∷ plan ∷ codes "9" ∷ codes "a.txt" ∷ [])

abbrev kept_directory : PurePosixPath
kept_directory = absolute (codes "bin" ∷ codes "workspace-12" ∷ plan ∷ codes "9" ∷ [])

abbrev file : QuarantinedFile
file = record { original_path = note; quarantine_path = kept }

abbrev emptied : FileSystem
emptied = (rename (make disk kept_directory).1 note kept).1

abbrev refilled : FileSystem
refilled = (rename emptied kept note).1

managed : quarantine_manager disk workspace bin_adapter ≡ ok manager
unfolding runs
managed = refl

overlapping : quarantine_manager disk workspace workspace ≡ err invalid_roots
unfolding runs
overlapping = refl

quarantine_runs : quarantine rename quiet make disk manager a_txt 12 plan 9 ≡ (ok file, emptied)
unfolding runs
quarantine_runs = refl

restore_runs : restore rename quiet emptied manager kept a_txt ≡ (ok note, refilled)
unfolding runs
restore_runs = refl

no_workspace : build_quarantine_relative_path 0 plan 9 (codes "a.txt") ≡ err invalid_identifier
unfolding runs
no_workspace = refl

-- a name with a slash is refused, the name of the directory above is not
nested_name : build_quarantine_relative_path 12 plan 9 (codes "a/b") ≡ err invalid_identifier
unfolding runs
nested_name = refl

parent_name :
    build_quarantine_relative_path 12 plan 9 (codes "..")
    ≡ ok (relative (codes "workspace-12" ∷ plan ∷ codes "9" ∷ codes ".." ∷ []))
unfolding runs
parent_name = refl

built : build_quarantine_relative_path 12 plan 9 (codes "a.txt") ≡ ok kept_relative
unfolding runs
built = refl

abbrev twelve : ℕ
twelve = 12

abbrev nine : ℕ
nine = 9

build_quarantine_relative_path_injective_example :
    (twelve ≡ twelve) × (plan ≡ plan) × (nine ≡ nine) × (codes "a.txt" ≡ codes "a.txt")
build_quarantine_relative_path_injective_example =
    build_quarantine_relative_path_injective 12 12 plan plan 9 9 (codes "a.txt") (codes "a.txt")
      kept_relative built built

work_root : adapter_root disk workspace ≡ ok work
unfolding runs
work_root = refl

-- the new directories are no links
keeps_root :
    (d : PurePosixPath)
    → normalize_workspace_root (make disk d).1.system bin_adapter.workspace_root
      ≡ normalize_workspace_root disk.system bin_adapter.workspace_root
unfolding runs
keeps_root d = refl

quarantine_leaves_workspace_example : is_within_path kept work ≡ false
quarantine_leaves_workspace_example =
    quarantine_leaves_workspace rename quiet make disk emptied workspace bin_adapter manager a_txt
      work 12 plan 9 file keeps_root managed work_root quarantine_runs
