-- ===== src/FileSystem/QuarantinePath.antt =====
-- `build_quarantine_relative_path` of backend/app/quarantine.py: which files share a path.
use file_nest.Base.{ℕ, ◌≡◌, refl, sym, ◌∙◌, ◌∷◌, ◌++◌, codes, decimal, decimal_injective, ok, arith}
use file_nest.FilePath.{Text, PurePosixPath, pure_posix_path}
use file_nest.FilePath.Laws.{text_eq_iff}
use file_nest.PathPolicy.{path_name}
use file_nest.FileSystem.Quarantine.{build_quarantine_relative_path}

-- the parts of an accepted quarantine path
built_parts :
    (workspace_id : ℕ) (plan_id : Text) (source_file_id : ℕ) (file_name : Text)
    (path : PurePosixPath)
    → build_quarantine_relative_path workspace_id plan_id source_file_id file_name ≡ ok path
    → (path.parts
        ≡ (codes "workspace-" ++ decimal workspace_id)
          ∷ plan_id
          ∷ decimal source_file_id
          ∷ (pure_posix_path file_name).parts)
      × (path_name (pure_posix_path file_name) ≡ file_name)
unfolding build_quarantine_relative_path
built_parts w p f n path h =
    (ground arith, ground (arith, text_eq_iff (path_name (pure_posix_path n)) n))

name_of_parts : (p q : PurePosixPath) → p.parts ≡ q.parts → path_name p ≡ path_name q
unfolding path_name
name_of_parts p q h = rw h refl

-- after the same characters, the same number
same_directory :
    (m n : ℕ) → (codes "workspace-" ++ decimal m) ≡ (codes "workspace-" ++ decimal n) → m ≡ n
same_directory m n h = decimal_injective m n (ground arith)

-- Two files get the same quarantine path only if they have the same workspace, plan, file identifier
-- and name.
pub build_quarantine_relative_path_injective :
    (w w' : ℕ) (p p' : Text) (f f' : ℕ) (n n' : Text) (path : PurePosixPath)
    → build_quarantine_relative_path w p f n ≡ ok path
    → build_quarantine_relative_path w' p' f' n' ≡ ok path
    → (w ≡ w') × (p ≡ p') × (f ≡ f') × (n ≡ n')
build_quarantine_relative_path_injective w w' p p' f f' n n' path h k =
    let (a, name) = built_parts w p f n path h in
    let (b, name') = built_parts w' p' f' n' path k in
    let same = sym a ∙ b in
    (
      same_directory w w' (ground arith),
      ground arith,
      decimal_injective f f' (ground arith),
      sym name ∙ name_of_parts (pure_posix_path n) (pure_posix_path n') (ground arith) ∙ name',
    )
