-- ===== src/JobStore/Updates.antt =====
-- `_save_attempts` of backend/app/job_store.py: what it makes of the rows of its own job and of the
-- rows of other jobs.
use file_nest.Base.{
  ℕ, ◌+◌, ◌≡◌, ◌≢◌, refl, Bool, true, false, not, ◌&&◌, List, [], ◌∷◌, ◌++◌, arith, map, filter,
  any, all, all-append_one, ◌==◌, leb, ltb, length, Bool-cases, inl, inr,
}
use file_nest.Job.{JobAttempt, are_attempts}
use file_nest.JobStore.Records.{JobAttemptRecord, belongs_to, new_attempt_record}
use file_nest.JobStore.Store.{is_row_of, are_rows_of, overwrite, update_row}
use file_nest.JobStore.Rows.{KeepsKeys}

-- a row of another job has the identifier
abbrev pub is_taken : ℕ → ℕ → List JobAttemptRecord → Bool
is_taken id job rows =
    any (λ (r : JobAttemptRecord). not (r.job_id == job) && r.attempt_id == id) rows

-- no row of another job has the identifier of one of the attempts
unfoldable pub are_own_ids : ℕ → List JobAttempt → List JobAttemptRecord → Bool
are_own_ids job [] rows = true
are_own_ids job (a ∷ rest) rows = not (is_taken a.attempt_id job rows) && are_own_ids job rest rows

pub update_row-KeepsKeys : (id : ℕ) (a : JobAttempt) → KeepsKeys (update_row id a)
unfolding update_row overwrite
update_row-KeepsKeys id a = record { job = λ r. ground arith; number = λ r. ground arith }

update_row-id :
    (id : ℕ) (a : JobAttempt) (r : JobAttemptRecord) → (update_row id a r).attempt_id ≡ r.attempt_id
unfolding update_row overwrite
update_row-id id a r = ground arith

pub is_taken-update :
    (k job id : ℕ) (a : JobAttempt) (rows : List JobAttemptRecord)
    → is_taken k job (map (update_row id a) rows) ≡ is_taken k job rows
is_taken-update k job id a [] = refl
is_taken-update k job id a (r ∷ rows) = ground (
  arith,
  (update_row-KeepsKeys id a).job r,
  update_row-id id a r,
  is_taken-update k job id a rows,
)

pub are_own_ids-update :
    (job id : ℕ) (a : JobAttempt) (attempts : List JobAttempt) (rows : List JobAttemptRecord)
    → are_own_ids job attempts (map (update_row id a) rows) ≡ are_own_ids job attempts rows
unfolding are_own_ids
are_own_ids-update job id a [] rows = refl
are_own_ids-update job id a (x ∷ attempts) rows =
    ground
      (arith, is_taken-update x.attempt_id job id a rows, are_own_ids-update job id a attempts rows)

-- an UPDATE of a row of one job leaves those of the others
pub update_elsewhere :
    (job other id : ℕ) (a : JobAttempt) (rows : List JobAttemptRecord)
    → other ≢ job
    → is_taken id job rows ≡ false
    → filter (belongs_to other) (map (update_row id a) rows) ≡ filter (belongs_to other) rows
unfolding update_row overwrite
update_elsewhere job other id a [] apart h = refl
update_elsewhere job other id a (r ∷ rows) apart h =
    ground (arith, update_elsewhere job other id a rows apart)

-- the row that the attempt overwrites is then its own row
pub overwrite-row :
    (a : JobAttempt) (r : JobAttemptRecord)
    → is_row_of r a ≡ true
    → update_row r.attempt_id a r ≡ new_attempt_record a
unfolding is_row_of update_row overwrite new_attempt_record
overwrite-row a r h = ground arith

-- a change by key leaves the rows that have another key
pub update_row-others :
    (id : ℕ) (a : JobAttempt) (rows : List JobAttemptRecord)
    → any (λ (r : JobAttemptRecord). r.attempt_id == id) rows ≡ false
    → map (update_row id a) rows ≡ rows
unfolding update_row
update_row-others id a [] h = refl
update_row-others id a (r ∷ rows) h = ground (arith, update_row-others id a rows)

-- the identifiers of the attempts of a valid job
abbrev pub has_id : ℕ → List JobAttempt → Bool
has_id id attempts = any (λ (a : JobAttempt). a.attempt_id == id) attempts

pub unseen :
    (job created n k : ℕ) (seen : List ℕ) (xs : List JobAttempt)
    → are_attempts job created n seen xs ≡ true
    → any (◌==◌ k) seen ≡ true
    → has_id k xs ≡ false
unfolding are_attempts
unseen job created n k seen [] h m = refl
unseen job created n k seen (x ∷ xs) h m =
    ground (arith, unseen job created (n + 1) k (x.attempt_id ∷ seen) xs)

pub unseen_rows :
    (k : ℕ) (rows : List JobAttemptRecord) (xs : List JobAttempt)
    → are_rows_of rows xs ≡ true
    → leb (length rows) (length xs) ≡ true
    → has_id k xs ≡ false
    → any (λ (r : JobAttemptRecord). r.attempt_id == k) rows ≡ false
unfolding are_rows_of is_row_of
unseen_rows k [] xs h l u = refl
unseen_rows k (r ∷ rows) [] h l u = ground arith
unseen_rows k (r ∷ rows) (x ∷ xs) h l u = ground (arith, unseen_rows k rows xs)

-- rows that come before the attempt with number `n`, whose identifiers are among `seen`
abbrev pub are_before : List ℕ → ℕ → List JobAttemptRecord → Bool
are_before seen n rows =
    all (λ (r : JobAttemptRecord). any (◌==◌ r.attempt_id) seen && ltb r.attempt_no n) rows

pub are_before-absent :
    (seen : List ℕ) (n k : ℕ) (rows : List JobAttemptRecord)
    → are_before seen n rows ≡ true
    → any (◌==◌ k) seen ≡ false
    → any (λ (r : JobAttemptRecord). r.attempt_id == k) rows ≡ false
are_before-absent seen n k [] h u = refl
are_before-absent seen n k (r ∷ rows) h u = elim (Bool-cases (r.attempt_id == k)) [
  | inl e ↦ absurd (ground arith)
  | inr e ↦ rw e (are_before-absent seen n k rows (ground arith) u)
]

pub are_before-below :
    (seen : List ℕ) (n : ℕ) (rows : List JobAttemptRecord)
    → are_before seen n rows ≡ true
    → any (λ (r : JobAttemptRecord). leb n r.attempt_no) rows ≡ false
are_before-below seen n [] h = refl
are_before-below seen n (r ∷ rows) h = ground (arith, are_before-below seen n rows)

pub are_before-unnumbered :
    (seen : List ℕ) (n : ℕ) (rows : List JobAttemptRecord)
    → are_before seen n rows ≡ true
    → any (λ (r : JobAttemptRecord). r.attempt_no == n) rows ≡ false
are_before-unnumbered seen n [] h = refl
are_before-unnumbered seen n (r ∷ rows) h = ground (arith, are_before-unnumbered seen n rows)

are_before-widen :
    (seen : List ℕ) (n k : ℕ) (rows : List JobAttemptRecord)
    → are_before seen n rows ≡ true
    → are_before (k ∷ seen) (n + 1) rows ≡ true
are_before-widen seen n k [] h = refl
are_before-widen seen n k (r ∷ rows) h = ground (arith, are_before-widen seen n k rows)

-- the same rows and one more
pub are_before-next :
    (seen : List ℕ) (n k : ℕ) (rows : List JobAttemptRecord) (last : JobAttemptRecord)
    → are_before seen n rows ≡ true
    → last.attempt_id ≡ k
    → last.attempt_no ≡ n
    → are_before (k ∷ seen) (n + 1) (rows ++ last ∷ []) ≡ true
are_before-next seen n k rows last h id number =
    all-append_one
      (λ (r : JobAttemptRecord). any (◌==◌ r.attempt_id) (k ∷ seen) && ltb r.attempt_no (n + 1))
      rows last (are_before-widen seen n k rows h) (ground arith)

-- `any` over the rows by the two conditions that the rows of the job and the others meet
pub split_any :
    (k job : ℕ) (rows : List JobAttemptRecord)
    → any (λ (r : JobAttemptRecord). r.job_id == job && r.attempt_id == k) rows ≡ false
    → is_taken k job rows ≡ false
    → any (λ (r : JobAttemptRecord). r.attempt_id == k) rows ≡ false
split_any k job [] own taken = refl
split_any k job (r ∷ rows) own taken = ground (arith, split_any k job rows)
