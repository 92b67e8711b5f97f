-- ===== src/JobStore/Jobs.antt =====
-- The UPDATE of a job of backend/app/job_store.py, guarded by its revision: it changes the row of that
-- job only, and nothing if the revision has moved on.
use file_nest.Base.{
  ℕ, ◌≡◌, ◌≢◌, refl, ◌∙◌, Bool, true, false, not, ◌&&◌, some, List, [], ◌∷◌, arith, map, filter,
  any, ◌==◌, ok, err,
}
use file_nest.Job.{JobState}
use file_nest.JobStore.Records.{revision_conflict, JobRecord, find_job}
use file_nest.JobStore.Store.{advance, is_at, advance_at, update_job}

-- the primary key: no two rows have one `job_id`
unfoldable pub are_unique_jobs : List JobRecord → Bool
are_unique_jobs [] = true
are_unique_jobs (r ∷ rest) =
    not (any (λ (x : JobRecord). x.job_id == r.job_id) rest) && are_unique_jobs rest

advance_at-id : (n : ℕ) (t : JobState) (r : JobRecord) → (advance_at n t r).job_id ≡ r.job_id
unfolding advance_at advance
advance_at-id n t r = ground arith

any-advance_at :
    (n id : ℕ) (t : JobState) (jobs : List JobRecord)
    → any (λ (x : JobRecord). x.job_id == id) (map (advance_at n t) jobs)
      ≡ any (λ (x : JobRecord). x.job_id == id) jobs
any-advance_at n id t [] = refl
any-advance_at n id t (r ∷ jobs) = ground (arith, advance_at-id n t r, any-advance_at n id t jobs)

pub are_unique_jobs-advance_at :
    (n : ℕ) (t : JobState) (jobs : List JobRecord)
    → are_unique_jobs (map (advance_at n t) jobs) ≡ are_unique_jobs jobs
unfolding are_unique_jobs
are_unique_jobs-advance_at n t [] = refl
are_unique_jobs-advance_at n t (r ∷ jobs) = ground (
  arith,
  advance_at-id n t r,
  any-advance_at n r.job_id t jobs,
  are_unique_jobs-advance_at n t jobs,
)

find_job-advance_at :
    (n : ℕ) (t : JobState) (r : JobRecord) (jobs : List JobRecord)
    → find_job t.job_id jobs ≡ some r
    → find_job t.job_id (map (advance_at n t) jobs) ≡ some (advance_at n t r)
unfolding find_job
find_job-advance_at n t r [] h = absurd (cc h)
find_job-advance_at n t r (x ∷ jobs) h =
    ground (arith, advance_at-id n t x, find_job-advance_at n t r jobs)

pub find_job-id :
    (id : ℕ) (r : JobRecord) (jobs : List JobRecord) → find_job id jobs ≡ some r → r.job_id ≡ id
unfolding find_job
find_job-id id r [] h = absurd (cc h)
find_job-id id r (x ∷ jobs) h = ground (arith, find_job-id id r jobs)

-- the UPDATE finds the row
pub find_job-updated :
    (t : JobState) (r : JobRecord) (jobs : List JobRecord)
    → find_job t.job_id jobs ≡ some r
    → find_job t.job_id (map (advance_at r.revision t) jobs) ≡ some (advance t r)
unfolding advance_at
find_job-updated t r jobs h =
    find_job-advance_at r.revision t r jobs h ∙ ground (arith, find_job-id t.job_id r jobs h)

pub find_job-elsewhere :
    (n id : ℕ) (t : JobState) (jobs : List JobRecord)
    → id ≢ t.job_id
    → find_job id (map (advance_at n t) jobs) ≡ find_job id jobs
unfolding find_job advance_at advance
find_job-elsewhere n id t [] apart = refl
find_job-elsewhere n id t (r ∷ jobs) apart = ground (arith, find_job-elsewhere n id t jobs apart)

filter-absent :
    (id n : ℕ) (jobs : List JobRecord)
    → any (λ (x : JobRecord). x.job_id == id) jobs ≡ false
    → filter (is_at id n) jobs ≡ []
filter-absent id n [] h = refl
filter-absent id n (r ∷ jobs) h = ground (arith, filter-absent id n jobs)

one_row :
    (id : ℕ) (r : JobRecord) (jobs : List JobRecord)
    → are_unique_jobs jobs ≡ true
    → find_job id jobs ≡ some r
    → filter (is_at id r.revision) jobs ≡ r ∷ []
unfolding are_unique_jobs find_job
one_row id r [] u h = absurd (cc h)
one_row id r (x ∷ jobs) u h =
    ground (arith, filter-absent x.job_id x.revision jobs, one_row id r jobs, find_job-id id r jobs)

no_row :
    (id n : ℕ) (r : JobRecord) (jobs : List JobRecord)
    → are_unique_jobs jobs ≡ true
    → find_job id jobs ≡ some r
    → r.revision ≢ n
    → filter (is_at id n) jobs ≡ []
unfolding are_unique_jobs find_job
no_row id n r [] u h apart = refl
no_row id n r (x ∷ jobs) u h apart =
    ground (arith, filter-absent x.job_id n jobs, no_row id n r jobs)

pub update_job-ok :
    (t : JobState) (r : JobRecord) (jobs : List JobRecord)
    → are_unique_jobs jobs ≡ true
    → find_job t.job_id jobs ≡ some r
    → update_job r.revision t jobs ≡ ok (map (advance_at r.revision t) jobs)
unfolding update_job
update_job-ok t r jobs u h = rw (one_row t.job_id r jobs u h) refl

-- a stale revision
pub update_job-stale :
    (n : ℕ) (t : JobState) (r : JobRecord) (jobs : List JobRecord)
    → are_unique_jobs jobs ≡ true
    → find_job t.job_id jobs ≡ some r
    → r.revision ≢ n
    → update_job n t jobs ≡ err revision_conflict
unfolding update_job
update_job-stale n t r jobs u h apart = rw (no_row t.job_id n r jobs u h apart) refl
