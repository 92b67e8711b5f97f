-- ===== src/JobRunner/Stored.antt =====
-- A job that the runner of backend/app/job_runner.py has stored: what holds of the database and the state
-- between two events, and that an event that the state machine accepts keeps it.
use file_nest.Base.{
  ℕ, ◌+◌, ◌≡◌, refl, ap, ◌∙◌, true, Option, some, List, [], ◌∷◌, ◌++◌, arith, all, map, last?,
  set_last, ◌==◌, ok, >>=-eq-ok, ok-injective,
}
use file_nest.FilePath.{Text}
use file_nest.Job.{
  JobTaskPayload, JobAttempt, JobEvent, JobState, is_event, transition_job, are_attempts,
}
use file_nest.Job.Validity.{IsValid}
use file_nest.JobStore.{
  ReadsBack, JobAttemptRecord, Database, new_attempt_record, insert_row, update_row, save_attempts,
  save_transition,
}
use file_nest.JobStore.Updates.{is_taken, is_taken-update, are_own_ids}
use file_nest.JobStore.Jobs.{are_unique_jobs}
use file_nest.JobStore.RoundTrip.{Represents}
use file_nest.JobStore.Refinement.{
  Moves, Moves-IsValid, Moves-Kept, Ready, attempts_of, writes, saves,
}
use file_nest.JobStore.Conflicts.{written_parts}

-- a row of the job itself takes no identifier from it
is_taken-append :
    (k job : ℕ) (rows : List JobAttemptRecord) (r : JobAttemptRecord)
    → r.job_id ≡ job
    → is_taken k job (rows ++ r ∷ []) ≡ is_taken k job rows
is_taken-append k job [] r h = ground arith
is_taken-append k job (x ∷ rows) r h = ground (arith, is_taken-append k job rows r h)

inserted_taken :
    (k job : ℕ) (a : JobAttempt) (rows rows' : List JobAttemptRecord)
    → a.job_id ≡ job
    → insert_row a rows ≡ ok rows'
    → is_taken k job rows' ≡ is_taken k job rows
unfolding insert_row new_attempt_record
inserted_taken k job a rows rows' own h =
    let written : rows' ≡ rows ++ new_attempt_record a ∷ [] = ground arith in
    rw written (is_taken-append k job rows (new_attempt_record a) own)

save_attempts_taken :
    (k job : ℕ) (persisted : List JobAttemptRecord) (incoming : List JobAttempt)
    (rows rows' : List JobAttemptRecord)
    → all (λ (a : JobAttempt). a.job_id == job) incoming ≡ true
    → save_attempts persisted incoming rows ≡ ok rows'
    → is_taken k job rows' ≡ is_taken k job rows
unfolding save_attempts
save_attempts_taken k job [] [] rows rows' own h = rw⁻¹ (ok-injective h) refl
save_attempts_taken k job (p ∷ persisted) [] rows rows' own h = rw⁻¹ (ok-injective h) refl
save_attempts_taken k job [] (a ∷ rest) rows rows' own h =
    let (more, made, h1) = >>=-eq-ok (insert_row a rows) _ h in
    save_attempts_taken k job [] rest more rows' (ground arith) h1
    ∙ inserted_taken k job a rows more (ground arith) made
save_attempts_taken k job (p ∷ persisted) (a ∷ rest) rows rows' own h =
    save_attempts_taken k job persisted rest (map (update_row p.attempt_id a) rows) rows'
      (ground arith) h
    ∙ is_taken-update k job p.attempt_id a rows

save_attempts_own :
    (job : ℕ) (attempts : List JobAttempt) (persisted : List JobAttemptRecord)
    (incoming : List JobAttempt) (rows rows' : List JobAttemptRecord)
    → all (λ (a : JobAttempt). a.job_id == job) incoming ≡ true
    → save_attempts persisted incoming rows ≡ ok rows'
    → are_own_ids job attempts rows' ≡ are_own_ids job attempts rows
unfolding are_own_ids
save_attempts_own job [] persisted incoming rows rows' own h = refl
save_attempts_own job (a ∷ rest) persisted incoming rows rows' own h = ground (
  arith,
  save_attempts_taken a.attempt_id job persisted incoming rows rows' own h,
  save_attempts_own job rest persisted incoming rows rows' own h,
)

pub are_own_ids-set_last :
    (job : ℕ) (xs : List JobAttempt) (a b : JobAttempt) (rows : List JobAttemptRecord)
    → last? xs ≡ some b
    → a.attempt_id ≡ b.attempt_id
    → are_own_ids job (set_last xs a) rows ≡ are_own_ids job xs rows
unfolding are_own_ids
are_own_ids-set_last job [] a b rows l h = absurd (cc l)
are_own_ids-set_last job (x ∷ []) a b rows l h = ground arith
are_own_ids-set_last job (x ∷ y ∷ xs) a b rows l h =
    ground (arith, are_own_ids-set_last job (y ∷ xs) a b rows l h)

own_attempts :
    (job created n : ℕ) (seen : List ℕ) (xs : List JobAttempt)
    → are_attempts job created n seen xs ≡ true
    → all (λ (a : JobAttempt). a.job_id == job) xs ≡ true
unfolding are_attempts
own_attempts job created n seen [] h = refl
own_attempts job created n seen (x ∷ xs) h =
    ground (arith, own_attempts job created (n + 1) (x.attempt_id ∷ seen) xs)

module _ (hash : JobTaskPayload → Text) where
  -- the database holds the valid job, and no attempt of another job under an identifier of its attempts
  pub record Stored (db : Database) (s : JobState) : Type 0 where
    pub valid : IsValid hash s
    pub unique : are_unique_jobs db.jobs ≡ true
    pub holds : Represents hash db s
    pub own : are_own_ids s.job_id s.attempts db.attempts ≡ true

  written_own :
      (parse : Text → Option JobTaskPayload)
      → ReadsBack parse
      → (db db' : Database) (s t : JobState) → IsValid hash t
      → writes hash db s t ≡ ok db'
      → are_own_ids t.job_id t.attempts db'.attempts ≡ are_own_ids t.job_id t.attempts db.attempts
  written_own parse codec db db' s t valid written =
      let (jobs, attempts, _, saved, w) = written_parts hash parse codec db db' s t written in
      ap (λ (d : Database). are_own_ids t.job_id t.attempts d.attempts) w
      ∙ save_attempts_own t.job_id t.attempts (map new_attempt_record s.attempts) t.attempts
          db.attempts attempts
          (own_attempts t.job_id t.created_at 1 [] t.attempts (attempts_of hash t valid)) saved

  -- a step of the state machine, saved
  pub Stored-step :
      (parse : Text → Option JobTaskPayload)
      → ReadsBack parse
      → (db : Database) (s t : JobState) (e : JobEvent) → Stored db s
      → is_event e ≡ true
      → transition_job hash s e ≡ ok t
      → are_own_ids s.job_id t.attempts db.attempts ≡ true
      → (db' : Database) × (save_transition hash parse s.revision db db t ≡ (ok t, db'))
        × Stored db' t
  Stored-step parse codec db s t e stored event step own =
      let m : Moves hash s e t = record { before = stored.valid; event = event; step = step } in
      let ready : Ready hash db s t = record {
        unique = stored.unique;
        holds = stored.holds;
        own = own;
      } in
      let (db', written, saved, rep, unique) = saves hash parse codec db s t e m ready in
      let valid = Moves-IsValid hash s t e m in
      let same = (Moves-Kept hash s t e m).own in
      (
        db',
        saved,
        record {
          valid = valid;
          unique = unique;
          holds = rep;
          own =
              written_own parse codec db db' s t valid written
              ∙ ap (λ id. are_own_ids id t.attempts db.attempts) same
              ∙ own;
        },
      )
