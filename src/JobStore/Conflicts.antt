-- ===== src/JobStore/Conflicts.antt =====
-- `save_transition` of backend/app/job_store.py against other jobs and against other sessions.
use file_nest.Base.{
  ℕ, ◌+◌, ◌≡◌, ◌≢◌, refl, sym, ap, ◌∙◌, true, Option, some, List, [], arith, map, ◌==◌, ok, err,
  >>=-eq-ok, ok-injective,
}
use file_nest.FilePath.{Text}
use file_nest.Job.{JobTaskPayload, JobEvent, JobState}
use file_nest.JobStore.Payload.{ReadsBack}
use file_nest.JobStore.Records.{
  StoreError, revision_conflict, JobRecord, JobAttemptRecord, Database, find_job, get_attempts,
  sort_by_no, new_attempt_record, new_job_record,
}
use file_nest.JobStore.Store.{
  advance_at, update_job, save_attempts, write_transition, save_transition,
}
use file_nest.JobStore.Saving.{save_attempts_elsewhere}
use file_nest.JobStore.Jobs.{are_unique_jobs, find_job-elsewhere, update_job-stale}
use file_nest.JobStore.RoundTrip.{Represents}
use file_nest.JobStore.Compatible.{Change-Fits}
use file_nest.JobStore.Refinement.{
  Moves, Moves-IsValid, Moves-Kept, Moves-revision, Ready, attempts_of, rows_at, writes,
  guards_pass, row_revision, saves, save_transition_refines,
}

module _ (hash : JobTaskPayload → Text) (parse : Text → Option JobTaskPayload)
    (codec : ReadsBack parse) where
  stale_write :
      (seen db : Database) (s t : JobState) (e : JobEvent) (r : JobRecord)
      → Moves hash s e t
      → Represents hash seen s
      → are_unique_jobs db.jobs ≡ true
      → find_job t.job_id db.jobs ≡ some r
      → r.revision ≢ s.revision
      → write_transition hash parse s.revision seen db t ≡ err revision_conflict
  stale_write seen db s t e r m rep unique found apart =
      guards_pass hash parse codec seen db s t e m rep
      ∙ rw (update_job-stale s.revision t r db.jobs unique found apart) refl

  refused :
      (seen db : Database) (s t : JobState) (x : StoreError)
      → t.revision ≡ s.revision + 1
      → write_transition hash parse s.revision seen db t ≡ err x
      → save_transition hash parse s.revision seen db t ≡ (err x, db)
  unfolding save_transition
  refused seen db s t x next h =
      let exact : (t.revision == s.revision + 1) ≡ true = ground arith in rw (exact, h) refl

  moved_on :
      (s t : JobState) (e : JobEvent)
      → Moves hash s e t
      → (new_job_record hash t).revision ≢ s.revision
  moved_on s t e m p = absurd (omega (arith, row_revision hash t, Moves-revision hash s t e m))

  -- Two sessions move one job from the same snapshot. When the first has saved its state, the save of
  -- the second, whose queries ran before that commit, raises a revision conflict and changes nothing.
  pub no_lost_update :
      (db : Database) (s t u : JobState) (e f : JobEvent)
      → Moves hash s e t
      → Moves hash s f u
      → Ready hash db s t
      → (db' : Database) × (save_transition hash parse s.revision db db t ≡ (ok t, db'))
        × (save_transition hash parse s.revision db db' u ≡ (err revision_conflict, db'))
  no_lost_update db s t u e f m n ready =
      let (db', saved, rep, unique) = save_transition_refines hash parse codec db s t e m ready in
      let own : u.job_id ≡ t.job_id =
        (Moves-Kept hash s u f n).own ∙ sym (Moves-Kept hash s t e m).own in
      (
        db',
        saved,
        refused db db' s u revision_conflict (Moves-revision hash s u f n) (
            stale_write db db' s u f (new_job_record hash t) n ready.holds unique
              (rows_at hash db' t u.job_id rep own).0 (moved_on s t e m)),
      )

  pub written_parts :
      (db written : Database) (s t : JobState)
      → writes hash db s t ≡ ok written
      → (jobs : List JobRecord) × (attempts : List JobAttemptRecord) × (jobs
          ≡ map (advance_at s.revision t) db.jobs)
        × (save_attempts (map new_attempt_record s.attempts) t.attempts db.attempts ≡ ok attempts)
        × (written ≡ record { jobs = jobs; attempts = attempts })
  unfolding update_job
  written_parts db written s t h =
      let (jobs, j, h1) = >>=-eq-ok (update_job s.revision t db.jobs) _ h in
      let (attempts, a, h2) =
        >>=-eq-ok (save_attempts (map new_attempt_record s.attempts) t.attempts db.attempts) _ h1 in
      (jobs, attempts, ground arith, a, sym (ok-injective h2))

  -- the rows of another job
  other_rows :
      (db written : Database) (s t : JobState) (e : JobEvent) (id : ℕ)
      → Moves hash s e t
      → Ready hash db s t
      → id ≢ t.job_id
      → writes hash db s t ≡ ok written
      → (find_job id written.jobs ≡ find_job id db.jobs)
        × (get_attempts written.attempts id ≡ get_attempts db.attempts id)
  unfolding get_attempts
  other_rows db written s t e id m ready apart h =
      let kept = Moves-Kept hash s t e m in
      let fits = Change-Fits s t e kept.change in
      let (jobs, attempts, j, a, w) = written_parts db written s t h in
      rw w (
        rw j (find_job-elsewhere s.revision id t db.jobs apart),
        ap sort_by_no (
            save_attempts_elsewhere t.job_id t.created_at 1 id []
              (map new_attempt_record s.attempts) t.attempts db.attempts attempts apart fits.rows_of
              (attempts_of hash t (Moves-IsValid hash s t e m)) fits.size (rw kept.own ready.own)
              a),
      )

  -- The save of a transition leaves the rows of every other job: what the database holds of it, it still
  -- holds.
  pub save_transition_keeps_others :
      (db : Database) (s t u : JobState) (e : JobEvent)
      → Moves hash s e t
      → Ready hash db s t
      → Represents hash db u
      → u.job_id ≢ s.job_id
      → Represents hash (save_transition hash parse s.revision db db t).1 u
  save_transition_keeps_others db s t u e m ready rep apart =
      let (db', written, saved, _, _) = saves hash parse codec db s t e m ready in
      let (jobs, attempts) =
        other_rows db db' s t e u.job_id m ready (λ p. apart (p ∙ (Moves-Kept hash s t e m).own))
          written in
      rw saved (record { row = jobs ∙ rep.row; history = attempts ∙ rep.history })
