-- ===== src/JobStore/Refinement.antt =====
-- `save_transition` of backend/app/job_store.py after `transition_job` of backend/app/job_system.py: the
-- database follows the state machine, job by job.
use file_nest.Base.{
  ℕ, ◌+◌, ◌≡◌, refl, sym, ap, ◌∙◌, true, Option, some, List, [], arith, map, ◌==◌, Result, ok,
  ok-injective, ◌>>=◌,
}
use mathlib.Core.Path.{subst}
use file_nest.FilePath.{Text}
use file_nest.Job.{
  JobTaskPayload, JobEvent, JobState, is_event, are_attempts, is_lifecycle, transition_job,
}
use file_nest.Job.Validity.{IsValid, Tests-of_valid}
use file_nest.Job.Outcome.{Outcome}
use file_nest.Job.Worker.{transition_job-Outcome}
use file_nest.Job.History.{Kept, transition_job-Kept, handled}
use file_nest.JobStore.Payload.{ReadsBack}
use file_nest.JobStore.Records.{
  StoreError, JobAttemptRecord, Database, find_job, get_attempts, new_attempt_record,
  new_job_record,
}
use file_nest.JobStore.Store.{
  advance, advance_at, save_attempts, load_job, update_job, write_transition, save_transition,
}
use file_nest.JobStore.Updates.{are_own_ids}
use file_nest.JobStore.Saving.{save_attempts_reads}
use file_nest.JobStore.Jobs.{
  are_unique_jobs, are_unique_jobs-advance_at, find_job-updated, update_job-ok,
}
use file_nest.JobStore.RoundTrip.{Represents, load_job-Represents}
use file_nest.JobStore.Compatible.{
  Change-Fits, require_compatible_attempts-ok, require_same_definition-ok,
}

module _ (hash : JobTaskPayload → Text) where
  -- `t` is what the event `e` makes of the valid job `s`
  pub record Moves (s : JobState) (e : JobEvent) (t : JobState) : Type 0 where
    pub before : IsValid hash s
    pub event : is_event e ≡ true
    pub step : transition_job hash s e ≡ ok t

  -- a database with unique jobs that holds `s`, and no attempt of another job under an identifier of `t`
  pub record Ready (db : Database) (s t : JobState) : Type 0 where
    pub unique : are_unique_jobs db.jobs ≡ true
    pub holds : Represents hash db s
    pub own : are_own_ids s.job_id t.attempts db.attempts ≡ true

  IsValid-result :
      (s t : JobState) (e : JobEvent)
      → transition_job hash s e ≡ ok t
      → Outcome hash s e (transition_job hash s e)
      → IsValid hash t
  IsValid-result s t e h (Outcome.moved u p v) = subst (IsValid hash) (ok-injective (sym p ∙ h)) v
  IsValid-result s t e h (Outcome.refused x p q) = absurd (cc (h, p))
  IsValid-result s t e h (Outcome.bad_progress k p) = absurd (cc (h, p))
  IsValid-result s t e h (Outcome.pending_retry k st more p) = absurd (cc (h, p))

  pub Moves-IsValid : (s t : JobState) (e : JobEvent) → Moves s e t → IsValid hash t
  Moves-IsValid s t e m =
      IsValid-result s t e m.step (transition_job-Outcome hash s e m.before m.event)

  pub Moves-Kept : (s t : JobState) (e : JobEvent) → Moves s e t → Kept hash s t e
  Moves-Kept s t e m = transition_job-Kept hash s t e m.step

  pub Moves-revision : (s t : JobState) (e : JobEvent) → Moves s e t → t.revision ≡ s.revision + 1
  Moves-revision s t e m = (Moves-Kept s t e m).counted ∙ (handled hash s t e m.step).1

  pub attempts_of :
      (t : JobState) → IsValid hash t → are_attempts t.job_id t.created_at 1 [] t.attempts ≡ true
  unfolding is_lifecycle
  attempts_of t v = ground (arith, (Tests-of_valid hash t v).lifecycle)

  -- the UPDATE turns the row of `s` into that of `t`
  advanced_row :
      (s t : JobState) (e : JobEvent)
      → IsValid hash s
      → IsValid hash t
      → Kept hash s t e
      → advance t (new_job_record hash s) ≡ new_job_record hash t
  unfolding advance new_job_record
  advanced_row s t e v w kept = ground (
    arith,
    kept.own,
    kept.born,
    kept.bound,
    kept.definition.kind,
    kept.definition.version,
    kept.definition.workspace,
    kept.definition.payload,
    kept.definition.key,
    (Tests-of_valid hash s v).digest,
    (Tests-of_valid hash t w).digest,
  )

  pub row_revision : (s : JobState) → (new_job_record hash s).revision ≡ s.revision
  unfolding new_job_record
  row_revision s = refl

  -- the rows of `s` under the identifier of a job that is the same
  pub rows_at :
      (db : Database) (s : JobState) (id : ℕ)
      → Represents hash db s
      → id ≡ s.job_id
      → (find_job id db.jobs ≡ some (new_job_record hash s))
        × (get_attempts db.attempts id ≡ map new_attempt_record s.attempts)
  rows_at db s id rep own = rw own (rep.row, rep.history)

  -- the two writes of a save of `t` over `s`
  abbrev pub writes : Database → JobState → JobState → Result StoreError Database
  writes db s t = update_job s.revision t db.jobs >>= λ jobs.
      save_attempts (map new_attempt_record s.attempts) t.attempts db.attempts >>= λ attempts.
      ok (record { jobs = jobs; attempts = attempts })

  module _ (parse : Text → Option JobTaskPayload) (codec : ReadsBack parse) where
    -- a transition of the state that the queries have seen passes the guards
    pub guards_pass :
        (seen db : Database) (s t : JobState) (e : JobEvent)
        → Moves s e t
        → Represents hash seen s
        → write_transition hash parse s.revision seen db t ≡ writes db s t
    unfolding write_transition
    guards_pass seen db s t e m rep =
        let kept = Moves-Kept s t e m in
        let (row, rows) = rows_at seen s t.job_id rep kept.own in
        rw
          (
            row,
            rows,
            require_same_definition-ok hash parse codec s t e m.before (Moves-IsValid s t e m) kept,
            require_compatible_attempts-ok (map new_attempt_record s.attempts) t.attempts
                (Change-Fits s t e kept.change),
          )
          refl

    -- the history that the save leaves
    saved_history :
        (db : Database) (s t : JobState) (e : JobEvent)
        → Moves s e t
        → Ready db s t
        → (rows : List JobAttemptRecord) × (save_attempts
              (map new_attempt_record s.attempts)
              t.attempts
              db.attempts
            ≡ ok rows)
          × (get_attempts rows t.job_id ≡ map new_attempt_record t.attempts)
    saved_history db s t e m ready =
        let kept = Moves-Kept s t e m in
        let fits = Change-Fits s t e kept.change in
        save_attempts_reads t.job_id t.created_at 1 [] (map new_attempt_record s.attempts)
          t.attempts [] db.attempts (rows_at db s t.job_id ready.holds kept.own).1 refl fits.rows_of
          (attempts_of t (Moves-IsValid s t e m)) fits.size (rw kept.own ready.own)

    updated_jobs :
        (db : Database) (s t : JobState) (e : JobEvent)
        → Moves s e t
        → Ready db s t
        → (update_job s.revision t db.jobs ≡ ok (map (advance_at s.revision t) db.jobs))
          × (find_job t.job_id (map (advance_at s.revision t) db.jobs)
              ≡ some (new_job_record hash t))
    updated_jobs db s t e m ready =
        let kept = Moves-Kept s t e m in
        let row = (rows_at db s t.job_id ready.holds kept.own).0 in
        rw⁻¹ (row_revision s) (
          update_job-ok t (new_job_record hash s) db.jobs ready.unique row,
          find_job-updated t (new_job_record hash s) db.jobs row
              ∙ ap some (advanced_row s t e m.before (Moves-IsValid s t e m) kept),
        )

    committed :
        (db : Database) (s t : JobState)
        → t.revision ≡ s.revision + 1
        → (written : Database) → write_transition hash parse s.revision db db t ≡ ok written
        → load_job hash parse written t.job_id ≡ ok t
        → save_transition hash parse s.revision db db t ≡ (ok t, written)
    unfolding save_transition
    committed db s t next written h loaded =
        let exact : (t.revision == s.revision + 1) ≡ true = ground arith in
        rw (exact, h, loaded) refl

    pub saves :
        (db : Database) (s t : JobState) (e : JobEvent)
        → Moves s e t
        → Ready db s t
        → (db' : Database) × (writes db s t ≡ ok db')
          × (save_transition hash parse s.revision db db t ≡ (ok t, db'))
          × Represents hash db' t
          × (are_unique_jobs db'.jobs ≡ true)
    saves db s t e m ready =
        let (rows, saved, history) = saved_history db s t e m ready in
        let (updated, row) = updated_jobs db s t e m ready in
        let db' : Database = record {
          jobs = map (advance_at s.revision t) db.jobs;
          attempts = rows;
        } in
        let rep : Represents hash db' t = record { row = row; history = history } in
        let written : writes db s t ≡ ok db' = rw (updated, saved) refl in
        (
          db',
          written,
          committed db s t (Moves-revision s t e m) db'
              (guards_pass db db s t e m ready.holds ∙ written)
              (load_job-Represents hash parse codec db' t (Moves-IsValid s t e m) rep),
          rep,
          are_unique_jobs-advance_at s.revision t db.jobs ∙ ready.unique,
        )

    -- A valid event on the valid job that the database holds: if the state machine moves to `t`, the save
    -- of `t` at the revision of the old state returns `t` and leaves a database that holds `t` and in
    -- which jobs are unique.
    pub save_transition_refines :
        (db : Database) (s t : JobState) (e : JobEvent)
        → Moves s e t
        → Ready db s t
        → (db' : Database) × (save_transition hash parse s.revision db db t ≡ (ok t, db'))
          × Represents hash db' t
          × (are_unique_jobs db'.jobs ≡ true)
    save_transition_refines db s t e m ready =
        let (db', _, saved, rep, unique) = saves db s t e m ready in (db', saved, rep, unique)
