-- ===== src/JobRunner/Applied.antt =====
-- An event that backend/app/job_runner.py builds, applied to a stored job.
use file_nest.Base.{ℕ, ◌≡◌, refl, true, false, Option, arith, ltb, ok}
use file_nest.FilePath.{Text}
use file_nest.OperationPlan.{is_code_text}
use file_nest.Job.{
  JobEventKind, attempt_cancelled, attempt_interrupted, retry_requested, JobTaskPayload, JobState,
  is_event, is_error_code, transition_job,
}
use file_nest.JobStore.{ReadsBack, Database, save_transition}
use file_nest.JobStore.Updates.{are_own_ids}
use file_nest.JobRunner.Runner.{
  Details, next_event, next_state, apply_event_to_state, interruption, cancellation_details,
  no_details,
}
use file_nest.JobRunner.Stored.{Stored, Stored-step}
use file_nest.JobRunner.Finishing.{Next}

pub next_event-Next :
    (s : JobState) (kind : JobEventKind) (now : ℕ) (details : Details)
    → ltb now s.created_at ≡ false
    → is_event (next_event s kind now details) ≡ true
    → Next s (next_event s kind now details)
unfolding next_event
next_event-Next s kind now details late event = record {
  job = refl;
  sequence = refl;
  time = late;
  event = event;
}

pub next_event-kind :
    (s : JobState) (kind : JobEventKind) (now : ℕ) (details : Details)
    → (next_event s kind now details).kind ≡ kind
unfolding next_event
next_event-kind s kind now details = refl

pub retry_event :
    (s : JobState) (now : ℕ) → is_event (next_event s retry_requested now no_details) ≡ true
unfolding next_event is_event is_error_code
retry_event s now = ground arith

pub interruption_event :
    (s : JobState) (now id : ℕ)
    → is_event (next_event s attempt_interrupted now (interruption id)) ≡ true
unfolding next_event is_event is_error_code is_code_text
interruption_event s now id = ground arith

pub cancellation_event :
    (s : JobState) (now id : ℕ)
    → is_event (next_event s attempt_cancelled now (cancellation_details id)) ≡ true
unfolding next_event is_event is_error_code
cancellation_event s now id = ground arith

module _ (hash : JobTaskPayload → Text) (parse : Text → Option JobTaskPayload)
    (codec : ReadsBack parse) where
  next_state-ok :
      (s t : JobState) (kind : JobEventKind) (now : ℕ) (details : Details)
      → is_event (next_event s kind now details) ≡ true
      → transition_job hash s (next_event s kind now details) ≡ ok t
      → next_state hash parse s kind now details ≡ ok t
  unfolding next_state
  next_state-ok s t kind now details event step = rw (event, step) refl

  applied :
      (db db' : Database) (s t : JobState) (kind : JobEventKind) (now : ℕ) (details : Details)
      → next_state hash parse s kind now details ≡ ok t
      → save_transition hash parse s.revision db db t ≡ (ok t, db')
      → apply_event_to_state hash parse now db s kind details ≡ (ok t, db')
  unfolding apply_event_to_state
  applied db db' s t kind now details next saved = rw (next, saved, apply_event_to_state) refl

  pub apply-Stored :
      (db : Database) (s t : JobState) (kind : JobEventKind) (now : ℕ) (details : Details)
      → Stored hash db s
      → is_event (next_event s kind now details) ≡ true
      → transition_job hash s (next_event s kind now details) ≡ ok t
      → are_own_ids s.job_id t.attempts db.attempts ≡ true
      → (db' : Database) × (apply_event_to_state hash parse now db s kind details ≡ (ok t, db'))
        × Stored hash db' t
  apply-Stored db s t kind now details stored event step own =
      let (db', saved, stored') =
        Stored-step hash parse codec db s t (next_event s kind now details) stored event step own in
      (
        db',
        applied db db' s t kind now details (next_state-ok s t kind now details event step) saved,
        stored',
      )
