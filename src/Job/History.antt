-- ===== src/Job/History.antt =====
-- What no event of backend/app/job_system.py changes in a job and its history.
use file_nest.Base.{
  ℕ, ◌+◌, ◌≤◌, ◌≡◌, ◌≢◌, refl, ◌∙◌, false, not, ◌&&◌, Option, none, some, arith, length, last?,
  get_elem?, ltb, leb, ok, >>=-eq-ok, after_guard,
}
use file_nest.FilePath.{Text}
use file_nest.Job.Model.{
  JobStatus, AttemptStatus, JobEventKind, attempt_started, progress_reported,
  cancellation_requested, retry_requested, invalid_transition, JobTaskPayload, JobAttempt,
  validate_attempt, JobEvent,
}
use file_nest.Job.Attempts.{SameAttempt}
use file_nest.Job.State.{JobState, validate_job}
use file_nest.Job.Events.{
  new_attempt, started, start_attempt, active_of_latest, active_attempt, next_progress,
  report_progress, cancel_by_status, request_cancellation, is_cancellation, is_cancel_requested,
  finished_attempt, finished_job, finish_active, finish_attempt, request_retry, handle,
  transition_job,
}
use file_nest.Job.Changes.{
  Change, same, appended, replaced, leaves_room, moved_change, kept_element, kept_attempt,
  grown_history, same_of_valid_as, new_of_made,
}

module _ (hash : JobTaskPayload → Text) where
  -- the fields that no event changes
  pub record SameDefinition (t s : JobState) : Type 0 where
    pub kind : t.kind ≡ s.kind
    pub version : t.task_version ≡ s.task_version
    pub workspace : t.workspace_id ≡ s.workspace_id
    pub payload : t.payload ≡ s.payload
    pub key : t.idempotency_key ≡ s.idempotency_key

  same_definition :
      (t s : JobState)
      → t.kind ≡ s.kind
      → t.task_version ≡ s.task_version
      → t.workspace_id ≡ s.workspace_id
      → t.payload ≡ s.payload
      → t.idempotency_key ≡ s.idempotency_key
      → SameDefinition t s
  same_definition t s k v w p i = record {
    kind = k;
    version = v;
    workspace = w;
    payload = p;
    key = i;
  }

  -- a validated job is the one that was built, up to its digest
  pub validated :
      (s t : JobState)
      → validate_job hash s ≡ ok t
      → (t.attempts ≡ s.attempts)
        × (t.max_attempts ≡ s.max_attempts)
        × (t.job_id ≡ s.job_id)
        × (t.revision ≡ s.revision)
        × (t.created_at ≡ s.created_at)
        × (t.status ≡ s.status)
        × SameDefinition t s
  unfolding validate_job
  validated s t h = (
    ground arith,
    ground arith,
    ground arith,
    ground arith,
    ground arith,
    ground arith,
    record {
      kind = ground arith;
      version = ground arith;
      workspace = ground arith;
      payload = ground arith;
      key = ground arith;
    },
  )

  pub active_facts :
      (s : JobState) (e : JobEvent) (b : JobAttempt)
      → active_attempt s e ≡ ok b
      → (last? s.attempts ≡ some b) × (b.status ≡ AttemptStatus.running)
  unfolding active_attempt active_of_latest
  active_facts s e b h = (ground arith, ground arith)

  -- the job that an event leaves keeps the identity of the job, and its history changes in one of the
  -- three ways
  pub record Kept (s t : JobState) (e : JobEvent) : Type 0 where
    pub own : t.job_id ≡ s.job_id
    pub born : t.created_at ≡ s.created_at
    pub bound : t.max_attempts ≡ s.max_attempts
    pub counted : t.revision ≡ e.sequence_no
    pub change : Change s t e
    pub definition : SameDefinition t s

  -- a handler returned the validated `u`
  kept :
      (s t u : JobState) (e : JobEvent)
      → validate_job hash u ≡ ok t
      → u.job_id ≡ s.job_id
      → u.created_at ≡ s.created_at
      → u.max_attempts ≡ s.max_attempts
      → u.revision ≡ e.sequence_no
      → Change s u e
      → SameDefinition u s
      → Kept s t e
  kept s t u e h own born bound counted change d =
      let v = validated u t h in
      record {
        own = v.2 ∙ own;
        born = v.4 ∙ born;
        bound = v.1 ∙ bound;
        counted = v.3 ∙ counted;
        change = moved_change s u t e v.0 change;
        definition = record {
          kind = v.6.kind ∙ d.kind;
          version = v.6.version ∙ d.version;
          workspace = v.6.workspace ∙ d.workspace;
          payload = v.6.payload ∙ d.payload;
          key = v.6.key ∙ d.key;
        };
      }

  started-Kept :
      (s t : JobState) (e : JobEvent) (id : Option ℕ)
      → leb s.max_attempts (length s.attempts) ≡ false
      → started hash s e id ≡ ok t
      → Kept s t e
  unfolding started
  started-Kept s t e none room h = absurd (cc h)
  started-Kept s t e (some id) room h =
      let (fresh, h1) = after_guard _ _ _ h in
      let (a, made, h2) = >>=-eq-ok (validate_attempt (new_attempt s e id)) _ h1 in
      kept s t _ e h2 refl refl refl refl
        (appended a refl (leaves_room (length s.attempts) s.max_attempts room)
          (new_of_made s e id a fresh made))
        (same_definition _ _ refl refl refl refl refl)

  start_attempt-Kept : (s t : JobState) (e : JobEvent) → start_attempt hash s e ≡ ok t → Kept s t e
  unfolding start_attempt
  start_attempt-Kept s t e h =
      let (p, h1) = after_guard _ _ _ h in
      let (room, h2) = after_guard _ _ _ h1 in started-Kept s t e e.attempt_id room h2

  report_progress-Kept :
      (s t : JobState) (e : JobEvent) → report_progress hash s e ≡ ok t → Kept s t e
  unfolding report_progress
  report_progress-Kept s t e h =
      let (b, found, h1) = >>=-eq-ok (active_attempt s e) _ h in
      let (p, made, h2) =
        >>=-eq-ok (next_progress b.progress e e.completed_units e.phase_code) _ h1 in
      let (a, valid, h3) = >>=-eq-ok (validate_attempt (record b { progress = p })) _ h2 in
      let (latest, active) = active_facts s e b found in
      kept s t _ e h3 refl refl refl refl
        (replaced a b latest active refl
          (same_of_valid_as (record b { progress = p }) b a valid refl refl refl refl))
        (same_definition _ _ refl refl refl refl refl)

  cancel_by_status-Kept :
      (s t : JobState) (e : JobEvent) (status : JobStatus)
      → cancel_by_status hash status s e ≡ ok t
      → Kept s t e
  unfolding cancel_by_status
  cancel_by_status-Kept s t e JobStatus.pending h =
      kept s t _ e h refl refl refl refl (same refl) (same_definition _ _ refl refl refl refl refl)
  cancel_by_status-Kept s t e JobStatus.running h =
      kept s t _ e h refl refl refl refl (same refl) (same_definition _ _ refl refl refl refl refl)
  cancel_by_status-Kept s t e JobStatus.cancel_requested h =
      kept s t _ e h refl refl refl refl (same refl) (same_definition _ _ refl refl refl refl refl)
  cancel_by_status-Kept s t e _ h = absurd (cc h)

  finish_active-Kept :
      (s t : JobState) (e : JobEvent) (b : JobAttempt)
      → last? s.attempts ≡ some b
      → b.status ≡ AttemptStatus.running
      → finish_active hash s e b ≡ ok t
      → Kept s t e
  unfolding finish_active
  finish_active-Kept s t e b latest active h =
      let (g1, h1) = after_guard (ltb e.occurred_at b.started_at) invalid_transition _ h in
      let (g2, h2) =
        after_guard (is_cancellation e.kind && not (is_cancel_requested s.status))
          invalid_transition _ h1 in
      let (a, valid, h3) =
        >>=-eq-ok (validate_attempt (finished_attempt b e))
          (λ x. validate_job hash (finished_job s e x)) h2 in
      kept s t _ e h3 refl refl refl refl
        (replaced a b latest active refl
          (same_of_valid_as (finished_attempt b e) b a valid refl refl refl refl))
        (same_definition _ _ refl refl refl refl refl)

  finish_attempt-Kept :
      (s t : JobState) (e : JobEvent) → finish_attempt hash s e ≡ ok t → Kept s t e
  unfolding finish_attempt
  finish_attempt-Kept s t e h =
      let (b, found, h1) = >>=-eq-ok (active_attempt s e) _ h in
      let (latest, active) = active_facts s e b found in finish_active-Kept s t e b latest active h1

  request_retry-Kept : (s t : JobState) (e : JobEvent) → request_retry hash s e ≡ ok t → Kept s t e
  unfolding request_retry
  request_retry-Kept s t e h =
      let (g, h1) = after_guard _ _ _ h in
      kept s t _ e h1 refl refl refl refl (same refl) (same_definition _ _ refl refl refl refl refl)

  handle-Kept :
      (s t : JobState) (e : JobEvent) (kind : JobEventKind)
      → handle hash kind s e ≡ ok t
      → Kept s t e
  unfolding handle request_cancellation
  handle-Kept s t e attempt_started h = start_attempt-Kept s t e h
  handle-Kept s t e progress_reported h = report_progress-Kept s t e h
  handle-Kept s t e cancellation_requested h = cancel_by_status-Kept s t e s.status h
  handle-Kept s t e retry_requested h = request_retry-Kept s t e h
  handle-Kept s t e _ h = finish_attempt-Kept s t e h

  pub handled :
      (s t : JobState) (e : JobEvent)
      → transition_job hash s e ≡ ok t
      → (handle hash e.kind s e ≡ ok t) × (e.sequence_no ≡ s.revision + 1)
  unfolding transition_job
  handled s t e h = (ground arith, ground arith)

  pub transition_job-Kept :
      (s t : JobState) (e : JobEvent) → transition_job hash s e ≡ ok t → Kept s t e
  transition_job-Kept s t e h = handle-Kept s t e e.kind (handled s t e h).0

  -- what every event keeps of the job and of its history
  pub record KeepsHistory (s t : JobState) : Type 0 where
    pub own : t.job_id ≡ s.job_id
    pub born : t.created_at ≡ s.created_at
    pub bound : t.max_attempts ≡ s.max_attempts
    pub definition : SameDefinition t s
    pub counted : t.revision ≡ s.revision + 1
    pub grown : length s.attempts ≤ length t.attempts
    pub kept :
        (i : ℕ) (a : JobAttempt)
        → get_elem? s.attempts i ≡ some a
        → (b : JobAttempt) × (get_elem? t.attempts i ≡ some b) × SameAttempt b a
    pub ended :
        (i : ℕ) (a : JobAttempt)
        → get_elem? s.attempts i ≡ some a
        → a.status ≢ AttemptStatus.running
        → get_elem? t.attempts i ≡ some a

  -- Every accepted event adds 1 to the revision and keeps the identifier, the kind, version, workspace,
  -- payload and key, the time of creation and the bound of the job. Its history only grows at the end: each
  -- attempt stays where it is, with its identifier, number and start, and is unchanged if it had ended.
  pub transition_job-KeepsHistory :
      (s t : JobState) (e : JobEvent) → transition_job hash s e ≡ ok t → KeepsHistory s t
  transition_job-KeepsHistory s t e h =
      let keeps = transition_job-Kept s t e h in
      record {
        own = keeps.own;
        born = keeps.born;
        bound = keeps.bound;
        definition = keeps.definition;
        counted = keeps.counted ∙ (handled s t e h).1;
        grown = grown_history s t e keeps.change;
        kept = λ i a at. kept_attempt s t e i a keeps.change at;
        ended = λ i a at done. kept_element s t e i a keeps.change at done;
      }
