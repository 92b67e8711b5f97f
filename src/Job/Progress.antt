-- ===== src/Job/Progress.antt =====
-- Reported progress in backend/app/job_system.py, and the ends of a job.
use mathlib.Core.Path.{subst}
use file_nest.Base.{
  sym, ℕ, ◌≤◌, ◌<◌, ◌≡◌, refl, ap, ◌∙◌, true, Option, some, arith, last?, last?-set_last, ok,
  >>=-eq-ok, length,
}
use file_nest.FilePath.{Text}
use file_nest.Job.Model.{
  JobStatus, JobEventKind, attempt_started, progress_reported, cancellation_requested,
  retry_requested, JobProgress, is_progress, JobTaskPayload, JobAttempt, validate_attempt, JobEvent,
}
use file_nest.Job.State.{is_terminal, JobState, validate_job}
use file_nest.Job.Events.{
  active_attempt, next_progress, validate_progress, report_progress, handle, transition_job,
  start_attempt, cancel_by_status, request_cancellation, finish_attempt, request_retry,
  is_retryable, has_worker,
}
use file_nest.Job.History.{handled, validated, active_facts}

-- what one accepted report does
pub record Advances (before after : JobProgress) : Type 0 where
  pub forth : before.completed_units ≤ after.completed_units
  pub total_kept : (n : ℕ) → before.total_units ≡ some n → after.total_units ≡ some n
  pub within : (n : ℕ) → after.total_units ≡ some n → after.completed_units ≤ n

next_progress-Advances :
    (current p : JobProgress) (e : JobEvent) (units : Option ℕ) (code : Option Text)
    → next_progress current e units code ≡ ok p
    → Advances current p
unfolding next_progress validate_progress is_progress
next_progress-Advances current p e (some n) (some code) h = record {
  forth = ground arith;
  total_kept = λ m k. ground arith;
  within = λ m k. ground arith;
}
next_progress-Advances current p e _ _ h = absurd (cc h)

validate_attempt-same : (a b : JobAttempt) → validate_attempt a ≡ ok b → b ≡ a
unfolding validate_attempt
validate_attempt-same a b h = ground arith

worker_of_active :
    (s : JobState) (e : JobEvent) (b : JobAttempt)
    → active_attempt s e ≡ ok b
    → has_worker s.status ≡ true
unfolding active_attempt
worker_of_active s e b h = ground arith

module _ (hash : JobTaskPayload → Text) where
  reported_attempt :
      (s t : JobState) (e : JobEvent)
      → report_progress hash s e ≡ ok t
      → (a : JobAttempt) × (b : JobAttempt) × (last? s.attempts ≡ some b)
        × (last? t.attempts ≡ some a)
        × (a.attempt_id ≡ b.attempt_id)
        × Advances b.progress a.progress
  unfolding report_progress
  reported_attempt s t e h =
      let (b, found, h1) = >>=-eq-ok (active_attempt s e) _ h in
      let (p, made, h2) =
        >>=-eq-ok (next_progress b.progress e e.completed_units e.phase_code) _ h1 in
      let (a, valid, h3) = >>=-eq-ok (validate_attempt (record b { progress = p })) _ h2 in
      let same : a ≡ record b { progress = p } =
        validate_attempt-same (record b { progress = p }) a valid in
      (
        a,
        b,
        (active_facts hash s e b found).0,
        ap last? (validated hash _ t h3).0 ∙ last?-set_last s.attempts a,
        ap (λ (x : JobAttempt). x.attempt_id) same,
        subst (Advances b.progress) (sym (ap (λ (x : JobAttempt). x.progress) same))
            (next_progress-Advances b.progress p e e.completed_units e.phase_code made),
      )

  -- An accepted report moves the progress of the running attempt on: the completed units never fall, a
  -- known total never changes, and the units stay within it.
  pub progress_advances :
      (s t : JobState) (e : JobEvent)
      → transition_job hash s e ≡ ok t
      → e.kind ≡ progress_reported
      → (a : JobAttempt) × (b : JobAttempt) × (last? s.attempts ≡ some b)
        × (last? t.attempts ≡ some a)
        × (a.attempt_id ≡ b.attempt_id)
        × Advances b.progress a.progress
  unfolding handle
  progress_advances s t e h kind =
      reported_attempt s t e (subst (λ k. handle hash k s e ≡ ok t) kind (handled hash s t e h).0)

  ended_step :
      (s t : JobState) (e : JobEvent) (kind : JobEventKind)
      → handle hash kind s e ≡ ok t
      → is_terminal s.status ≡ true
      → (kind ≡ retry_requested) × (request_retry hash s e ≡ ok t)
  unfolding handle start_attempt report_progress cancel_by_status request_cancellation
      finish_attempt
  ended_step s t e attempt_started h k = absurd (ground arith)
  ended_step s t e progress_reported h k =
      let (b, found, h1) = >>=-eq-ok (active_attempt s e) _ h in
      absurd (ground (arith, worker_of_active s e b found))
  ended_step s t e cancellation_requested h k = absurd (ground arith)
  ended_step s t e retry_requested h k = (refl, h)
  ended_step s t e _ h k =
      let (b, found, h1) = >>=-eq-ok (active_attempt s e) _ h in
      absurd (ground (arith, worker_of_active s e b found))

  retry_facts :
      (s t : JobState) (e : JobEvent)
      → request_retry hash s e ≡ ok t
      → (s.status ≡ JobStatus.failed)
        × (is_retryable (last? s.attempts) ≡ true)
        × (length s.attempts < s.max_attempts)
        × (t.status ≡ JobStatus.pending)
  unfolding request_retry validate_job
  retry_facts s t e h = (ground arith, ground arith, ground arith, ground arith)

  -- A succeeded or cancelled job accepts no event. A failed one accepts a retry alone, and only if its last
  -- attempt is retryable and fewer than `max_attempts` were made; the retry makes it pending.
  pub ended_refuses :
      (s t : JobState) (e : JobEvent)
      → transition_job hash s e ≡ ok t
      → is_terminal s.status ≡ true
      → (e.kind ≡ retry_requested)
        × (s.status ≡ JobStatus.failed)
        × (is_retryable (last? s.attempts) ≡ true)
        × (length s.attempts < s.max_attempts)
        × (t.status ≡ JobStatus.pending)
  ended_refuses s t e h k =
      let (kind, retried) = ended_step s t e e.kind (handled hash s t e h).0 k in
      let (st, again, room, next) = retry_facts s t e retried in (kind, st, again, room, next)
