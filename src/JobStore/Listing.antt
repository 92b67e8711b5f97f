-- ===== src/JobStore/Listing.antt =====
-- `list_unfinished` and `list_jobs` of backend/app/job_store.py.
use file_nest.Base.{
  ℕ, Bool, true, false, ◌&&◌, ◌||◌, Option, none, some, List, [], ◌∷◌, filter, ◌==◌, leb, ltb,
  Result, ok, ◌>>=◌, if◌then◌else◌,
}
use file_nest.FilePath.{Text}
use file_nest.Job.{JobKind, JobStatus, JobTaskPayload, JobState}
use file_nest.JobStore.Records.{
  StoreError, JobRecord, JobAttemptRecord, Database, get_attempts, state_from_records,
}
use file_nest.JobStore.Store.{kind_eq, status_eq}

abbrev pub is_unfinished : JobStatus → Bool
is_unfinished JobStatus.pending = true
is_unfinished JobStatus.running = true
is_unfinished JobStatus.cancel_requested = true
is_unfinished _ = false

-- `order_by(JobRecord.created_at.asc(), JobRecord.job_id.asc())`
unfoldable pub is_older : JobRecord → JobRecord → Bool
is_older r x =
    ltb r.created_at x.created_at || r.created_at == x.created_at && leb r.job_id x.job_id

-- `order_by(JobRecord.created_at.desc(), JobRecord.job_id.desc())`
unfoldable pub is_younger : JobRecord → JobRecord → Bool
is_younger r x = is_older x r

unfoldable pub insert_by :
    (JobRecord → JobRecord → Bool) → JobRecord → List JobRecord → List JobRecord
insert_by before r [] = r ∷ []
insert_by before r (x ∷ rest) =
    let deeper = insert_by before r rest in if before r x then r ∷ x ∷ rest else x ∷ deeper

unfoldable pub order_by : (JobRecord → JobRecord → Bool) → List JobRecord → List JobRecord
order_by before [] = []
order_by before (r ∷ rest) = insert_by before r (order_by before rest)

-- an optional condition of `where`
abbrev pub has_kind : Option JobKind → JobRecord → Bool
has_kind none r = true
has_kind (some kind) r = kind_eq r.kind kind

abbrev pub has_status : Option JobStatus → JobRecord → Bool
has_status none r = true
has_status (some status) r = status_eq r.status status

module _ (hash_job_payload : JobTaskPayload → Text) (parse : Text → Option JobTaskPayload) where
  unfoldable pub states_from_records :
      List JobAttemptRecord → List JobRecord → Result StoreError (List JobState)
  states_from_records rows [] = ok []
  states_from_records rows (r ∷ rest) = do
    s ← state_from_records hash_job_payload parse r (get_attempts rows r.job_id)
    states ← states_from_records rows rest
    ok (s ∷ states)

  unfoldable pub list_unfinished : Database → Result StoreError (List JobState)
  list_unfinished db =
      states_from_records db.attempts
        (order_by is_older (filter (λ (r : JobRecord). is_unfinished r.status) db.jobs))

  unfoldable pub list_jobs :
      Database → ℕ → Option JobKind → Option JobStatus → Result StoreError (List JobState)
  list_jobs db workspace_id kind status = states_from_records db.attempts (
      order_by is_younger (
        filter
          (λ (r : JobRecord).
            r.workspace_id == workspace_id && has_kind kind r && has_status status r)
          db.jobs))
