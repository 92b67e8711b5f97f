-- ===== src/JobStore/Compatible.antt =====
-- A transition of a job passes the guards of `save_transition` of backend/app/job_store.py: it keeps the
-- definition of the job, and its attempts fit the rows of the job.
use file_nest.Base.{
  ℕ, ◌+◌, ◌≤◌, ◌≡◌, refl, true, Option, none, some, List, [], ◌∷◌, ◌++◌, arith, map, last?,
  set_last, length, length-append, length-set_last, leb, ok, ◌&&◌,
}
use file_nest.FilePath.{Text}
use file_nest.FilePath.Laws.{text_eq_refl}
use file_nest.Job.{JobKind, JobTaskPayload, JobAttempt, JobEvent, JobState}
use file_nest.Job.Attempts.{SameAttempt}
use file_nest.Job.Changes.{Change}
use file_nest.Job.History.{Kept}
use file_nest.Job.Validity.{IsValid, Tests-of_valid}
use file_nest.JobStore.Payload.{serialize_job_payload, ReadsBack}
use file_nest.JobStore.Records.{JobAttemptRecord, new_attempt_record, or_hash, new_job_record}
use file_nest.JobStore.Store.{
  kind_eq, is_digest_of, is_row_of, are_rows_of, require_compatible_attempts, require_same_identity,
  require_same_definition,
}
use file_nest.JobStore.RoundTrip.{new_job_record-payload}

length-map :
    (attempts : List JobAttempt) → length (map new_attempt_record attempts) ≡ length attempts
length-map [] = refl
length-map (a ∷ rest) = omega (arith, length-map rest)

own_row : (a : JobAttempt) → is_row_of (new_attempt_record a) a ≡ true
unfolding is_row_of new_attempt_record
own_row a = ground arith

same_row : (a b : JobAttempt) → SameAttempt a b → is_row_of (new_attempt_record b) a ≡ true
unfolding is_row_of new_attempt_record
same_row a b same = ground arith

are_rows_of-append :
    (xs ys : List JobAttempt) → are_rows_of (map new_attempt_record xs) (xs ++ ys) ≡ true
unfolding are_rows_of
are_rows_of-append [] ys = refl
are_rows_of-append (x ∷ xs) ys = ground (arith, own_row x, are_rows_of-append xs ys)

are_rows_of-same : (xs : List JobAttempt) → are_rows_of (map new_attempt_record xs) xs ≡ true
unfolding are_rows_of
are_rows_of-same [] = refl
are_rows_of-same (x ∷ xs) = ground (arith, own_row x, are_rows_of-same xs)

are_rows_of-set_last :
    (xs : List JobAttempt) (a b : JobAttempt)
    → last? xs ≡ some b
    → SameAttempt a b
    → are_rows_of (map new_attempt_record xs) (set_last xs a) ≡ true
unfolding are_rows_of
are_rows_of-set_last [] a b l same = absurd (cc l)
are_rows_of-set_last (x ∷ []) a b l same = ground (arith, same_row a b same)
are_rows_of-set_last (x ∷ y ∷ xs) a b l same =
    ground (arith, own_row x, are_rows_of-set_last (y ∷ xs) a b l same)

-- the rows of a job and the attempts that a transition leaves
pub record Fits (rows : List JobAttemptRecord) (attempts : List JobAttempt) : Type 0 where
  pub rows_of : are_rows_of rows attempts ≡ true
  pub size : (leb (length rows) (length attempts) && leb (length attempts) (length rows + 1)) ≡ true

pub require_compatible_attempts-ok :
    (rows : List JobAttemptRecord) (attempts : List JobAttempt)
    → Fits rows attempts
    → require_compatible_attempts rows attempts ≡ ok tt
unfolding require_compatible_attempts
require_compatible_attempts-ok rows attempts fits = rw (fits.size, fits.rows_of) refl

Fits-of :
    (xs ys : List JobAttempt) (k : ℕ)
    → are_rows_of (map new_attempt_record xs) ys ≡ true
    → length ys ≡ length xs + k
    → k ≤ 1
    → Fits (map new_attempt_record xs) ys
Fits-of xs ys k rows size bound = record {
  rows_of = rows;
  size = rw (length-map xs) (ground arith);
}

pub Change-Fits :
    (s t : JobState) (e : JobEvent)
    → Change s t e
    → Fits (map new_attempt_record s.attempts) t.attempts
Change-Fits s t e (Change.same p) =
    rw p (Fits-of s.attempts s.attempts 0 (are_rows_of-same s.attempts) (omega arith) (omega arith))
Change-Fits s t e (Change.appended a p room new) = rw p (
    Fits-of s.attempts (s.attempts ++ a ∷ []) 1 (are_rows_of-append s.attempts (a ∷ []))
      (length-append s.attempts (a ∷ [])) (omega arith))
Change-Fits s t e (Change.replaced a b l r p same) = rw p (
    Fits-of s.attempts (set_last s.attempts a) 0 (are_rows_of-set_last s.attempts a b l same)
      (omega (arith, length-set_last s.attempts a b l)) (omega arith))

kind_eq_refl : (k : JobKind) → kind_eq k k ≡ true
kind_eq_refl JobKind.workspace_scan = refl
kind_eq_refl JobKind.document_index = refl

module _ (hash : JobTaskPayload → Text) (parse : Text → Option JobTaskPayload)
    (codec : ReadsBack parse) where
  digest_of :
      (known : Option Text) (computed : Text)
      → known ≡ some computed
      → is_digest_of known (or_hash known computed) ≡ true
  digest_of none computed h = absurd (cc h)
  digest_of (some []) computed h = ground (arith, text_eq_refl computed)
  digest_of (some (c ∷ known)) computed h = text_eq_refl (c ∷ known)

  -- the stored job is the same submission as `t`
  pub require_same_identity-ok :
      (s t : JobState)
      → IsValid hash s
      → IsValid hash t
      → t.kind ≡ s.kind
      → t.task_version ≡ s.task_version
      → t.workspace_id ≡ s.workspace_id
      → t.payload ≡ s.payload
      → t.idempotency_key ≡ s.idempotency_key
      → require_same_identity hash parse (new_job_record hash s) t ≡ ok tt
  unfolding require_same_identity new_job_record
  require_same_identity-ok s t v w kind version workspace payload key = ground (
    arith,
    new_job_record-payload hash parse codec s v,
    kind_eq_refl s.kind,
    text_eq_refl s.task_version,
    text_eq_refl (serialize_job_payload s.payload),
    text_eq_refl s.idempotency_key,
    (Tests-of_valid hash t w).digest,
    digest_of s.payload_hash (hash s.payload) (Tests-of_valid hash s v).digest,
    (Tests-of_valid hash s v).digest,
  )

  pub require_same_definition-ok :
      (s t : JobState) (e : JobEvent)
      → IsValid hash s
      → IsValid hash t
      → Kept hash s t e
      → require_same_definition hash parse (new_job_record hash s) t ≡ ok tt
  unfolding require_same_definition new_job_record
  require_same_definition-ok s t e v w kept =
      let same = kept.definition in
      ground (
        arith,
        require_same_identity-ok s t v w same.kind same.version same.workspace same.payload
            same.key,
        kept.bound,
        kept.born,
      )
