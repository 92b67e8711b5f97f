-- ===== src/JobStore/Creation.antt =====
-- `create_or_get` of backend/app/job_store.py: a submission creates its job once, also when two sessions
-- submit it at the same time.
use file_nest.Base.{
  ℕ, ◌≡◌, refl, sym, ap, ◌∙◌, Bool, true, false, not, ◌||◌, Option, none, some, List, [], ◌∷◌, ◌++◌,
  arith, map, any, ◌==◌, ok, err, raise_if, Bool-cases, inl, inr, ◌⊎◌,
}
use file_nest.FilePath.{Text, text_eq}
use file_nest.FilePath.Laws.{text_eq_iff, text_eq_refl}
use file_nest.Job.{JobKind, JobTaskPayload, JobState}
use file_nest.Job.Validity.{IsValid}
use file_nest.JobStore.Payload.{serialize_job_payload, ReadsBack}
use file_nest.JobStore.Records.{
  identity_conflict, integrity_error, JobRecord, Database, find_job, get_by_idempotency_key,
  get_attempts, new_attempt_record, new_job_record, or_hash,
}
use file_nest.JobStore.Store.{
  kind_eq, is_digest_of, is_new, insert_job, load_same, after_conflict, add_job,
  require_same_identity, create_or_get,
}
use file_nest.JobStore.RoundTrip.{
  Represents, load_job-Represents, new_job_record-payload, valid_payload,
}
use file_nest.JobStore.Compatible.{require_same_identity-ok}

-- two states of one submission
pub record SameSubmission (s candidate : JobState) : Type 0 where
  pub kind : candidate.kind ≡ s.kind
  pub version : candidate.task_version ≡ s.task_version
  pub workspace : candidate.workspace_id ≡ s.workspace_id
  pub payload : candidate.payload ≡ s.payload
  pub key : candidate.idempotency_key ≡ s.idempotency_key

key_is_used :
    (key : Text) (r : JobRecord) (jobs : List JobRecord)
    → get_by_idempotency_key key jobs ≡ some r
    → any (λ (x : JobRecord). text_eq x.idempotency_key key) jobs ≡ true
unfolding get_by_idempotency_key
key_is_used key r [] h = absurd (cc h)
key_is_used key r (x ∷ jobs) h = ground (arith, key_is_used key r jobs)

insert_job-used :
    (r x : JobRecord) (jobs : List JobRecord)
    → get_by_idempotency_key r.idempotency_key jobs ≡ some x
    → insert_job r jobs ≡ err integrity_error
unfolding insert_job
insert_job-used r x jobs h = ground (arith, key_is_used r.idempotency_key x jobs h)

find_job-append :
    (id : ℕ) (r : JobRecord) (jobs : List JobRecord)
    → any (λ (x : JobRecord). x.job_id == id) jobs ≡ false
    → r.job_id ≡ id
    → find_job id (jobs ++ r ∷ []) ≡ some r
unfolding find_job
find_job-append id r [] h own = ground arith
find_job-append id r (x ∷ jobs) h own = ground (arith, find_job-append id r jobs)

get_by_key-append :
    (key : Text) (r : JobRecord) (jobs : List JobRecord)
    → any (λ (x : JobRecord). text_eq x.idempotency_key key) jobs ≡ false
    → r.idempotency_key ≡ key
    → get_by_idempotency_key key (jobs ++ r ∷ []) ≡ some r
unfolding get_by_idempotency_key
get_by_key-append key r [] h own = ground (arith, text_eq_refl key)
get_by_key-append key r (x ∷ jobs) h own = ground (arith, get_by_key-append key r jobs)

kind_eq_sound : (k l : JobKind) → kind_eq k l ≡ true → k ≡ l
kind_eq_sound JobKind.workspace_scan JobKind.workspace_scan h = refl
kind_eq_sound JobKind.document_index JobKind.document_index h = refl
kind_eq_sound JobKind.workspace_scan JobKind.document_index h = cc
kind_eq_sound JobKind.document_index JobKind.workspace_scan h = cc

module _ (hash : JobTaskPayload → Text) where
  new_job_record-id : (s : JobState) → (new_job_record hash s).job_id ≡ s.job_id
  unfolding new_job_record
  new_job_record-id s = refl

  new_job_record-key : (s : JobState) → (new_job_record hash s).idempotency_key ≡ s.idempotency_key
  unfolding new_job_record
  new_job_record-key s = refl

  -- the database holds the job `s` under its key
  pub record Holds (db : Database) (s : JobState) : Type 0 where
    pub rows : Represents hash db s
    pub keyed : get_by_idempotency_key s.idempotency_key db.jobs ≡ some (new_job_record hash s)

  -- neither the key nor the identifier of the job is in use
  pub record Unused (db : Database) (s : JobState) : Type 0 where
    pub key : any (λ (x : JobRecord). text_eq x.idempotency_key s.idempotency_key) db.jobs ≡ false
    pub id : any (λ (x : JobRecord). x.job_id == s.job_id) db.jobs ≡ false
    pub attempts : get_attempts db.attempts s.job_id ≡ []

  -- the queries have seen the database that the commit finds, or one in which the key was not in use
  abbrev pub Seen : Database → Database → JobState → Type 0
  Seen seen db s = (seen ≡ db) ⊎ (get_by_idempotency_key s.idempotency_key seen.jobs ≡ none)

  module _ (parse : Text → Option JobTaskPayload) (codec : ReadsBack parse) where
    same_payload :
        (s c : JobState)
        → IsValid hash s
        → IsValid hash c
        → text_eq (serialize_job_payload s.payload) (serialize_job_payload c.payload) ≡ true
        → c.payload ≡ s.payload
    same_payload s c v w h =
        let texts =
          (text_eq_iff (serialize_job_payload s.payload) (serialize_job_payload c.payload)).0 h in
        let read =
          sym (codec.reads c.payload (valid_payload hash c w))
          ∙ ap parse (sym texts)
          ∙ codec.reads s.payload (valid_payload hash s v) in
        ground arith

    -- the test of `_require_same_identity` on the row of `s`
    abbrev differs : JobState → JobState → Bool
    differs s c =
        not (kind_eq s.kind c.kind)
        || not (text_eq s.task_version c.task_version)
        || not (s.workspace_id == c.workspace_id)
        || not (is_digest_of c.payload_hash (or_hash s.payload_hash (hash s.payload)))
        || not (text_eq (serialize_job_payload s.payload) (serialize_job_payload c.payload))
        || not (text_eq s.idempotency_key c.idempotency_key)

    require_same_identity-differs :
        (s c : JobState)
        → IsValid hash s
        → require_same_identity hash parse (new_job_record hash s) c
          ≡ raise_if (differs s c) identity_conflict
    unfolding require_same_identity new_job_record
    require_same_identity-differs s c v = rw (new_job_record-payload hash parse codec s v) refl

    same_if :
        (s c : JobState)
        → IsValid hash s
        → IsValid hash c
        → differs s c ≡ false
        → SameSubmission s c
    same_if s c v w h = record {
      kind = sym (kind_eq_sound s.kind c.kind (ground arith));
      version = sym ((text_eq_iff s.task_version c.task_version).0 (ground arith));
      workspace = ground arith;
      payload = same_payload s c v w (ground arith);
      key = sym ((text_eq_iff s.idempotency_key c.idempotency_key).0 (ground arith));
    }

    -- the answer of the comparison with the stored job
    compared :
        (s c : JobState)
        → IsValid hash s
        → IsValid hash c
        → SameSubmission s c
          ⊎ (require_same_identity hash parse (new_job_record hash s) c ≡ err identity_conflict)
    compared s c v w = elim (Bool-cases (differs s c)) [
      | inl h ↦ inr (require_same_identity-differs s c v ∙ ap (λ b. raise_if b identity_conflict) h)
      | inr h ↦ inl (same_if s c v w h)
    ]

    load_same-ok :
        (db : Database) (s c : JobState)
        → IsValid hash s
        → IsValid hash c
        → Represents hash db s
        → SameSubmission s c
        → load_same hash parse db (new_job_record hash s) c ≡ ok s
    unfolding load_same
    load_same-ok db s c v w rep same =
        rw
          (
            require_same_identity-ok hash parse codec s c v w same.kind same.version same.workspace
                same.payload same.key,
            new_job_record-id s,
            load_job-Represents hash parse codec db s v rep,
          )
          refl

    load_same-err :
        (db : Database) (s c : JobState)
        → require_same_identity hash parse (new_job_record hash s) c ≡ err identity_conflict
        → load_same hash parse db (new_job_record hash s) c ≡ err identity_conflict
    unfolding load_same
    load_same-err db s c h = rw h refl

    keyed_as :
        (db : Database) (s c : JobState)
        → Holds db s
        → c.idempotency_key ≡ s.idempotency_key
        → get_by_idempotency_key c.idempotency_key db.jobs ≡ some (new_job_record hash s)
    keyed_as db s c holds key = ap (λ k. get_by_idempotency_key k db.jobs) key ∙ holds.keyed

    add_job-used :
        (db : Database) (s c : JobState)
        → insert_job (new_job_record hash c) db.jobs ≡ err integrity_error
        → get_by_idempotency_key c.idempotency_key db.jobs ≡ some (new_job_record hash s)
        → add_job hash parse db c ≡ (load_same hash parse db (new_job_record hash s) c, db)
    unfolding add_job after_conflict
    add_job-used db s c used found = rw (used, found, add_job) refl

    -- a submission under a key that is in use answers by the job of the key
    answered :
        (seen db : Database) (s c : JobState)
        → Holds db s
        → Seen seen db c
        → is_new c ≡ true
        → c.idempotency_key ≡ s.idempotency_key
        → create_or_get hash parse seen db c
          ≡ (load_same hash parse db (new_job_record hash s) c, db)
    unfolding create_or_get
    answered seen db s c holds (inl same) new key =
        let found =
          ap (λ (d : Database). get_by_idempotency_key c.idempotency_key d.jobs) same
          ∙ keyed_as db s c holds key in
        rw (new, found) (ap (λ d. (load_same hash parse d (new_job_record hash s) c, db)) same)
    answered seen db s c holds (inr unseen) new key =
        let found = keyed_as db s c holds key in
        let used : insert_job (new_job_record hash c) db.jobs ≡ err integrity_error =
          insert_job-used (new_job_record hash c) (new_job_record hash s) db.jobs
            (rw (new_job_record-key c) found) in
        rw (new, unseen, add_job-used db s c used found) refl

    create_or_get_once :
        (seen db : Database) (s c : JobState)
        → IsValid hash s
        → IsValid hash c
        → Holds db s
        → Seen seen db c
        → is_new c ≡ true
        → SameSubmission s c
        → create_or_get hash parse seen db c ≡ (ok s, db)
    create_or_get_once seen db s c v w holds looked new same =
        rw (answered seen db s c holds looked new same.key, load_same-ok db s c v w holds.rows same)
          refl

    other_submission :
        (s c : JobState)
        → IsValid hash s
        → IsValid hash c
        → require_same_identity hash parse (new_job_record hash s) c ≡ err identity_conflict
        → ¬ SameSubmission s c
    other_submission s c v w h same =
        let accepted =
          require_same_identity-ok hash parse codec s c v w same.kind same.version same.workspace
            same.payload same.key in
        cc (sym h ∙ accepted)

    -- A new job is submitted under a key that the database holds a job for. If the submission is the same,
    -- in kind, version, workspace and payload, it returns that job, and else it raises an identity
    -- conflict. It writes nothing in either case, also if another session has created the job after the
    -- key was looked up.
    pub create_or_get_resubmitted :
        (seen db : Database) (s c : JobState)
        → IsValid hash s
        → IsValid hash c
        → Holds db s
        → Seen seen db c
        → is_new c ≡ true
        → c.idempotency_key ≡ s.idempotency_key
        → (SameSubmission s c × (create_or_get hash parse seen db c ≡ (ok s, db)))
          ⊎ ((¬ SameSubmission s c)
              × (create_or_get hash parse seen db c ≡ (err identity_conflict, db)))
    create_or_get_resubmitted seen db s c v w holds looked new key = elim (compared s c v w) [
      | inl same ↦ inl (same, create_or_get_once seen db s c v w holds looked new same)
      | inr h ↦ inr (
        other_submission s c v w h,
        rw (answered seen db s c holds looked new key, load_same-err db s c h) refl,
      )
    ]

    inserted_job :
        (db : Database) (c : JobState)
        → Unused db c
        → insert_job (new_job_record hash c) db.jobs ≡ ok (db.jobs ++ new_job_record hash c ∷ [])
    unfolding insert_job new_job_record
    inserted_job db c u = ground (arith, u.id, u.key)

    no_attempts : (c : JobState) → is_new c ≡ true → c.attempts ≡ []
    unfolding is_new
    no_attempts c h = ground arith

    new-Holds :
        (db : Database) (c : JobState)
        → is_new c ≡ true
        → Unused db c
        → Holds (record db { jobs = db.jobs ++ new_job_record hash c ∷ [] }) c
    new-Holds db c new unused = record {
      rows = record {
        row =
            find_job-append c.job_id (new_job_record hash c) db.jobs unused.id
              (new_job_record-id c);
        history = unused.attempts ∙ sym (ap (map new_attempt_record) (no_attempts c new));
      };
      keyed =
          get_by_key-append c.idempotency_key (new_job_record hash c) db.jobs unused.key
            (new_job_record-key c);
    }

    add_job-ok :
        (db : Database) (c : JobState)
        → IsValid hash c
        → Unused db c
        → Represents hash (record db { jobs = db.jobs ++ new_job_record hash c ∷ [] }) c
        → add_job hash parse db c
          ≡ (ok c, record db { jobs = db.jobs ++ new_job_record hash c ∷ [] })
    unfolding add_job
    add_job-ok db c v unused rep =
        rw
          (
            inserted_job db c unused,
            load_job-Represents hash parse codec
                (record db { jobs = db.jobs ++ new_job_record hash c ∷ [] }) c v rep,
            add_job,
          )
          refl

    -- A new submission whose key and identifier are not in use creates the job: it returns the candidate,
    -- and the database then holds it under its key.
    pub create_or_get_new :
        (seen db : Database) (c : JobState)
        → IsValid hash c
        → is_new c ≡ true
        → Unused db c
        → get_by_idempotency_key c.idempotency_key seen.jobs ≡ none
        → (db' : Database) × (create_or_get hash parse seen db c ≡ (ok c, db')) × Holds db' c
    unfolding create_or_get
    create_or_get_new seen db c v new unused free =
        let db' : Database = record db { jobs = db.jobs ++ new_job_record hash c ∷ [] } in
        let holds = new-Holds db c new unused in
        (db', rw (new, free, add_job-ok db c v unused holds.rows) refl, holds)
