-- ===== src/JobStore/Saving.antt =====
-- `_save_attempts` of backend/app/job_store.py writes the history of the job: afterwards the query of
-- the job reads the rows of the new attempts, and the queries of other jobs read what they read before.
use file_nest.Base.{
  ℕ, ◌+◌, ◌≡◌, ◌≢◌, refl, sym, ap, ◌∙◌, Bool, true, false, ◌&&◌, List, [], ◌∷◌, ◌++◌, arith, map,
  filter, any, ◌==◌, leb, length, ok, >>=-eq-ok, ok-injective,
}
use mathlib.Core.List.{append_assoc, append-nil}
use file_nest.Job.{JobAttempt, are_attempts}
use file_nest.JobStore.Records.{
  JobAttemptRecord, belongs_to, get_attempts, sort_by_no, new_attempt_record,
}
use file_nest.JobStore.Store.{is_row_of, are_rows_of, update_row, insert_row, save_attempts}
use file_nest.JobStore.Rows.{
  get_attempts-map, any-get_attempts, any-sort_by_no, filter-append_in, filter-append_out,
  sort_by_no-append,
}
use file_nest.JobStore.Updates.{
  is_taken, are_own_ids, update_row-KeepsKeys, are_own_ids-update, update_elsewhere, overwrite-row,
  update_row-others, unseen, unseen_rows, are_before, are_before-absent, are_before-below,
  are_before-unnumbered, are_before-next, split_any,
}

-- an attempt behind all rows of its job
inserted :
    (job n : ℕ) (seen : List ℕ) (a : JobAttempt) (before rows : List JobAttemptRecord)
    → get_attempts rows job ≡ before
    → are_before seen n before ≡ true
    → a.job_id ≡ job
    → a.attempt_no ≡ n
    → any (◌==◌ a.attempt_id) seen ≡ false
    → is_taken a.attempt_id job rows ≡ false
    → (insert_row a rows ≡ ok (rows ++ new_attempt_record a ∷ []))
      × (get_attempts (rows ++ new_attempt_record a ∷ []) job ≡ before ++ new_attempt_record a ∷ [])
unfolding insert_row new_attempt_record get_attempts
inserted job n seen a before rows found past own number new free =
    let has_key : JobAttemptRecord → Bool = λ r. r.attempt_id == a.attempt_id in
    let has_number : JobAttemptRecord → Bool = λ r. r.attempt_no == n in
    let is_later : JobAttemptRecord → Bool = λ r. leb n r.attempt_no in
    let new_id : any has_key rows ≡ false =
      split_any a.attempt_id job rows
        (sym (any-get_attempts has_key rows job)
          ∙ ap (any has_key) found
          ∙ are_before-absent seen n a.attempt_id before past new)
        free in
    let new_number : any (λ (r : JobAttemptRecord). r.job_id == job && r.attempt_no == n) rows
        ≡ false =
      sym (any-get_attempts has_number rows job)
      ∙ ap (any has_number) found
      ∙ are_before-unnumbered seen n before past in
    let latest : any is_later (filter (belongs_to job) rows) ≡ false =
      sym (any-sort_by_no is_later (filter (belongs_to job) rows))
      ∙ ap (any is_later) found
      ∙ are_before-below seen n before past in
    (
      rw (own, number, new_id, new_number) refl,
      ap sort_by_no (filter-append_in job rows (new_attempt_record a) (ground arith))
          ∙ sort_by_no-append (filter (belongs_to job) rows) (new_attempt_record a)
              (rw number latest)
          ∙ ap (λ xs. xs ++ new_attempt_record a ∷ []) found,
    )

update_row-other :
    (id : ℕ) (a : JobAttempt) (r : JobAttemptRecord)
    → (r.attempt_id == id) ≡ false
    → update_row id a r ≡ r
unfolding update_row
update_row-other id a r h = rw h refl

-- the UPDATE of one row of the history
map-update_row :
    (p : JobAttemptRecord) (a : JobAttempt) (before after : List JobAttemptRecord)
    → is_row_of p a ≡ true
    → any (λ (r : JobAttemptRecord). r.attempt_id == p.attempt_id) before ≡ false
    → any (λ (r : JobAttemptRecord). r.attempt_id == p.attempt_id) after ≡ false
    → map (update_row p.attempt_id a) (before ++ p ∷ after) ≡ before ++ new_attempt_record a ∷ after
map-update_row p a [] after own b c =
    rw (overwrite-row a p own, update_row-others p.attempt_id a after c) refl
map-update_row p a (x ∷ before) after own b c =
    rw (update_row-other p.attempt_id a x (ground arith))
      (ap (◌∷◌ x) (map-update_row p a before after own (ground arith) c))

same_id :
    (p : JobAttemptRecord) (a : JobAttempt) → is_row_of p a ≡ true → p.attempt_id ≡ a.attempt_id
unfolding is_row_of
same_id p a own = ground arith

overwritten :
    (job created n : ℕ) (seen : List ℕ) (p : JobAttemptRecord) (a : JobAttempt)
    (persisted : List JobAttemptRecord) (rest : List JobAttempt)
    (before rows : List JobAttemptRecord)
    → get_attempts rows job ≡ before ++ p ∷ persisted
    → are_before seen n before ≡ true
    → is_row_of p a ≡ true
    → any (◌==◌ a.attempt_id) seen ≡ false
    → are_attempts job created (n + 1) (a.attempt_id ∷ seen) rest ≡ true
    → are_rows_of persisted rest ≡ true
    → leb (length persisted) (length rest) ≡ true
    → get_attempts (map (update_row p.attempt_id a) rows) job
      ≡ (before ++ new_attempt_record a ∷ []) ++ persisted
overwritten job created n seen p a persisted rest before rows found past own new valid rs size =
    let id = same_id p a own in
    get_attempts-map (update_row p.attempt_id a) (update_row-KeepsKeys p.attempt_id a) rows job
    ∙ ap (map (update_row p.attempt_id a)) found
    ∙ map-update_row p a before persisted own
        (rw id (are_before-absent seen n a.attempt_id before past new))
        (rw id (
          unseen_rows a.attempt_id persisted rest rs size (
            unseen job created (n + 1) a.attempt_id (a.attempt_id ∷ seen) rest valid
              (ground arith))))
    ∙ sym (append_assoc before (new_attempt_record a ∷ []) persisted)

later :
    (job created n : ℕ) (seen : List ℕ) (p : JobAttemptRecord) (a : JobAttempt)
    (persisted : List JobAttemptRecord) (rest : List JobAttempt) (rows : List JobAttemptRecord)
    → (leb (length (p ∷ persisted)) (length (a ∷ rest))
        && leb (length (a ∷ rest)) (length (p ∷ persisted) + 1))
      ≡ true
    → are_own_ids job (a ∷ rest) rows ≡ true
    → ((leb (length persisted) (length rest) && leb (length rest) (length persisted + 1)) ≡ true)
      × (are_own_ids job rest (map (update_row p.attempt_id a) rows) ≡ true)
unfolding are_own_ids
later job created n seen p a persisted rest rows size own =
    (ground arith, are_own_ids-update job p.attempt_id a rest rows ∙ ground arith)

next_before :
    (seen : List ℕ) (n : ℕ) (a : JobAttempt) (before : List JobAttemptRecord)
    → are_before seen n before ≡ true
    → a.attempt_no ≡ n
    → are_before (a.attempt_id ∷ seen) (n + 1) (before ++ new_attempt_record a ∷ []) ≡ true
unfolding new_attempt_record
next_before seen n a before past number =
    are_before-next seen n a.attempt_id before (new_attempt_record a) past refl number

-- the attempt that has been written counts to the rows before
regrouped :
    (job : ℕ) (persisted : List JobAttemptRecord) (rest : List JobAttempt)
    (before rows : List JobAttemptRecord) (r : JobAttemptRecord)
    → (rows' : List JobAttemptRecord) × (save_attempts persisted rest rows ≡ ok rows')
      × (get_attempts rows' job ≡ (before ++ r ∷ []) ++ map new_attempt_record rest)
    → (rows' : List JobAttemptRecord) × (save_attempts persisted rest rows ≡ ok rows')
      × (get_attempts rows' job ≡ before ++ r ∷ map new_attempt_record rest)
regrouped job persisted rest before rows r (rows', saved, got) =
    (rows', saved, got ∙ append_assoc before (r ∷ []) (map new_attempt_record rest))

pub save_attempts_reads :
    (job created n : ℕ) (seen : List ℕ) (persisted : List JobAttemptRecord)
    (incoming : List JobAttempt) (before rows : List JobAttemptRecord)
    → get_attempts rows job ≡ before ++ persisted
    → are_before seen n before ≡ true
    → are_rows_of persisted incoming ≡ true
    → are_attempts job created n seen incoming ≡ true
    → (leb (length persisted) (length incoming) && leb (length incoming) (length persisted + 1))
      ≡ true
    → are_own_ids job incoming rows ≡ true
    → (rows' : List JobAttemptRecord) × (save_attempts persisted incoming rows ≡ ok rows')
      × (get_attempts rows' job ≡ before ++ map new_attempt_record incoming)
unfolding save_attempts are_attempts are_own_ids are_rows_of
save_attempts_reads job created n seen [] [] before rows found past rs valid size own =
    (rows, refl, found)
save_attempts_reads job created n seen [] (a ∷ []) before rows found past rs valid size own =
    let (done, got) =
      inserted job n seen a before rows (found ∙ append-nil before) past (ground arith)
        (ground arith) (ground arith) (ground arith) in
    (rows ++ new_attempt_record a ∷ [], rw done refl, got)
save_attempts_reads job created n seen [] (a ∷ b ∷ rest) before rows found past rs valid size own =
    absurd (ground arith)
save_attempts_reads job created n seen (p ∷ persisted) [] before rows found past rs valid size own =
    absurd (ground arith)
save_attempts_reads job created n seen (p ∷ persisted) (a ∷ rest) before rows found past rs valid
      size own =
    let (size', own') = later job created n seen p a persisted rest rows size own in
    let own_row : is_row_of p a ≡ true = ground arith in
    let fresh_id : any (◌==◌ a.attempt_id) seen ≡ false = ground arith in
    let valid' : are_attempts job created (n + 1) (a.attempt_id ∷ seen) rest ≡ true =
      ground arith in
    regrouped job persisted rest before (map (update_row p.attempt_id a) rows)
      (new_attempt_record a)
      (save_attempts_reads job created (n + 1) (a.attempt_id ∷ seen) persisted rest
        (before ++ new_attempt_record a ∷ []) (map (update_row p.attempt_id a) rows)
        (overwritten job created n seen p a persisted rest before rows found past own_row fresh_id
          valid' (ground arith) (ground arith))
        (next_before seen n a before past (ground arith)) (ground arith) valid' size' own')

-- the row of the inserted attempt is one of its job
inserted_elsewhere :
    (job other : ℕ) (a : JobAttempt) (rows rows' : List JobAttemptRecord)
    → other ≢ job
    → a.job_id ≡ job
    → insert_row a rows ≡ ok rows'
    → filter (belongs_to other) rows' ≡ filter (belongs_to other) rows
unfolding insert_row new_attempt_record
inserted_elsewhere job other a rows rows' apart own h =
    let written : rows' ≡ rows ++ new_attempt_record a ∷ [] = ground arith in
    rw written (filter-append_out other rows (new_attempt_record a) (ground arith))

-- the rows of other jobs
pub save_attempts_elsewhere :
    (job created n other : ℕ) (seen : List ℕ) (persisted : List JobAttemptRecord)
    (incoming : List JobAttempt) (rows rows' : List JobAttemptRecord)
    → other ≢ job
    → are_rows_of persisted incoming ≡ true
    → are_attempts job created n seen incoming ≡ true
    → (leb (length persisted) (length incoming) && leb (length incoming) (length persisted + 1))
      ≡ true
    → are_own_ids job incoming rows ≡ true
    → save_attempts persisted incoming rows ≡ ok rows'
    → filter (belongs_to other) rows' ≡ filter (belongs_to other) rows
unfolding save_attempts are_attempts are_own_ids are_rows_of
save_attempts_elsewhere job created n other seen [] [] rows rows' apart rs valid size own h =
    rw⁻¹ (ok-injective h) refl
save_attempts_elsewhere job created n other seen (p ∷ persisted) [] rows rows' apart rs valid size
      own h =
    absurd (ground arith)
save_attempts_elsewhere job created n other seen [] (a ∷ []) rows rows' apart rs valid size own h =
    let (more, made, h1) = >>=-eq-ok (insert_row a rows) _ h in
    inserted_elsewhere job other a rows rows' apart (ground arith) (made ∙ h1)
save_attempts_elsewhere job created n other seen [] (a ∷ b ∷ rest) rows rows' apart rs valid size
      own h =
    absurd (ground arith)
save_attempts_elsewhere job created n other seen (p ∷ persisted) (a ∷ rest) rows rows' apart rs
      valid size own h =
    let (size', own') = later job created n seen p a persisted rest rows size own in
    let id = same_id p a (ground arith) in
    save_attempts_elsewhere job created (n + 1) other (a.attempt_id ∷ seen) persisted rest
      (map (update_row p.attempt_id a) rows) rows' apart (ground arith) (ground arith) size' own' h
    ∙ update_elsewhere job other p.attempt_id a rows apart (rw id (ground arith))
