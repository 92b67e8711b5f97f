-- ===== src/JobStore/Rows.antt =====
-- Laws of the queries of backend/app/job_store.py: changes of rows that keep their keys, and a row
-- that is added behind the others, as `get_attempts` sees them.
use file_nest.Base.{
  ℕ, ◌≡◌, refl, ap, ◌∙◌, Bool, true, false, ◌&&◌, List, [], ◌∷◌, ◌++◌, arith, map, filter, any,
  ◌==◌, leb,
}
use file_nest.JobStore.Records.{
  JobAttemptRecord, insert_by_no, sort_by_no, belongs_to, get_attempts,
}

-- a change of rows that keeps the job and the number of each
pub record KeepsKeys (f : JobAttemptRecord → JobAttemptRecord) : Type 0 where
  pub job : (r : JobAttemptRecord) → (f r).job_id ≡ r.job_id
  pub number : (r : JobAttemptRecord) → (f r).attempt_no ≡ r.attempt_no

module _ (f : JobAttemptRecord → JobAttemptRecord) (keeps : KeepsKeys f) where
  insert_by_no-map :
      (r : JobAttemptRecord) (rows : List JobAttemptRecord)
      → insert_by_no (f r) (map f rows) ≡ map f (insert_by_no r rows)
  unfolding insert_by_no
  insert_by_no-map r [] = refl
  insert_by_no-map r (x ∷ rows) =
      ground (arith, keeps.number r, keeps.number x, insert_by_no-map r rows)

  sort_by_no-map :
      (rows : List JobAttemptRecord) → sort_by_no (map f rows) ≡ map f (sort_by_no rows)
  unfolding sort_by_no
  sort_by_no-map [] = refl
  sort_by_no-map (r ∷ rows) = rw (sort_by_no-map rows) (insert_by_no-map r (sort_by_no rows))

  filter-map :
      (id : ℕ) (rows : List JobAttemptRecord)
      → filter (belongs_to id) (map f rows) ≡ map f (filter (belongs_to id) rows)
  filter-map id [] = refl
  filter-map id (r ∷ rows) = ground (arith, keeps.job r, filter-map id rows)

  pub get_attempts-map :
      (rows : List JobAttemptRecord) (id : ℕ)
      → get_attempts (map f rows) id ≡ map f (get_attempts rows id)
  unfolding get_attempts
  get_attempts-map rows id =
      ap sort_by_no (filter-map id rows) ∙ sort_by_no-map (filter (belongs_to id) rows)

module _ (q : JobAttemptRecord → Bool) where
  any-insert_by_no :
      (r : JobAttemptRecord) (rows : List JobAttemptRecord)
      → any q (insert_by_no r rows) ≡ any q (r ∷ rows)
  unfolding insert_by_no
  any-insert_by_no r [] = refl
  any-insert_by_no r (x ∷ rows) = ground (arith, any-insert_by_no r rows)

  pub any-sort_by_no : (rows : List JobAttemptRecord) → any q (sort_by_no rows) ≡ any q rows
  unfolding sort_by_no
  any-sort_by_no [] = refl
  any-sort_by_no (r ∷ rows) =
      ground (arith, any-insert_by_no r (sort_by_no rows), any-sort_by_no rows)

  any-filter :
      (id : ℕ) (rows : List JobAttemptRecord)
      → any q (filter (belongs_to id) rows) ≡ any (λ r. r.job_id == id && q r) rows
  any-filter id [] = refl
  any-filter id (r ∷ rows) = ground (arith, any-filter id rows)

  pub any-get_attempts :
      (rows : List JobAttemptRecord) (id : ℕ)
      → any q (get_attempts rows id) ≡ any (λ r. r.job_id == id && q r) rows
  unfolding get_attempts
  any-get_attempts rows id = any-sort_by_no (filter (belongs_to id) rows) ∙ any-filter id rows

-- a row whose number is at least that of the others goes to the end
insert_by_no-append :
    (r last : JobAttemptRecord) (rows : List JobAttemptRecord)
    → leb r.attempt_no last.attempt_no ≡ true
    → insert_by_no r (rows ++ last ∷ []) ≡ insert_by_no r rows ++ last ∷ []
unfolding insert_by_no
insert_by_no-append r last [] h = rw h refl
insert_by_no-append r last (x ∷ rows) h = ground (arith, insert_by_no-append r last rows h)

pub sort_by_no-append :
    (rows : List JobAttemptRecord) (last : JobAttemptRecord)
    → any (λ (r : JobAttemptRecord). leb last.attempt_no r.attempt_no) rows ≡ false
    → sort_by_no (rows ++ last ∷ []) ≡ sort_by_no rows ++ last ∷ []
unfolding sort_by_no insert_by_no
sort_by_no-append [] last h = refl
sort_by_no-append (r ∷ rows) last h =
    rw (sort_by_no-append rows last (ground arith))
      (insert_by_no-append r last (sort_by_no rows) (ground arith))

pub filter-append_in :
    (id : ℕ) (rows : List JobAttemptRecord) (last : JobAttemptRecord)
    → belongs_to id last ≡ true
    → filter (belongs_to id) (rows ++ last ∷ []) ≡ filter (belongs_to id) rows ++ last ∷ []
filter-append_in id [] last h = rw h refl
filter-append_in id (r ∷ rows) last h = ground (arith, filter-append_in id rows last h)

pub filter-append_out :
    (id : ℕ) (rows : List JobAttemptRecord) (last : JobAttemptRecord)
    → belongs_to id last ≡ false
    → filter (belongs_to id) (rows ++ last ∷ []) ≡ filter (belongs_to id) rows
filter-append_out id [] last h = rw h refl
filter-append_out id (r ∷ rows) last h = ground (arith, filter-append_out id rows last h)
