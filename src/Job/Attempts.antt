-- ===== src/Job/Attempts.antt =====
-- The history of attempts that `JobState.validate_lifecycle` checks, under the two ways in which the
-- handlers change it: an attempt more at the end, and the last attempt replaced.
use file_nest.Base.{
  ℕ, ◌+◌, ◌≡◌, Bool, true, false, not, some, List, [], ◌∷◌, ◌++◌, arith, any, length, last?,
  set_last, ltb, ◌==◌,
}
use file_nest.Job.Model.{JobAttempt}
use file_nest.Job.State.{are_attempts}

-- no attempt of the list has this identifier
abbrev pub is_new_id : ℕ → List JobAttempt → Bool
is_new_id id attempts = not (any (λ (attempt : JobAttempt). attempt.attempt_id == id) attempts)

pub are_attempts-append :
    (job created n : ℕ) (seen : List ℕ) (xs : List JobAttempt) (a : JobAttempt)
    → are_attempts job created n seen xs ≡ true
    → a.job_id ≡ job
    → a.attempt_no ≡ n + length xs
    → any (◌==◌ a.attempt_id) seen ≡ false
    → is_new_id a.attempt_id xs ≡ true
    → ltb a.started_at created ≡ false
    → are_attempts job created n seen (xs ++ a ∷ []) ≡ true
unfolding are_attempts
are_attempts-append job created n seen [] a h own number new_seen new_xs late = ground arith
are_attempts-append job created n seen (x ∷ xs) a h own number new_seen new_xs late =
    ground (arith, are_attempts-append job created (n + 1) (x.attempt_id ∷ seen) xs a)

-- the fields that identify an attempt
pub record SameAttempt (a b : JobAttempt) : Type 0 where
  pub id : a.attempt_id ≡ b.attempt_id
  pub job : a.job_id ≡ b.job_id
  pub number : a.attempt_no ≡ b.attempt_no
  pub start : a.started_at ≡ b.started_at

pub are_attempts-set_last :
    (job created n : ℕ) (seen : List ℕ) (xs : List JobAttempt) (a b : JobAttempt)
    → are_attempts job created n seen xs ≡ true
    → last? xs ≡ some b
    → SameAttempt a b
    → are_attempts job created n seen (set_last xs a) ≡ true
unfolding are_attempts
are_attempts-set_last job created n seen [] a b h l same = cc
are_attempts-set_last job created n seen (x ∷ []) a b h l same = ground arith
are_attempts-set_last job created n seen (x ∷ y ∷ xs) a b h l same =
    ground (arith, are_attempts-set_last job created (n + 1) (x.attempt_id ∷ seen) (y ∷ xs) a b)
