-- ===== src/Job/Changes.antt =====
-- How one event of backend/app/job_system.py changes the list of attempts.
use file_nest.Base.{
  any, ◌==◌, true, ℕ, ◌+◌, ◌≤◌, ◌≡◌, ◌≢◌, refl, ap, ◌∙◌, false, some, [], ◌∷◌, ◌++◌, arith, length,
  last?, set_last, get_elem?, get_elem?-append, get_elem?-set_last, length-append, length-set_last,
  leb, ok, inl, inr,
}
use file_nest.Job.Model.{AttemptStatus, JobAttempt, validate_attempt, JobEvent}
use file_nest.Job.Attempts.{SameAttempt, is_new_id}
use file_nest.Job.State.{JobState}
use file_nest.Job.Events.{new_attempt}

-- what the handlers do to the list of attempts
pub data Change (s t : JobState) (e : JobEvent) : Type 0 where
  same : t.attempts ≡ s.attempts → Change s t e
  appended :
      (a : JobAttempt)
      → t.attempts ≡ s.attempts ++ a ∷ []
      → length s.attempts + 1 ≤ s.max_attempts
      → is_new_id a.attempt_id s.attempts ≡ true
      → Change s t e
  replaced :
      (a b : JobAttempt)
      → last? s.attempts ≡ some b
      → b.status ≡ AttemptStatus.running
      → t.attempts ≡ set_last s.attempts a
      → SameAttempt a b
      → Change s t e

same_attempt : (a : JobAttempt) → SameAttempt a a
same_attempt a = record { id = refl; job = refl; number = refl; start = refl }

pub leaves_room : (n m : ℕ) → leb m n ≡ false → n + 1 ≤ m
leaves_room n m h = ground arith

pub moved_change :
    (s t u : JobState) (e : JobEvent) → u.attempts ≡ t.attempts → Change s t e → Change s u e
moved_change s t u e p (same q) = same (p ∙ q)
moved_change s t u e p (appended a q room new) = appended a (p ∙ q) room new
moved_change s t u e p (replaced a b l r q id) = replaced a b l r (p ∙ q) id

pub kept_element :
    (s t : JobState) (e : JobEvent) (i : ℕ) (a : JobAttempt)
    → Change s t e
    → get_elem? s.attempts i ≡ some a
    → a.status ≢ AttemptStatus.running
    → get_elem? t.attempts i ≡ some a
kept_element s t e i a (same p) at ended = rw p at
kept_element s t e i a (appended b p room new) at ended =
    rw p (get_elem?-append s.attempts (b ∷ []) i a at)
kept_element s t e i a (replaced b c l r p id) at ended =
    elim (get_elem?-set_last s.attempts b c a i l at) [
      | inl there ↦ rw p there
      | inr last ↦ absurd (ended (ap (λ (x : JobAttempt). x.status) last.0 ∙ r))
    ]

-- each attempt stays where it is
pub kept_attempt :
    (s t : JobState) (e : JobEvent) (i : ℕ) (a : JobAttempt)
    → Change s t e
    → get_elem? s.attempts i ≡ some a
    → (b : JobAttempt) × (get_elem? t.attempts i ≡ some b) × SameAttempt b a
kept_attempt s t e i a (same p) at = (a, rw p at, same_attempt a)
kept_attempt s t e i a (appended b p room new) at =
    (a, rw p (get_elem?-append s.attempts (b ∷ []) i a at), same_attempt a)
kept_attempt s t e i a (replaced b c l r p id) at =
    elim (get_elem?-set_last s.attempts b c a i l at) [
      | inl there ↦ (a, rw p there, same_attempt a)
      | inr last ↦ (b, rw p last.1, rw last.0 id)
    ]

pub grown_history :
    (s t : JobState) (e : JobEvent) → Change s t e → length s.attempts ≤ length t.attempts
grown_history s t e (same p) = rw p (omega arith)
grown_history s t e (appended b p room new) =
    rw p (omega (arith, length-append s.attempts (b ∷ [])))
grown_history s t e (replaced b c l r p id) = rw p (omega (arith, length-set_last s.attempts b c l))

-- the validator returns the attempt that it is given
same_of_valid : (a b : JobAttempt) → validate_attempt a ≡ ok b → SameAttempt b a
unfolding validate_attempt
same_of_valid a b h = record {
  id = ground arith;
  job = ground arith;
  number = ground arith;
  start = ground arith;
}

-- the same, of an attempt that differs from `b` in no key field
pub same_of_valid_as :
    (a b c : JobAttempt)
    → validate_attempt a ≡ ok c
    → a.attempt_id ≡ b.attempt_id
    → a.job_id ≡ b.job_id
    → a.attempt_no ≡ b.attempt_no
    → a.started_at ≡ b.started_at
    → SameAttempt c b
same_of_valid_as a b c h i j n t =
    let v = same_of_valid a c h in
    record { id = v.id ∙ i; job = v.job ∙ j; number = v.number ∙ n; start = v.start ∙ t }

pub new_of_made :
    (s : JobState) (e : JobEvent) (id : ℕ) (a : JobAttempt)
    → any (λ (attempt : JobAttempt). attempt.attempt_id == id) s.attempts ≡ false
    → validate_attempt (new_attempt s e id) ≡ ok a
    → is_new_id a.attempt_id s.attempts ≡ true
new_of_made s e id a fresh made = rw ((same_of_valid (new_attempt s e id) a made).id, fresh) refl
