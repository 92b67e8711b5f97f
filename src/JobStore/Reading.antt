-- ===== src/JobStore/Reading.antt =====
-- The JSON of `serialize_job_payload` of backend/app/job_system.py, read back: a parser of just these
-- texts, by which two payloads with one text are the same payload.
use file_nest.Base.{
  ℕ, zero, suc, ◌≡◌, refl, sym, ap, ◌∙◌, Option, none, some, [], ◌∷◌, arith, ◌==◌, if◌then◌else◌,
  read_number, decimal-read,
}
use file_nest.FilePath.{Text}
use file_nest.Job.{JobTaskPayload}
use file_nest.JobStore.Payload.{serialize_job_payload, ReadsBack}

abbrev drop : ℕ → Text → Text
drop zero text = text
drop (suc n) [] = []
drop (suc n) (c ∷ text) = drop n text

-- a payload from its text: with `index_scope` if the first key starts with "i"
unfoldable pub read_payload : Text → Option JobTaskPayload
read_payload (brace ∷ quote ∷ c ∷ rest) =
    if c == b'i'
    then some (record { workspace_id = read_number 0 (drop 39 rest); index_scope = some tt })
    else some (record { workspace_id = read_number 0 (drop 13 rest); index_scope = none })
read_payload _ = none

read_by_scope :
    (n : ℕ) (scope : Option (Unit {0}))
    → read_payload (serialize_job_payload (record { workspace_id = n; index_scope = scope }))
      ≡ some (record { workspace_id = n; index_scope = scope })
unfolding read_payload serialize_job_payload
read_by_scope n none =
    ap (λ (m : ℕ). some (record { workspace_id = m; index_scope = none }))
      (decimal-read n b'}' [] refl)
read_by_scope n (some scope) =
    ap (λ (m : ℕ). some (record { workspace_id = m; index_scope = some scope }))
      (decimal-read n b'}' [] refl)

read_payload-serialize_job_payload :
    (p : JobTaskPayload) → read_payload (serialize_job_payload p) ≡ some p
read_payload-serialize_job_payload p = read_by_scope p.workspace_id p.index_scope

pub read_payload-ReadsBack : ReadsBack read_payload
read_payload-ReadsBack = record { reads = λ p valid. read_payload-serialize_job_payload p }

-- Payloads with the same JSON are equal, so the store compares what it means to compare.
pub serialize_job_payload_injective :
    (p q : JobTaskPayload) → serialize_job_payload p ≡ serialize_job_payload q → p ≡ q
serialize_job_payload_injective p q h =
    let same =
      sym (read_payload-serialize_job_payload p)
      ∙ ap read_payload h
      ∙ read_payload-serialize_job_payload q in
    ground arith
