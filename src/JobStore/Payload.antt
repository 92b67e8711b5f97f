-- ===== src/JobStore/Payload.antt =====
-- `serialize_job_payload` of backend/app/job_system.py: compact JSON with sorted keys, where a missing
-- `index_scope` is left out. The parser of the text is pydantic's.
use file_nest.Base.{◌≡◌, true, Option, none, some, [], ◌∷◌, ◌++◌, codes, leb, decimal}
use file_nest.FilePath.{Text}
use file_nest.Job.{JobTaskPayload}

abbrev pub scope_entry : Option (Unit {0}) → Text
scope_entry none = []
scope_entry (some scope) = codes "\"index_scope\":\"workspace\","

unfoldable pub serialize_job_payload : JobTaskPayload → Text
serialize_job_payload payload =
    b'{' ∷ scope_entry payload.index_scope
    ++ codes "\"workspace_id\":"
    ++ decimal payload.workspace_id
    ++ b'}' ∷ []

-- What the store relies on: pydantic reads back what `json.dumps` has written for a valid payload.
pub record ReadsBack (parse : Text → Option JobTaskPayload) : Type 0 where
  pub reads :
      (payload : JobTaskPayload)
      → leb 1 payload.workspace_id ≡ true
      → parse (serialize_job_payload payload) ≡ some payload
