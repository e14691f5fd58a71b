-- ===== src/Jobs/Table.antt =====
-- The `jobs` table (db/migrations) and the statements of db/generated/query.py on it.
--
-- The rows are kept under their primary key, in the order of the queries' ORDER BY: by created_at,
-- and among equals by the row's sequence number, that is by insertion. Times are whole
-- microseconds. The texts of `last_error` are kept as terms: which of the source's f-strings, with
-- its parts. A statement is atomic, and takes the time that CURRENT_TIMESTAMP stands for.
use zoo.Base.{
  ℕ, ◌+◌, ◌-◌, String, string_eq, Bool, true, false, ◌||◌, ◌&&◌, ◌==◌, Option, none, some, List, [],
  ◌∷◌, ltb, leb, if◌then◌else◌, keep,
}
use zoo.Base.Dict.{Dict, get, put, erase}

pub data JobState : Type 0 where
  queued running succeeded failed cancelled : JobState

abbrev pub in_state : JobState → JobState → Bool
in_state queued queued = true
in_state running running = true
in_state succeeded succeeded = true
in_state failed failed = true
in_state cancelled cancelled = true
in_state _ _ = false

pub data Message : Type 0 where
  text : String → Message
  -- WAITING + reason
  waiting : Message → Message
  -- f"waited {MAX_WAIT // 3600} hours: {reason}"
  waited : (hours : ℕ) → Message → Message
  -- f"timed out after {minutes} minutes", and with f": {job.last_error}"
  timed_out : (minutes : ℕ) → Message
  timed_out_after : (minutes : ℕ) → Message → Message

pub record Job : Type 0 where
  pub id : String
  pub sandbox_id : String
  pub kind : String
  pub state : JobState
  pub args : String
  pub attempts : ℕ
  pub max_attempts : ℕ
  pub run_after : ℕ
  pub deadline : Option ℕ
  pub last_error : Option Message
  pub created_at : ℕ
  pub updated_at : ℕ
  pub finished_at : Option ℕ

abbrev pub Table : Type 0
Table = Dict String Job

pub record CreateJobParams : Type 0 where
  pub id : String
  pub sandbox_id : String
  pub kind : String
  pub args : String
  pub max_attempts : ℕ
  pub deadline : Option ℕ

-- The row of INSERT INTO jobs, with the columns' defaults.
abbrev pub new_job : ℕ → CreateJobParams → Job
new_job now params = record {
  id = params.id;
  sandbox_id = params.sandbox_id;
  kind = params.kind;
  state = queued;
  args = params.args;
  attempts = 0;
  max_attempts = params.max_attempts;
  run_after = now;
  deadline = params.deadline;
  last_error = none;
  created_at = now;
  updated_at = now;
  finished_at = none;
}

-- A row goes behind those that are as old or older.
unfoldable pub insert_row : Table → String → Job → Table
insert_row [] id job = (id, job) ∷ []
insert_row ((i, row) ∷ table) id job =
    if ltb job.created_at row.created_at
    then (id, job) ∷ (i, row) ∷ table
    else (i, row) ∷ insert_row table id job

-- The primary key refuses a second row with the id.
abbrev pub insert_unless : ℕ → CreateJobParams → Table → Option Job → Option Table
insert_unless now params table none = some (insert_row table params.id (new_job now params))
insert_unless now params table (some row) = none

unfoldable pub create_job : ℕ → CreateJobParams → Table → Option Table
unfolding insert_row
create_job now params table = insert_unless now params table (get table params.id)

unfoldable pub get_job : Table → String → Option Job
get_job table id = get table id

unfoldable pub rows : Table → List Job
rows [] = []
rows ((id, row) ∷ table) = row ∷ rows table

unfoldable pub list_jobs_by_state : JobState → Table → List Job
unfolding keep rows
list_jobs_by_state state table = keep (λ row. in_state row.state state) (rows table)

abbrev pub is_due : ℕ → Job → Bool
is_due now row = elim row.state [ queued ↦ leb row.run_after now | _ ↦ false ]

unfoldable pub list_due_jobs : ℕ → Table → List Job
unfolding keep rows
list_due_jobs now table = keep (is_due now) (rows table)

-- UPDATE jobs SET … WHERE id = … AND state IN …
abbrev pub update_when : (JobState → Bool) → (Job → Job) → Table → String → Option Job → Table
update_when test change table id none = table
update_when test change table id (some row) =
    if test row.state then put table id (change row) else table

unfoldable pub update_row : (JobState → Bool) → (Job → Job) → Table → String → Table
update_row test change table id = update_when test change table id (get table id)

abbrev pub is_queued : JobState → Bool
is_queued state = in_state state queued

abbrev pub is_running : JobState → Bool
is_running state = in_state state running

abbrev pub is_active : JobState → Bool
is_active state = in_state state queued || in_state state running

abbrev pub claimed_row : ℕ → Job → Job
claimed_row now row = record row { state = running; attempts = row.attempts + 1; updated_at = now }

abbrev pub claimed_of : ℕ → Option Job → Option Job
claimed_of now none = none
claimed_of now (some row) = if is_queued row.state then some (claimed_row now row) else none

-- UPDATE … RETURNING *
unfoldable pub claim_job : ℕ → String → Table → Table × Option Job
unfolding update_row
claim_job now id table =
    (update_row is_queued (claimed_row now) table id, claimed_of now (get table id))

abbrev pub retried_row : Message → (run_after now : ℕ) → Job → Job
retried_row error run_after now row = record row {
  state = queued;
  last_error = some error;
  run_after = run_after;
  updated_at = now;
}

unfoldable pub retry_job : Message → (run_after now : ℕ) → String → Table → Table
unfolding update_row
retry_job error run_after now id table =
    update_row is_running (retried_row error run_after now) table id

-- GREATEST(attempts - 1, 0) is the difference of ℕ.
abbrev pub requeued_row : Message → ℕ → Job → Job
requeued_row error now row = record row {
  state = queued;
  attempts = row.attempts - 1;
  last_error = some error;
  updated_at = now;
}

unfoldable pub requeue_job : Message → ℕ → String → Table → Table
unfolding update_row
requeue_job error now id table = update_row is_running (requeued_row error now) table id

abbrev pub deferred_row : Message → (run_after deadline now : ℕ) → Job → Job
deferred_row error run_after deadline now row = record row {
  state = queued;
  attempts = row.attempts - 1;
  last_error = some error;
  run_after = run_after;
  deadline = some deadline;
  updated_at = now;
}

unfoldable pub defer_job : Message → (run_after deadline now : ℕ) → String → Table → Table
unfolding update_row
defer_job error run_after deadline now id table =
    update_row is_running (deferred_row error run_after deadline now) table id

abbrev pub finished_row : JobState → Option Message → ℕ → Job → Job
finished_row state error now row = record row {
  state = state;
  last_error = error;
  finished_at = some now;
  updated_at = now;
}

unfoldable pub finish_job : JobState → Option Message → ℕ → String → Table → Table
unfolding update_row
finish_job state error now id table = update_row is_active (finished_row state error now) table id

abbrev pub cancelled_row : ℕ → Job → Job
cancelled_row now row = record row { state = cancelled; finished_at = some now; updated_at = now }

-- UPDATE … WHERE sandbox_id = … AND state = 'queued', which may change several rows.
unfoldable pub cancel_sandbox_jobs : ℕ → String → Table → Table
cancel_sandbox_jobs now sandbox_id [] = []
cancel_sandbox_jobs now sandbox_id ((id, row) ∷ table) =
    let rest = cancel_sandbox_jobs now sandbox_id table in
    (id, if is_queued row.state && row.sandbox_id == sandbox_id then cancelled_row now row else row)
    ∷ rest

-- ON DELETE CASCADE: a sandbox that is deleted takes its jobs with it. An id stands once in the
-- table, so that nothing is left under the id of a row that goes.
unfoldable pub delete_sandbox_jobs : String → Table → Table
delete_sandbox_jobs sandbox_id [] = []
delete_sandbox_jobs sandbox_id ((id, row) ∷ table) =
    let rest = delete_sandbox_jobs sandbox_id table in
    if row.sandbox_id == sandbox_id then erase rest id else (id, row) ∷ rest
