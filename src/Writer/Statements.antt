-- ===== src/Writer/Statements.antt =====
-- The statements of Writer.persist in apps/server/writer.py, on the tables that they change.
--
-- A statement reads the rows of its group in order. Where DISTINCT ON may choose among completions of one
-- time, the last is taken.
use zoo.Base.{
  ℕ, ◌+◌, max, String, string_eq, nat_eq, pair_eq, ◌==◌, Bool, Option, none, some, List, [], ◌∷◌,
  leb, if◌then◌else◌, is_some,
}
use zoo.Base.Dict.{Dict, get, put}

-- The queue's pairs of a kind and a row.
pub data Entry : Type 0 where
  start_row : (id sandbox_id tool_name input : String) (started_at created_at : ℕ) → Entry
  finish_row :
      (id status : String) (output error_message : Option String) (completed_at : ℕ) → Entry
  touch_row : (id : String) (at : ℕ) → Entry
  key_touch_row : (id : String) (at : ℕ) → Entry
  audit_row :
      (id workspace_id : String) (actor_id sandbox_id : Option String) (action : String)
      (created_at : ℕ)
      → Entry
  usage_row : (workspace_id sandbox_id metric : String) (period_start quantity : ℕ) → Entry

pub record Execution : Type 0 where
  pub sandbox_id : String
  pub tool_name : String
  pub input : String
  pub status : String
  pub output : Option String
  pub error_message : Option String
  pub started_at : ℕ
  pub created_at : ℕ
  pub completed_at : Option ℕ

-- The columns but for the texts that are copied (resource_type, resource_id, metadata).
pub record AuditLog : Type 0 where
  pub workspace_id : String
  pub actor_id : Option String
  pub sandbox_id : Option String
  pub action : String
  pub created_at : ℕ

-- (workspace_id, sandbox_id, metric, period_start)
abbrev pub UsageKey : Type 0
UsageKey = ((String × String) × String) × ℕ

pub record Database : Type 0 where
  pub is_workspace : String → Bool
  pub is_user : String → Bool
  -- last_activity_at of each sandbox, and last_used_at of each key
  pub sandboxes : Dict String (Option ℕ)
  pub api_keys : Dict String (Option ℕ)
  pub tool_executions : Dict String Execution
  pub audit_logs : Dict String AuditLog
  pub usage : Dict UsageKey ℕ

module _ {A : Type 0} where
  -- ON CONFLICT (id) DO NOTHING
  abbrev pub insert_new : String → A → Dict String A → Option A → Dict String A
  insert_new id row table none = put table id row
  insert_new id row table (some old) = table

unfoldable pub insert_starts :
    List Entry → Dict String (Option ℕ) → Dict String Execution → Dict String Execution
insert_starts [] sandboxes table = table
insert_starts (start_row id sandbox_id tool_name input started_at created_at ∷ entries) sandboxes
      table =
    let row : Execution = record {
      sandbox_id = sandbox_id;
      tool_name = tool_name;
      input = input;
      status = "running";
      output = none;
      error_message = none;
      started_at = started_at;
      created_at = created_at;
      completed_at = none;
    } in
    insert_starts entries sandboxes
      (if is_some (get sandboxes sandbox_id) then insert_new id row table (get table id) else table)
insert_starts (_ ∷ entries) sandboxes table = insert_starts entries sandboxes table

-- The completion that DISTINCT ON (id) … ORDER BY completed_at DESC keeps.
abbrev pub Completion : Type 0
Completion = ((String × Option String) × Option String) × ℕ

abbrev pub later : Completion → Option Completion → Completion
later old none = old
later old (some new) = if leb old.1 new.1 then new else old

unfoldable pub last_finish : String → List Entry → Option Completion
last_finish id [] = none
last_finish id (finish_row i status output error_message completed_at ∷ entries) =
    let rest = last_finish id entries in
    if i == id then some (later (((status, output), error_message), completed_at) rest) else rest
last_finish id (_ ∷ entries) = last_finish id entries

abbrev pub completed : Option Completion → Execution → Execution
completed none row = row
completed (some (((status, output), error_message), completed_at)) row = record row {
  status = status;
  output = output;
  error_message = error_message;
  completed_at = some completed_at;
}

unfoldable pub update_finishes : List Entry → Dict String Execution → Dict String Execution
unfolding last_finish
update_finishes entries [] = []
update_finishes entries ((id, row) ∷ table) =
    (id, completed (last_finish id entries) row) ∷ update_finishes entries table

-- greatest, which leaves out nulls
abbrev pub greatest : Option ℕ → Option ℕ → Option ℕ
greatest none at = at
greatest (some old) none = some old
greatest (some old) (some at) = some (max old at)

-- max(at) of the rows of an id
unfoldable pub last_touch : String → List Entry → Option ℕ
last_touch id [] = none
last_touch id (touch_row i at ∷ entries) =
    let rest = last_touch id entries in if i == id then greatest (some at) rest else rest
last_touch id (_ ∷ entries) = last_touch id entries

unfoldable pub last_key_touch : String → List Entry → Option ℕ
last_key_touch id [] = none
last_key_touch id (key_touch_row i at ∷ entries) =
    let rest = last_key_touch id entries in if i == id then greatest (some at) rest else rest
last_key_touch id (_ ∷ entries) = last_key_touch id entries

unfoldable pub update_touched :
    (String → Option ℕ) → Dict String (Option ℕ) → Dict String (Option ℕ)
update_touched last [] = []
update_touched last ((id, at) ∷ table) = (id, greatest at (last id)) ∷ update_touched last table

-- LEFT JOIN: the reference where its row is there
abbrev pub joined : (String → Bool) → Option String → Option String
joined there none = none
joined there (some id) = if there id then some id else none

unfoldable pub insert_audits : List Entry → Database → Dict String AuditLog → Dict String AuditLog
insert_audits [] db table = table
insert_audits (audit_row id workspace_id actor_id sandbox_id action created_at ∷ entries) db table =
    let row : AuditLog = record {
      workspace_id = workspace_id;
      actor_id = joined db.is_user actor_id;
      sandbox_id = joined (λ s. is_some (get db.sandboxes s)) sandbox_id;
      action = action;
      created_at = created_at;
    } in
    insert_audits entries db
      (if db.is_workspace workspace_id then insert_new id row table (get table id) else table)
insert_audits (_ ∷ entries) db table = insert_audits entries db table

-- The sum of a key and a quantity more, where either may be missing.
abbrev pub plus : Option ℕ → Option ℕ → Option ℕ
plus none quantity = quantity
plus (some old) none = some old
plus (some old) (some quantity) = some (old + quantity)

abbrev pub or_zero : Option ℕ → ℕ
or_zero none = 0
or_zero (some n) = n

-- JOIN workspaces … GROUP BY, on the groups so far
unfoldable pub group_usage : (String → Bool) → List Entry → Dict UsageKey ℕ → Dict UsageKey ℕ
group_usage is_workspace [] groups = groups
group_usage is_workspace (usage_row workspace_id sandbox_id metric period_start quantity ∷ entries)
      groups =
    let key : UsageKey = (((workspace_id, sandbox_id), metric), period_start) in
    group_usage is_workspace entries (
      if is_workspace workspace_id
      then put groups key (or_zero (get groups key) + quantity)
      else groups)
group_usage is_workspace (_ ∷ entries) groups = group_usage is_workspace entries groups

-- INSERT … ON CONFLICT DO UPDATE SET quantity = usage.quantity + excluded.quantity
unfoldable pub upsert_usage : Dict UsageKey ℕ → Dict UsageKey ℕ → Dict UsageKey ℕ
upsert_usage [] table = table
upsert_usage ((key, quantity) ∷ groups) table =
    upsert_usage groups (put table key (or_zero (get table key) + quantity))

-- The transaction, statement by statement.
unfoldable pub persist : List Entry → Database → Database
unfolding insert_starts update_finishes last_touch last_key_touch update_touched insert_audits
    group_usage upsert_usage
persist entries db = record db {
  tool_executions = update_finishes entries (insert_starts entries db.sandboxes db.tool_executions);
  sandboxes = update_touched (λ id. last_touch id entries) db.sandboxes;
  api_keys = update_touched (λ id. last_key_touch id entries) db.api_keys;
  audit_logs = insert_audits entries db db.audit_logs;
  usage = upsert_usage (group_usage db.is_workspace entries []) db.usage;
}
