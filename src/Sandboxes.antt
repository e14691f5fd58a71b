-- ===== src/Sandboxes.antt =====
-- The routes of apps/server/sandbox_api.py that change a sandbox and queue its jobs.
--
-- A request is one database session: it returns the state that its session commits, or raises, and
-- its session is rolled back. `State` has the tables of Quotas and the system of Jobs. Given are the
-- fresh ids, the handlers, what the configuration's JSON says, and the kinds that are VMs. The answer to the
-- client and the wake-up of the queue's loop are left out.
pub mod Create
pub mod Snapshots
pub mod Serving
pub mod Queued
pub mod Kept
pub mod Order
pub mod Limits
pub mod Requests
pub mod Examples
use zoo.Base.{
  ℕ, ◌*◌, String, string_eq, pair_eq, ◌==◌, Bool, true, false, not, ◌&&◌, ◌||◌, Option, none, some,
  List, [], ◌∷◌, if◌then◌else◌, is_some,
}
use zoo.Base.Dict.{Dict, get}
use zoo.Base.Dict
use zoo.Base.Results.{Result, ok, raised, guard, or_raise, ◌>>=◌, ◌>>◌}
use zoo.Jobs.Table.{Job, Table, is_active, cancel_sandbox_jobs}
use zoo.Jobs.Queue.{Handlers, System, enqueue}
use zoo.Labels.{Labels, Scoped, forbidden, scoped_to, matches, scoped, of, has_value}
use zoo.Labels
use zoo.Quotas.{
  Sandbox, Size, Status, pending, provisioning, running, stopped, failed, deleting, deleted,
  status_beq, size_of, Tables, Refusal, check,
}
use zoo.Quotas.Admitted.{insert_sandbox, replace_sandbox}

-- What a request acts for: a user in a workspace, and what their API key is restricted to.
pub record Member : Type 0 where
  pub workspace_id : String
  pub key_sandbox_id : Option String
  pub key_labels : Option Labels

pub data SnapshotState : Type 0 where
  creating ready broken : SnapshotState

pub data Failure : Type 0 where
  -- 404
  not_found : Failure
  -- 403, for a key's sandbox and for its labels
  other_sandbox : Failure
  label_forbidden : String → Failure
  -- 409
  busy : (kind : String) → Failure
  in_status : Status → Failure
  over_quota : Refusal → Failure
  must_stop : Failure
  has_snapshots : Failure
  too_many_snapshots : Failure
  snapshot_is : SnapshotState → Failure
  -- 400
  custom_image : Failure
  not_supported : Failure
  bad_request : Failure
  -- 502
  not_removed : Failure
  -- what enqueue raises, and the primary key of sandboxes
  not_enqueued : Failure
  taken : Failure

-- The columns of a row of `snapshots` that the routes read.
pub record Snapshot : Type 0 where
  pub sandbox_id : String
  pub server_id : Option String
  pub name : String
  pub snapshot_state : SnapshotState

pub record State : Type 0 where
  pub tables : Tables
  pub system : System
  pub snapshots : Dict String Snapshot

pub record Setting : Type 0 where
  pub unsized_gb : ℕ
  pub handlers : Handlers
  pub is_vm : String → Bool
  pub image_of : (config : String) → Option String
  pub with_image : (config image : String) → String
  pub default_image : (kind : String) → String
  -- what create refuses for the role, the image, the kind and the size, and for the placement, the profiles and
  -- the secrets
  pub refuses_request : Member → (kind : String) → Size → Option Failure
  pub refuses_placement : Member → (kind : String) → Size → Option Failure
  -- place, for a create that nothing refuses and for a move
  pub placed_on : Member → (kind : String) → Size → Option String
  pub place : Option String → Member → (kind : String) → Size → Result Failure (Option String)
  pub is_kube : Bool
  -- the JSON of a job's only argument, and the name of the nth snapshot
  pub args_of : (name : String) → Option String → String
  pub snapshot_name : ℕ → String

-- GET_ACTIVE_JOB: of the jobs that are queued or running, the last
unfoldable pub get_active_job : String → Table → Option Job
get_active_job sandbox_id [] = none
get_active_job sandbox_id ((id, job) ∷ table) = elim (get_active_job sandbox_id table) [
  | none ↦ if is_active job.state && job.sandbox_id == sandbox_id then some job else none
  | some later ↦ some later
]

-- boot_deadline
abbrev pub boot_deadline : Setting → String → ℕ
boot_deadline env kind = if env.is_vm kind then 10 * 60 else 3 * 60

-- require_sandbox
abbrev pub key_reaches : Option String → String → Bool
key_reaches none sandbox_id = true
key_reaches (some own) sandbox_id = own == sandbox_id

unfoldable pub owned : String → Member → State → Result Failure Sandbox
owned sandbox_id user s = do
  sandbox ← or_raise (get s.tables.sandboxes sandbox_id) not_found
  guard (sandbox.workspace_id == user.workspace_id && not (status_beq sandbox.status deleted))
      not_found
  guard (matches (of sandbox_id s.tables.labels) user.key_labels) not_found
  guard (key_reaches user.key_sandbox_id sandbox_id) other_sandbox
  ok sandbox

abbrev pub unless_active : Option Job → Result Failure (Unit {0})
unless_active none = ok tt
unless_active (some job) = raised (busy job.kind)

unfoldable pub idle : String → Member → State → Result Failure Sandbox
unfolding owned
idle sandbox_id user s = do
  sandbox ← owned sandbox_id user s
  unless_active (get_active_job sandbox_id s.system.table)
  ok sandbox

-- the method running
abbrev pub has_runtime : Option String → Bool
has_runtime none = false
has_runtime (some runtime_id) = not (runtime_id == "")

unfoldable pub require_running : String → Member → State → Result Failure Sandbox
unfolding owned
require_running sandbox_id user s = do
  sandbox ← owned sandbox_id user s
  guard (status_beq sandbox.status running && has_runtime sandbox.runtime_id)
      (in_status sandbox.status)
  ok sandbox

abbrev pub unless : Option Failure → Result Failure (Unit {0})
unless none = ok tt
unless (some failure) = raised failure

abbrev pub room : Option Refusal → Result Failure (Unit {0})
room none = ok tt
room (some refusal) = raised (over_quota refusal)

abbrev pub in_system : State → System → State
in_system s system = record s { system = system }

-- self.jobs.enqueue(db, …)
abbrev pub queue :
    Setting → String → String → String → String → Option ℕ → State → Result Failure State
queue env job_id sandbox_id kind args seconds s = do
  system ← or_raise (enqueue env.handlers job_id sandbox_id kind args seconds s.system) not_enqueued
  ok (in_system s system)

abbrev pub set_sandbox : String → Sandbox → State → State
set_sandbox id row s = record s { tables = replace_sandbox id row s.tables }

-- UPDATE_SANDBOX_STATUS
abbrev pub set_status : Status → Sandbox → Sandbox
set_status status row = record row { status = status }

unfoldable pub start_sandbox : Setting → String → String → Member → State → Result Failure State
unfolding idle
start_sandbox env job_id sandbox_id user s = do
  sandbox ← idle sandbox_id user s
  guard (not (status_beq sandbox.status running || status_beq sandbox.status provisioning))
      (in_status sandbox.status)
  room (
      check env.unsized_gb sandbox.workspace_id (size_of sandbox) false
        (of sandbox_id s.tables.labels) s.tables)
  queue env job_id sandbox_id "boot" "{}" (some (boot_deadline env sandbox.kind))
      (set_sandbox sandbox_id (set_status provisioning sandbox) s)

abbrev pub cancel_jobs : String → State → State
cancel_jobs sandbox_id s =
    in_system s
      (record s.system { table = cancel_sandbox_jobs s.system.clock sandbox_id s.system.table })

abbrev pub of_kind : List String → Option Job → Option String
of_kind kinds none = none
of_kind [] (some job) = none
of_kind (kind ∷ kinds) (some job) = if job.kind == kind then some kind else of_kind kinds (some job)

abbrev pub unless_kind : Option String → Result Failure (Unit {0})
unless_kind none = ok tt
unless_kind (some kind) = raised (busy kind)

unfoldable pub stop_sandbox : Setting → String → String → Member → State → Result Failure State
unfolding owned
stop_sandbox env job_id sandbox_id user s = do
  sandbox ← owned sandbox_id user s
  unless_kind (of_kind ("stop" ∷ "delete" ∷ []) (get_active_job sandbox_id s.system.table))
  queue env job_id sandbox_id "stop" "{}" none (cancel_jobs sandbox_id s)

unfoldable pub delete_sandbox : Setting → String → String → Member → State → Result Failure State
unfolding owned
delete_sandbox env job_id sandbox_id user s = do
  sandbox ← owned sandbox_id user s
  if is_some (of_kind ("delete" ∷ []) (get_active_job sandbox_id s.system.table))
      then ok s
      else queue env job_id sandbox_id "delete" "{}" none
          (set_sandbox sandbox_id (set_status deleting sandbox) (cancel_jobs sandbox_id s))

abbrev pub can_upgrade : Status → Bool
can_upgrade status =
    status_beq status running || status_beq status stopped || status_beq status failed

-- The row with the image that boots from now on.
abbrev pub upgraded : Setting → Sandbox → Sandbox
upgraded env sandbox = record sandbox {
  config = env.with_image sandbox.config (env.default_image sandbox.kind);
}

unfoldable pub upgrade_sandbox : Setting → String → String → Member → State → Result Failure State
unfolding idle
upgrade_sandbox env job_id sandbox_id user s = do
  sandbox ← idle sandbox_id user s
  guard (is_some (env.image_of sandbox.config)) custom_image
  guard (can_upgrade sandbox.status) (in_status sandbox.status)
  if status_beq sandbox.status running
      then queue env job_id sandbox_id "stop" "{\"restart\": true}" none
          (set_sandbox sandbox_id (upgraded env sandbox) s)
      else queue env job_id sandbox_id "boot" "{\"upgrade\": true}"
          (some (boot_deadline env sandbox.kind))
          (set_sandbox sandbox_id (set_status provisioning (upgraded env sandbox)) s)
