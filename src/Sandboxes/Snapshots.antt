-- ===== src/Sandboxes/Snapshots.antt =====
-- The routes of apps/server/sandbox_api.py that move a sandbox, and that take, restore and delete its snapshots.
use zoo.Base.{
  ℕ, suc, String, string_eq, ◌==◌, Bool, true, false, not, ◌&&◌, ◌||◌, Option, none, some, [], ◌∷◌,
  if◌then◌else◌, is_some, ltb, keep, length,
}
use zoo.Base.Dict.{Dict, get, put, erase}
use zoo.Base.Results.{Result, ok, guard, or_raise, ◌>>=◌, ◌>>◌}
use zoo.Quotas.{Sandbox, stopped, running, provisioning, status_beq, size_of}
use zoo.Sandboxes.{
  Member, State, Setting, Failure, Snapshot, SnapshotState, creating, ready, broken, not_found,
  taken, must_stop, has_snapshots, too_many_snapshots, snapshot_is, not_supported, bad_request,
  not_removed, in_status, owned, idle, queue, get_active_job, of_kind, unless_kind, has_runtime,
}

-- MAX_SNAPSHOTS, where the environment does not override it
abbrev pub max_snapshots : ℕ
max_snapshots = 10

-- LIST_SNAPSHOTS_BY_SANDBOX
abbrev pub snapshots_of : String → Dict String Snapshot → Dict String Snapshot
snapshots_of sandbox_id snapshots =
    keep (λ (p : String × Snapshot). (p.1).sandbox_id == sandbox_id) snapshots

abbrev pub is_ready : SnapshotState → Bool
is_ready creating = false
is_ready ready = true
is_ready broken = false

-- snapshot_of
unfoldable pub snapshot_of : String → String → State → Result Failure Snapshot
snapshot_of sandbox_id snapshot_id s = do
  found ← or_raise (get s.snapshots snapshot_id) not_found
  guard (found.sandbox_id == sandbox_id) not_found
  ok found

-- INSERT INTO snapshots, behind the name
abbrev pub named : Setting → String → ℕ → String
named env name existing = if name == "" then env.snapshot_name (suc existing) else name

abbrev pub with_snapshot : String → Snapshot → State → State
with_snapshot snapshot_id row s = record s { snapshots = put s.snapshots snapshot_id row }

-- create_snapshot; the name is stripped, and the id is fresh
unfoldable pub create_snapshot :
    Setting → String → String → String → Member → String → State → Result Failure State
unfolding idle keep
create_snapshot env job_id snapshot_id sandbox_id user name s = do
  sandbox ← idle sandbox_id user s
  guard (not (env.is_vm sandbox.kind) || status_beq sandbox.status stopped) must_stop
  guard (status_beq sandbox.status running || status_beq sandbox.status stopped)
      (in_status sandbox.status)
  guard (ltb (length (snapshots_of sandbox_id s.snapshots)) max_snapshots) too_many_snapshots
  guard (not (is_some (get s.snapshots snapshot_id))) taken
  queue env job_id sandbox_id "snapshot" (env.args_of "snapshot_id" (some snapshot_id)) none (
      with_snapshot snapshot_id
        (record {
          sandbox_id = sandbox_id;
          server_id = sandbox.server_id;
          name = named env name (length (snapshots_of sandbox_id s.snapshots));
          snapshot_state = creating;
        })
        s)

unfoldable pub restore_from_snapshot :
    Setting → String → String → String → Member → State → Result Failure State
unfolding idle snapshot_of
restore_from_snapshot env job_id sandbox_id snapshot_id user s = do
  sandbox ← idle sandbox_id user s
  found ← snapshot_of sandbox_id snapshot_id s
  guard (is_ready found.snapshot_state) (snapshot_is found.snapshot_state)
  guard (status_beq sandbox.status stopped) must_stop
  queue env job_id sandbox_id "restore" (env.args_of "snapshot_id" (some snapshot_id)) none s

-- delete_snapshot, whose two sessions are one here; `removes` is whether its host removes the snapshot between them
unfoldable pub delete_snapshot : String → String → Bool → Member → State → Result Failure State
unfolding owned snapshot_of
delete_snapshot sandbox_id snapshot_id removes user s = do
  sandbox ← owned sandbox_id user s
  found ← snapshot_of sandbox_id snapshot_id s
  unless_kind (of_kind ("snapshot" ∷ "restore" ∷ []) (get_active_job sandbox_id s.system.table))
  guard removes not_removed
  ok (record s { snapshots = erase s.snapshots snapshot_id })

-- target != sandbox.server_id
abbrev pub same_server : Option String → Option String → Bool
same_server none none = true
same_server (some a) (some b) = a == b
same_server _ _ = false

-- move_sandbox, for a container and for a VM
unfoldable pub move_container :
    Setting
    → String
    → String
    → Sandbox
    → Option String
    → Option String
    → State
    → Result Failure State
move_container env job_id sandbox_id sandbox server_id node_name s = do
  guard (not (has_runtime sandbox.server_id) && env.is_kube) not_supported
  guard (not (is_some server_id) && is_some node_name) bad_request
  queue env job_id sandbox_id "move" (env.args_of "target" node_name) none s

unfoldable pub move_vm :
    Setting
    → String
    → String
    → Member
    → Sandbox
    → Option String
    → Option String
    → State
    → Result Failure State
unfolding keep
move_vm env job_id sandbox_id user sandbox server_id node_name s = do
  guard (not (is_some node_name)) bad_request
  guard (not (ltb 0 (length (snapshots_of sandbox_id s.snapshots)))) has_snapshots
  target ← env.place server_id user sandbox.kind (size_of sandbox)
  if same_server target sandbox.server_id
      then ok s
      else queue env job_id sandbox_id "move" (env.args_of "target" target) none s

unfoldable pub move_sandbox :
    Setting
    → String
    → String
    → Member
    → Option String
    → Option String
    → State
    → Result Failure State
unfolding idle move_container move_vm
move_sandbox env job_id sandbox_id user server_id node_name s = do
  sandbox ← idle sandbox_id user s
  guard (not (status_beq sandbox.status running || status_beq sandbox.status provisioning))
      must_stop
  if env.is_vm sandbox.kind
      then move_vm env job_id sandbox_id user sandbox server_id node_name s
      else move_container env job_id sandbox_id sandbox server_id node_name s
