-- ===== src/Sandboxes/Serving.antt =====
-- Requests as data, and the state that a run of them leaves.
use zoo.Base.{String, Bool, Option, List, [], ◌∷◌}
use zoo.Base.Results.{Result, ok, raised}
use zoo.Labels.{Labels}
use zoo.Quotas.{Size}
use zoo.Sandboxes.{
  Member, State, Setting, Failure, start_sandbox, stop_sandbox, delete_sandbox, upgrade_sandbox,
}
use zoo.Sandboxes.Create.{relabel_sandbox, create}
use zoo.Sandboxes.Snapshots.{move_sandbox, create_snapshot, restore_from_snapshot, delete_snapshot}

-- What a client may ask for; `job_id` and a new sandbox's id are fresh.
pub data Request : Type 0 where
  start : (job_id sandbox_id : String) → Request
  stop : (job_id sandbox_id : String) → Request
  remove : (job_id sandbox_id : String) → Request
  upgrade : (job_id sandbox_id : String) → Request
  relabel : Labels → (sandbox_id : String) → Request
  make : (job_id sandbox_id kind config : String) → Size → Labels → Request
  move : (job_id sandbox_id : String) → (server_id node_name : Option String) → Request
  snapshot : (job_id snapshot_id sandbox_id name : String) → Request
  restore : (job_id sandbox_id snapshot_id : String) → Request
  -- with what the host answers
  drop_snapshot : (sandbox_id snapshot_id : String) → (removes : Bool) → Request

unfoldable pub handle : Setting → Member → Request → State → Result Failure State
handle env user (start job_id sandbox_id) s = start_sandbox env job_id sandbox_id user s
handle env user (stop job_id sandbox_id) s = stop_sandbox env job_id sandbox_id user s
handle env user (remove job_id sandbox_id) s = delete_sandbox env job_id sandbox_id user s
handle env user (upgrade job_id sandbox_id) s = upgrade_sandbox env job_id sandbox_id user s
handle env user (relabel labels sandbox_id) s = relabel_sandbox env labels sandbox_id user s
handle env user (make job_id sandbox_id kind config size labels) s =
    create env job_id sandbox_id user kind config size labels s
handle env user (move job_id sandbox_id server_id node_name) s =
    move_sandbox env job_id sandbox_id user server_id node_name s
handle env user (snapshot job_id snapshot_id sandbox_id name) s =
    create_snapshot env job_id snapshot_id sandbox_id user name s
handle env user (restore job_id sandbox_id snapshot_id) s =
    restore_from_snapshot env job_id sandbox_id snapshot_id user s
handle env user (drop_snapshot sandbox_id snapshot_id removes) s =
    delete_snapshot sandbox_id snapshot_id removes user s

-- The session commits, or is rolled back.
abbrev pub commit : Result Failure State → State → State
commit (ok after) before = after
commit (raised failure) before = before

unfoldable pub serve : Setting → List (Member × Request) → State → State
unfolding handle
serve env [] s = s
serve env ((user, request) ∷ requests) s = serve env requests (commit (handle env user request s) s)
