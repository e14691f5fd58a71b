-- ===== src/Sandboxes/Order.antt =====
-- The order that requests keep among the jobs of a sandbox: what moves and snapshots keep, and runs of requests.
use zoo.Base.{
  Bool, not, ◌&&◌, ◌||◌, ltb, length, ap, ◌≤◌, String, string_eq, pair_eq, ◌≡◌, refl, sym, ◌∙◌,
  subst, Option, none, List, [], ◌∷◌, if_true, if_false, Bool-cases, inl, inr, is_some,
}
use zoo.Base.Dict.{get}
use zoo.Base.Results.{Result, ok, raised, guard, bind_ok, eq_of_ok}
use zoo.Quotas.{Sandbox, status_beq, running, provisioning, stopped, size_of}
use zoo.Sandboxes.{
  must_stop, has_snapshots, too_many_snapshots, snapshot_is, not_supported, bad_request,
  not_removed, taken, has_runtime, Member, State, Setting, Failure, owned, idle, queue,
  get_active_job, of_kind, unless_kind, in_status,
}
use zoo.Sandboxes.Serving.{
  Request, start, stop, remove, upgrade, relabel, make, move, snapshot, restore, drop_snapshot,
  handle, serve, commit,
}
use zoo.Sandboxes.Snapshots.{
  max_snapshots, snapshots_of, is_ready, snapshot_of, create_snapshot, restore_from_snapshot,
  delete_snapshot, same_server, move_container, move_vm, move_sandbox,
}
use zoo.Sandboxes.Kept.{
  IsOrderly, Queued-IsOrderly, start-IsOrderly, stop-IsOrderly, delete-IsOrderly, upgrade-IsOrderly,
  relabel-IsOrderly, create-IsOrderly,
}
use zoo.Sandboxes.Requests.{Owned, idle_ok, queue_ok}
use zoo.Sandboxes.Queued.{count_queued, count_queued-get_active_job}

-- A job that is queued where none is active.
idle_queued-IsOrderly :
    (env : Setting) (job_id id kind args : String) (user : Member) (s before s' : State)
    (row : Sandbox)
    → IsOrderly s
    → idle id user s ≡ ok row
    → before.tables ≡ s.tables
    → before.system ≡ s.system
    → queue env job_id id kind args none before ≡ ok s'
    → IsOrderly s'
idle_queued-IsOrderly env job_id id kind args user s before s' row h found tables system done =
    let (o, free) = idle_ok id user s row found in
    let h' : IsOrderly before = record {
      one = λ other. subst (λ t. count_queued other t.table ≤ 1) (sym system) (h.one other);
      known = λ other gone.
          ap (λ t. count_queued other t.table) system
          ∙ h.known other (ap (λ t. get t.sandboxes other) (sym tables) ∙ gone);
    } in
    Queued-IsOrderly env job_id id kind args none before s' row h'
      (ap (λ t. get t.sandboxes id) tables ∙ Owned.found o)
      (ap (λ t. count_queued id t.table) system
        ∙ count_queued-get_active_job id s.system.table free)
      (queue_ok env job_id id kind args none before s' done)

create_snapshot-IsOrderly :
    (env : Setting) (job_id snapshot_id id : String) (user : Member) (name : String) (s s' : State)
    → IsOrderly s
    → create_snapshot env job_id snapshot_id id user name s ≡ ok s'
    → IsOrderly s'
unfolding create_snapshot
create_snapshot-IsOrderly env job_id snapshot_id id user name s s' h e =
    let (row, e0, h0) = bind_ok (idle id user s) _ e in
    let (t1, e1, h1) =
      bind_ok (guard (not (env.is_vm row.kind) || status_beq row.status stopped) must_stop) _ h0 in
    let (t2, e2, h2) =
      bind_ok
        (guard (status_beq row.status running || status_beq row.status stopped)
          (in_status row.status))
        _ h1 in
    let (t3, e3, h3) =
      bind_ok (guard (ltb (length (snapshots_of id s.snapshots)) max_snapshots) too_many_snapshots)
        _ h2 in
    let (t4, e4, h4) = bind_ok (guard (not (is_some (get s.snapshots snapshot_id))) taken) _ h3 in
    idle_queued-IsOrderly env job_id id "snapshot" _ user s _ s' row h e0 refl refl h4

restore-IsOrderly :
    (env : Setting) (job_id id snapshot_id : String) (user : Member) (s s' : State)
    → IsOrderly s
    → restore_from_snapshot env job_id id snapshot_id user s ≡ ok s'
    → IsOrderly s'
unfolding restore_from_snapshot
restore-IsOrderly env job_id id snapshot_id user s s' h e =
    let (row, e0, h0) = bind_ok (idle id user s) _ e in
    let (found, e1, h1) = bind_ok (snapshot_of id snapshot_id s) _ h0 in
    let (t2, e2, h2) =
      bind_ok (guard (is_ready found.snapshot_state) (snapshot_is found.snapshot_state)) _ h1 in
    let (t3, e3, h3) = bind_ok (guard (status_beq row.status stopped) must_stop) _ h2 in
    idle_queued-IsOrderly env job_id id "restore" _ user s s s' row h e0 refl refl h3

delete_snapshot-IsOrderly :
    (id snapshot_id : String) (removes : Bool) (user : Member) (s s' : State)
    → IsOrderly s
    → delete_snapshot id snapshot_id removes user s ≡ ok s'
    → IsOrderly s'
unfolding delete_snapshot
delete_snapshot-IsOrderly id snapshot_id removes user s s' h e =
    let (row, e0, h0) = bind_ok (owned id user s) _ e in
    let (found, e1, h1) = bind_ok (snapshot_of id snapshot_id s) _ h0 in
    let (t2, e2, h2) =
      bind_ok
        (unless_kind (of_kind ("snapshot" ∷ "restore" ∷ []) (get_active_job id s.system.table))) _
        h1 in
    let (t3, e3, h3) = bind_ok (guard removes not_removed) _ h2 in
    subst IsOrderly (eq_of_ok h3) (record { one = h.one; known = h.known })

move_container-IsOrderly :
    (env : Setting) (job_id id : String) (user : Member) (row : Sandbox)
    (server_id node_name : Option String) (s s' : State)
    → IsOrderly s
    → idle id user s ≡ ok row
    → move_container env job_id id row server_id node_name s ≡ ok s'
    → IsOrderly s'
unfolding move_container
move_container-IsOrderly env job_id id user row server_id node_name s s' h found e =
    let (t0, e0, h0) =
      bind_ok (guard (not (has_runtime row.server_id) && env.is_kube) not_supported) _ e in
    let (t1, e1, h1) =
      bind_ok (guard (not (is_some server_id) && is_some node_name) bad_request) _ h0 in
    idle_queued-IsOrderly env job_id id "move" _ user s s s' row h found refl refl h1

move_vm-IsOrderly :
    (env : Setting) (job_id id : String) (user : Member) (row : Sandbox)
    (server_id node_name : Option String) (s s' : State)
    → IsOrderly s
    → idle id user s ≡ ok row
    → move_vm env job_id id user row server_id node_name s ≡ ok s'
    → IsOrderly s'
unfolding move_vm
move_vm-IsOrderly env job_id id user row server_id node_name s s' h found e =
    let (t0, e0, h0) = bind_ok (guard (not (is_some node_name)) bad_request) _ e in
    let (t1, e1, h1) =
      bind_ok (guard (not (ltb 0 (length (snapshots_of id s.snapshots)))) has_snapshots) _ h0 in
    let (target, e2, h2) = bind_ok (env.place server_id user row.kind (size_of row)) _ h1 in
    elim (Bool-cases (same_server target row.server_id)) [
      | inl stays ↦ subst IsOrderly (eq_of_ok (sym (if_true _ _ stays) ∙ h2)) h
      | inr leaves ↦
          idle_queued-IsOrderly env job_id id "move" _ user s s s' row h found refl refl
            (sym (if_false _ _ leaves) ∙ h2)
    ]

move-IsOrderly :
    (env : Setting) (job_id id : String) (user : Member) (server_id node_name : Option String)
    (s s' : State)
    → IsOrderly s
    → move_sandbox env job_id id user server_id node_name s ≡ ok s'
    → IsOrderly s'
unfolding move_sandbox
move-IsOrderly env job_id id user server_id node_name s s' h e =
    let (row, e0, h0) = bind_ok (idle id user s) _ e in
    let (t1, e1, h1) =
      bind_ok
        (guard (not (status_beq row.status running || status_beq row.status provisioning))
          must_stop)
        _ h0 in
    elim (Bool-cases (env.is_vm row.kind)) [
      | inl vm ↦
          move_vm-IsOrderly env job_id id user row server_id node_name s s' h e0
            (sym (if_true _ _ vm) ∙ h1)
      | inr container ↦
          move_container-IsOrderly env job_id id user row server_id node_name s s' h e0
            (sym (if_false _ _ container) ∙ h1)
    ]

handle-IsOrderly :
    (env : Setting) (user : Member) (request : Request) (s s' : State)
    → IsOrderly s
    → handle env user request s ≡ ok s'
    → IsOrderly s'
unfolding handle
handle-IsOrderly env user (start job_id id) s s' h e = start-IsOrderly env job_id id user s s' h e
handle-IsOrderly env user (stop job_id id) s s' h e = stop-IsOrderly env job_id id user s s' h e
handle-IsOrderly env user (remove job_id id) s s' h e = delete-IsOrderly env job_id id user s s' h e
handle-IsOrderly env user (upgrade job_id id) s s' h e =
    upgrade-IsOrderly env job_id id user s s' h e
handle-IsOrderly env user (relabel labels id) s s' h e =
    relabel-IsOrderly env labels id user s s' h e
handle-IsOrderly env user (make job_id id kind config size labels) s s' h e =
    create-IsOrderly env job_id id user kind config size labels s s' h e
handle-IsOrderly env user (move job_id id server_id node_name) s s' h e =
    move-IsOrderly env job_id id user server_id node_name s s' h e
handle-IsOrderly env user (snapshot job_id snapshot_id id name) s s' h e =
    create_snapshot-IsOrderly env job_id snapshot_id id user name s s' h e
handle-IsOrderly env user (restore job_id id snapshot_id) s s' h e =
    restore-IsOrderly env job_id id snapshot_id user s s' h e
handle-IsOrderly env user (drop_snapshot id snapshot_id removes) s s' h e =
    delete_snapshot-IsOrderly id snapshot_id removes user s s' h e

commit-IsOrderly :
    (result : Result Failure State) (before : State)
    → ((after : State) → result ≡ ok after → IsOrderly after)
    → IsOrderly before
    → IsOrderly (commit result before)
commit-IsOrderly (ok after) before step h = step after refl
commit-IsOrderly (raised failure) before step h = h

-- From a state in which no sandbox has two queued jobs, and no job is queued for a sandbox that there is not, no
-- requests of any users lead to a state of which this does not hold.
pub serve-IsOrderly :
    (env : Setting) (requests : List (Member × Request)) (s : State)
    → IsOrderly s
    → IsOrderly (serve env requests s)
unfolding serve
serve-IsOrderly env [] s h = h
serve-IsOrderly env ((user, request) ∷ requests) s h =
    serve-IsOrderly env requests (commit (handle env user request s) s) (
      commit-IsOrderly (handle env user request s) s
        (λ after e. handle-IsOrderly env user request s after h e) h)
