-- ===== src/Sandboxes/Requests.antt =====
-- What a request that returned went through.
use zoo.Base.{
  ℕ, String, string_eq, pair_eq, ◌==◌, ==_iff, ◌≡◌, refl, sym, ◌∙◌, ap, true, false, not, ◌&&◌,
  ◌||◌, Option, none, some, arith, if◌then◌else◌, is_some,
}
use zoo.Base.Dict.{get}
use zoo.Base.Results.{ok, raised, guard, or_raise, bind_ok, guard_ok, or_raise_ok, eq_of_ok}
use zoo.Jobs.Table.{Job}
use zoo.Jobs.Queue.{enqueue, System}
use zoo.Labels.{Labels, matches, of, scoped}
use zoo.Quotas.{Sandbox, Size, status_beq, deleted, running, provisioning, check, size_of, Refusal}
use zoo.Quotas.Admitted.{insert_sandbox}
use zoo.Sandboxes.{
  Member, State, Setting, not_found, other_sandbox, owned, key_reaches, idle, unless_active,
  get_active_job, start_sandbox, room, queue, not_enqueued, in_system, set_sandbox, set_status,
  boot_deadline, in_status, taken, unless,
}
use zoo.Sandboxes.Create.{create, allowed_labels, new_sandbox}

-- A request reaches a row of its workspace that is not deleted, has the labels of its key, and is its key's
-- sandbox.
pub record Owned (sandbox_id : String) (user : Member) (s : State) (row : Sandbox) : Type 0 where
  pub found : get s.tables.sandboxes sandbox_id ≡ some row
  pub same_workspace : row.workspace_id ≡ user.workspace_id
  pub not_deleted : status_beq row.status deleted ≡ false
  pub has_labels : matches (of sandbox_id s.tables.labels) user.key_labels ≡ true
  pub reached : key_reaches user.key_sandbox_id sandbox_id ≡ true

pub owned_ok :
    (sandbox_id : String) (user : Member) (s : State) (row : Sandbox)
    → owned sandbox_id user s ≡ ok row
    → Owned sandbox_id user s row
unfolding owned
owned_ok sandbox_id user s row h =
    let (sandbox, e0, h0) = bind_ok (or_raise (get s.tables.sandboxes sandbox_id) not_found) _ h in
    let (t1, e1, h1) =
      bind_ok
        (guard
          (sandbox.workspace_id == user.workspace_id && not (status_beq sandbox.status deleted))
          not_found)
        _ h0 in
    let (t2, e2, h2) =
      bind_ok (guard (matches (of sandbox_id s.tables.labels) user.key_labels) not_found) _ h1 in
    let (t3, e3, h3) =
      bind_ok (guard (key_reaches user.key_sandbox_id sandbox_id) other_sandbox) _ h2 in
    let same : sandbox ≡ row = eq_of_ok h3 in
    let both : (sandbox.workspace_id == user.workspace_id ≡ true)
        × (status_beq sandbox.status deleted ≡ false) =
      ground (arith, guard_ok _ not_found e1) in
    record {
      found = or_raise_ok _ not_found e0 ∙ ap some same;
      same_workspace =
          ap (λ r. r.workspace_id) (sym same)
          ∙ (==_iff sandbox.workspace_id user.workspace_id).0 both.0;
      not_deleted = ap (λ r. status_beq r.status deleted) (sym same) ∙ both.1;
      has_labels = guard_ok _ not_found e2;
      reached = guard_ok _ other_sandbox e3;
    }

unless_active_ok : (active : Option Job) → unless_active active ≡ ok tt → active ≡ none
unless_active_ok none h = refl
unless_active_ok (some job) h = cc

room_ok : (refusal : Option Refusal) → room refusal ≡ ok tt → refusal ≡ none
room_ok none h = refl
room_ok (some refusal) h = cc

pub idle_ok :
    (sandbox_id : String) (user : Member) (s : State) (row : Sandbox)
    → idle sandbox_id user s ≡ ok row
    → Owned sandbox_id user s row × (get_active_job sandbox_id s.system.table ≡ none)
unfolding idle
idle_ok sandbox_id user s row h =
    let (sandbox, e0, h0) = bind_ok (owned sandbox_id user s) _ h in
    let (t1, e1, h1) = bind_ok (unless_active (get_active_job sandbox_id s.system.table)) _ h0 in
    (owned_ok sandbox_id user s row (e0 ∙ ap ok (eq_of_ok h1)), unless_active_ok _ e1)

-- The state whose session queued a job.
abbrev pub Queued :
    Setting → (job_id sandbox_id kind args : String) → Option ℕ → (before after : State) → Type 0
Queued env job_id sandbox_id kind args seconds before after =
    (system : System) × (enqueue env.handlers job_id sandbox_id kind args seconds before.system
      ≡ some system)
    × (after ≡ in_system before system)

pub queue_ok :
    (env : Setting) (job_id sandbox_id kind args : String) (seconds : Option ℕ) (s s' : State)
    → queue env job_id sandbox_id kind args seconds s ≡ ok s'
    → Queued env job_id sandbox_id kind args seconds s s'
queue_ok env job_id sandbox_id kind args seconds s s' h =
    let (system, e, h0) =
      bind_ok
        (or_raise (enqueue env.handlers job_id sandbox_id kind args seconds s.system) not_enqueued)
        _ h in
    (system, or_raise_ok _ not_enqueued e, sym (eq_of_ok h0))

pub start_ok :
    (env : Setting) (job_id sandbox_id : String) (user : Member) (s s' : State)
    → start_sandbox env job_id sandbox_id user s ≡ ok s'
    → (row : Sandbox) × (Owned sandbox_id user s row)
      × (get_active_job sandbox_id s.system.table ≡ none)
      × (check env.unsized_gb row.workspace_id
            (size_of row)
            false
            (of sandbox_id s.tables.labels)
            s.tables
          ≡ none)
      × Queued env job_id sandbox_id "boot" "{}"
          (some (boot_deadline env row.kind))
          (set_sandbox sandbox_id (set_status provisioning row) s)
          s'
unfolding start_sandbox
start_ok env job_id sandbox_id user s s' h =
    let (row, e0, h0) = bind_ok (idle sandbox_id user s) _ h in
    let (t1, e1, h1) =
      bind_ok
        (guard (not (status_beq row.status running || status_beq row.status provisioning))
          (in_status row.status))
        _ h0 in
    let (t2, e2, h2) =
      bind_ok
        (room (
          check env.unsized_gb row.workspace_id (size_of row) false (of sandbox_id s.tables.labels)
            s.tables))
        _ h1 in
    let (o, none_active) = idle_ok sandbox_id user s row e0 in
    (row, o, none_active, room_ok _ e2, queue_ok env job_id sandbox_id "boot" "{}" _ _ s' h2)

none_unless_some : {A : Type 0} (o : Option A) → not (is_some o) ≡ true → o ≡ none
none_unless_some none h = refl
none_unless_some (some a) h = absurd (ground arith)

pub create_ok :
    (env : Setting) (job_id sandbox_id : String) (user : Member) (kind config : String)
    (size : Size) (labels : Labels) (s s' : State)
    → create env job_id sandbox_id user kind config size labels s ≡ ok s'
    → (wanted : Labels) × (allowed_labels (scoped labels user.key_labels) ≡ ok wanted)
      × (check env.unsized_gb user.workspace_id size true wanted s.tables ≡ none)
      × (get s.tables.sandboxes sandbox_id ≡ none)
      × Queued env job_id sandbox_id "boot" "{}"
          (some (boot_deadline env kind))
          (record s {
            tables =
                insert_sandbox sandbox_id (new_sandbox env user kind config size) wanted s.tables;
          })
          s'
unfolding create
create_ok env job_id sandbox_id user kind config size labels s s' h =
    let (t0, e0, h0) =
      bind_ok (if is_some user.key_sandbox_id then raised other_sandbox else ok tt) _ h in
    let (t1, e1, h1) = bind_ok (unless (env.refuses_request user kind size)) _ h0 in
    let (wanted, e2, h2) = bind_ok (allowed_labels (scoped labels user.key_labels)) _ h1 in
    let (t3, e3, h3) =
      bind_ok (room (check env.unsized_gb user.workspace_id size true wanted s.tables)) _ h2 in
    let (t4, e4, h4) = bind_ok (unless (env.refuses_placement user kind size)) _ h3 in
    let (t5, e5, h5) =
      bind_ok (guard (not (is_some (get s.tables.sandboxes sandbox_id))) taken) _ h4 in
    (
      wanted,
      e2,
      room_ok _ e3,
      none_unless_some _ (guard_ok _ taken e5),
      queue_ok env job_id sandbox_id "boot" "{}" _ _ s' h5,
    )
