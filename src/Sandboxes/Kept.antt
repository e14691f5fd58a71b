-- ===== src/Sandboxes/Kept.antt =====
-- What each route keeps of the order among the jobs of a sandbox.
use zoo.Base.{
  ℕ, ◌+◌, ◌≤◌, String, string_eq, pair_eq, ◌==◌, ==_iff, ◌≡◌, refl, sym, ◌∙◌, subst, Option, none,
  some, List, [], ◌∷◌, arith, if_true, if_false, Bool-cases, inl, inr, is_some,
}
use zoo.Base.Dict.{get, put, get-put}
use zoo.Base.Results.{ok, guard, bind_ok, eq_of_ok}
use zoo.Labels.{Labels, scoped}
use zoo.Quotas.{Sandbox, Size, status_beq, running, provisioning, deleting, counted}
use zoo.Quotas.Admitted.{insert_sandbox, replace_sandbox}
use zoo.Sandboxes.{
  Member, State, Setting, owned, idle, queue, get_active_job, start_sandbox, stop_sandbox,
  delete_sandbox, upgrade_sandbox, set_sandbox, set_status, cancel_jobs, of_kind, unless_kind,
  can_upgrade, upgraded, custom_image, in_status,
}
use zoo.Sandboxes.Create.{relabel_sandbox, create, allowed_labels, label_room, new_sandbox}
use zoo.Sandboxes.Requests.{Owned, Queued, owned_ok, idle_ok, queue_ok, start_ok, create_ok}
use zoo.Sandboxes.Queued.{
  count_queued, count_queued-cancel_sandbox_jobs, count_queued-get_active_job, count_queued-enqueue,
}

-- At most one job of a sandbox is queued, and none where there is no such sandbox.
pub record IsOrderly (s : State) : Type 0 where
  pub one : (id : String) → count_queued id s.system.table ≤ 1
  pub known : (id : String) → get s.tables.sandboxes id ≡ none → count_queued id s.system.table ≡ 0

put_some :
    (rows : List (String × Sandbox)) (id other : String) (row : Sandbox)
    → get (put rows id row) other ≡ none
    → get rows other ≡ none
put_some rows id other row h = ground (arith, get-put rows id other row)

set_sandbox-IsOrderly :
    (id : String) (row : Sandbox) (s : State) → IsOrderly s → IsOrderly (set_sandbox id row s)
unfolding replace_sandbox
set_sandbox-IsOrderly id row s h = record {
  one = h.one;
  known = λ other gone. h.known other (put_some s.tables.sandboxes id other row gone);
}

cancel_jobs-IsOrderly : (id : String) (s : State) → IsOrderly s → IsOrderly (cancel_jobs id s)
cancel_jobs-IsOrderly id s h = record {
  one = λ other.
      ground (
        arith,
        h.one other,
        count_queued-cancel_sandbox_jobs s.system.clock id other s.system.table,
      );
  known = λ other gone. ground (
    arith,
    h.known other gone,
    count_queued-cancel_sandbox_jobs s.system.clock id other s.system.table,
  );
}

cancel_jobs_none : (id : String) (s : State) → count_queued id (cancel_jobs id s).system.table ≡ 0
cancel_jobs_none id s =
    count_queued-cancel_sandbox_jobs s.system.clock id id s.system.table
    ∙ if_true _ _ ((==_iff id id).1 refl)

get-set_sandbox :
    (id : String) (row : Sandbox) (s : State)
    → get (set_sandbox id row s).tables.sandboxes id ≡ some row
unfolding replace_sandbox
get-set_sandbox id row s =
    get-put s.tables.sandboxes id id row ∙ if_true _ _ ((==_iff id id).1 refl)

pub Queued-IsOrderly :
    (env : Setting) (job_id id kind args : String) (seconds : Option ℕ) (before after : State)
    (row : Sandbox)
    → IsOrderly before
    → get before.tables.sandboxes id ≡ some row
    → count_queued id before.system.table ≡ 0
    → Queued env job_id id kind args seconds before after
    → IsOrderly after
Queued-IsOrderly env job_id id kind args seconds before after row h found free
      (system, e, after_is) =
    let added : (other : String)
        → count_queued other system.table
          ≡ counted (id == other) 1 + count_queued other before.system.table =
      λ other.
        count_queued-enqueue env.handlers job_id id kind args seconds before.system system other
          e in
    subst IsOrderly (sym after_is) (record {
      one = λ other. ground (arith, added other, h.one other, ==_iff id other);
      known = λ other gone. ground (arith, added other, h.known other gone, ==_iff id other);
    })

pub start-IsOrderly :
    (env : Setting) (job_id id : String) (user : Member) (s s' : State)
    → IsOrderly s
    → start_sandbox env job_id id user s ≡ ok s'
    → IsOrderly s'
start-IsOrderly env job_id id user s s' h e =
    let (row, o, free, fits, q) = start_ok env job_id id user s s' e in
    Queued-IsOrderly env job_id id "boot" "{}" _ (set_sandbox id (set_status provisioning row) s) s'
      (set_status provisioning row) (set_sandbox-IsOrderly id (set_status provisioning row) s h)
      (get-set_sandbox id (set_status provisioning row) s)
      (count_queued-get_active_job id s.system.table free) q

pub stop-IsOrderly :
    (env : Setting) (job_id id : String) (user : Member) (s s' : State)
    → IsOrderly s
    → stop_sandbox env job_id id user s ≡ ok s'
    → IsOrderly s'
unfolding stop_sandbox
stop-IsOrderly env job_id id user s s' h e =
    let (row, e0, h0) = bind_ok (owned id user s) _ e in
    let (t1, e1, h1) =
      bind_ok (unless_kind (of_kind ("stop" ∷ "delete" ∷ []) (get_active_job id s.system.table))) _
        h0 in
    Queued-IsOrderly env job_id id "stop" "{}" none (cancel_jobs id s) s' row
      (cancel_jobs-IsOrderly id s h) (Owned.found (owned_ok id user s row e0))
      (cancel_jobs_none id s) (queue_ok env job_id id "stop" "{}" none (cancel_jobs id s) s' h1)

pub delete-IsOrderly :
    (env : Setting) (job_id id : String) (user : Member) (s s' : State)
    → IsOrderly s
    → delete_sandbox env job_id id user s ≡ ok s'
    → IsOrderly s'
unfolding delete_sandbox
delete-IsOrderly env job_id id user s s' h e =
    let (row, e0, h0) = bind_ok (owned id user s) _ e in
    elim (Bool-cases (is_some (of_kind ("delete" ∷ []) (get_active_job id s.system.table)))) [
      | inl deleting_now ↦ subst IsOrderly (eq_of_ok (sym (if_true _ _ deleting_now) ∙ h0)) h
      | inr free ↦
          let new = set_status deleting row in
          Queued-IsOrderly env job_id id "delete" "{}" none (set_sandbox id new (cancel_jobs id s))
            s' new (set_sandbox-IsOrderly id new (cancel_jobs id s) (cancel_jobs-IsOrderly id s h))
            (get-set_sandbox id new (cancel_jobs id s)) (cancel_jobs_none id s)
            (queue_ok env job_id id "delete" "{}" none (set_sandbox id new (cancel_jobs id s)) s'
              (sym (if_false _ _ free) ∙ h0))
    ]

pub upgrade-IsOrderly :
    (env : Setting) (job_id id : String) (user : Member) (s s' : State)
    → IsOrderly s
    → upgrade_sandbox env job_id id user s ≡ ok s'
    → IsOrderly s'
unfolding upgrade_sandbox
upgrade-IsOrderly env job_id id user s s' h e =
    let (row, e0, h0) = bind_ok (idle id user s) _ e in
    let (t1, e1, h1) = bind_ok (guard (is_some (env.image_of row.config)) custom_image) _ h0 in
    let (t2, e2, h2) = bind_ok (guard (can_upgrade row.status) (in_status row.status)) _ h1 in
    let (o, free) = idle_ok id user s row e0 in
    let orderly : (new : Sandbox) (kind args : String) (seconds : Option ℕ)
        → queue env job_id id kind args seconds (set_sandbox id new s) ≡ ok s'
        → IsOrderly s' =
      λ new kind args seconds done.
        Queued-IsOrderly env job_id id kind args seconds (set_sandbox id new s) s' new
          (set_sandbox-IsOrderly id new s h) (get-set_sandbox id new s)
          (count_queued-get_active_job id s.system.table free)
          (queue_ok env job_id id kind args seconds (set_sandbox id new s) s' done) in
    elim (Bool-cases (status_beq row.status running)) [
      | inl up ↦ orderly (upgraded env row) _ _ _ (sym (if_true _ _ up) ∙ h2)
      | inr down ↦
          orderly (set_status provisioning (upgraded env row)) _ _ _ (sym (if_false _ _ down) ∙ h2)
    ]

pub relabel-IsOrderly :
    (env : Setting) (labels : Labels) (id : String) (user : Member) (s s' : State)
    → IsOrderly s
    → relabel_sandbox env labels id user s ≡ ok s'
    → IsOrderly s'
unfolding relabel_sandbox
relabel-IsOrderly env labels id user s s' h e =
    let (row, e0, h0) = bind_ok (owned id user s) _ e in
    let (wanted, e1, h1) = bind_ok (allowed_labels (scoped labels user.key_labels)) _ h0 in
    let (t2, e2, h2) = bind_ok (label_room env id row wanted s) _ h1 in
    subst IsOrderly (eq_of_ok h2) (record { one = h.one; known = h.known })

pub create-IsOrderly :
    (env : Setting) (job_id id : String) (user : Member) (kind config : String) (size : Size)
    (labels : Labels) (s s' : State)
    → IsOrderly s
    → create env job_id id user kind config size labels s ≡ ok s'
    → IsOrderly s'
unfolding insert_sandbox
create-IsOrderly env job_id id user kind config size labels s s' h e =
    let (wanted, allowed, fits, fresh, q) =
      create_ok env job_id id user kind config size labels s s' e in
    let row = new_sandbox env user kind config size in
    Queued-IsOrderly env job_id id "boot" "{}" _
      (record s { tables = insert_sandbox id row wanted s.tables }) s' row
      (record {
        one = h.one;
        known = λ other gone. h.known other (put_some s.tables.sandboxes id other row gone);
      })
      (get-put s.tables.sandboxes id id row ∙ if_true _ _ ((==_iff id id).1 refl))
      (h.known id fresh) q
