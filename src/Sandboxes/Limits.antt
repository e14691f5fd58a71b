-- ===== src/Sandboxes/Limits.antt =====
-- No sandbox comes up by create or start past a limit.
use zoo.Base.{
  ℕ, ◌≤◌, String, string_eq, ◌≡◌, refl, sym, subst, true, false, Option, none, some, [], ◌∷◌, arith,
}
use zoo.Base.Dict.{get, put, Distinct, put-Distinct}
use zoo.Base.Results.{ok, eq_of_ok}
use zoo.Labels.{Labels, merge, scoped, unless_conflict, conflict, of}
use zoo.Quotas.{Sandbox, Size, new_disk, disk_or, status_beq, deleting, provisioning}
use zoo.Quotas.Bounds.{Asked}
use zoo.Quotas.Admitted.{Keeps, Restarted, insert_sandbox-Keeps, replace_sandbox-Keeps}
use zoo.Sandboxes.{Member, State, Setting, start_sandbox, set_status}
use zoo.Sandboxes.Create.{create, allowed_labels, new_sandbox}
use zoo.Sandboxes.Requests.{start_ok, create_ok}

merge-Distinct : (labels selector : Labels) → Distinct labels → Distinct (merge labels selector)
unfolding merge
merge-Distinct labels [] d = d
merge-Distinct labels ((key, value) ∷ selector) d =
    merge-Distinct (put labels key value) selector (put-Distinct labels key value d)

unless_conflict-Distinct :
    (key : Option String) (merged wanted : Labels)
    → allowed_labels (unless_conflict key merged) ≡ ok wanted
    → Distinct merged
    → Distinct wanted
unless_conflict-Distinct none merged wanted h d = subst Distinct (eq_of_ok h) d
unless_conflict-Distinct (some key) merged wanted h d = cc

scoped-Distinct :
    (labels : Labels) (selector : Option Labels) (wanted : Labels)
    → allowed_labels (scoped labels selector) ≡ ok wanted
    → Distinct labels
    → Distinct wanted
unfolding scoped
scoped-Distinct labels none wanted h d = subst Distinct (eq_of_ok h) d
scoped-Distinct labels (some selector) wanted h d =
    unless_conflict-Distinct (conflict labels selector) (merge labels selector) wanted h
      (merge-Distinct labels selector d)

new_disk-le :
    (u : ℕ) (size : Size) (disk : Option ℕ)
    → size.disk_gb ≡ disk
    → disk_or u disk ≤ new_disk u size true
new_disk-le u size none e = rw e ground arith
new_disk-le u size (some disk) e = rw e ground arith

-- Whoever creates a sandbox, with labels in which no key stands twice: if the request returns, the usage of the workspace is within its limits, and so is that of each label value that the sandbox got.
pub create-Keeps :
    (env : Setting) (job_id sandbox_id : String) (user : Member) (kind config : String)
    (size : Size) (labels : Labels) (s s' : State)
    → Distinct labels
    → create env job_id sandbox_id user kind config size labels s ≡ ok s'
    → (wanted : Labels) × (allowed_labels (scoped labels user.key_labels) ≡ ok wanted)
      × Keeps env.unsized_gb user.workspace_id wanted s'.tables
create-Keeps env job_id sandbox_id user kind config size labels s s' d h =
    let (wanted, e, fits, fresh, (system, queued, after)) =
      create_ok env job_id sandbox_id user kind config size labels s s' h in
    let asked : Asked env.unsized_gb size (new_disk env.unsized_gb size true)
        (new_sandbox env user kind config size) =
      record {
        same_cpus = refl;
        same_memory = refl;
        disk_le = new_disk-le env.unsized_gb size size.disk_gb refl;
      } in
    (
      wanted,
      e,
      subst (λ t. Keeps env.unsized_gb user.workspace_id wanted t.tables) (sym after)
          (insert_sandbox-Keeps env.unsized_gb user.workspace_id sandbox_id size
            (new_sandbox env user kind config size) wanted s.tables
            (scoped-Distinct labels user.key_labels wanted e d) fresh asked fits),
    )

-- Whoever starts a sandbox that is not being deleted: if the request returns, the usage of the workspace is within its
-- limits, and so is that of each label value that the sandbox has.
pub start_sandbox-Keeps :
    (env : Setting) (job_id sandbox_id : String) (user : Member) (s s' : State)
    → ((row : Sandbox)
        → get s.tables.sandboxes sandbox_id ≡ some row
        → status_beq row.status deleting ≡ false)
    → start_sandbox env job_id sandbox_id user s ≡ ok s'
    → Keeps env.unsized_gb user.workspace_id (of sandbox_id s.tables.labels) s'.tables
start_sandbox-Keeps env job_id sandbox_id user s s' idle h =
    let (row, o, none_active, fits, (system, queued, after)) =
      start_ok env job_id sandbox_id user s s' h in
    let restarted : Restarted row (set_status provisioning row) = record {
      same_workspace = refl;
      same_cpus = refl;
      same_memory = refl;
      same_disk = refl;
      not_deleting = idle row o.found;
      not_deleted = o.not_deleted;
    } in
    let labels = of sandbox_id s.tables.labels in
    subst (λ ws. Keeps env.unsized_gb ws labels s'.tables) o.same_workspace
      (subst (λ t. Keeps env.unsized_gb row.workspace_id labels t.tables) (sym after)
        (replace_sandbox-Keeps env.unsized_gb row.workspace_id sandbox_id row
          (set_status provisioning row) labels s.tables o.found restarted fits))
