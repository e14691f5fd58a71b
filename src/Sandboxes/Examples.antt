-- ===== src/Sandboxes/Examples.antt =====
-- A workspace that may run two sandboxes, and requests at its limit.
use zoo.Base.{
  ℕ, String, string_eq, pair_eq, ◌≡◌, refl, true, false, none, some, List, [], ◌∷◌, arith, subst,
  keep, eq_of_some,
}
use zoo.Base.Dict.{get, put}
use zoo.Base.Results.{ok, raised}
use zoo.Jobs.Table.{Job, create_job, insert_row, new_job}
use zoo.Jobs.Queue.{Handler, done, enqueue}
use zoo.Labels.{
  Labels, Scoped, of, collect, matches, holds_all, scoped, merge, conflict, delete_labels,
  set_labels,
}
use zoo.Labels
use zoo.Quotas.{
  Sandbox, Size, Status, stopped, running, provisioning, Quota, running_sandboxes, of_workspace,
  check, compare, workspace_usage, sum_usage, add_row, storage_bytes, check_labels, get_label_quota,
  label_usage, size_of, status_beq, deleting,
}
use zoo.Quotas.Admitted.{Keeps, insert_sandbox, replace_sandbox}
use zoo.Sandboxes.{
  Member, State, Setting, over_quota, busy, must_stop, snapshot_is, creating, owned, idle,
  get_active_job, start_sandbox, stop_sandbox, upgrade_sandbox,
}
use zoo.Sandboxes.Create.{relabel_sandbox, label_room, changed_labels, create, allowed_labels}
use zoo.Sandboxes.Serving.{Request, start, stop, remove, make, snapshot, move, serve}
use zoo.Sandboxes.Snapshots.{
  create_snapshot, restore_from_snapshot, delete_snapshot, move_sandbox, snapshot_of,
}
use zoo.Sandboxes.Queued.{count_queued}
use zoo.Sandboxes.Kept.{IsOrderly}
use zoo.Sandboxes.Order.{serve-IsOrderly}
use zoo.Sandboxes.Limits.{create-Keeps, start_sandbox-Keeps}

abbrev calm : Handler
calm = record { run = λ job s. (s, done); attempts = 3; backoff = 5 ∷ []; on_failed = none }

abbrev env : Setting
env = record {
  unsized_gb = 20;
  handlers = ("boot", calm) ∷ ("stop", calm) ∷ ("delete", calm) ∷ ("snapshot", calm) ∷ [];
  is_vm = λ kind. false;
  image_of = λ config. some config;
  with_image = λ config image. image;
  default_image = λ kind. "v2";
  refuses_request = λ user kind size. none;
  refuses_placement = λ user kind size. none;
  placed_on = λ user kind size. none;
  is_kube = true;
  place = λ server_id user kind size. ok server_id;
  args_of = λ name value. name;
  snapshot_name = λ n. "Snapshot";
}

abbrev box : Status → Sandbox
box status = record {
  workspace_id = "w";
  kind = "desktop";
  config = "v1";
  server_id = none;
  runtime_id = none;
  status = status;
  cpus = 2;
  memory_mb = 2048;
  disk_gb = none;
}

abbrev limits : ℕ → Quota
limits most = record {
  max_running_sandboxes = some most;
  max_cpus = some 4;
  max_memory_mb = none;
  max_storage_gb = some 100;
}

-- s1 runs, s2 is stopped, and the workspace may run `most`.
abbrev holding : ℕ → State
holding most = record {
  tables = record {
    sandboxes = ("s1", box running) ∷ ("s2", box stopped) ∷ [];
    labels = record { sandbox_labels = (("s2", "team"), "infra") ∷ []; usage_labels = [] };
    workspace_quotas = ("w", limits most) ∷ [];
    label_quotas = ((("w", "team"), "*"), limits 1) ∷ [];
    profile_bytes = λ ws. 0;
    snapshot_bytes = λ ws. 0;
    label_snapshot_bytes = λ ws key value. 0;
  };
  system = record { table = []; live = []; closing = false; clock = 100 };
  snapshots = [];
}

abbrev ann : Member
ann = record { workspace_id = "w"; key_sandbox_id = none; key_labels = none }

abbrev boot_of : String → String → Job
boot_of id args = new_job 100 (record {
  id = "j1";
  sandbox_id = id;
  kind = "boot";
  args = args;
  max_attempts = 3;
  deadline = some 180_000_100;
})

abbrev with_boot : String → State → State
with_boot args s = record s {
  tables = replace_sandbox "s2" (box provisioning) s.tables;
  system = record s.system { table = ("j1", boot_of "s2" args) ∷ [] };
}

start_run : start_sandbox env "j1" "s2" ann (holding 2) ≡ ok (with_boot "{}" (holding 2))
unfolding start_sandbox idle owned get get_active_job of collect matches check compare
    workspace_usage sum_usage add_row storage_bytes check_labels get_label_quota label_usage size_of
    replace_sandbox enqueue create_job insert_row put
start_run = refl

refused_run :
    start_sandbox env "j1" "s2" ann (holding 1)
    ≡ raised (over_quota (of_workspace running_sandboxes))
unfolding start_sandbox idle owned get get_active_job of collect matches check compare
    workspace_usage sum_usage add_row storage_bytes check_labels get_label_quota label_usage size_of
refused_run = refl

-- An upgrade starts the stopped sandbox all the same.
upgrade_run :
    upgrade_sandbox env "j1" "s2" ann (holding 1)
    ≡ ok (record (with_boot "{\"upgrade\": true}" (holding 1)) {
      tables =
          replace_sandbox "s2" (record (box provisioning) { config = "v2" }) (holding 1).tables;
    })
unfolding upgrade_sandbox idle owned get get_active_job of collect matches replace_sandbox enqueue
    create_job insert_row put
upgrade_run = refl

-- A running sandbox that the limit counts already cannot get a label.
relabel_run :
    relabel_sandbox env (("team", "infra") ∷ []) "s1" ann (holding 1)
    ≡ raised (over_quota (of_workspace running_sandboxes))
unfolding relabel_sandbox label_room changed_labels scoped owned get of collect matches check
    compare workspace_usage sum_usage add_row storage_bytes check_labels get_label_quota label_usage
    size_of
relabel_run = refl

stop_busy :
    stop_sandbox env "j2" "s2" ann (record (holding 2) {
      system = record (holding 2).system {
        table = ("j1", record (boot_of "s2" "{}") { kind = "delete" }) ∷ [];
      };
    })
    ≡ raised (busy "delete")
unfolding stop_sandbox owned get get_active_job of collect matches
stop_busy = refl

start_sandbox-Keeps_example :
    Keeps 20 "w" (of "s2" (holding 2).tables.labels) (with_boot "{}" (holding 2)).tables
unfolding get
start_sandbox-Keeps_example =
    start_sandbox-Keeps env "j1" "s2" ann (holding 2) (with_boot "{}" (holding 2))
      (λ row e. subst (λ r. status_beq r.status deleting ≡ false) (eq_of_some e) refl) start_run

abbrev infra : Labels
infra = ("team", "infra") ∷ []

abbrev small : Size
small = record { cpus = 1; memory_mb = 512; disk_gb = some 5 }

abbrev created : State
created = record (holding 2) {
  tables =
      insert_sandbox "s3"
        (record (box provisioning) { cpus = 1; memory_mb = 512; disk_gb = some 5 }) infra
        (holding 2).tables;
  system = record (holding 2).system { table = ("j1", boot_of "s3" "{}") ∷ [] };
}

create_run : create env "j1" "s3" ann "desktop" "v1" small infra (holding 2) ≡ ok created
unfolding create scoped get of collect check compare workspace_usage sum_usage add_row storage_bytes
    check_labels get_label_quota label_usage size_of insert_sandbox enqueue create_job insert_row
    put Labels.put set_labels delete_labels
create_run = refl

create-Keeps_example :
    (wanted : Labels) × (allowed_labels (scoped infra none) ≡ ok wanted)
    × Keeps 20 "w" wanted created.tables
unfolding get
create-Keeps_example =
    create-Keeps env "j1" "s3" ann "desktop" "v1" small infra (holding 2) created (refl, tt)
      create_run

-- A snapshot is named where the client gives no name, and cannot be restored before it is ready.
abbrev taken_one : State
taken_one = record (holding 2) {
  system = record (holding 2).system {
    table = ("j1", record (boot_of "s2" "snapshot_id") { kind = "snapshot"; deadline = none }) ∷ [];
  };
  snapshots =
      (
        "n1",
        record {
          sandbox_id = "s2";
          server_id = none;
          name = "Snapshot";
          snapshot_state = creating;
        },
      )
      ∷ [];
}

snapshot_run : create_snapshot env "j1" "n1" "s2" ann "" (holding 2) ≡ ok taken_one
unfolding create_snapshot idle owned get get_active_job of collect matches keep enqueue create_job
    insert_row put
snapshot_run = refl

restore_run :
    restore_from_snapshot env "j2" "s2" "n1" ann (record taken_one { system = (holding 2).system })
    ≡ raised (snapshot_is creating)
unfolding restore_from_snapshot snapshot_of idle owned get get_active_job of collect matches
restore_run = refl

busy_run : delete_snapshot "s2" "n1" true ann taken_one ≡ raised (busy "snapshot")
unfolding delete_snapshot snapshot_of owned get get_active_job of collect matches
busy_run = refl

move_run : move_sandbox env "j1" "s1" ann none (some "node2") (holding 2) ≡ raised must_stop
unfolding move_sandbox idle owned get get_active_job of collect matches
move_run = refl

abbrev requests : List (Member × Request)
requests =
    (ann, start "j1" "s2")
    ∷ (ann, stop "j2" "s2")
    ∷ (ann, remove "j3" "s2")
    ∷ (ann, make "j4" "s3" "desktop" "v1" small infra)
    ∷ (ann, snapshot "j5" "n1" "s1" "before the move")
    ∷ (ann, move "j6" "s1" none (some "node2"))
    ∷ []

serve-IsOrderly_example : IsOrderly (serve env requests (holding 2))
unfolding count_queued
serve-IsOrderly_example =
    serve-IsOrderly env requests (holding 2)
      (record { one = λ id. omega arith; known = λ id gone. refl })
