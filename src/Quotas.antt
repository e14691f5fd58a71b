-- ===== src/Quotas.antt =====
-- apps/server/quotas.py and apps/server/sizes.py: what a workspace, and the sandboxes with one label value,
-- may use at once, with the statements of db/generated/query.py that measure it.
--
-- CPU counts are whole units of which a CPU has a fixed number, and their sums are exact. Storage, which
-- the source computes in floating-point GB, is counted in bytes, so that limits are compared exactly. The
-- lock of the workspace's row makes a transaction atomic here.
pub mod Sums
pub mod Bounds
pub mod Admitted
pub mod Refusals
pub mod Examples
use zoo.Base.{
  ℕ, zero, suc, ◌+◌, ◌*◌, ◌^◌, String, string_eq, pair_eq, ◌==◌, Bool, true, false, not, ◌&&◌, ◌||◌,
  Option, none, some, List, [], ◌∷◌, ltb, nat_beq, if◌then◌else◌, keep, length,
}
use zoo.Base.Dict.{Dict, get}
use zoo.Base.Dict
use zoo.Labels.{Labels, LabelRows, Store}

pub record Size : Type 0 where
  pub cpus : ℕ
  pub memory_mb : ℕ
  pub disk_gb : Option ℕ

pub data Status : Type 0 where
  pending provisioning running stopped failed deleting deleted : Status

abbrev pub status_beq : Status → Status → Bool
status_beq pending pending = true
status_beq provisioning provisioning = true
status_beq running running = true
status_beq stopped stopped = true
status_beq failed failed = true
status_beq deleting deleting = true
status_beq deleted deleted = true
status_beq _ _ = false

-- The columns of a row of `sandboxes` that quotas and the routes read.
pub record Sandbox : Type 0 where
  pub workspace_id : String
  pub kind : String
  pub config : String
  pub server_id : Option String
  pub runtime_id : Option String
  pub status : Status
  pub cpus : ℕ
  pub memory_mb : ℕ
  pub disk_gb : Option ℕ

-- sizes.of
unfoldable pub size_of : Sandbox → Size
size_of sandbox = record {
  cpus = sandbox.cpus;
  memory_mb = sandbox.memory_mb;
  disk_gb = sandbox.disk_gb;
}

-- A null limit is no limit.
pub record Quota : Type 0 where
  pub max_running_sandboxes : Option ℕ
  pub max_cpus : Option ℕ
  pub max_memory_mb : Option ℕ
  pub max_storage_gb : Option ℕ

-- The columns of WorkspaceUsageRow and of LabelUsageRow; the latter has no profiles.
pub record Usage : Type 0 where
  pub running : ℕ
  pub cpus : ℕ
  pub memory_mb : ℕ
  pub disk_gb : ℕ
  pub profile_bytes : ℕ
  pub snapshot_bytes : ℕ

abbrev pub gb : ℕ
gb = 2 ^ 30

-- storage_gb, and the sum in check; in bytes
unfoldable pub storage_bytes : Usage → ℕ
storage_bytes row = row.disk_gb * gb + row.profile_bytes + row.snapshot_bytes

-- Which of the four limits is passed.
pub data Resource : Type 0 where
  running_sandboxes cpu memory storage : Resource

-- limit is not None and wanted > limit
abbrev pub passes : Option ℕ → ℕ → Bool
passes none wanted = false
passes (some limit) wanted = ltb limit wanted

abbrev pub in_bytes : Option ℕ → Option ℕ
in_bytes none = none
in_bytes (some limit) = some (limit * gb)

-- compare: the first limit that one more running sandbox of the size, and `disk` more GB, would pass
unfoldable pub compare : Quota → Usage → Size → ℕ → Option Resource
unfolding storage_bytes
compare quota used size disk =
    if passes quota.max_running_sandboxes (used.running + 1)
    then some running_sandboxes
    else if passes quota.max_cpus (used.cpus + size.cpus)
    then some cpu
    else if passes quota.max_memory_mb (used.memory_mb + size.memory_mb)
    then some memory
    else if passes (in_bytes quota.max_storage_gb) (storage_bytes used + disk * gb)
    then some storage
    else none

abbrev pub is_active : Status → Bool
is_active pending = true
is_active provisioning = true
is_active running = true
is_active _ = false

abbrev pub disk_or : ℕ → Option ℕ → ℕ
disk_or unsized_gb none = unsized_gb
disk_or unsized_gb (some disk) = disk

-- FILTER (WHERE …)
abbrev pub counted : Bool → ℕ → ℕ
counted true n = n
counted false n = 0

-- What one row adds to the sums of a usage statement.
unfoldable pub add_row : ℕ → Sandbox → Usage → Usage
add_row unsized_gb row used = record used {
  running = used.running + counted (is_active row.status) 1;
  cpus = used.cpus + counted (is_active row.status) row.cpus;
  memory_mb = used.memory_mb + counted (is_active row.status) row.memory_mb;
  disk_gb = used.disk_gb + disk_or unsized_gb row.disk_gb;
}

-- The sums over the rows that a WHERE clause selects, from the bytes of profiles and snapshots.
unfoldable pub sum_usage : ℕ → (String × Sandbox → Bool) → Usage → Dict String Sandbox → Usage
unfolding add_row
sum_usage unsized_gb selected bytes [] = bytes
sum_usage unsized_gb selected bytes ((id, row) ∷ rows) =
    let rest = sum_usage unsized_gb selected bytes rows in
    if selected (id, row) then add_row unsized_gb row rest else rest

-- Bytes without sandboxes.
abbrev pub stored : ℕ → ℕ → Usage
stored profiles snapshots = record {
  running = 0;
  cpus = 0;
  memory_mb = 0;
  disk_gb = 0;
  profile_bytes = profiles;
  snapshot_bytes = snapshots;
}

-- The tables that check reads. What profiles and snapshots take, per workspace and per label value, is
-- measured elsewhere and given here as functions.
pub record Tables : Type 0 where
  pub sandboxes : Dict String Sandbox
  pub labels : Store
  pub workspace_quotas : Dict String Quota
  pub label_quotas : Dict ((String × String) × String) Quota
  pub profile_bytes : String → ℕ
  pub snapshot_bytes : String → ℕ
  pub label_snapshot_bytes : String → String → String → ℕ

-- s.workspace_id = … AND s.status != 'deleted'
abbrev pub in_workspace : String → String × Sandbox → Bool
in_workspace workspace_id (id, row) =
    row.workspace_id == workspace_id && not (status_beq row.status deleted)

unfoldable pub workspace_usage : ℕ → String → Tables → Usage
unfolding sum_usage
workspace_usage unsized_gb workspace_id tables =
    sum_usage unsized_gb (in_workspace workspace_id)
      (stored (tables.profile_bytes workspace_id) (tables.snapshot_bytes workspace_id))
      tables.sandboxes

abbrev pub is_value : Option String → String → Bool
is_value none value = false
is_value (some other) value = other == value

-- JOIN sandbox_labels … AND s.status NOT IN ('deleting', 'deleted')
abbrev pub carries : LabelRows → String → String → String → String × Sandbox → Bool
carries rows workspace_id key value (id, row) =
    is_value (get rows (id, key)) value
    && row.workspace_id == workspace_id
    && not (status_beq row.status deleting || status_beq row.status deleted)

unfoldable pub label_usage : ℕ → String → String → String → Tables → Usage
unfolding sum_usage
label_usage unsized_gb workspace_id key value tables =
    sum_usage unsized_gb (carries tables.labels.sandbox_labels workspace_id key value)
      (stored 0 (tables.label_snapshot_bytes workspace_id key value)) tables.sandboxes

abbrev pub or_any : Option Quota → Option Quota → Option Quota
or_any none any = any
or_any (some quota) any = some quota

-- value IN (…, '*') ORDER BY (value = '*') LIMIT 1: the value's own limits before those of every value
unfoldable pub get_label_quota : String → String → String → Tables → Option Quota
get_label_quota workspace_id key value tables =
    or_any (get tables.label_quotas ((workspace_id, key), value))
      (get tables.label_quotas ((workspace_id, key), "*"))

-- Whose limit is passed, and which: what the 409 says.
pub data Refusal : Type 0 where
  of_workspace : Resource → Refusal
  of_label : (key value : String) → Resource → Refusal

abbrev pub refuse_workspace : Option Resource → Option Refusal
refuse_workspace none = none
refuse_workspace (some resource) = some (of_workspace resource)

abbrev pub refuse_label : String → String → Option Resource → Option Refusal → Option Refusal
refuse_label key value none rest = rest
refuse_label key value (some resource) rest = some (of_label key value resource)

abbrev pub compare_quota : Option Quota → Usage → Size → ℕ → Option Resource
compare_quota none used size disk = none
compare_quota (some quota) used size disk = compare quota used size disk

-- The loop over the sandbox's labels.
unfoldable pub check_labels : ℕ → String → Size → ℕ → Labels → Tables → Option Refusal
unfolding compare get_label_quota label_usage
check_labels unsized_gb workspace_id size disk [] tables = none
check_labels unsized_gb workspace_id size disk ((key, value) ∷ labels) tables =
    refuse_label key value
      (compare_quota (get_label_quota workspace_id key value tables)
        (label_usage unsized_gb workspace_id key value tables) size disk)
      (check_labels unsized_gb workspace_id size disk labels tables)

-- (size.disk_gb or sizes.UNSIZED_DISK_GB) if new else 0
abbrev pub new_disk : ℕ → Size → Bool → ℕ
new_disk unsized_gb size false = 0
new_disk unsized_gb size true = elim size.disk_gb [
  | none ↦ unsized_gb
  | some disk ↦ if nat_beq disk 0 then unsized_gb else disk
]

abbrev pub or_refusal : Option Refusal → Option Refusal → Option Refusal
or_refusal none rest = rest
or_refusal (some refusal) rest = some refusal

-- `none` where there is room.
unfoldable pub check : ℕ → String → Size → Bool → Labels → Tables → Option Refusal
unfolding compare workspace_usage check_labels
check unsized_gb workspace_id size new labels tables =
    let disk = new_disk unsized_gb size new in
    or_refusal
      (refuse_workspace (
        compare_quota (get tables.workspace_quotas workspace_id)
          (workspace_usage unsized_gb workspace_id tables) size disk))
      (check_labels unsized_gb workspace_id size disk labels tables)

abbrev pub ensure_row : Option Quota → String → Quota → Dict String Quota → Dict String Quota
ensure_row none workspace_id defaults quotas = Dict.put quotas workspace_id defaults
ensure_row (some quota) workspace_id defaults quotas = quotas

-- ensure: INSERT … ON CONFLICT (workspace_id) DO NOTHING, with the configured defaults
unfoldable pub ensure : Quota → String → Tables → Tables
ensure defaults workspace_id tables = record tables {
  workspace_quotas =
      ensure_row (get tables.workspace_quotas workspace_id) workspace_id defaults
        tables.workspace_quotas;
}
