-- ===== src/Quotas/Bounds.antt =====
-- A sandbox that check lets in keeps the limits of its workspace and of its labels.
use zoo.Base.{
  ℕ, ◌+◌, ◌*◌, ◌≤◌, ◌≡◌, refl, ap, String, string_eq, pair_eq, Bool, true, false, Option, none,
  some, [], ◌∷◌, arith, Each,
}
use zoo.Base.Dict.{get}
use zoo.Labels.{Labels}
use zoo.Quotas.{
  Size, Sandbox, Usage, Quota, Tables, passes, in_bytes, storage_bytes, compare, compare_quota,
  check, check_labels, add_row, is_active, counted, disk_or, new_disk, workspace_usage, label_usage,
  get_label_quota, gb,
}
use zoo.Quotas.Sums.{add_when}

-- What is used lies within each of the limits.
abbrev pub Fits : Quota → Usage → Type 0
Fits quota used =
    (passes quota.max_running_sandboxes used.running ≡ false)
    × (passes quota.max_cpus used.cpus ≡ false)
    × (passes quota.max_memory_mb used.memory_mb ≡ false)
    × (passes (in_bytes quota.max_storage_gb) (storage_bytes used) ≡ false)

passes_less : (limit : Option ℕ) (n m : ℕ) → n ≤ m → passes limit m ≡ false → passes limit n ≡ false
passes_less none n m le h = refl
passes_less (some limit) n m le h = ground arith

-- What is used after one more sandbox of the size runs, and at most `disk` more GB are stored.
pub record Grows (used : Usage) (size : Size) (disk : ℕ) (after : Usage) : Type 0 where
  pub running_le : after.running ≤ used.running + 1
  pub cpus_le : after.cpus ≤ used.cpus + size.cpus
  pub memory_le : after.memory_mb ≤ used.memory_mb + size.memory_mb
  pub storage_le : storage_bytes after ≤ storage_bytes used + disk * gb

compare-none :
    (quota : Quota) (used : Usage) (size : Size) (disk : ℕ)
    → compare quota used size disk ≡ none
    → (passes quota.max_running_sandboxes (used.running + 1) ≡ false)
      × (passes quota.max_cpus (used.cpus + size.cpus) ≡ false)
      × (passes quota.max_memory_mb (used.memory_mb + size.memory_mb) ≡ false)
      × (passes (in_bytes quota.max_storage_gb) (storage_bytes used + disk * gb) ≡ false)
unfolding compare
compare-none quota used size disk h = ground arith

pub compare-Fits :
    (quota : Quota) (used after : Usage) (size : Size) (disk : ℕ)
    → compare quota used size disk ≡ none
    → Grows used size disk after
    → Fits quota after
compare-Fits quota used after size disk h g =
    let (run, cpus, memory, bytes) = compare-none quota used size disk h in
    (
      passes_less quota.max_running_sandboxes after.running _ g.running_le run,
      passes_less quota.max_cpus after.cpus _ g.cpus_le cpus,
      passes_less quota.max_memory_mb after.memory_mb _ g.memory_le memory,
      passes_less (in_bytes quota.max_storage_gb) (storage_bytes after) _ g.storage_le bytes,
    )

-- A row of the size that check was asked about.
pub record Asked (u : ℕ) (size : Size) (disk : ℕ) (row : Sandbox) : Type 0 where
  pub same_cpus : row.cpus ≡ size.cpus
  pub same_memory : row.memory_mb ≡ size.memory_mb
  pub disk_le : disk_or u row.disk_gb ≤ disk

counted-le : (b : Bool) (n : ℕ) → counted b n ≤ n
counted-le true n = omega arith
counted-le false n = omega arith

pub add_row-Grows :
    (u : ℕ) (used : Usage) (size : Size) (disk : ℕ) (row : Sandbox) (b : Bool)
    → Asked u size disk row
    → Grows used size disk (add_when u b row used)
unfolding add_row storage_bytes
add_row-Grows u used size disk row true a = record {
  running_le = omega (arith, counted-le (is_active row.status) 1);
  cpus_le = omega (arith, a.same_cpus, counted-le (is_active row.status) row.cpus);
  memory_le = omega (arith, a.same_memory, counted-le (is_active row.status) row.memory_mb);
  storage_le = omega (arith, a.disk_le);
}
add_row-Grows u used size disk row false a = record {
  running_le = omega arith;
  cpus_le = omega arith;
  memory_le = omega arith;
  storage_le = omega arith;
}

-- A row that becomes active, its disk having been counted.
pub restart-Grows :
    (u : ℕ) (rest : Usage) (size : Size) (row new : Sandbox) (b c : Bool)
    → new.cpus ≡ size.cpus
    → new.memory_mb ≡ size.memory_mb
    → new.disk_gb ≡ row.disk_gb
    → (c ≡ true → b ≡ true)
    → Grows (add_when u b row rest) size 0 (add_when u c new rest)
unfolding add_row storage_bytes
restart-Grows u rest size row new true false ec em ed imp = record {
  running_le = omega arith;
  cpus_le = omega arith;
  memory_le = omega arith;
  storage_le = omega arith;
}
restart-Grows u rest size row new false false ec em ed imp = record {
  running_le = omega arith;
  cpus_le = omega arith;
  memory_le = omega arith;
  storage_le = omega arith;
}
restart-Grows u rest size row new false true ec em ed imp = absurd (ground (arith, imp refl))
restart-Grows u rest size row new true true ec em ed imp =
    let same_disk : disk_or u new.disk_gb ≡ disk_or u row.disk_gb = ap (disk_or u) ed in
    record {
      running_le = omega (arith, counted-le (is_active new.status) 1);
      cpus_le = omega (arith, ec, counted-le (is_active new.status) new.cpus);
      memory_le = omega (arith, em, counted-le (is_active new.status) new.memory_mb);
      storage_le = omega (arith, same_disk);
    }

pub check-none :
    (u : ℕ) (ws : String) (size : Size) (new : Bool) (labels : Labels) (tables : Tables)
    → check u ws size new labels tables ≡ none
    → (compare_quota
          (get tables.workspace_quotas ws)
          (workspace_usage u ws tables)
          size
          (new_disk u size new)
        ≡ none)
      × (check_labels u ws size (new_disk u size new) labels tables ≡ none)
unfolding check
check-none u ws size new labels tables h = ground arith

-- Each label of the list was compared.
pub check_labels-Each :
    (u : ℕ) (ws : String) (size : Size) (disk : ℕ) (labels : Labels) (tables : Tables)
    → check_labels u ws size disk labels tables ≡ none
    → Each
        (λ label.
          compare_quota
            (get_label_quota ws label.0 label.1 tables)
            (label_usage u ws label.0 label.1 tables)
            size
            disk
          ≡ none)
        labels
unfolding check_labels
check_labels-Each u ws size disk [] tables h = tt
check_labels-Each u ws size disk ((key, value) ∷ labels) tables h =
    let both : (compare_quota (get_label_quota ws key value tables)
            (label_usage u ws key value tables) size disk
          ≡ none)
        × (check_labels u ws size disk labels tables ≡ none) =
      ground arith in
    (both.0, check_labels-Each u ws size disk labels tables both.1)

-- Within the limits of a row of quotas, where there is one.
abbrev pub Within : Option Quota → Usage → Type 0
Within none used = Unit
Within (some quota) used = Fits quota used

pub compare_quota-Within :
    (quota : Option Quota) (used after : Usage) (size : Size) (disk : ℕ)
    → compare_quota quota used size disk ≡ none
    → Grows used size disk after
    → Within quota after
compare_quota-Within none used after size disk h g = tt
compare_quota-Within (some quota) used after size disk h g =
    compare-Fits quota used after size disk h g
