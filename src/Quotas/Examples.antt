-- ===== src/Quotas/Examples.antt =====
-- A workspace with one running sandbox of an end user, and what one more would use.
use zoo.Base.{ℕ, ◌^◌, true, string_eq, pair_eq, ◌≡◌, refl, none, some, [], ◌∷◌}
use zoo.Base.Dict.{get}
use zoo.Labels.{Labels}
use zoo.Quotas.{
  Size, running, Tables, cpu, storage, of_workspace, of_label, check, compare, check_labels,
  workspace_usage, label_usage, get_label_quota, sum_usage, add_row, storage_bytes, ensure,
}
use zoo.Quotas.Refusals.{Justified, check-Justified}

abbrev held : Tables
held = record {
  sandboxes =
      (
        "s1",
        record {
          workspace_id = "w";
          kind = "desktop";
          config = "";
          server_id = none;
          runtime_id = none;
          status = running;
          cpus = 2;
          memory_mb = 2048;
          disk_gb = some 30;
        },
      )
      ∷ [];
  labels = record { sandbox_labels = (("s1", "end_user"), "alice") ∷ []; usage_labels = [] };
  workspace_quotas =
      (
        "w",
        record {
          max_running_sandboxes = none;
          max_cpus = some 8;
          max_memory_mb = none;
          max_storage_gb = some 60;
        },
      )
      ∷ [];
  label_quotas =
      (
        (("w", "end_user"), "*"),
        record {
          max_running_sandboxes = some 5;
          max_cpus = some 3;
          max_memory_mb = none;
          max_storage_gb = none;
        },
      )
      ∷ [];
  profile_bytes = λ ws. 2 ^ 30;
  snapshot_bytes = λ ws. 0;
  label_snapshot_bytes = λ ws key value. 0;
}

abbrev sized : ℕ → Size
sized disk = record { cpus = 2; memory_mb = 2048; disk_gb = some disk }

abbrev alice : Labels
alice = ("end_user", "alice") ∷ []

fits_run : check 20 "w" (sized 29) true [] held ≡ none
unfolding check compare check_labels workspace_usage sum_usage add_row storage_bytes get
fits_run = refl

storage_run : check 20 "w" (sized 30) true [] held ≡ some (of_workspace storage)
unfolding check compare check_labels workspace_usage sum_usage add_row storage_bytes get
storage_run = refl

label_run : check 20 "w" (sized 10) true alice held ≡ some (of_label "end_user" "alice" cpu)
unfolding check compare check_labels workspace_usage label_usage get_label_quota sum_usage add_row
    storage_bytes get
label_run = refl

ensure_run :
    ensure
      (record {
        max_running_sandboxes = none;
        max_cpus = none;
        max_memory_mb = none;
        max_storage_gb = none;
      })
      "w"
      held
    ≡ held
unfolding ensure get
ensure_run = refl

check-Justified_example :
    Justified 20 "w" (sized 10) 10 alice held (of_label "end_user" "alice" cpu)
check-Justified_example =
    check-Justified 20 "w" (sized 10) true alice held (of_label "end_user" "alice" cpu) label_run
