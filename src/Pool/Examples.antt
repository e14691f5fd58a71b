-- ===== src/Pool/Examples.antt =====
-- A pool that boots, hands over and refills its sandboxes, and the theorems at it.
use zoo.Base.{
  string_eq, nat_eq, pair_eq, ◌≡◌, refl, true, false, none, some, [], ◌∷◌, arith, max, keep, any,
}
use zoo.Base.Dict.{get, put, erase}
use zoo.Pool.{
  Setting, World, PoolSandbox, booting, idle, failed, find, claim, claim_pool_sandbox, start, boot,
  ready, not_ready, boot_ran, boot_shown, boot_failed, boot_done, update_row,
  set_pool_sandbox_runtime, set_pool_sandbox_idle, set_pool_sandbox_failed, discard, shown, begun,
}
use zoo.Pool.Demand.{demand, list_recent_creates, by_kind, quantile, sorted, insert_sorted}
use zoo.Pool.Filling.{
  Seen, discards, starts, refill, raise_sizes, stays, alive, group, fill_pools, fill_pool, is_held,
  discard_pools, perform,
}
use zoo.Pool.Entries.{drain, discard_all, status, entry}
use zoo.Pool.Steps.{Reach, here, next, claims, starts as begins, runs as run_steps, shows, IsSingle}
use zoo.Pool.Single.{Reach-IsSingle}
use zoo.Pool.Counts.{count_starts, lacks}
use zoo.Pool.Sized.{refill_starts, local_demand, members_of}

abbrev env : Setting
env = record {
  default_image = λ kind. "v2";
  config_of = λ id kind server_id. "{}";
  is_running = λ runtime_id. some true;
  guest_ready = λ server_id. true;
}

abbrev empty : World
empty = record { table = []; threads = []; claimed = []; handed = []; removed = [] }

abbrev fresh : PoolSandbox
fresh = record {
  kind = "code";
  server_id = none;
  image = "v2";
  config = "{}";
  status = booting;
  runtime_id = none;
  runtime_host = none;
  error_message = none;
  updated_at = 100;
}

abbrev shown_row : PoolSandbox
shown_row = record fresh {
  status = idle;
  runtime_id = some "c1";
  runtime_host = some "h1";
  updated_at = 130;
}

abbrev warm : World
warm = record empty { table = ("s1", shown_row) ∷ [] }

warm_run : boot 130 "s1" (ready "c1" "h1") (start env 100 "s1" "code" none empty) ≡ warm
unfolding start boot boot_ran boot_shown boot_done set_pool_sandbox_runtime set_pool_sandbox_idle
    update_row get put erase
warm_run = refl

cold_run :
    boot 130 "s1"
      (not_ready "c1" "h1" "did not come up in time")
      (start env 100 "s1" "code" none empty)
    ≡ (let row = record shown_row {
      status = failed;
      error_message = some "did not come up in time";
    } in
        record empty { table = ("s1", row) ∷ []; removed = ("s1", row) ∷ [] })
unfolding start boot boot_ran boot_failed set_pool_sandbox_runtime set_pool_sandbox_failed
    update_row get put erase
cold_run = refl

claim_run : claim env "code" none warm ≡ (
  some ("s1", shown_row),
  record empty { claimed = (("code", "local"), 1) ∷ []; handed = ("s1", shown_row) ∷ [] },
)
unfolding claim claim_pool_sandbox find any get put erase
claim_run = refl

unknown_run : claim env "macos" none warm ≡ (none, warm)
unfolding claim any
unknown_run = refl

drain_run :
    drain "s" (record empty {
      table = ("s1", record shown_row { server_id = some "s" }) ∷ ("s2", shown_row) ∷ [];
    })
    ≡ record empty {
      table = ("s2", shown_row) ∷ [];
      removed = ("s1", record shown_row { server_id = some "s" }) ∷ [];
    }
unfolding drain discard_all discard get erase
drain_run = refl

-- A pool of three with one idle row, one of an old image and one that was left booting.
abbrev seen : Seen
seen = record {
  settings = (("code", "local"), 3) ∷ [];
  created = [];
  rows = ("s1", shown_row) ∷ ("s2", record shown_row { image = "v1" }) ∷ ("s3", fresh) ∷ [];
  servers = [];
}

refill_run :
    refill env (λ id. false) 200 seen
    ≡ discards "s2" ∷ discards "s3" ∷ starts ("code", "local") ∷ starts ("code", "local") ∷ []
unfolding refill demand list_recent_creates by_kind raise_sizes stays alive group fill_pools
    fill_pool is_held discard_pools keep any get put erase
refill_run = refl

-- Forty creates in four of the last intervals ask for as many as one of them had, as the intervals without a create
-- are 356 of 360.
quiet_run : quantile (12 ∷ 9 ∷ 11 ∷ 8 ∷ []) ≡ 8
unfolding quantile sorted insert_sorted
quiet_run = refl

abbrev handed_out : World
handed_out = record empty {
  threads = ("s1", shown) ∷ [];
  claimed = (("code", "local"), 1) ∷ [];
  handed = ("s1", shown_row) ∷ [];
}

handed_out-Reach : Reach env empty handed_out
unfolding start claim claim_pool_sandbox find boot_ran boot_shown set_pool_sandbox_runtime
    set_pool_sandbox_idle update_row any get put erase
handed_out-Reach =
    next
      (next
        (next (next here (begins 100 "s1" "code" none refl refl refl refl))
          (run_steps 110 "s1" "c1" "h1" refl))
        (shows 130 "s1" refl))
      (claims "code" none)

empty-IsSingle : IsSingle empty
unfolding get
empty-IsSingle = record {
  keyed = tt;
  once = tt;
  taken = λ id row out. absurd (cc out);
  alive = λ id row out. absurd (cc out);
  up = λ id row out. absurd (cc out);
  gone = λ id row old out found. absurd (cc out);
  idle_up = λ id row found waits. absurd (cc found);
  ran_up = λ id row at found. absurd (cc found);
  counts = λ pool. omega arith;
}

Reach-IsSingle_example : IsSingle handed_out
Reach-IsSingle_example = Reach-IsSingle handed_out-Reach empty-IsSingle

refill_starts_example :
    count_starts ("code", "local") (refill env (λ id. false) 200 seen)
    ≡ lacks env []
        ("code", "local")
        (max 3 (local_demand ("code", "local") (demand 200 [])))
        (members_of (stays env (λ id. false) 200) ("code", "local") seen.rows)
unfolding get
refill_starts_example = refill_starts env (λ id. false) 200 seen "code" "local" (refl, tt)

perform_run :
    perform env 200 (λ n. "s9") (discards "s1" ∷ starts ("code", "h1") ∷ []) warm ≡ record empty {
      table = ("s9", record fresh { server_id = some "h1"; updated_at = 200 }) ∷ [];
      threads = ("s9", begun) ∷ [];
      removed = ("s1", shown_row) ∷ [];
    }
unfolding perform discard start get put erase
perform_run = refl

status_run :
    status ((("code", "local"), 3) ∷ []) handed_out (("code", none) ∷ [])
    ≡ record { size = 3; idle_count = 0; booting_count = 0; claimed = 1; error = none } ∷ []
unfolding status entry keep get
status_run = refl
