-- ===== src/Jobs/Examples.antt =====
-- A small queue, and the theorems at it.
use zoo.Base.{
  any, ◌⊎◌, true, ◌+◌, ◌*◌, ◌≤◌, ltb, ◌&&◌, String, string_eq, ◌≡◌, refl, sym, ap, ◌==◌, ==_iff,
  false, none, some, [], ◌∷◌, arith, if◌then◌else◌, Bool-cases, inl, inr, eq_of_some,
}
use zoo.Base.Dict.{get, put, erase}
use zoo.Jobs.Table.{
  Job, text, waiting, queued, running, succeeded, new_job, claim_job, update_row, requeue_job,
  finish_job, retry_job, get_job, is_running, is_queued, is_active, list_jobs_by_state,
  delete_sandbox_jobs,
}
use zoo.Jobs.Queue.{
  Handlers, Handler, System, done, raised, claim, execute, settle, release, second, wait_poll,
  defer_section, retry_section, has_time, backoff_delay, settle_section,
}
use zoo.Jobs.Loop.{overdue, drain, drain_round, expire_table, recover}
use zoo.Jobs.Rows.{AllRows}
use zoo.Jobs.Threads.{World, Step, Reach, mark}
use zoo.Jobs.Attempts.{InLimit, HasAttempts, Reach-InLimit}
use zoo.Jobs.Stopped.{HasBackoff}
use zoo.Jobs.Flight.{IsInFlight, running_once}
use zoo.Jobs.History.{Evolves, Reach-Evolves}
use zoo.Jobs.Sweeps.{IsKeyed, recover-Stopped}
use zoo.Jobs.Expiry.{expire_table-in_time}
use zoo.Jobs.Retry.{claim-defer, claim-retry}

-- A handler that fails twice and then succeeds.
abbrev flaky : Handler
flaky = record {
  run = λ job s. (s, if ltb job.attempts 3 then raised "no host" "RuntimeError" else done);
  attempts = 3;
  backoff = 5 ∷ 15 ∷ [];
  on_failed = none;
}

abbrev handlers : Handlers
handlers = ("boot", flaky) ∷ []

abbrev boot : Job
boot = new_job 100 (record {
  id = "j1";
  sandbox_id = "s1";
  kind = "boot";
  args = "{}";
  max_attempts = 3;
  deadline = some 900_000_000;
})

abbrev start : System
start = record { table = ("j1", boot) ∷ []; live = []; closing = false; clock = 200 }

abbrev boot' : Job
boot' = record boot { state = running; attempts = 1; updated_at = 200 }

abbrev started : System
started = record start { table = ("j1", boot') ∷ []; live = ("s1", "j1") ∷ [] }

-- Later, a job of another sandbox is there as well, and shutdown has begun.
abbrev busier : System
busier = record {
  table = ("j1", boot') ∷ ("j2", record boot { id = "j2"; sandbox_id = "s2" }) ∷ [];
  live = ("s1", "j1") ∷ [];
  closing = true;
  clock = 900;
}

claim-start : claim boot start ≡ (started, some boot')
unfolding claim claim_job update_row get put
claim-start = refl

-- Retries included, drain runs the job to its end.
drain-start :
    drain handlers 4 start
    ≡ some (record start {
      table =
          (
            "j1",
            record boot {
              state = succeeded;
              attempts = 3;
              run_after = 15_000_200;
              updated_at = 200;
              finished_at = some 200;
            },
          )
          ∷ [];
    })
unfolding drain drain_round list_jobs_by_state claim claim_job update_row execute settle
    settle_section release get put erase finish_job retry_job get_job retry_section
drain-start = refl

abbrev world : World
world = record { system = start; settled = λ sandbox_id. false; deleted = [] }

abbrev world' : World
world' = record { system = started; settled = mark (λ sandbox_id. false) "s1" false; deleted = [] }

claims : Reach handlers world world'
unfolding get_job get
claims = Reach.next Reach.here (
    Step.claim_some boot boot' started
      (λ row h. ap (λ (r : Job). r.sandbox_id) (sym (eq_of_some h))) claim-start)

only_boot : (id : String) (row : Job) → get start.table id ≡ some row → (id ≡ "j1") × (row ≡ boot)
unfolding get
only_boot id row h = elim (Bool-cases ("j1" == id)) [
  | inl same ↦ (sym ((==_iff "j1" id).0 same), sym (eq_of_some (rw same at h)))
  | inr other ↦ let h' = rw other at h in cc
]

start-InLimit : AllRows InLimit start.table
start-InLimit id row h =
    let (_, e) = only_boot id row h in
    rw e (record { bounded = omega arith; left = λ q. omega arith; used = λ r. cc })

start-IsKeyed : IsKeyed start.table
start-IsKeyed id row h = let (k, e) = only_boot id row h in rw (e, k) refl

start-IsInFlight : IsInFlight world
start-IsInFlight id row h =
    let (k, e) = only_boot id row h in
    rw (e, k) (record { keyed = refl; is_live = λ r. cc; unsettled = λ r. cc })

handlers-HasAttempts : HasAttempts handlers
unfolding get
handlers-HasAttempts kind handler h = elim (Bool-cases ("boot" == kind)) [
  | inl same ↦ rw (← (eq_of_some (rw same at h))) (omega arith)
  | inr other ↦ let h' = rw other at h in cc
]

handlers-HasBackoff : HasBackoff handlers
unfolding get
handlers-HasBackoff kind handler h = elim (Bool-cases ("boot" == kind)) [
  | inl same ↦ rw (← (eq_of_some (rw same at h))) (λ e. cc)
  | inr other ↦ let h' = rw other at h in cc
]

Reach-InLimit_example : AllRows InLimit world'.system.table
Reach-InLimit_example = Reach-InLimit handlers handlers-HasAttempts start-InLimit claims

running_once_example : (◌≡◌ {A = String} "j1" "j1") × (get started.live "s1" ≡ some "j1")
unfolding get
running_once_example =
    running_once handlers "j1" "j1" boot' boot' handlers-HasBackoff start-IsInFlight claims refl
      refl refl refl refl

delete_run :
    delete_sandbox_jobs "s1" busier.table
    ≡ ("j2", record boot { id = "j2"; sandbox_id = "s2" }) ∷ []
unfolding delete_sandbox_jobs erase
delete_run = refl

Reach-Evolves_example :
    (any (λ (s : String). s == "s1") [] ≡ true)
    ⊎ ((later : Job) × (get world'.system.table "j1" ≡ some later) × Evolves boot later)
unfolding get
Reach-Evolves_example = Reach-Evolves handlers "j1" boot refl claims

started-IsKeyed : IsKeyed started.table
unfolding get
started-IsKeyed id row h = elim (Bool-cases ("j1" == id)) [
  | inl same ↦ rw (← (eq_of_some (rw same at h))) ((==_iff "j1" id).0 same)
  | inr other ↦ let h' = rw other at h in cc
]

abbrev boot'' : Job
boot'' = record boot {
  state = queued;
  attempts = 0;
  last_error = some (text "interrupted by a restart");
  updated_at = 200;
}

recover-started : get (recover started).table "j1" ≡ some boot''
unfolding recover get put update_row requeue_job
recover-started = refl

recover-Stopped_example : is_running boot''.state ≡ false
recover-Stopped_example = recover-Stopped started "j1" boot'' started-IsKeyed recover-started

expire-start : get (expire_table 300 start.table) "j1" ≡ some boot
unfolding expire_table get put update_row finish_job overdue
expire-start = refl

expire_table-in_time_example : 300 ≤ 900_000_000
expire_table-in_time_example =
    expire_table-in_time 300 start.table "j1" boot 900_000_000 start-IsKeyed expire-start refl refl

start_has_boot : get start.table boot.id ≡ some boot
unfolding get
start_has_boot = refl

busier_unchanged : get busier.table "j1" ≡ get started.table "j1"
unfolding get
busier_unchanged = refl

claim-defer_example :
    get (defer_section boot' "full" 60 busier).0.table "j1"
    ≡ some (record boot {
      state = queued;
      last_error = some (waiting (text "full"));
      run_after = 900 + wait_poll * second;
      deadline = some (900 + (wait_poll + 60) * second);
      updated_at = 900;
    })
claim-defer_example =
    claim-defer boot boot' boot start started busier start-IsKeyed start_has_boot claim-start
      busier_unchanged "full" 60 (omega arith)

claim-retry_example :
    (after : Job) × (get (retry_section boot' flaky (text "no host") busier).0.table "j1"
      ≡ some after)
    × (after.attempts ≡ 1)
    × (is_queued after.state ≡ (ltb 1 3 && has_time boot.deadline (900 + 5 * second)))
    × (is_active after.state ≡ is_queued after.state)
unfolding backoff_delay
claim-retry_example =
    claim-retry boot boot' boot start started busier start-IsKeyed start_has_boot claim-start
      busier_unchanged flaky (text "no host") 5 refl
