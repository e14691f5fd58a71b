-- ===== src/Jobs/Attempts.antt =====
-- A job is never run more often than its limit allows.
use zoo.Base.{◌≤◌, ◌<◌, String, string_eq, ◌≡◌, sym, subst, true, some, arith}
use zoo.Base.Dict.{get}
use zoo.Jobs.Table.{Job, claimed_row, is_queued, is_running, get_job}
use zoo.Jobs.Queue.{Handlers, Handler, System, release}
use zoo.Jobs.Loop.{start_shutdown}
use zoo.Jobs.Rows.{
  AllRows, AllRows-update_row, AllRows-insert_row, AllRows-cancel_sandbox_jobs,
  AllRows-delete_sandbox_jobs,
}
use zoo.Jobs.Closed.{
  Closed, Keeps-AllRows, end_shutdown-Keeps, expire_table-Keeps, settle_section-Keeps,
}
use zoo.Jobs.Inversion.{Claimed, claim-eq-some, claim-eq-none, enqueue-eq-some}
use zoo.Jobs.Threads.{World, Step, Reach}

-- A queued job has an attempt left, and a running one has used one.
pub record InLimit (id : String) (row : Job) : Type 0 where
  pub bounded : row.attempts ≤ row.max_attempts
  pub left : is_queued row.state ≡ true → row.attempts < row.max_attempts
  pub used : is_running row.state ≡ true → 1 ≤ row.attempts

Closed-InLimit : Closed InLimit
Closed-InLimit = record {
  finish = λ id row state error now ended h active. record {
    bounded = h.bounded;
    left = λ q. ground arith;
    used = λ r. ground arith;
  };
  retry = λ id row error run_after now h runs room. record {
    bounded = h.bounded;
    left = λ q. room;
    used = λ r. ground arith;
  };
  defer = λ id row error run_after deadline now h runs.
      let one = h.used runs in
      record {
        bounded = omega (arith, h.bounded);
        left = λ q. omega (arith, h.bounded);
        used = λ r. cc;
      };
  requeue = λ id row error now h runs.
      let one = h.used runs in
      record {
        bounded = omega (arith, h.bounded);
        left = λ q. omega (arith, h.bounded);
        used = λ r. cc;
      };
}

-- Every registered handler allows at least one attempt.
abbrev pub HasAttempts : Handlers → Type 0
HasAttempts handlers =
    (kind : String) (handler : Handler) → get handlers kind ≡ some handler → 1 ≤ handler.attempts

claim-InLimit :
    (job claimed : Job) (s s' : System)
    → Claimed job claimed s s'
    → AllRows InLimit s.table
    → AllRows InLimit s'.table
claim-InLimit job claimed s s' c old = subst (AllRows InLimit) (sym c.table) (
    AllRows-update_row InLimit is_queued (claimed_row s.clock) s.table job.id old (λ row h queued.
      let ok = (old job.id row h) in
      let room = ok.left queued in
      record { bounded = omega arith; left = λ q. cc; used = λ r. omega arith }))

pub table-release : (job : Job) (s : System) → (release job s).table ≡ s.table
unfolding release
table-release job s = ground arith

Step-InLimit :
    (handlers : Handlers) {w v : World}
    → HasAttempts handlers
    → Step handlers w v
    → AllRows InLimit w.system.table
    → AllRows InLimit v.system.table
unfolding get_job start_shutdown
Step-InLimit handlers r (Step.tick n) old = old
Step-InLimit handlers {w} r (Step.queue id sandbox_id kind args deadline s free e) old =
    let q = enqueue-eq-some handlers id sandbox_id kind args deadline w.system s e in
    subst (λ (t : System). AllRows InLimit t.table) (sym q.system)
      (AllRows-insert_row InLimit w.system.table id _ free old (record {
        bounded = omega arith;
        left = λ is_q. r kind q.handler q.registered;
        used = λ is_r. cc;
      }))
Step-InLimit handlers {w} r (Step.cancel sandbox_id) old =
    AllRows-cancel_sandbox_jobs InLimit w.system.clock sandbox_id w.system.table old
      (λ id row h queued. record {
        bounded = (old id row h).bounded;
        left = λ q. cc;
        used = λ is_r. cc;
      })
Step-InLimit handlers {w} r (Step.delete sandbox_id) old =
    AllRows-delete_sandbox_jobs InLimit sandbox_id w.system.table old
Step-InLimit handlers {w} r (Step.claim_none job s e) old =
    subst (λ (t : System). AllRows InLimit t.table) (sym (claim-eq-none job w.system s e)) old
Step-InLimit handlers {w} r (Step.claim_some job claimed s read e) old =
    claim-InLimit job claimed w.system s (claim-eq-some job claimed w.system s e) old
Step-InLimit handlers {w} r (Step.settle job handler outcome live unsettled registered) old =
    settle_section-Keeps (AllRows InLimit) (Keeps-AllRows InLimit Closed-InLimit) job handler
      outcome w.system old
Step-InLimit handlers {w} r (Step.leave job live settled) old =
    subst (AllRows InLimit) (sym (table-release job w.system)) old
Step-InLimit handlers {w} r Step.expire old =
    expire_table-Keeps (AllRows InLimit) (Keeps-AllRows InLimit Closed-InLimit) w.system.clock
      w.system.table old
Step-InLimit handlers r Step.closing old = old
Step-InLimit handlers {w} r Step.stop old =
    end_shutdown-Keeps (AllRows InLimit) (Keeps-AllRows InLimit Closed-InLimit) w.system old

-- From a table whose jobs are all within their limits, an empty one for instance, and whatever the
-- threads, handlers and requests do in whatever order: the attempts counted for a job never pass
-- max_attempts, every queued job has an attempt left, and every running job has used one.
pub Reach-InLimit :
    (handlers : Handlers) {start w : World}
    → HasAttempts handlers
    → AllRows InLimit start.system.table
    → Reach handlers start w
    → AllRows InLimit w.system.table
Reach-InLimit handlers r old Reach.here = old
Reach-InLimit handlers r old (Reach.next before step) =
    Step-InLimit handlers r step (Reach-InLimit handlers r old before)
