-- ===== src/Jobs/Closed.antt =====
-- Properties of rows that the queue's statements keep: what has to hold of the single change of a
-- row, and the critical sections that then keep the property of all rows.
use zoo.Base.{
  ℕ, ◌+◌, ◌*◌, ◌<◌, String, string_eq, ◌≡◌, refl, sym, ◌∙◌, subst, true, false, ◌&&◌, Option, none,
  some, List, [], ◌∷◌, ltb, leb, Bool-cases, inl, inr, ltb→lt, and-eq_true, eq_of_some,
}
use zoo.Base.Dict.{get}
use zoo.Jobs.Table.{
  Job, JobState, succeeded, failed, Table, Message, text, waiting, waited, is_running, is_active,
  retried_row, requeued_row, deferred_row, finished_row, finish_job, requeue_job, retry_job,
  defer_job, get_job, queued, running, list_jobs_by_state,
}
use zoo.Jobs.Queue.{
  Handler, System, Outcome, done, wait, raised, retry_row, retry_after_delay, defer_row,
  settle_section, backoff_delay, has_time, stamp, max_wait, second, wait_poll, error_text,
}
use zoo.Jobs.Loop.{
  overdue, expire_row, expire_rows, expire_table, requeue_all, end_shutdown, live_ids,
}
use zoo.Jobs.Rows.{AllRows, AllRows-update_row}

pub record Closed (P : String → Job → Type 0) : Type 0 where
  pub finish :
      (id : String) (row : Job) (state : JobState) (error : Option Message) (now : ℕ)
      → is_active state ≡ false
      → P id row
      → is_active row.state ≡ true
      → P id (finished_row state error now row)
  pub retry :
      (id : String) (row : Job) (error : Message) (run_after now : ℕ)
      → P id row
      → is_running row.state ≡ true
      → row.attempts < row.max_attempts
      → P id (retried_row error run_after now row)
  pub defer :
      (id : String) (row : Job) (error : Message) (run_after deadline now : ℕ)
      → P id row
      → is_running row.state ≡ true
      → P id (deferred_row error run_after deadline now row)
  pub requeue :
      (id : String) (row : Job) (error : Message) (now : ℕ)
      → P id row
      → is_running row.state ≡ true
      → P id (requeued_row error now row)

-- The same of a property of the whole table, statement by statement.
pub record Keeps (Q : Table → Type 0) : Type 0 where
  pub finish :
      (state : JobState) (error : Option Message) (now : ℕ) (id : String) (table : Table)
      → is_active state ≡ false
      → Q table
      → Q (finish_job state error now id table)
  pub retry :
      (error : Message) (run_after now : ℕ) (id : String) (table : Table) (row : Job)
      → get table id ≡ some row
      → row.attempts < row.max_attempts
      → Q table
      → Q (retry_job error run_after now id table)
  pub defer :
      (error : Message) (run_after deadline now : ℕ) (id : String) (table : Table)
      → Q table
      → Q (defer_job error run_after deadline now id table)
  pub requeue :
      (error : Message) (now : ℕ) (id : String) (table : Table)
      → Q table
      → Q (requeue_job error now id table)

pub Keeps-AllRows : (P : String → Job → Type 0) → Closed P → Keeps (AllRows P)
unfolding finish_job retry_job defer_job requeue_job
Keeps-AllRows P closed = record {
  finish = λ state error now id table ended old.
      AllRows-update_row P is_active (finished_row state error now) table id old
        (λ row h. closed.finish id row state error now ended (old id row h));
  retry = λ error run_after now id table current found room old.
      AllRows-update_row P is_running (retried_row error run_after now) table id old (λ row h runs.
        closed.retry id row error run_after now (old id row h) runs
          (subst (λ (r : Job). r.attempts < r.max_attempts) (eq_of_some (sym found ∙ h)) room));
  defer = λ error run_after deadline now id table old.
      AllRows-update_row P is_running (deferred_row error run_after deadline now) table id old
        (λ row h. closed.defer id row error run_after deadline now (old id row h));
  requeue = λ error now id table old.
      AllRows-update_row P is_running (requeued_row error now) table id old
        (λ row h. closed.requeue id row error now (old id row h));
}

module _ (Q : Table → Type 0) (keeps : Keeps Q) where
  pub requeue_all-Keeps :
      (error : Message) (now : ℕ) (ids : List String) (table : Table)
      → Q table
      → Q (requeue_all error now ids table)
  unfolding requeue_all
  requeue_all-Keeps error now [] table old = old
  requeue_all-Keeps error now (id ∷ ids) table old =
      requeue_all-Keeps error now ids (requeue_job error now id table)
        (keeps.requeue error now id table old)

  pub end_shutdown-Keeps : (s : System) → Q s.table → Q (end_shutdown s).table
  unfolding end_shutdown
  end_shutdown-Keeps s old =
      requeue_all-Keeps (text "interrupted by a shutdown") s.clock (live_ids s.live) s.table old

  expire_row-Keeps :
      (now : ℕ) (job : Job) (reason : Option Message) (table : Table)
      → Q table
      → Q (expire_row now job reason table)
  expire_row-Keeps now job none table old = old
  expire_row-Keeps now job (some reason) table old =
      keeps.finish failed (some reason) now job.id table refl old

  pub expire_rows-Keeps :
      (now : ℕ) (jobs : List Job) (table : Table) → Q table → Q (expire_rows now jobs table)
  unfolding expire_rows
  expire_rows-Keeps now [] table old = old
  expire_rows-Keeps now (job ∷ jobs) table old =
      expire_rows-Keeps now jobs _ (expire_row-Keeps now job (overdue now job) table old)

  pub expire_table-Keeps : (now : ℕ) (table : Table) → Q table → Q (expire_table now table)
  unfolding expire_table
  expire_table-Keeps now table old =
      let first = list_jobs_by_state running table in
      expire_rows-Keeps now (list_jobs_by_state queued (expire_rows now first table))
        (expire_rows now first table) (expire_rows-Keeps now first table old)

  retry_row-Keeps :
      (job : Job) (error : Message) (delay : ℕ) (found : Option Job) (s : System)
      → get s.table job.id ≡ found
      → Q s.table
      → Q (retry_row job error delay found s).0.table
  retry_row-Keeps job error delay none s e old = old
  retry_row-Keeps job error delay (some current) s e old =
      elim (Bool-cases (is_running current.state)) [
        | inr gone ↦ rw gone old
        | inl runs ↦
            rw runs
              (elim (Bool-cases (
                ltb current.attempts current.max_attempts
                && has_time current.deadline (stamp s delay))) [
                  | inl room ↦ rw room (
                      keeps.retry error (stamp s delay) s.clock job.id s.table current e
                        (ltb→lt _ _ (and-eq_true _ _ room).0) old)
                  | inr full ↦
                      rw full (keeps.finish failed (some error) s.clock job.id s.table refl old)
                ])
      ]

  retry_after_delay-Keeps :
      (job : Job) (error : Message) (delay : Option ℕ) (s : System)
      → Q s.table
      → Q (retry_after_delay job error delay s).0.table
  unfolding get_job
  retry_after_delay-Keeps job error none s old = old
  retry_after_delay-Keeps job error (some delay) s old =
      retry_row-Keeps job error delay (get s.table job.id) s refl old

  defer_row-Keeps :
      (job : Job) (reason : String) (window : ℕ) (found : Option Job) (s : System)
      → Q s.table
      → Q (defer_row job reason window found s).0.table
  defer_row-Keeps job reason window none s old = old
  defer_row-Keeps job reason window (some current) s old =
      elim (Bool-cases (is_running current.state)) [
        | inr gone ↦ rw gone old
        | inl runs ↦
            rw runs (elim (Bool-cases (leb s.clock (current.created_at + max_wait * second))) [
              | inl young ↦ rw young (
                  keeps.defer (waiting (text reason)) (stamp s wait_poll)
                    (stamp s (wait_poll + window)) s.clock job.id s.table old)
              | inr late ↦ rw late (
                  keeps.finish failed (some (waited 2 (text reason))) s.clock job.id s.table refl
                    old)
            ])
      ]

  pub settle_section-Keeps :
      (job : Job) (handler : Handler) (outcome : Outcome) (s : System)
      → Q s.table
      → Q (settle_section job handler outcome s).0.table
  unfolding settle_section
  settle_section-Keeps job handler done s old =
      keeps.finish succeeded none s.clock job.id s.table refl old
  settle_section-Keeps job handler (wait reason window) s old =
      defer_row-Keeps job reason window (get_job s.table job.id) s old
  settle_section-Keeps job handler (raised said name) s old =
      retry_after_delay-Keeps job (error_text said name)
        (backoff_delay job.attempts handler.backoff) s old
