-- ===== src/Jobs/Loop.antt =====
-- The loops of the class `Jobs`: expire, recover, one pass of run, shutdown, and drain, which runs
-- queued jobs in the calling thread.
use zoo.Base.{
  ℕ, zero, suc, ◌+◌, ◌-◌, ◌*◌, ◌/◌, ◌%◌, String, string_eq, ◌==◌, nat_beq, true, false, not, ◌||◌,
  Option, none, some, List, [], ◌∷◌, ◌++◌, ltb, leb, if◌then◌else◌, keep, length, is_some,
}
use zoo.Base.Dict.{Dict, get}
use zoo.Jobs.Table.{
  Job, Table, Message, text, timed_out, timed_out_after, queued, running, failed,
  list_jobs_by_state, list_due_jobs, requeue_job, finish_job,
}
use zoo.Jobs.Queue.{Handlers, System, second, parallel, claim, execute, give_up}

-- round(): to the nearest number, and half way to the even one.
unfoldable pub round_div : ℕ → ℕ → ℕ
round_div a b =
    let down = a / b in
    if ltb (2 * (a % b)) b
    then down
    else if ltb b (2 * (a % b)) || nat_beq (down % 2) 1
    then down + 1
    else down

abbrev pub timed_out_text : ℕ → Option Message → Message
timed_out_text minutes none = timed_out minutes
timed_out_text minutes (some (text said)) =
    if said == "" then timed_out minutes else timed_out_after minutes (text said)
timed_out_text minutes (some said) = timed_out_after minutes said

-- The reason, for a deadline that has passed. A deadline is never set before created_at.
abbrev pub overdue_for : ℕ → Job → Option ℕ → Option Message
overdue_for now job none = none
overdue_for now job (some deadline) =
    if ltb deadline now
    then some (timed_out_text (round_div (deadline - job.created_at) (60 * second)) job.last_error)
    else none

unfoldable pub overdue : ℕ → Job → Option Message
unfolding round_div
overdue now job = overdue_for now job job.deadline

-- The inner `for` loop of expire over the jobs of one state.
abbrev pub expire_row : ℕ → Job → Option Message → Table → Table
expire_row now job none table = table
expire_row now job (some reason) table = finish_job failed (some reason) now job.id table

unfoldable pub expire_rows : ℕ → List Job → Table → Table
unfolding overdue
expire_rows now [] table = table
expire_rows now (job ∷ jobs) table =
    expire_rows now jobs (expire_row now job (overdue now job) table)

abbrev pub with_reason : Job → Option Message → List (Job × Message) → List (Job × Message)
with_reason job none expired = expired
with_reason job (some reason) expired = (job, reason) ∷ expired

-- The list `expired`, in its order.
unfoldable pub expired_of : ℕ → List Job → List (Job × Message)
unfolding overdue
expired_of now [] = []
expired_of now (job ∷ jobs) = with_reason job (overdue now job) (expired_of now jobs)

unfoldable pub give_up_all : Handlers → List (Job × Message) → System → System
unfolding give_up
give_up_all handlers [] s = s
give_up_all handlers ((job, reason) ∷ expired) s =
    give_up_all handlers expired (give_up handlers job reason s)

-- The rows that the critical section of expire leaves: first the running jobs, then the queued.
unfoldable pub expire_table : ℕ → Table → Table
unfolding expire_rows list_jobs_by_state
expire_table now table =
    let table' = expire_rows now (list_jobs_by_state running table) table in
    expire_rows now (list_jobs_by_state queued table') table'

unfoldable pub expire : Handlers → System → System
unfolding expire_table expired_of give_up_all
expire handlers s =
    let table' = expire_rows s.clock (list_jobs_by_state running s.table) s.table in
    let expired =
      expired_of s.clock (list_jobs_by_state running s.table)
      ++ expired_of s.clock (list_jobs_by_state queued table') in
    give_up_all handlers expired (record s { table = expire_table s.clock s.table })

unfoldable pub requeue_all : Message → ℕ → List String → Table → Table
requeue_all reason now [] table = table
requeue_all reason now (id ∷ ids) table =
    requeue_all reason now ids (requeue_job reason now id table)

unfoldable pub ids_of : List Job → List String
ids_of [] = []
ids_of (job ∷ jobs) = job.id ∷ ids_of jobs

unfoldable pub recover : System → System
unfolding requeue_all ids_of list_jobs_by_state
recover s =
    let ids = ids_of (list_jobs_by_state running s.table) in
    record s { table = requeue_all (text "interrupted by a restart") s.clock ids s.table }

-- The `for` loop of run over the due jobs: the state that it leaves, and the claimed jobs, for each
-- of which a thread is started that runs execute.
unfoldable pub dispatch : List Job → System → System × List Job
dispatch [] s = (s, [])
dispatch (job ∷ due) s = elim (s.closing || leb parallel (length s.live)) [
  | true ↦ (s, [])
  | false ↦
      let (s', claimed) = claim job s in
      let (s'', started) = dispatch due s' in
      (s'', elim claimed [ none ↦ started | some job' ↦ job' ∷ started ])
]

-- One round of the `while` loop of run.
unfoldable pub run_pass : Handlers → System → System × List Job
unfolding expire dispatch list_due_jobs
run_pass handlers s = let s' = expire handlers s in dispatch (list_due_jobs s'.clock s'.table) s'

-- shutdown before its wait, and behind it: what threads have not ended by then is requeued.
unfoldable pub start_shutdown : System → System
start_shutdown s = record s { closing = true }

unfoldable pub live_ids : Dict String String → List String
live_ids [] = []
live_ids ((sandbox_id, id) ∷ live) = id ∷ live_ids live

unfoldable pub end_shutdown : System → System
unfolding requeue_all live_ids
end_shutdown s = record s {
  table = requeue_all (text "interrupted by a shutdown") s.clock (live_ids s.live) s.table;
}

-- drain: the queued jobs whose sandbox is not busy, claimed and executed one by one.
unfoldable pub pending : System → List Job
unfolding list_jobs_by_state
pending s =
    keep (λ job. not (is_some (get s.live job.sandbox_id))) (list_jobs_by_state queued s.table)

abbrev pub execute_claimed : Handlers → System × Option Job → System
execute_claimed handlers (s, none) = s
execute_claimed handlers (s, some job) = execute handlers job s

unfoldable pub drain_round : Handlers → List Job → System → System
unfolding claim execute
drain_round handlers [] s = s
drain_round handlers (job ∷ jobs) s =
    drain_round handlers jobs (execute_claimed handlers (claim job s))

-- The `while` loop on fuel; `none` where the fuel runs out.
unfoldable pub drain : Handlers → ℕ → System → Option System
unfolding pending drain_round
drain handlers zero s = none
drain handlers (suc fuel) s = elim (pending s) [
  | [] ↦ some s
  | job ∷ jobs ↦ drain handlers fuel (drain_round handlers (job ∷ jobs) s)
]
