-- ===== src/Jobs/Queue.antt =====
-- The class `Jobs` of apps/server/jobs.py: each method as a function of the system's state.
--
-- `System` is the state that the methods share: the table, `live` (sandbox id to job id, for every
-- job whose thread is still running), `closing`, and the clock, in microseconds, that the
-- statements and datetime.now read; within one critical section it stands still. What a handler
-- does when it runs, and when its job fails for good, is given: `Handler` has both as functions of
-- the system, with what the run returned or raised. Logging and metrics are left out, and so is
-- the wake-up event of the loop, which only shortens its sleep.
use zoo.Base.{
  ℕ, zero, suc, ◌+◌, ◌*◌, ◌/◌, String, string_eq, ◌==◌, nat_beq, Bool, true, false, not, ◌&&◌,
  Option, none, some, List, [], ◌∷◌, ltb, leb, if◌then◌else◌, length, is_some,
}
use zoo.Base.Dict.{Dict, get, put, erase}
use zoo.Jobs.Table.{
  Job, Table, Message, text, waiting, waited, succeeded, failed, is_running, create_job, get_job,
  claim_job, retry_job, defer_job, finish_job,
}

abbrev pub second : ℕ
second = 1_000_000

abbrev pub parallel : ℕ
parallel = 8

abbrev pub max_wait : ℕ
max_wait = 2 * 3600

abbrev pub wait_poll : ℕ
wait_poll = 15

pub record System : Type 0 where
  pub table : Table
  pub live : Dict String String
  pub closing : Bool
  pub clock : ℕ

-- How a handler's run ends: it returns, raises Wait, or raises another exception, which has a text
-- and a class name.
pub data Outcome : Type 0 where
  done : Outcome
  wait : (reason : String) (window : ℕ) → Outcome
  raised : (said name : String) → Outcome

pub record Handler : Type 0 where
  pub run : Job → System → System × Outcome
  pub attempts : ℕ
  pub backoff : List ℕ
  pub on_failed : Option (Job → Message → System → System)

abbrev pub Handlers : Type 0
Handlers = Dict String Handler

-- stamp(seconds)
abbrev pub stamp : System → ℕ → ℕ
stamp s seconds = s.clock + seconds * second

-- stamp(deadline_seconds) if deadline_seconds else None
abbrev pub deadline_of : System → Option ℕ → Option ℕ
deadline_of s none = none
deadline_of s (some seconds) = if nat_beq seconds 0 then none else some (stamp s seconds)

abbrev pub stored : System → Option Table → Option System
stored s none = none
stored s (some table) = some (record s { table = table })

abbrev pub enqueue_with :
    System → String → String → String → String → Option ℕ → Option Handler → Option System
enqueue_with s id sandbox_id kind args deadline_seconds none = none
enqueue_with s id sandbox_id kind args deadline_seconds (some handler) = stored s (
    create_job s.clock
      (record {
        id = id;
        sandbox_id = sandbox_id;
        kind = kind;
        args = args;
        max_attempts = handler.attempts;
        deadline = deadline_of s deadline_seconds;
      })
      s.table)

-- `none` where the kind has no handler (KeyError) or the id is taken. `id` is the fresh uuid.
unfoldable pub enqueue :
    Handlers → String → String → String → String → Option ℕ → System → Option System
enqueue handlers id sandbox_id kind args deadline_seconds s =
    enqueue_with s id sandbox_id kind args deadline_seconds (get handlers kind)

abbrev pub runs : Option Job → Bool
runs none = false
runs (some current) = is_running current.state

unfoldable pub owns : Job → System → Bool
owns job s = runs (get_job s.table job.id)

abbrev pub take_live : System → Table × Option Job → System × Option Job
take_live s (table, none) = (record s { table = table }, none)
take_live s (table, some job) =
    (record s { table = table; live = put s.live job.sandbox_id job.id }, some job)

unfoldable pub claim : Job → System → System × Option Job
claim job s =
    if is_some (get s.live job.sandbox_id)
    then (s, none)
    else take_live s (claim_job s.clock job.id s.table)

-- handler.backoff[min(job.attempts - 1, len(handler.backoff) - 1)]. The index -1 of a job with no
-- attempt reads the last delay, and an empty tuple has none (IndexError).
unfoldable pub nth_delay : ℕ → List ℕ → Option ℕ
nth_delay n [] = none
nth_delay n (delay ∷ []) = some delay
nth_delay zero (delay ∷ other ∷ delays) = some delay
nth_delay (suc n) (delay ∷ other ∷ delays) = nth_delay n (other ∷ delays)

unfoldable pub backoff_delay : ℕ → List ℕ → Option ℕ
unfolding nth_delay
backoff_delay zero delays = nth_delay (length delays) delays
backoff_delay (suc n) delays = nth_delay n delays

-- What the end of a run made of its job.
pub data Settled : Type 0 where
  completed : Settled
  lost : Settled
  retried : Settled
  deferred : Settled
  gave_up : Message → Settled
  index_error : Settled

abbrev pub has_time : Option ℕ → ℕ → Bool
has_time none at = true
has_time (some deadline) at = ltb at deadline

-- The critical section of retry_or_fail, on the row that it reads.
abbrev pub retry_row : Job → Message → ℕ → Option Job → System → System × Settled
retry_row job error delay none s = (s, lost)
retry_row job error delay (some current) s =
    if not (is_running current.state)
    then (s, lost)
    else if ltb current.attempts current.max_attempts && has_time current.deadline (stamp s delay)
    then (record s { table = retry_job error (stamp s delay) s.clock job.id s.table }, retried)
    else (record s { table = finish_job failed (some error) s.clock job.id s.table }, gave_up error)

abbrev pub call_failed : Option Handler → Job → Message → System → System
call_failed none job error s = s
call_failed (some handler) job error s = elim handler.on_failed [
  | none ↦ s
  | some on_failed ↦ on_failed job error s
]

-- An exception of the callback is logged and goes no further.
unfoldable pub give_up : Handlers → Job → Message → System → System
give_up handlers job error s = call_failed (get handlers job.kind) job error s

abbrev pub retry_after_delay : Job → Message → Option ℕ → System → System × Settled
retry_after_delay job error none s = (s, index_error)
retry_after_delay job error (some delay) s = retry_row job error delay (get_job s.table job.id) s

-- The critical section of retry_or_fail; the delay is read before it.
unfoldable pub retry_section : Job → Handler → Message → System → System × Settled
unfolding backoff_delay
retry_section job handler error s =
    retry_after_delay job error (backoff_delay job.attempts handler.backoff) s

abbrev pub defer_row : Job → String → ℕ → Option Job → System → System × Settled
defer_row job reason window none s = (s, lost)
defer_row job reason window (some current) s =
    if not (is_running current.state)
    then (s, lost)
    else if leb s.clock (current.created_at + max_wait * second)
    then (
      record s {
        table =
            defer_job (waiting (text reason)) (stamp s wait_poll) (stamp s (wait_poll + window))
              s.clock job.id s.table;
      },
      deferred,
    )
    else let error = waited (max_wait / 3600) (text reason) in
      (record s { table = finish_job failed (some error) s.clock job.id s.table }, gave_up error)

unfoldable pub defer_section : Job → String → ℕ → System → System × Settled
defer_section job reason window s = defer_row job reason window (get_job s.table job.id) s

-- str(e) or e.__class__.__name__
abbrev pub error_text : String → String → Message
error_text said name = text (if said == "" then name else said)

-- The critical section that ends a run: the `else` branch of execute, or that of the method which
-- its `except` branch calls.
unfoldable pub settle_section : Job → Handler → Outcome → System → System × Settled
unfolding retry_section defer_section
settle_section job handler done s =
    (record s { table = finish_job succeeded none s.clock job.id s.table }, completed)
settle_section job handler (wait reason window) s = defer_section job reason window s
settle_section job handler (raised said name) s = retry_section job handler (error_text said name) s

-- The call of give_up behind the critical sections.
abbrev pub then_give_up : Handlers → Job → System × Settled → System × Settled
then_give_up handlers job (s, gave_up error) = (give_up handlers job error s, gave_up error)
then_give_up handlers job (s, settled) = (s, settled)

unfoldable pub retry_or_fail : Handlers → Job → Handler → Message → System → System × Settled
unfolding retry_section give_up
retry_or_fail handlers job handler error s =
    then_give_up handlers job (retry_section job handler error s)

unfoldable pub defer : Handlers → Job → String → ℕ → System → System × Settled
unfolding defer_section give_up
defer handlers job reason window s = then_give_up handlers job (defer_section job reason window s)

-- Both branches of execute's `try`, with the calls of give_up.
unfoldable pub settle : Handlers → Job → Handler → Outcome → System → System
unfolding settle_section give_up
settle handlers job handler outcome s =
    (then_give_up handlers job (settle_section job handler outcome s)).0

abbrev pub is_that : Option String → String → Bool
is_that none id = false
is_that (some other) id = other == id

-- The `finally` branch of execute.
unfoldable pub release : Job → System → System
release job s =
    if is_that (get s.live job.sandbox_id) job.id
    then record s { live = erase s.live job.sandbox_id }
    else s

abbrev pub execute_with : Handlers → Job → Option Handler → System → System
execute_with handlers job none s = s
execute_with handlers job (some handler) s =
    let (s', outcome) = handler.run job s in release job (settle handlers job handler outcome s')

-- A kind with no handler raises KeyError before anything is done.
unfoldable pub execute : Handlers → Job → System → System
execute handlers job s = execute_with handlers job (get handlers job.kind) s
