-- ===== src/Writer.antt =====
-- apps/server/writer.py: the queue of log entries, written in batches.
--
-- `Writer` has the queue, its count of unfinished tasks, the events and the flags. Whether a batch's
-- transaction commits is given, as a function of its rows. Times are whole units, quantities whole parts of a
-- unit. What is left out: the 50 ms that a round waits at most, and the logger.
pub mod Statements
pub mod Pending
pub mod Totals
pub mod Close
pub mod Examples
use zoo.Base.{
  ℕ, zero, suc, ◌+◌, ◌-◌, String, Bool, true, false, not, ◌&&◌, ◌||◌, Option, none, some, List, [],
  ◌∷◌, ◌++◌, ltb, leb, nat_beq, if◌then◌else◌, length, take, drop, string_eq, ◌==◌,
}
use zoo.Writer.Statements.{
  audit_row, Entry, start_row, finish_row, touch_row, usage_row, Database, persist,
}

abbrev pub batch_rows : ℕ
batch_rows = 500

abbrev pub max_pending : ℕ
max_pending = 10000

pub record Writer : Type 0 where
  pub queue : List Entry
  pub unfinished : ℕ
  pub drained : Bool
  pub accepting : Bool
  -- loop and wake are set
  pub started : Bool
  pub wake : Bool

-- __init__
abbrev pub new_writer : Writer
new_writer = record {
  queue = [];
  unfinished = 0;
  drained = true;
  accepting = false;
  started = false;
  wake = false;
}

-- start, of a writer that has no task
unfoldable pub start : Writer → Writer
start w = record w { started = true; wake = false; accepting = true }

-- put_nowait behind the lock; an entry too many is discarded
unfoldable pub put : Entry → Writer → Writer
put entry w =
    if ltb (length w.queue) max_pending
    then record w { queue = w.queue ++ entry ∷ []; unfinished = w.unfinished + 1; drained = false }
    else w

-- Behind an entry that was put, a full batch wakes the loop.
unfoldable pub wake_loop : Writer → Writer
wake_loop w = record w { wake = w.wake || leb batch_rows (length w.queue) }

-- enqueue; `none` where it raises
unfoldable pub enqueue : Entry → Writer → Option Writer
unfolding put wake_loop
enqueue entry w =
    if not w.accepting || not w.started
    then none
    else some (if ltb (length w.queue) max_pending then wake_loop (put entry w) else put entry w)

abbrev pub and_touch : String → ℕ → Option Writer → Option Writer
and_touch sandbox_id at none = none
and_touch sandbox_id at (some w) = enqueue (touch_row sandbox_id at) w

unfoldable pub execution : String → String → String → String → ℕ → Writer → Option Writer
unfolding enqueue
execution id sandbox_id tool_name input now w =
    and_touch sandbox_id now (enqueue (start_row id sandbox_id tool_name input now now) w)

abbrev pub ends : String → Bool
ends status = status == "completed" || status == "failed" || status == "cancelled"

-- `none` also for a status that does not complete an execution (ValueError)
unfoldable pub finish : String → String → Option String → Option String → ℕ → Writer → Option Writer
unfolding enqueue
finish id status output error now w =
    if ends status then enqueue (finish_row id status output error now) w else none

-- audit, of a row with these columns and the texts that are only copied
unfoldable pub audit :
    String → String → Option String → Option String → String → ℕ → Writer → Option Writer
unfolding enqueue
audit id workspace_id actor_id sandbox_id action now w =
    enqueue (audit_row id workspace_id actor_id sandbox_id action now) w

unfoldable pub touch : String → ℕ → Writer → Option Writer
unfolding enqueue
touch sandbox_id at w = enqueue (touch_row sandbox_id at) w

-- `hour` is at.replace(minute=0, second=0, microsecond=0); a quantity of zero is not written.
unfoldable pub usage : String → String → String → ℕ → (hour : ℕ) → Writer → Option Writer
unfolding enqueue
usage workspace_id sandbox_id metric quantity hour w =
    if nat_beq quantity 0
    then some w
    else enqueue (usage_row workspace_id sandbox_id metric hour quantity) w

-- The rows of a batch, as get_nowait takes them.
unfoldable pub take_batch : Writer → List Entry × Writer
take_batch w = (take batch_rows w.queue, record w { queue = drop batch_rows w.queue })

-- task_done for each row, and drained where nothing is left
unfoldable pub settle : List Entry → Writer → Writer
settle rows w =
    let left = w.unfinished - length rows in
    record w { unfinished = left; drained = if nat_beq left 0 then true else w.drained }

-- The transaction: it commits or is rolled back, and then the entries are lost.
unfoldable pub write : (List Entry → Bool) → List Entry → Database → Database
unfolding persist
write commits [] db = db
write commits (entry ∷ rows) db = if commits (entry ∷ rows) then persist (entry ∷ rows) db else db

unfoldable pub batch : (List Entry → Bool) → Writer × Database → Writer × Database
unfolding take_batch settle write
batch commits (w, db) = let (rows, w') = take_batch w in (settle rows w', write commits rows db)

-- One round of run, behind the wait.
unfoldable pub run_round : (List Entry → Bool) → Writer × Database → Writer × Database
unfolding batch
run_round commits (w, db) =
    let (w', db') = batch commits (record w { wake = false }, db) in
    (record w' { wake = leb batch_rows (length w'.queue) }, db')

-- `while not self.queue.empty(): await self.batch()`, as in close and in the rounds of run that close awaits, on
-- fuel; `none` where it runs out
unfoldable pub drain : ℕ → (List Entry → Bool) → Writer × Database → Option (Writer × Database)
unfolding batch
drain zero commits (w, db) = none
drain (suc fuel) commits (w, db) =
    let again = drain fuel commits (batch commits (w, db)) in
    if nat_beq (length w.queue) 0 then some (w, db) else again

abbrev pub closed : Option (Writer × Database) → Option (Writer × Database)
closed none = none
closed (some (w, db)) = some (record w { started = false; wake = false; drained = true }, db)

-- close, where no other thread puts an entry meanwhile
unfoldable pub close : ℕ → (List Entry → Bool) → Writer × Database → Option (Writer × Database)
unfolding drain
close fuel commits (w, db) =
    closed (drain fuel commits (record w { accepting = false; wake = true }, db))
