-- ===== src/Jobs/Threads.antt =====
-- The threads of one process that work on the queue, as interleaved steps. Each step is a critical
-- section of `Jobs` or one statement of another part of the program; what happens between two of
-- them is any number of other steps.
use zoo.Base.{
  ℕ, ◌+◌, String, string_eq, ◌==◌, ◌≡◌, Bool, true, false, Option, none, some, List, ◌∷◌,
  if◌then◌else◌,
}
use zoo.Base.Dict.{get}
use zoo.Jobs.Table.{Job, cancel_sandbox_jobs, delete_sandbox_jobs, get_job}
use zoo.Jobs.Queue.{Handlers, Handler, System, Outcome, enqueue, claim, settle_section, release}
use zoo.Jobs.Loop.{expire_table, start_shutdown, end_shutdown}

-- The system; for each sandbox whether the run of its live thread has been settled: whether that
-- thread stands before or behind the critical section that ends its run; and the sandboxes deleted.
pub record World : Type 0 where
  pub system : System
  pub open system use *
  pub settled : String → Bool
  pub deleted : List String

abbrev pub mark : (String → Bool) → String → Bool → String → Bool
mark settled sandbox_id value other = if sandbox_id == other then value else settled other

module _ (handlers : Handlers) where
  pub data Step (w : World) : World → Type 0 where
    -- time passes
    tick : (n : ℕ) → Step w (record w { system = record w.system { clock = w.system.clock + n } })
    -- a request queues a job under a fresh id
    queue :
        (id sandbox_id kind args : String) (deadline_seconds : Option ℕ) (s : System)
        → get_job w.system.table id ≡ none
        → enqueue handlers id sandbox_id kind args deadline_seconds w.system ≡ some s
        → Step w (record w { system = s })
    -- a request cancels the queued jobs of a sandbox
    cancel :
        (sandbox_id : String)
        → Step w (record w {
          system = record w.system {
            table = cancel_sandbox_jobs w.system.clock sandbox_id w.system.table;
          };
        })
    -- a request deletes a sandbox; the deletion of a workspace is one of these for each of its sandboxes
    delete :
        (sandbox_id : String)
        → Step w (record w {
          system = record w.system { table = delete_sandbox_jobs sandbox_id w.system.table };
          deleted = sandbox_id ∷ w.deleted;
        })
    -- the loop, or drain, claims a job that it has read from the table, maybe long before
    claim_none :
        (job : Job) (s : System) → claim job w.system ≡ (s, none) → Step w (record w { system = s })
    claim_some :
        (job claimed : Job) (s : System)
        → ((row : Job) → get_job w.system.table job.id ≡ some row → row.sandbox_id ≡ job.sandbox_id)
        → claim job w.system ≡ (s, some claimed)
        → Step w (record w { system = s; settled = mark w.settled claimed.sandbox_id false })
    -- the handler of a live job has returned or raised
    settle :
        (job : Job) (handler : Handler) (outcome : Outcome)
        → get w.system.live job.sandbox_id ≡ some job.id
        → w.settled job.sandbox_id ≡ false
        → get handlers job.kind ≡ some handler
        → Step w (record w {
          system = (settle_section job handler outcome w.system).0;
          settled = mark w.settled job.sandbox_id true;
        })
    -- its thread ends
    leave :
        (job : Job)
        → get w.system.live job.sandbox_id ≡ some job.id
        → w.settled job.sandbox_id ≡ true
        → Step w (record w { system = release job w.system })
    expire : Step w (record w {
      system = record w.system { table = expire_table w.system.clock w.system.table };
    })
    closing : Step w (record w { system = start_shutdown w.system })
    stop : Step w (record w { system = end_shutdown w.system })

  pub data Reach (start : World) : World → Type 0 where
    here : Reach start start
    next : {w v : World} → Reach start w → Step w v → Reach start v
