-- ===== src/Jobs/History.antt =====
-- What becomes of a row over time.
use zoo.Base.{
  ℕ, String, string_eq, ◌==◌, ==_iff, ◌≡◌, refl, sym, ap, ◌∙◌, subst, Bool, true, false, ◌&&◌,
  Option, none, some, arith, Bool-cases, and-eq_true, inl, inr, ◌⊎◌, List, ◌∷◌, any,
}
use zoo.Base.Dict.{get}
use zoo.Jobs.Table.{
  Job, JobState, Table, claimed_row, retried_row, deferred_row, requeued_row, finished_row,
  is_queued, is_running, is_active, get_job, update_row, finish_job, retry_job, defer_job,
  requeue_job, insert_row,
}
use zoo.Jobs.Queue.{Handlers, System}
use zoo.Jobs.Loop.{start_shutdown}
use zoo.Jobs.Rows.{
  updated, get-update_row, get-insert_row, get-cancel_sandbox_jobs, cancelled_if,
  get-delete_sandbox_jobs, unless_of,
}
use zoo.Jobs.Closed.{Keeps, end_shutdown-Keeps, expire_table-Keeps, settle_section-Keeps}
use zoo.Jobs.Inversion.{claim-eq-some, claim-eq-none, enqueue-eq-some}
use zoo.Jobs.Attempts.{table-release}
use zoo.Jobs.Threads.{World, Step, Reach}

-- A later form of a row: what the job is stays, and a job that has ended stays as it ended.
pub record Evolves (row later : Job) : Type 0 where
  pub id : later.id ≡ row.id
  pub sandbox_id : later.sandbox_id ≡ row.sandbox_id
  pub kind : later.kind ≡ row.kind
  pub args : later.args ≡ row.args
  pub max_attempts : later.max_attempts ≡ row.max_attempts
  pub created_at : later.created_at ≡ row.created_at
  pub ended : is_active row.state ≡ false → later ≡ row

Evolves-refl : (row : Job) → Evolves row row
Evolves-refl row = record {
  id = refl;
  sandbox_id = refl;
  kind = refl;
  args = refl;
  max_attempts = refl;
  created_at = refl;
  ended = λ h. refl;
}

-- The row of an id is there, in a later form.
abbrev pub Later : Job → Option Job → Type 0
Later row none = ⊥
Later row (some later) = Evolves row later

updated-Later :
    (row : Job) (test : JobState → Bool) (change : Job → Job) (found : Option Job)
    → ((later : Job)
        → is_active later.state ≡ true
        → Evolves row later
        → Evolves row (change later))
    → ((later : Job) → test later.state ≡ true → is_active later.state ≡ true)
    → Later row found
    → Later row (updated test change found)
updated-Later row test change none moves active h = h
updated-Later row test change (some later) moves active h = elim (Bool-cases (test later.state)) [
  | inl passes ↦ rw passes (moves later (active later passes) h)
  | inr fails ↦ rw fails h
]

update_row-Later :
    (row : Job) (id : String) (test : JobState → Bool) (change : Job → Job) (table : Table)
    (k : String)
    → ((later : Job)
        → is_active later.state ≡ true
        → Evolves row later
        → Evolves row (change later))
    → ((later : Job) → test later.state ≡ true → is_active later.state ≡ true)
    → Later row (get table id)
    → Later row (get (update_row test change table k) id)
update_row-Later row id test change table k moves active h =
    rw (get-update_row test change table k id) (elim (Bool-cases (k == id)) [
      | inl same ↦ rw same (updated-Later row test change (get table id) moves active h)
      | inr other ↦ rw other h
    ])

-- A change of an active row that leaves alone what the job is.
moves_of :
    (row later later' : Job)
    → is_active later.state ≡ true
    → Evolves row later
    → later'.id ≡ later.id
    → later'.sandbox_id ≡ later.sandbox_id
    → later'.kind ≡ later.kind
    → later'.args ≡ later.args
    → later'.max_attempts ≡ later.max_attempts
    → later'.created_at ≡ later.created_at
    → Evolves row later'
moves_of row later later' active e a b c d f g = record {
  id = a ∙ e.id;
  sandbox_id = b ∙ e.sandbox_id;
  kind = c ∙ e.kind;
  args = d ∙ e.args;
  max_attempts = f ∙ e.max_attempts;
  created_at = g ∙ e.created_at;
  ended = λ h. let same = ap (λ (r : Job). is_active r.state) (e.ended h) in cc;
}

running_active : (later : Job) → is_running later.state ≡ true → is_active later.state ≡ true
running_active later h = ground arith

queued_active : (later : Job) → is_queued later.state ≡ true → is_active later.state ≡ true
queued_active later h = ground arith

Keeps-Later : (row : Job) (id : String) → Keeps (λ table. Later row (get table id))
unfolding finish_job retry_job defer_job requeue_job
Keeps-Later row id = record {
  finish = λ state error now k table ended h.
      update_row-Later row id is_active (finished_row state error now) table k
        (λ later active e. moves_of row later _ active e refl refl refl refl refl refl)
        (λ later t. t) h;
  retry = λ error run_after now k table current found room h.
      update_row-Later row id is_running (retried_row error run_after now) table k
        (λ later active e. moves_of row later _ active e refl refl refl refl refl refl)
        running_active h;
  defer = λ error run_after deadline now k table h.
      update_row-Later row id is_running (deferred_row error run_after deadline now) table k
        (λ later active e. moves_of row later _ active e refl refl refl refl refl refl)
        running_active h;
  requeue = λ error now k table h.
      update_row-Later row id is_running (requeued_row error now) table k
        (λ later active e. moves_of row later _ active e refl refl refl refl refl refl)
        running_active h;
}

cancelled-Later :
    (row : Job) (now : ℕ) (sandbox_id : String) (found : Option Job)
    → Later row found
    → Later row (cancelled_if now sandbox_id found)
cancelled-Later row now sandbox_id none h = h
cancelled-Later row now sandbox_id (some later) h =
    elim (Bool-cases (is_queued later.state && later.sandbox_id == sandbox_id)) [
      | inl passes ↦ rw passes (
          moves_of row later _ (queued_active later (and-eq_true _ _ passes).0) h refl refl refl
            refl refl refl)
      | inr fails ↦ rw fails h
    ]

inserted-Later :
    (row new : Job) (table : Table) (id k : String)
    → get table k ≡ none
    → Later row (get table id)
    → Later row (get (insert_row table k new) id)
inserted-Later row new table id k free h =
    rw (get-insert_row table k id new free) (elim (Bool-cases (k == id)) [
      | inl same ↦ absurd (subst (Later row) (ap (get table) (sym ((==_iff k id).0 same)) ∙ free) h)
      | inr other ↦ rw other h
    ])

-- The row's sandbox has been deleted, or the row of the id is there, in a later form.
abbrev pub Persists : List String → Job → Option Job → Type 0
Persists deleted row found = (any (λ s. s == row.sandbox_id) deleted ≡ true) ⊎ Later row found

-- What keeps a later form keeps a row that persists.
Persists-imp :
    (deleted : List String) (row : Job) (found found' : Option Job)
    → (Later row found → Later row found')
    → Persists deleted row found
    → Persists deleted row found'
Persists-imp deleted row found found' moves (inl gone) = inl gone
Persists-imp deleted row found found' moves (inr h) = inr (moves h)

unless_of-Persists :
    (deleted : List String) (row : Job) (sandbox_id : String) (found : Option Job)
    → Persists deleted row found
    → Persists (sandbox_id ∷ deleted) row (unless_of sandbox_id found)
unfolding any
unless_of-Persists deleted row sandbox_id found (inl gone) = inl (ground arith)
unless_of-Persists deleted row sandbox_id none (inr h) = absurd h
unless_of-Persists deleted row sandbox_id (some later) (inr h) =
    elim (Bool-cases (later.sandbox_id == sandbox_id)) [
      | inl same ↦
          let at : (sandbox_id == row.sandbox_id) ≡ true =
            (==_iff sandbox_id row.sandbox_id).1
              (sym ((==_iff later.sandbox_id sandbox_id).0 same) ∙ h.sandbox_id) in
          inl (rw at refl)
      | inr other ↦ rw other (inr h)
    ]

Step-Persists :
    (handlers : Handlers) {w v : World} (row : Job) (id : String)
    → Step handlers w v
    → Persists w.deleted row (get w.system.table id)
    → Persists v.deleted row (get v.system.table id)
unfolding get_job start_shutdown
Step-Persists handlers row id (Step.tick n) h = h
Step-Persists handlers {w} row id (Step.queue k sandbox_id kind args deadline s free e) h =
    let q = enqueue-eq-some handlers k sandbox_id kind args deadline w.system s e in
    subst (λ (t : System). Persists w.deleted row (get t.table id)) (sym q.system)
      (Persists-imp w.deleted row _ _ (inserted-Later row _ w.system.table id k free) h)
Step-Persists handlers {w} row id (Step.cancel sandbox_id) h =
    rw (get-cancel_sandbox_jobs w.system.clock sandbox_id w.system.table id) (
      Persists-imp w.deleted row _ _
        (cancelled-Later row w.system.clock sandbox_id (get w.system.table id)) h)
Step-Persists handlers {w} row id (Step.delete sandbox_id) h =
    rw (get-delete_sandbox_jobs sandbox_id w.system.table id)
      (unless_of-Persists w.deleted row sandbox_id (get w.system.table id) h)
Step-Persists handlers {w} row id (Step.claim_none job s e) h =
    subst (λ (t : System). Persists w.deleted row (get t.table id))
      (sym (claim-eq-none job w.system s e)) h
Step-Persists handlers {w} row id (Step.claim_some job claimed s read e) h =
    subst (λ table. Persists w.deleted row (get table id))
      (sym (claim-eq-some job claimed w.system s e).table)
      (Persists-imp w.deleted row _ _
        (update_row-Later row id is_queued (claimed_row w.system.clock) w.system.table job.id
          (λ later active e'. moves_of row later _ active e' refl refl refl refl refl refl)
          queued_active)
        h)
Step-Persists handlers {w} row id (Step.settle job handler outcome live unsettled registered) h =
    Persists-imp w.deleted row _ _
      (settle_section-Keeps (λ table. Later row (get table id)) (Keeps-Later row id) job handler
        outcome w.system)
      h
Step-Persists handlers {w} row id (Step.leave job live over) h =
    subst (λ table. Persists w.deleted row (get table id)) (sym (table-release job w.system)) h
Step-Persists handlers {w} row id Step.expire h =
    Persists-imp w.deleted row _ _
      (expire_table-Keeps (λ table. Later row (get table id)) (Keeps-Later row id) w.system.clock
        w.system.table)
      h
Step-Persists handlers row id Step.closing h = h
Step-Persists handlers {w} row id Step.stop h =
    Persists-imp w.deleted row _ _
      (end_shutdown-Keeps (λ table. Later row (get table id)) (Keeps-Later row id) w.system) h

Reach-Persists :
    (handlers : Handlers) {start w : World} (row : Job) (id : String)
    → Later row (get start.system.table id)
    → Reach handlers start w
    → Persists w.deleted row (get w.system.table id)
Reach-Persists handlers row id h Reach.here = inr h
Reach-Persists handlers row id h (Reach.next before step) =
    Step-Persists handlers row id step (Reach-Persists handlers row id h before)

Later-some :
    (row : Job) (found : Option Job)
    → Later row found
    → (later : Job) × (found ≡ some later) × Evolves row later
Later-some row none h = absurd h
Later-some row (some later) h = (later, refl, h)

-- However the threads, the loop and the requests interleave, deletions of sandboxes included: the
-- sandbox of a job is among those deleted, or the job's row is in the table with its id, sandbox,
-- kind, arguments, attempt limit and time of creation, and, if the job had succeeded, failed or
-- been cancelled, without any change.
pub Reach-Evolves :
    (handlers : Handlers) {start w : World} (id : String) (row : Job)
    → get start.system.table id ≡ some row
    → Reach handlers start w
    → (any (λ s. s == row.sandbox_id) w.deleted ≡ true)
      ⊎ ((later : Job) × (get w.system.table id ≡ some later) × Evolves row later)
Reach-Evolves handlers {start} {w} id row here reach =
    elim (Reach-Persists handlers row id (rw here (Evolves-refl row)) reach) [
      | inl gone ↦ inl gone
      | inr h ↦ inr (Later-some row (get w.system.table id) h)
    ]
