-- ===== src/Sandboxes/Queued.antt =====
-- The queued jobs of a sandbox, as requests add and cancel them.
use zoo.Base.{
  ℕ, ◌+◌, String, string_eq, ◌==◌, ==_iff, ◌≡◌, refl, subst, Bool, ◌&&◌, Option, none, some, [],
  ◌∷◌, arith, if◌then◌else◌, inl, inr, Option-cases, eq_of_some,
}
use zoo.Base.Dict.{get}
use zoo.Jobs.Table.{
  Job, Table, is_queued, insert_row, create_job, new_job, cancel_sandbox_jobs, CreateJobParams,
}
use zoo.Jobs.Queue.{Handlers, System, enqueue, deadline_of}
use zoo.Quotas.{counted}
use zoo.Sandboxes.{get_active_job}

abbrev pub is_waiting : String → Job → Bool
is_waiting sandbox_id job = is_queued job.state && job.sandbox_id == sandbox_id

-- How many jobs of the sandbox are queued.
unfoldable pub count_queued : String → Table → ℕ
count_queued sandbox_id [] = 0
count_queued sandbox_id ((id, job) ∷ table) =
    counted (is_waiting sandbox_id job) 1 + count_queued sandbox_id table

count_queued-insert_row :
    (sandbox_id : String) (table : Table) (id : String) (job : Job)
    → count_queued sandbox_id (insert_row table id job)
      ≡ counted (is_waiting sandbox_id job) 1 + count_queued sandbox_id table
unfolding count_queued insert_row
count_queued-insert_row sandbox_id [] id job = refl
count_queued-insert_row sandbox_id ((i, row) ∷ table) id job =
    ground (arith, count_queued-insert_row sandbox_id table id job)

pub count_queued-cancel_sandbox_jobs :
    (now : ℕ) (id sandbox_id : String) (table : Table)
    → count_queued sandbox_id (cancel_sandbox_jobs now id table)
      ≡ (if id == sandbox_id then 0 else count_queued sandbox_id table)
unfolding count_queued cancel_sandbox_jobs
count_queued-cancel_sandbox_jobs now id sandbox_id [] = ground arith
count_queued-cancel_sandbox_jobs now id sandbox_id ((i, row) ∷ table) = ground (
  arith,
  ==_iff id sandbox_id,
  ==_iff row.sandbox_id id,
  ==_iff row.sandbox_id sandbox_id,
  count_queued-cancel_sandbox_jobs now id sandbox_id table,
)

pub count_queued-get_active_job :
    (sandbox_id : String) (table : Table)
    → get_active_job sandbox_id table ≡ none
    → count_queued sandbox_id table ≡ 0
unfolding count_queued get_active_job
count_queued-get_active_job sandbox_id [] h = refl
count_queued-get_active_job sandbox_id ((i, row) ∷ table) h =
    elim (Option-cases (get_active_job sandbox_id table)) [
      | inl idle ↦ ground (arith, count_queued-get_active_job sandbox_id table idle)
      | inr (job, busy) ↦ absurd (ground arith)
    ]

-- A job that enqueue adds is queued, and the only one that it adds.
pub count_queued-enqueue :
    (handlers : Handlers) (id sandbox_id kind args : String) (seconds : Option ℕ) (s s' : System)
    (other : String)
    → enqueue handlers id sandbox_id kind args seconds s ≡ some s'
    → count_queued other s'.table ≡ counted (sandbox_id == other) 1 + count_queued other s.table
unfolding enqueue create_job
count_queued-enqueue handlers id sandbox_id kind args seconds s s' other h =
    elim (Option-cases (get handlers kind)) [
      | inl unknown ↦ absurd (ground arith)
      | inr (handler, known) ↦ elim (Option-cases (get s.table id)) [
        | inl fresh ↦
            let params : CreateJobParams = record {
              id = id;
              sandbox_id = sandbox_id;
              kind = kind;
              args = args;
              max_attempts = handler.attempts;
              deadline = deadline_of s seconds;
            } in
            let e : record s { table = insert_row s.table id (new_job s.clock params) } ≡ s' =
              eq_of_some (rw (known, fresh) at h) in
            subst
              (λ t.
                count_queued other t.table
                ≡ counted (sandbox_id == other) 1 + count_queued other s.table)
              e (count_queued-insert_row other s.table id (new_job s.clock params))
        | inr (job, taken) ↦ absurd (ground arith)
      ]
    ]
