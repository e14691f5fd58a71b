-- ===== src/Jobs/Expiry.antt =====
-- What expire leaves: no job whose deadline has passed is queued or running.
use zoo.Base.{
  ℕ, ◌≤◌, String, string_eq, ◌==◌, ==_iff, ==_refl, ◌≡◌, refl, sym, ◌∙◌, subst, Bool, true, false,
  ◌&&◌, ◌||◌, Option, none, some, List, [], ◌∷◌, arith, ltb, Bool-cases, inl, inr, ◌⊎◌, is_some,
  and-eq_true,
}
use zoo.Base.Dict.{get}
use zoo.Jobs.Table.{
  Job, JobState, queued, running, failed, in_state, Table, Message, is_queued, is_running,
  is_active, list_jobs_by_state, finish_job, finished_row,
}
use zoo.Jobs.Loop.{overdue, expire_row, expire_rows, expire_table}
use zoo.Jobs.Rows.{updated, get-update_row}
use zoo.Jobs.Closed.{Keeps, Keeps-AllRows, expire_rows-Keeps}
use zoo.Jobs.Sweeps.{IsKeyed}

-- The row of an id has ended, or there is none.
abbrev Ended : Option Job → Type 0
Ended none = Unit
Ended (some row) = is_active row.state ≡ false

-- Some job of the list has the id, and its deadline has passed.
hit : ℕ → String → List Job → Bool
unfolding overdue
hit now k [] = false
hit now k (job ∷ jobs) = (job.id == k && is_some (overdue now job)) || hit now k jobs

hit-listed :
    (now : ℕ) (state : JobState) (table : Table) (k : String) (row : Job)
    → get table k ≡ some row
    → row.id ≡ k
    → in_state row.state state ≡ true
    → is_some (overdue now row) ≡ true
    → hit now k (list_jobs_by_state state table) ≡ true
unfolding hit list_jobs_by_state get
hit-listed now state [] k row h keyed is late = cc
hit-listed now state ((i, other) ∷ table) k row h keyed is late =
    ground (arith, ==_iff i k, ==_iff other.id k, hit-listed now state table k row)

finish_job-Ended_self :
    (error : Option Message) (now : ℕ) (found : Option Job)
    → Ended (updated is_active (finished_row failed error now) found)
finish_job-Ended_self error now none = tt
finish_job-Ended_self error now (some row) = elim (Bool-cases (is_active row.state)) [
  | inl active ↦ rw active refl
  | inr over ↦ rw over over
]

-- One statement of the sweep: the row is as it was, or it has ended.
finish_job-or :
    (error : Option Message) (now : ℕ) (id k : String) (table : Table)
    → (get (finish_job failed error now id table) k ≡ get table k)
      ⊎ Ended (get (finish_job failed error now id table) k)
unfolding finish_job
finish_job-or error now id k table =
    rw (get-update_row is_active (finished_row failed error now) table id k)
      (elim (Bool-cases (id == k)) [
        | inl same ↦ rw same (inr (finish_job-Ended_self error now (get table k)))
        | inr other ↦ rw other (inl refl)
      ])

expire_row-or :
    (now : ℕ) (job : Job) (reason : Option Message) (k : String) (table : Table)
    → (get (expire_row now job reason table) k ≡ get table k)
      ⊎ Ended (get (expire_row now job reason table) k)
expire_row-or now job none k table = inl refl
expire_row-or now job (some reason) k table = finish_job-or (some reason) now job.id k table

expire_rows-Ended :
    (now : ℕ) (jobs : List Job) (k : String) (table : Table)
    → Ended (get table k)
    → Ended (get (expire_rows now jobs table) k)
unfolding expire_rows
expire_rows-Ended now [] k table h = h
expire_rows-Ended now (job ∷ jobs) k table h =
    expire_rows-Ended now jobs k (expire_row now job (overdue now job) table)
      (elim (expire_row-or now job (overdue now job) k table) [
        | inl same ↦ rw same h
        | inr over ↦ over
      ])

expire_rows-or :
    (now : ℕ) (jobs : List Job) (k : String) (table : Table)
    → (get (expire_rows now jobs table) k ≡ get table k)
      ⊎ Ended (get (expire_rows now jobs table) k)
unfolding expire_rows
expire_rows-or now [] k table = inl refl
expire_rows-or now (job ∷ jobs) k table =
    let table' = expire_row now job (overdue now job) table in
    elim (expire_row-or now job (overdue now job) k table) [
      | inr over ↦ inr (expire_rows-Ended now jobs k table' over)
      | inl same ↦ elim (expire_rows-or now jobs k table') [
        | inr over ↦ inr over
        | inl same' ↦ inl (same' ∙ same)
      ]
    ]

expire_row-hit :
    (now : ℕ) (job : Job) (reason : Option Message) (table : Table)
    → is_some reason ≡ true
    → Ended (get (expire_row now job reason table) job.id)
unfolding finish_job
expire_row-hit now job none table h = cc
expire_row-hit now job (some reason) table h =
    rw
      (
        get-update_row is_active (finished_row failed (some reason) now) table job.id job.id,
        ==_refl job.id,
      )
      (finish_job-Ended_self (some reason) now (get table job.id))

expire_rows-hit :
    (now : ℕ) (jobs : List Job) (k : String) (table : Table)
    → hit now k jobs ≡ true
    → Ended (get (expire_rows now jobs table) k)
unfolding expire_rows hit
expire_rows-hit now [] k table h = cc
expire_rows-hit now (job ∷ jobs) k table h =
    let table' = expire_row now job (overdue now job) table in
    elim (Bool-cases (job.id == k && is_some (overdue now job))) [
      | inl this ↦
          let (same, late) = and-eq_true (job.id == k) (is_some (overdue now job)) this in
          expire_rows-Ended now jobs k table' (
            subst (λ i. Ended (get table' i)) ((==_iff job.id k).0 same)
              (expire_row-hit now job (overdue now job) table late))
      | inr other ↦ expire_rows-hit now jobs k table' (rw other at h)
    ]

-- One pass over the jobs of a state: none of them is left overdue.
pass-Ended :
    (now : ℕ) (state : JobState) (table : Table) (k : String) (row : Job)
    → IsKeyed table
    → get (expire_rows now (list_jobs_by_state state table) table) k ≡ some row
    → in_state row.state state ≡ true
    → is_some (overdue now row) ≡ true
    → is_active row.state ≡ false
pass-Ended now state table k row keyed h is late =
    let jobs = list_jobs_by_state state table in
    elim (expire_rows-or now jobs k table) [
      | inr over ↦ rw h at over
      | inl same ↦
          let before = sym same ∙ h in
          let listed = hit-listed now state table k row before (keyed k row before) is late in
          rw h at (expire_rows-hit now jobs k table listed)
    ]

Keeps-IsKeyed : Keeps IsKeyed
Keeps-IsKeyed =
    Keeps-AllRows (λ id row. row.id ≡ id)
      (record {
        finish = λ id row state error now ended h active. h;
        retry = λ id row error run_after now h runs room. h;
        defer = λ id row error run_after deadline now h runs. h;
        requeue = λ id row error now h runs. h;
      })

overdue_lem :
    (now : ℕ) (row : Job) (deadline : ℕ)
    → row.deadline ≡ some deadline
    → ltb deadline now ≡ true
    → is_some (overdue now row) ≡ true
unfolding overdue
overdue_lem now row deadline d late = rw (d, late)

queued_of :
    (row : Job)
    → is_active row.state ≡ true
    → is_running row.state ≡ false
    → is_queued row.state ≡ true
queued_of row active idle = ground arith

-- Behind the critical section of expire, a job that is queued or running has no deadline or one
-- that has not passed.
pub expire_table-in_time :
    (now : ℕ) (table : Table) (id : String) (row : Job) (deadline : ℕ)
    → IsKeyed table
    → get (expire_table now table) id ≡ some row
    → is_active row.state ≡ true
    → row.deadline ≡ some deadline
    → now ≤ deadline
unfolding expire_table
expire_table-in_time now table id row deadline keyed h active d =
    let first = list_jobs_by_state running table in
    let table' = expire_rows now first table in
    let keyed' = expire_rows-Keeps IsKeyed Keeps-IsKeyed now first table keyed in
    elim (Bool-cases (ltb deadline now)) [
      | inr in_time ↦ ground arith
      | inl late ↦
          let passed = overdue_lem now row deadline d late in
          elim (Bool-cases (is_running row.state)) [
            | inr idle ↦
                let over =
                  pass-Ended now queued table' id row keyed' h (queued_of row active idle) passed in
                cc
            | inl runs ↦ elim (expire_rows-or now (list_jobs_by_state queued table') id table') [
              | inr ended ↦ let over : is_active row.state ≡ false = rw h at ended in cc
              | inl same ↦
                  let over = pass-Ended now running table id row keyed (sym same ∙ h) runs passed in
                  cc
            ]
          ]
    ]
