-- ===== src/Jobs/Sweeps.antt =====
-- What the sweeps over the table leave: recover no running job, expire no overdue one.
use zoo.Base.{
  ℕ, String, string_eq, ◌==◌, ==_iff, ◌≡◌, refl, sym, subst, Bool, true, false, ◌||◌, Option, none,
  some, List, [], ◌∷◌, arith, Bool-cases, inl, inr, ◌⊎◌,
}
use zoo.Base.Dict.{get}
use zoo.Jobs.Table.{
  Job, JobState, running, in_state, Table, Message, text, is_running, list_jobs_by_state,
  requeue_job, requeued_row,
}
use zoo.Jobs.Queue.{System}
use zoo.Jobs.Loop.{requeue_all, ids_of, recover}
use zoo.Jobs.Rows.{get-update_row, AllRows}
use zoo.Jobs.Stopped.{Stopped, updated-Stopped, update_row-Stopped}

abbrev pub IsKeyed : Table → Type 0
IsKeyed = AllRows (λ id row. row.id ≡ id)

pub mem : String → List String → Bool
mem k [] = false
mem k (id ∷ ids) = id == k || mem k ids

mem-ids_of :
    (state : JobState) (table : Table) (k : String) (row : Job)
    → get table k ≡ some row
    → row.id ≡ k
    → in_state row.state state ≡ true
    → mem k (ids_of (list_jobs_by_state state table)) ≡ true
unfolding mem ids_of list_jobs_by_state get
mem-ids_of state [] k row h keyed is = cc
mem-ids_of state ((i, other) ∷ table) k row h keyed is =
    ground (arith, ==_iff i k, ==_iff other.id k, mem-ids_of state table k row)

requeue_job-Stopped :
    (error : Message) (now : ℕ) (id k : String) (table : Table)
    → Stopped k (get table k)
    → Stopped k (get (requeue_job error now id table) k)
unfolding requeue_job
requeue_job-Stopped error now id k table h =
    rw (get-update_row is_running (requeued_row error now) table id k)
      (elim (Bool-cases (id == k)) [
        | inl same ↦ rw same (
            updated-Stopped is_running (requeued_row error now) k (get table k) (λ row r. r)
              (λ row. refl))
        | inr other ↦ rw other h
      ])

requeue_all-keeps :
    (error : Message) (now : ℕ) (ids : List String) (k : String) (table : Table)
    → Stopped k (get table k)
    → Stopped k (get (requeue_all error now ids table) k)
unfolding requeue_all
requeue_all-keeps error now [] k table h = h
requeue_all-keeps error now (id ∷ ids) k table h =
    requeue_all-keeps error now ids k (requeue_job error now id table)
      (requeue_job-Stopped error now id k table h)

requeue_all-Stopped :
    (error : Message) (now : ℕ) (ids : List String) (k : String) (table : Table)
    → mem k ids ≡ true
    → Stopped k (get (requeue_all error now ids table) k)
unfolding requeue_all requeue_job mem
requeue_all-Stopped error now [] k table h = cc
requeue_all-Stopped error now (id ∷ ids) k table h = elim (Bool-cases (id == k)) [
  | inl same ↦
      let e = (==_iff id k).0 same in
      requeue_all-keeps error now ids k (requeue_job error now id table) (
        subst (λ i. Stopped k (get (requeue_job error now i table) k)) (sym e)
          (update_row-Stopped is_running (requeued_row error now) table k (λ row r. r)
            (λ row. refl)))
  | inr other ↦ requeue_all-Stopped error now ids k (requeue_job error now id table) (ground arith)
]

listed_or_idle :
    (table : Table) (k : String) (found : Option Job)
    → get table k ≡ found
    → IsKeyed table
    → (mem k (ids_of (list_jobs_by_state running table)) ≡ true) ⊎ Stopped k (get table k)
listed_or_idle table k none e keyed = inr (rw e tt)
listed_or_idle table k (some row) e keyed = elim (Bool-cases (is_running row.state)) [
  | inl runs ↦ inl (mem-ids_of running table k row e (keyed k row e) runs)
  | inr idle ↦ inr (rw e idle)
]

-- A process that starts finds no job running once recover is through: each one that an earlier
-- process left running is queued again.
pub recover-Stopped :
    (s : System) (id : String) (row : Job)
    → IsKeyed s.table
    → get (recover s).table id ≡ some row
    → is_running row.state ≡ false
unfolding recover
recover-Stopped s id row keyed h =
    let ids = ids_of (list_jobs_by_state running s.table) in
    let error = text "interrupted by a restart" in
    subst (Stopped id) h (elim (listed_or_idle s.table id (get s.table id) refl keyed) [
      | inl listed ↦ requeue_all-Stopped error s.clock ids id s.table listed
      | inr idle ↦ requeue_all-keeps error s.clock ids id s.table idle
    ])
