-- ===== src/Jobs/Stopped.antt =====
-- A run that has been settled leaves a row that is not running.
use zoo.Base.{
  ℕ, zero, suc, length, ◌+◌, ◌*◌, String, string_eq, ==_refl, ◌≡◌, ◌≢◌, refl, sym, ap, ◌∙◌, subst,
  Bool, true, false, ◌&&◌, Option, none, some, List, [], ◌∷◌, arith, ltb, leb, if◌then◌else◌,
  Bool-cases, inl, inr,
}
use zoo.Base.Dict.{get}
use zoo.Jobs.Table.{
  Job, JobState, succeeded, failed, Table, Message, is_running, is_active, get_job, update_row,
  finish_job, retry_job, defer_job, finished_row, text, waiting, waited, retried_row, deferred_row,
}
use zoo.Jobs.Queue.{
  Handlers, Handler, System, Outcome, done, wait, raised, settle_section, retry_row, defer_row,
  backoff_delay, has_time, stamp, error_text, max_wait, second, wait_poll, nth_delay,
}
use zoo.Jobs.Rows.{updated, get-update_row}

pub not_running : (state : JobState) → is_active state ≡ false → is_running state ≡ false
not_running state h = ground arith

-- The row of an id is not running.
abbrev pub Stopped : String → Option Job → Type 0
Stopped id none = Unit
Stopped id (some row) = is_running row.state ≡ false

pub updated-Stopped :
    (test : JobState → Bool) (change : Job → Job) (id : String) (found : Option Job)
    → ((row : Job) → is_running row.state ≡ true → test row.state ≡ true)
    → ((row : Job) → is_running (change row).state ≡ false)
    → Stopped id (updated test change found)
updated-Stopped test change id none covers stops = tt
updated-Stopped test change id (some row) covers stops = elim (Bool-cases (test row.state)) [
  | inl passes ↦ rw passes (stops row)
  | inr fails ↦ rw fails (ground (arith, covers row))
]

pub update_row-Stopped :
    (test : JobState → Bool) (change : Job → Job) (table : Table) (id : String)
    → ((row : Job) → is_running row.state ≡ true → test row.state ≡ true)
    → ((row : Job) → is_running (change row).state ≡ false)
    → Stopped id (get (update_row test change table id) id)
update_row-Stopped test change table id covers stops =
    subst (Stopped id)
      (sym (
        get-update_row test change table id id
        ∙ ap (λ (b : Bool). if b then updated test change (get table id) else get table id)
            (==_refl id)))
      (updated-Stopped test change id (get table id) covers stops)

running-active : (row : Job) → is_running row.state ≡ true → is_active row.state ≡ true
running-active row h = ground arith

finish_job-Stopped :
    (state : JobState) (error : Option Message) (now : ℕ) (id : String) (table : Table)
    → is_active state ≡ false
    → Stopped id (get (finish_job state error now id table) id)
unfolding finish_job
finish_job-Stopped state error now id table ended =
    update_row-Stopped is_active (finished_row state error now) table id running-active
      (λ row. not_running state ended)

retry_row-Stopped :
    (job : Job) (error : Message) (delay : ℕ) (found : Option Job) (s : System)
    → get s.table job.id ≡ found
    → Stopped job.id (get (retry_row job error delay found s).0.table job.id)
unfolding retry_job
retry_row-Stopped job error delay none s e = rw e tt
retry_row-Stopped job error delay (some current) s e =
    elim (Bool-cases (is_running current.state)) [
      | inr gone ↦ rw gone (rw e gone)
      | inl runs ↦
          rw runs
            (elim (Bool-cases (
              ltb current.attempts current.max_attempts
              && has_time current.deadline (stamp s delay))) [
                | inl room ↦ rw room (
                    update_row-Stopped is_running (retried_row error (stamp s delay) s.clock)
                      s.table job.id (λ row h. h) (λ row. refl))
                | inr full ↦
                    rw full (finish_job-Stopped failed (some error) s.clock job.id s.table refl)
              ])
    ]

defer_row-Stopped :
    (job : Job) (reason : String) (window : ℕ) (found : Option Job) (s : System)
    → get s.table job.id ≡ found
    → Stopped job.id (get (defer_row job reason window found s).0.table job.id)
unfolding defer_job
defer_row-Stopped job reason window none s e = rw e tt
defer_row-Stopped job reason window (some current) s e =
    elim (Bool-cases (is_running current.state)) [
      | inr gone ↦ rw gone (rw e gone)
      | inl runs ↦
          rw runs (elim (Bool-cases (leb s.clock (current.created_at + max_wait * second))) [
            | inl young ↦ rw young (
                update_row-Stopped is_running
                  (deferred_row (waiting (text reason)) (stamp s wait_poll)
                    (stamp s (wait_poll + window)) s.clock)
                  s.table job.id (λ row h. h) (λ row. refl))
            | inr late ↦ rw late (
                finish_job-Stopped failed (some (waited 2 (text reason))) s.clock job.id s.table
                  refl)
          ])
    ]

-- Every handler has a delay between its attempts.
abbrev pub HasBackoff : Handlers → Type 0
HasBackoff handlers =
    (kind : String) (handler : Handler) → get handlers kind ≡ some handler → handler.backoff ≢ []

nth_delay-some : (n delay : ℕ) (delays : List ℕ) → (d : ℕ) × (nth_delay n (delay ∷ delays) ≡ some d)
unfolding nth_delay
nth_delay-some n delay [] = (delay, refl)
nth_delay-some zero delay (other ∷ delays) = (delay, refl)
nth_delay-some (suc n) delay (other ∷ delays) = nth_delay-some n other delays

backoff_delay-some :
    (attempts : ℕ) (delays : List ℕ)
    → delays ≢ []
    → (d : ℕ) × (backoff_delay attempts delays ≡ some d)
unfolding backoff_delay
backoff_delay-some attempts [] h = absurd (h refl)
backoff_delay-some zero (delay ∷ delays) h = nth_delay-some (suc (length delays)) delay delays
backoff_delay-some (suc n) (delay ∷ delays) h = nth_delay-some n delay delays

-- However a run ends, its row is not running behind the critical section that ends it.
pub settle_section-Stopped :
    (job : Job) (handler : Handler) (outcome : Outcome) (s : System)
    → handler.backoff ≢ []
    → Stopped job.id (get (settle_section job handler outcome s).0.table job.id)
unfolding settle_section get_job
settle_section-Stopped job handler done s h =
    finish_job-Stopped succeeded none s.clock job.id s.table refl
settle_section-Stopped job handler (wait reason window) s h =
    defer_row-Stopped job reason window (get s.table job.id) s refl
settle_section-Stopped job handler (raised said name) s h =
    let (d, e) = backoff_delay-some job.attempts handler.backoff h in
    rw e (retry_row-Stopped job (error_text said name) d (get s.table job.id) s refl)
