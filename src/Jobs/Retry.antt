-- ===== src/Jobs/Retry.antt =====
-- How the end of a run counts: an attempt that failed is used up, one that had to wait is not.
use zoo.Base.{
  ℕ, ◌+◌, ◌*◌, ◌≤◌, String, string_eq, ==_refl, ◌≡◌, refl, sym, ap, ◌∙◌, true, ◌&&◌, some, arith,
  ltb, le→leb, if◌then◌else◌, Bool-cases, inl, inr, eq_of_some,
}
use zoo.Base.Dict.{get}
use zoo.Jobs.Table.{
  Job, queued, failed, Message, text, waiting, claimed_row, deferred_row, retried_row, finished_row,
  is_queued, is_running, is_active, get_job, retry_job, defer_job, finish_job,
}
use zoo.Jobs.Queue.{
  Handler, System, claim, defer_section, retry_section, stamp, second, max_wait, wait_poll,
  has_time, backoff_delay,
}
use zoo.Jobs.Rows.{get-update_row}
use zoo.Jobs.Inversion.{Claimed, claim-eq-some}
use zoo.Jobs.Sweeps.{IsKeyed}

active_of : (row : Job) → is_running row.state ≡ true → is_active row.state ≡ true
active_of row h = ground arith

-- The row behind a claim.
row_behind_claim :
    (job claimed : Job) (s s' : System) (c : Claimed job claimed s s')
    → get s'.table job.id ≡ some (claimed_row s.clock c.row)
row_behind_claim job claimed s s' c = rw (
  c.table,
  get-update_row is_queued (claimed_row s.clock) s.table job.id job.id,
  ==_refl job.id,
  c.found,
  c.was_queued,
)

defer_running :
    (job row : Job) (s : System) (reason : String) (window : ℕ)
    → get s.table job.id ≡ some row
    → is_running row.state ≡ true
    → s.clock ≤ row.created_at + max_wait * second
    → get (defer_section job reason window s).0.table job.id
      ≡ some (
          deferred_row
            (waiting (text reason))
            (stamp s wait_poll)
            (stamp s (wait_poll + window))
            s.clock
            row)
unfolding defer_section get_job defer_job
defer_running job row s reason window found runs young =
    let change =
      deferred_row (waiting (text reason)) (stamp s wait_poll) (stamp s (wait_poll + window))
        s.clock in
    rw (found, runs, le→leb _ _ young)
      (get-update_row is_running change s.table job.id job.id ∙ (rw (==_refl job.id, found, runs)))

retry_running :
    (job row : Job) (handler : Handler) (error : Message) (delay : ℕ) (s : System)
    → get s.table job.id ≡ some row
    → is_running row.state ≡ true
    → backoff_delay job.attempts handler.backoff ≡ some delay
    → get (retry_section job handler error s).0.table job.id
      ≡ some (
          if ltb row.attempts row.max_attempts && has_time row.deadline (stamp s delay)
          then retried_row error (stamp s delay) s.clock row
          else finished_row failed (some error) s.clock row)
unfolding retry_section get_job retry_job finish_job
retry_running job row handler error delay s found runs d =
    elim (Bool-cases (ltb row.attempts row.max_attempts && has_time row.deadline (stamp s delay))) [
      | inl room ↦
          rw (d, found, runs, room)
            (get-update_row is_running (retried_row error (stamp s delay) s.clock) s.table job.id
                job.id
              ∙ (rw (==_refl job.id, found, runs)))
      | inr full ↦
          rw (d, found, runs, full)
            (get-update_row is_active (finished_row failed (some error) s.clock) s.table job.id
                job.id
              ∙ (rw (==_refl job.id, found, active_of row runs)))
    ]

-- A job's row is claimed in s, and its run ends in the system now: whatever else has changed between,
-- the job's row is as the claim left it.
module _ (job claimed row : Job) (s s' now : System) (keyed : IsKeyed s.table)
    (found : get s.table job.id ≡ some row) (claims : claim job s ≡ (s', some claimed))
    (unchanged : get now.table claimed.id ≡ get s'.table claimed.id) where
  claimed_of_row : claimed ≡ claimed_row s.clock row
  claimed_of_row =
      let c = claim-eq-some job claimed s s' claims in
      c.is_claimed ∙ ap (claimed_row s.clock) (eq_of_some (sym c.found ∙ found))

  claimed_id : claimed.id ≡ job.id
  claimed_id = ap (λ (r : Job). r.id) claimed_of_row ∙ keyed job.id row found

  get_at_claimed : get now.table claimed.id ≡ some (claimed_row s.clock row)
  get_at_claimed =
      let c = claim-eq-some job claimed s s' claims in
      unchanged
      ∙ ap (get s'.table) claimed_id
      ∙ row_behind_claim job claimed s s' c
      ∙ ap (λ r. some (claimed_row s.clock r)) (eq_of_some (sym c.found ∙ found))

  -- For a job whose row has not changed between its claim and the end of its run, in a table that
  -- keeps each row under its id: a run that has to wait gives the attempt back. If the job is not older
  -- than max_wait, its row is then as it was before the claim, but for the reason, the time of the
  -- next try, the fresh deadline and the time of the change.
  pub claim-defer :
      (reason : String) (window : ℕ)
      → now.clock ≤ row.created_at + max_wait * second
      → get (defer_section claimed reason window now).0.table claimed.id
        ≡ some (record row {
          state = queued;
          last_error = some (waiting (text reason));
          run_after = now.clock + wait_poll * second;
          deadline = some (now.clock + (wait_poll + window) * second);
          updated_at = now.clock;
        })
  claim-defer reason window young =
      defer_running claimed (claimed_row s.clock row) now reason window get_at_claimed refl young
      ∙ (ground arith)

  -- For a job whose row has not changed between its claim and the end of its run, in a table that
  -- keeps each row under its id, and a handler whose backoff gives a delay for the attempt: a run that
  -- raises another exception uses the attempt up. The job is queued again just if an attempt is left
  -- and the deadline allows the delay; otherwise it is no longer active.
  pub claim-retry :
      (handler : Handler) (error : Message) (delay : ℕ)
      → backoff_delay claimed.attempts handler.backoff ≡ some delay
      → (after : Job) × (get (retry_section claimed handler error now).0.table claimed.id
          ≡ some after)
        × (after.attempts ≡ row.attempts + 1)
        × (is_queued after.state ≡ (
            ltb (row.attempts + 1) row.max_attempts
            && has_time row.deadline (now.clock + delay * second)))
        × (is_active after.state ≡ is_queued after.state)
  claim-retry handler error delay d =
      let again =
        ltb (row.attempts + 1) row.max_attempts
        && has_time row.deadline (now.clock + delay * second) in
      let taken = claimed_row s.clock row in
      let after =
        if again
        then retried_row error (now.clock + delay * second) now.clock taken
        else finished_row failed (some error) now.clock taken in
      (
        after,
        retry_running claimed taken handler error delay now get_at_claimed refl d,
        elim (Bool-cases again) [ inl y ↦ rw y refl | inr n ↦ rw n refl ],
        elim (Bool-cases again) [ inl y ↦ rw y refl | inr n ↦ rw n refl ],
        elim (Bool-cases again) [ inl y ↦ rw y refl | inr n ↦ rw n refl ],
      )
