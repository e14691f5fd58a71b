-- ===== src/Jobs/Flight.antt =====
-- At most one job of a sandbox runs at a time.
use zoo.Base.{
  String, string_eq, ◌==◌, ==_iff, ==_refl, ◌≡◌, refl, sym, ap, ◌∙◌, subst, Bool, true, false, none,
  some, arith, Bool-cases, inl, inr, eq_of_some,
}
use zoo.Base.Dict.{Dict, get, put, erase, get-put, get-erase}
use zoo.Jobs.Table.{Job, Table, claimed_row, is_queued, is_running, get_job}
use zoo.Jobs.Queue.{Handlers, Handler, System, Outcome, done, wait, raised, release, settle_section}
use zoo.Jobs.Loop.{start_shutdown, end_shutdown}
use zoo.Jobs.Rows.{
  AllRows, AllRows-update_row, AllRows-insert_row, AllRows-cancel_sandbox_jobs,
  AllRows-delete_sandbox_jobs,
}
use zoo.Jobs.Closed.{
  Closed, Keeps-AllRows, end_shutdown-Keeps, expire_table-Keeps, settle_section-Keeps,
}
use zoo.Jobs.Inversion.{Claimed, claim-eq-some, claim-eq-none, enqueue-eq-some}
use zoo.Jobs.Stopped.{Stopped, not_running, HasBackoff, settle_section-Stopped}
use zoo.Jobs.Threads.{World, Step, Reach, mark}

-- A running job is the live one of its sandbox, and the run of that thread is not settled.
pub record InFlight (live : Dict String String) (settled : String → Bool) (id : String) (row : Job)
    : Type 0 where
  pub keyed : row.id ≡ id
  pub is_live : is_running row.state ≡ true → get live row.sandbox_id ≡ some id
  pub unsettled : is_running row.state ≡ true → settled row.sandbox_id ≡ false

idle-InFlight :
    (live : Dict String String) (settled : String → Bool) (id : String) (row : Job)
    → row.id ≡ id
    → is_running row.state ≡ false
    → InFlight live settled id row
idle-InFlight live settled id row keyed idle = record {
  keyed = keyed;
  is_live = λ r. cc;
  unsettled = λ r. cc;
}

Closed-InFlight :
    (live : Dict String String) (settled : String → Bool) → Closed (InFlight live settled)
Closed-InFlight live settled = record {
  finish = λ id row state error now ended h active.
      idle-InFlight live settled id _ h.keyed (not_running state ended);
  retry = λ id row error run_after now h runs room. idle-InFlight live settled id _ h.keyed refl;
  defer =
      λ id row error run_after deadline now h runs. idle-InFlight live settled id _ h.keyed refl;
  requeue = λ id row error now h runs. idle-InFlight live settled id _ h.keyed refl;
}

-- A settled run is no longer running, so the mark costs its row nothing.
mark-InFlight :
    (live : Dict String String) (settled : String → Bool) (table : Table) (sandbox_id id : String)
    → get live sandbox_id ≡ some id
    → Stopped id (get table id)
    → AllRows (InFlight live settled) table
    → AllRows (InFlight live (mark settled sandbox_id true)) table
mark-InFlight live settled table sandbox_id id is_live stopped old k row h =
    let ok = old k row h in
    elim (Bool-cases (is_running row.state)) [
      | inr idle ↦ idle-InFlight live (mark settled sandbox_id true) k row ok.keyed idle
      | inl runs ↦ record {
        keyed = ok.keyed;
        is_live = ok.is_live;
        unsettled = λ r. elim (Bool-cases (sandbox_id == row.sandbox_id)) [
          | inr other ↦ rw other (ok.unsettled r)
          | inl same ↦
              let e = (==_iff sandbox_id row.sandbox_id).0 same in
              let k_is : k ≡ id =
                eq_of_some (sym (ok.is_live runs) ∙ ap (get live) (sym e) ∙ is_live) in
              let stopped' : is_running row.state ≡ false =
                subst (Stopped id) (ap (get table) (sym k_is) ∙ h) stopped in
              cc
        ];
      }
    ]

leave-InFlight :
    (live : Dict String String) (settled : String → Bool) (table : Table) (sandbox_id : String)
    → settled sandbox_id ≡ true
    → AllRows (InFlight live settled) table
    → AllRows (InFlight (erase live sandbox_id) settled) table
leave-InFlight live settled table sandbox_id over old k row h =
    let ok = old k row h in
    record {
      keyed = ok.keyed;
      is_live = λ r.
          rw (get-erase live sandbox_id row.sandbox_id)
            (elim (Bool-cases (sandbox_id == row.sandbox_id)) [
              | inr other ↦ rw other (ok.is_live r)
              | inl same ↦
                  let e = ap settled ((==_iff sandbox_id row.sandbox_id).0 same) in
                  let u = ok.unsettled r in cc
            ]);
      unsettled = ok.unsettled;
    }

-- A new thread takes a sandbox that no running job has.
others-InFlight :
    (sandbox_id id : String) (live : Dict String String) (settled : String → Bool) (k : String)
    (row : Job)
    → get live sandbox_id ≡ none
    → InFlight live settled k row
    → InFlight (put live sandbox_id id) (mark settled sandbox_id false) k row
others-InFlight sandbox_id id live settled k row idle ok =
    elim (Bool-cases (sandbox_id == row.sandbox_id)) [
      | inr other ↦ record {
        keyed = ok.keyed;
        is_live = λ r. rw (get-put live sandbox_id row.sandbox_id id, other) (ok.is_live r);
        unsettled = λ r. rw other (ok.unsettled r);
      }
      | inl same ↦
          let e = ap (get live) ((==_iff sandbox_id row.sandbox_id).0 same) in
          elim (Bool-cases (is_running row.state)) [
            | inr still ↦ idle-InFlight _ _ k row ok.keyed still
            | inl runs ↦ let l = ok.is_live runs in cc
          ]
    ]

-- The claimed job is the live one from now on; its sandbox had none.
claim-InFlight :
    (job claimed : Job) (settled : String → Bool) (s s' : System)
    → Claimed job claimed s s'
    → ((row : Job) → get s.table job.id ≡ some row → row.sandbox_id ≡ job.sandbox_id)
    → AllRows (InFlight s.live settled) s.table
    → AllRows (InFlight s'.live (mark settled claimed.sandbox_id false)) s'.table
claim-InFlight job claimed settled s s' c read old =
    let sb : claimed.sandbox_id ≡ job.sandbox_id =
      ap (λ (r : Job). r.sandbox_id) c.is_claimed ∙ read c.row c.found in
    let cid : claimed.id ≡ job.id =
      ap (λ (r : Job). r.id) c.is_claimed ∙ (old job.id c.row c.found).keyed in
    let live' = put s.live claimed.sandbox_id claimed.id in
    let settled' = mark settled claimed.sandbox_id false in
    rw (c.table, c.live)
      (AllRows-update_row (InFlight live' settled') is_queued (claimed_row s.clock) s.table job.id
        (λ k row h.
          others-InFlight claimed.sandbox_id claimed.id s.live settled k row
            (ap (get s.live) sb ∙ c.idle) (old k row h))
        (λ row h queued.
          let same : row ≡ c.row = eq_of_some (sym h ∙ c.found) in
          let at : claimed.sandbox_id ≡ row.sandbox_id =
            sb ∙ sym (ap (λ (r : Job). r.sandbox_id) same ∙ read c.row c.found) in
          let is_it : (claimed.sandbox_id == row.sandbox_id) ≡ true =
            (==_iff claimed.sandbox_id row.sandbox_id).1 at in
          record {
            keyed = (old job.id row h).keyed;
            is_live = λ r.
                rw (get-put s.live claimed.sandbox_id row.sandbox_id claimed.id, is_it)
                  (ap some cid);
            unsettled = λ r. rw is_it;
          }))

live-settle_section :
    (job : Job) (handler : Handler) (outcome : Outcome) (s : System)
    → (settle_section job handler outcome s).0.live ≡ s.live
unfolding settle_section
live-settle_section job handler done s = refl
live-settle_section job handler (wait reason window) s = ground arith
live-settle_section job handler (raised said name) s = ground arith

release_live :
    (job : Job) (s : System)
    → get s.live job.sandbox_id ≡ some job.id
    → release job s ≡ record s { live = erase s.live job.sandbox_id }
unfolding release
release_live job s live = rw (live, ==_refl job.id)

abbrev pub IsInFlight : World → Type 0
IsInFlight w = AllRows (InFlight w.system.live w.settled) w.system.table

Step-InFlight :
    (handlers : Handlers) {w v : World}
    → HasBackoff handlers
    → Step handlers w v
    → IsInFlight w
    → IsInFlight v
unfolding get_job start_shutdown end_shutdown
Step-InFlight handlers b (Step.tick n) old = old
Step-InFlight handlers {w} b (Step.queue id sandbox_id kind args deadline s free e) old =
    let q = enqueue-eq-some handlers id sandbox_id kind args deadline w.system s e in
    subst (λ (t : System). AllRows (InFlight t.live w.settled) t.table) (sym q.system)
      (AllRows-insert_row (InFlight w.system.live w.settled) w.system.table id _ free old
        (idle-InFlight _ _ id _ refl refl))
Step-InFlight handlers {w} b (Step.cancel sandbox_id) old =
    AllRows-cancel_sandbox_jobs (InFlight w.system.live w.settled) w.system.clock sandbox_id
      w.system.table old (λ id row h queued. idle-InFlight _ _ id _ (old id row h).keyed refl)
Step-InFlight handlers {w} b (Step.delete sandbox_id) old =
    AllRows-delete_sandbox_jobs (InFlight w.system.live w.settled) sandbox_id w.system.table old
Step-InFlight handlers {w} b (Step.claim_none job s e) old =
    subst (λ (t : System). AllRows (InFlight t.live w.settled) t.table)
      (sym (claim-eq-none job w.system s e)) old
Step-InFlight handlers {w} b (Step.claim_some job claimed s read e) old =
    claim-InFlight job claimed w.settled w.system s (claim-eq-some job claimed w.system s e) read
      old
Step-InFlight handlers {w} b (Step.settle job handler outcome live unsettled registered) old =
    let s' = (settle_section job handler outcome w.system).0 in
    subst (λ l. AllRows (InFlight l (mark w.settled job.sandbox_id true)) s'.table)
      (sym (live-settle_section job handler outcome w.system))
      (mark-InFlight w.system.live w.settled s'.table job.sandbox_id job.id live
        (settle_section-Stopped job handler outcome w.system (b job.kind handler registered))
        (settle_section-Keeps (AllRows (InFlight w.system.live w.settled))
          (Keeps-AllRows (InFlight w.system.live w.settled)
            (Closed-InFlight w.system.live w.settled))
          job handler outcome w.system old))
Step-InFlight handlers {w} b (Step.leave job live over) old =
    subst (λ (t : System). AllRows (InFlight t.live w.settled) t.table)
      (sym (release_live job w.system live))
      (leave-InFlight w.system.live w.settled w.system.table job.sandbox_id over old)
Step-InFlight handlers {w} b Step.expire old =
    expire_table-Keeps (AllRows (InFlight w.system.live w.settled))
      (Keeps-AllRows (InFlight w.system.live w.settled) (Closed-InFlight w.system.live w.settled))
      w.system.clock w.system.table old
Step-InFlight handlers b Step.closing old = old
Step-InFlight handlers {w} b Step.stop old =
    end_shutdown-Keeps (AllRows (InFlight w.system.live w.settled))
      (Keeps-AllRows (InFlight w.system.live w.settled) (Closed-InFlight w.system.live w.settled))
      w.system old

pub Reach-InFlight :
    (handlers : Handlers) {start w : World}
    → HasBackoff handlers
    → IsInFlight start
    → Reach handlers start w
    → IsInFlight w
Reach-InFlight handlers b old Reach.here = old
Reach-InFlight handlers b old (Reach.next before step) =
    Step-InFlight handlers b step (Reach-InFlight handlers b old before)

-- From a state in which every running job is live, one with no running job for instance, and
-- however the threads, the loop and the requests interleave: two running jobs of one sandbox are
-- one job, and it is the one whose thread `live` names.
pub running_once :
    (handlers : Handlers) {start w : World} (id other : String) (row row' : Job)
    → HasBackoff handlers
    → IsInFlight start
    → Reach handlers start w
    → get w.system.table id ≡ some row
    → get w.system.table other ≡ some row'
    → is_running row.state ≡ true
    → is_running row'.state ≡ true
    → row.sandbox_id ≡ row'.sandbox_id
    → (id ≡ other) × (get w.system.live row.sandbox_id ≡ some id)
running_once handlers {w = w} id other row row' b start reach here there runs runs' same =
    let inv = Reach-InFlight handlers b start reach in
    let l = (inv id row here).is_live runs in
    let l' = (inv other row' there).is_live runs' in
    (eq_of_some (sym l ∙ ap (get w.system.live) same ∙ l'), l)
