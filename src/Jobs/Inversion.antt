-- ===== src/Jobs/Inversion.antt =====
-- What a claim and an enqueue have found and done, read off their results.
use zoo.Base.{
  ℕ, String, string_eq, ◌≡◌, refl, sym, ap, ◌∙◌, true, Option, none, some, Bool-cases, Option-cases,
  inl, inr, eq_of_some,
}
use zoo.Base.Dict.{get, put}
use zoo.Jobs.Table.{
  Job, claim_job, claimed_row, create_job, new_job, is_queued, claimed_of, insert_row, update_row,
  update_when,
}
use zoo.Jobs.Queue.{Handlers, Handler, System, claim, enqueue, take_live, deadline_of}

pub record Claimed (job claimed : Job) (s s' : System) : Type 0 where
  pub row : Job
  pub idle : get s.live job.sandbox_id ≡ none
  pub found : get s.table job.id ≡ some row
  pub was_queued : is_queued row.state ≡ true
  pub is_claimed : claimed ≡ claimed_row s.clock row
  pub table : s'.table ≡ update_row is_queued (claimed_row s.clock) s.table job.id
  pub live : s'.live ≡ put s.live claimed.sandbox_id claimed.id
  pub clock : s'.clock ≡ s.clock

Claimed-found :
    (job claimed : Job) (s s' : System) (found : Option Job)
    → get s.table job.id ≡ found
    → get s.live job.sandbox_id ≡ none
    → take_live s
        (update_row is_queued (claimed_row s.clock) s.table job.id, claimed_of s.clock found)
      ≡ (s', some claimed)
    → Claimed job claimed s s'
Claimed-found job claimed s s' none f idle e = cc
Claimed-found job claimed s s' (some row) f idle e = elim (Bool-cases (is_queued row.state)) [
  | inl queued ↦
      let e' = rw queued at e in
      let same = ap (λ (p : System × Option Job). p.0) e' in
      let c : claimed_row s.clock row ≡ claimed =
        eq_of_some (ap (λ (p : System × Option Job). p.1) e') in
      record {
        row = row;
        idle = idle;
        found = f;
        was_queued = queued;
        is_claimed = sym c;
        table = sym (ap (λ (t : System). t.table) same);
        live =
            sym (ap (λ (t : System). t.live) same)
            ∙ ap (λ (r : Job). put s.live r.sandbox_id r.id) c;
        clock = sym (ap (λ (t : System). t.clock) same);
      }
  | inr other ↦ let e' = rw other at e in cc
]

pub claim-eq-some :
    (job claimed : Job) (s s' : System)
    → claim job s ≡ (s', some claimed)
    → Claimed job claimed s s'
unfolding claim claim_job
claim-eq-some job claimed s s' e = elim (Option-cases (get s.live job.sandbox_id)) [
  | inl idle ↦
      let e' = rw idle at e in Claimed-found job claimed s s' (get s.table job.id) refl idle e'
  | inr (other, busy) ↦ let e' = rw busy at e in cc
]

take_live-none :
    (job : Job) (s s' : System) (found : Option Job)
    → take_live s
        (update_when is_queued (claimed_row s.clock) s.table job.id found, claimed_of s.clock found)
      ≡ (s', none)
    → s' ≡ s
take_live-none job s s' none e = sym (ap (λ (p : System × Option Job). p.0) e)
take_live-none job s s' (some row) e = elim (Bool-cases (is_queued row.state)) [
  | inl queued ↦ let e' = rw queued at e in cc
  | inr other ↦ sym (ap (λ (p : System × Option Job). p.0) (rw other at e))
]

-- A claim that fails changes nothing.
pub claim-eq-none : (job : Job) (s s' : System) → claim job s ≡ (s', none) → s' ≡ s
unfolding claim claim_job
claim-eq-none job s s' e = elim (Option-cases (get s.live job.sandbox_id)) [
  | inl idle ↦ take_live-none job s s' (get s.table job.id) (rw idle at e)
  | inr (other, busy) ↦ sym (ap (λ (p : System × Option Job). p.0) (rw busy at e))
]

pub record Enqueued (handlers : Handlers) (id sandbox_id kind args : String) (deadline : Option ℕ)
    (s s' : System) : Type 0 where
  pub handler : Handler
  pub registered : get handlers kind ≡ some handler
  pub free : get s.table id ≡ none
  pub system : s' ≡ record s {
    table = insert_row s.table id (
        new_job s.clock (record {
          id = id;
          sandbox_id = sandbox_id;
          kind = kind;
          args = args;
          max_attempts = handler.attempts;
          deadline = deadline_of s deadline;
        }));
  }

pub enqueue-eq-some :
    (handlers : Handlers) (id sandbox_id kind args : String) (deadline : Option ℕ) (s s' : System)
    → enqueue handlers id sandbox_id kind args deadline s ≡ some s'
    → Enqueued handlers id sandbox_id kind args deadline s s'
unfolding enqueue create_job
enqueue-eq-some handlers id sandbox_id kind args deadline s s' e =
    elim (Option-cases (get handlers kind)) [
      | inl unknown ↦ let e' = rw unknown at e in cc
      | inr (handler, registered) ↦ elim (Option-cases (get s.table id)) [
        | inl free ↦ record {
          handler = handler;
          registered = registered;
          free = free;
          system = sym (eq_of_some (rw (registered, free) at e));
        }
        | inr (row, taken) ↦ let e' = rw (registered, taken) at e in cc
      ]
    ]
