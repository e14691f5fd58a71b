-- ===== src/Pool/Single.antt =====
-- A pooled sandbox is handed to one request, or removed, and never both.
use zoo.Base.{
  ℕ, String, string_eq, pair_eq, ◌==◌, ==_iff, ◌≡◌, refl, sym, ◌∙◌, ap, ap₂, true, Option, none,
  some, [], ◌≤◌, arith, is_some, any, and-eq_true, Bool-cases, Option-cases, inl, inr,
  if◌then◌else◌, if_true, if_false,
}
use zoo.Base.Dict.{Dict, get, put, erase, get-put, get-erase}
use zoo.Pool.{
  Setting, World, Boot, PoolId, or_zero, ran, shown, PoolSandbox, pool_id, or_local, or_empty,
  is_idle, is_booting, is_failed, idle, failed, find, may_be_claimed, claim, claim_pool_sandbox,
  kinds, set_pool_sandbox_runtime, set_pool_sandbox_idle, set_pool_sandbox_failed, update_row,
  boot_ran, boot_shown, boot_failed, boot_done, discard,
}
use zoo.Pool.Rows.{find_lem, update_row_cases}
use zoo.Pool.Steps.{
  Step, claims, starts, runs, shows, fails, ends, discards, restarts, Reach, here, next, IsSingle,
  count_of,
}
use zoo.Pool.Kept.{
  update-IsSingle, remove-IsSingle, erase-IsSingle, hand_over-IsSingle, start-IsSingle,
}

or_local-eq : (a b : Option String) → or_empty a ≡ or_empty b → or_local a ≡ or_local b
or_local-eq none none e = refl
or_local-eq none (some b) e = sym (if_true _ _ ((==_iff b "").1 (sym e)))
or_local-eq (some a) none e = if_true _ _ ((==_iff a "").1 e)
or_local-eq (some a) (some b) e = ap (λ s. or_local (some s)) e

-- A pooled row was not handed out.
not_handed :
    (w : World) (id : String) (row : PoolSandbox)
    → IsSingle w
    → get w.table id ≡ some row
    → get w.handed id ≡ none
not_handed w id row h found = elim (Option-cases (get w.handed id)) [
  | inl new ↦ new
  | inr (r, out) ↦ absurd (cc (h.taken id r out, found))
]

-- An idle row was not removed.
not_removed :
    (w : World) (id : String) (row : PoolSandbox)
    → IsSingle w
    → get w.table id ≡ some row
    → is_idle row.status ≡ true
    → get w.removed id ≡ none
not_removed w id row h found waits = elim (Option-cases (get w.removed id)) [
  | inl alive ↦ alive
  | inr (old, out) ↦ absurd (ground (arith, h.gone id row old out found))
]

claim-IsSingle :
    (env : Setting) (kind : String) (server_id : Option String) (w : World)
    → IsSingle w
    → IsSingle (claim env kind server_id w).1
unfolding claim claim_pool_sandbox get
claim-IsSingle env kind server_id w h =
    let p = may_be_claimed kind (or_empty server_id) (env.default_image kind) in
    elim (Bool-cases (any (λ own. kind == own) kinds)) [
      | inr other ↦ rw other h
      | inl known ↦ elim (Option-cases (find p w.table)) [
        | inl nothing ↦ rw (known, nothing) h
        | inr ((id, row), found) ↦
            let (there, fits) = find_lem p w.table id row h.keyed found in
            let c = and-eq_true _ (row.image == env.default_image kind) fits in
            let b = and-eq_true _ (or_empty row.server_id == or_empty server_id) c.0 in
            let a = and-eq_true (is_idle row.status) (row.kind == kind) b.0 in
            let e : pool_id kind server_id ≡ pool_id row.kind row.server_id =
              ap₂ (λ (k s : String). (k, s)) (sym ((==_iff row.kind kind).0 a.1))
                (or_local-eq server_id row.server_id
                  (sym ((==_iff (or_empty row.server_id) (or_empty server_id)).0 b.1))) in
            rw (known, found)
              (hand_over-IsSingle (record w { table = erase w.table id }) (pool_id kind server_id)
                id row (erase-IsSingle w id h)
                (get-erase w.table id id ∙ if_true _ _ ((==_iff id id).1 refl))
                (not_handed w id row h there) (not_removed w id row h there a.0) a.0
                (h.idle_up id row there a.0) e)
      ]
    ]

ran-IsSingle :
    (now : ℕ) (id runtime_id runtime_host : String) (w : World)
    → IsSingle w
    → IsSingle (boot_ran now id runtime_id runtime_host w)
unfolding boot_ran set_pool_sandbox_runtime
ran-IsSingle now id runtime_id runtime_host w h =
    let f : (row : PoolSandbox) → PoolSandbox = λ row. record row {
      runtime_id = some runtime_id;
      runtime_host = some runtime_host;
      updated_at = now;
    } in
    update-IsSingle w id f (put w.threads id ran) h (λ row there was. was) (λ row there waits. refl)
      (λ other row at_it found.
        let (before, there, e) = update_row_cases id other f w.table row found in
        elim (Bool-cases (id == other)) [
          | inl same ↦ ap (λ r. is_some r.runtime_id) (e ∙ if_true _ _ same)
          | inr apart ↦
              ap (λ r. is_some r.runtime_id) (e ∙ if_false _ _ apart)
              ∙ h.ran_up other before
                  (sym (get-put w.threads id other ran ∙ if_false _ _ apart) ∙ at_it) there
        ])

shown-IsSingle :
    (now : ℕ) (id : String) (w : World)
    → get w.threads id ≡ some ran
    → IsSingle w
    → IsSingle (boot_shown now id w)
unfolding boot_shown set_pool_sandbox_idle
shown-IsSingle now id w at h =
    let f : (row : PoolSandbox) → PoolSandbox = λ row.
      if is_booting row.status then record row { status = idle; updated_at = now } else row in
    let same_runtime : (row : PoolSandbox) → is_some (f row).runtime_id ≡ is_some row.runtime_id =
      λ row. elim (Bool-cases (is_booting row.status)) [
        | inl boots ↦ rw boots refl
        | inr other ↦ rw other refl
      ] in
    update-IsSingle w id f (put w.threads id shown) h (λ row there was. ground arith)
      (λ row there waits. same_runtime row ∙ h.ran_up id row at there)
      (λ other row at_it found.
        let (before, there, e) = update_row_cases id other f w.table row found in
        elim (Bool-cases (id == other)) [
          | inl same ↦
              let e' : some shown ≡ some ran =
                sym (get-put w.threads id other shown ∙ if_true _ _ same) ∙ at_it in
              absurd (cc e')
          | inr apart ↦
              ap (λ r. is_some r.runtime_id) (e ∙ if_false _ _ apart)
              ∙ h.ran_up other before
                  (sym (get-put w.threads id other shown ∙ if_false _ _ apart) ∙ at_it) there
        ])

threads_erased :
    (w : World) (id other : String)
    → get (erase w.threads id) other ≡ some ran
    → get w.threads other ≡ some ran
threads_erased w id other at = elim (Bool-cases (id == other)) [
  | inl same ↦
      let e : get (erase w.threads id) other ≡ none =
        get-erase w.threads id other ∙ if_true _ _ same in
      absurd (cc (e, at))
  | inr apart ↦ sym (get-erase w.threads id other ∙ if_false _ _ apart) ∙ at
]

threads-IsSingle :
    (w : World) (threads : Dict String Boot) (claimed : Dict PoolId ℕ)
    → IsSingle w
    → ((id : String) → get threads id ≡ some ran → get w.threads id ≡ some ran)
    → ((pool : PoolId) → or_zero (get claimed pool) ≤ count_of pool w.handed)
    → IsSingle (record w { threads = threads; claimed = claimed })
threads-IsSingle w threads claimed h rans counts = record {
  keyed = h.keyed;
  once = h.once;
  taken = h.taken;
  alive = h.alive;
  up = h.up;
  gone = h.gone;
  idle_up = h.idle_up;
  ran_up = λ id row at. h.ran_up id row (rans id at);
  counts = counts;
}

failed-IsSingle :
    (now : ℕ) (id error : String) (w : World) → IsSingle w → IsSingle (boot_failed now id error w)
unfolding boot_failed set_pool_sandbox_failed
failed-IsSingle now id error w h =
    let f : (row : PoolSandbox) → PoolSandbox =
      λ row. record row { status = failed; error_message = some error; updated_at = now } in
    let w' : World = record w { table = update_row id f w.table; threads = erase w.threads id } in
    let h' : IsSingle w' =
      update-IsSingle w id f (erase w.threads id) h (λ row there was. refl)
        (λ row there waits. absurd (cc waits))
        (λ other row at found.
          let (before, there, e) = update_row_cases id other f w.table row found in
          let up = h.ran_up other before (threads_erased w id other at) there in
          elim (Bool-cases (id == other)) [
            | inl same ↦ ap (λ r. is_some r.runtime_id) (e ∙ if_true _ _ same) ∙ up
            | inr apart ↦ ap (λ r. is_some r.runtime_id) (e ∙ if_false _ _ apart) ∙ up
          ]) in
    elim (Option-cases (get w'.table id)) [
      | inl free ↦ rw free h'
      | inr (row, found) ↦ rw found (
          remove-IsSingle w' id row h' (not_handed w' id row h' found) (λ r there.
            let (before, was, e) = update_row_cases id id f w.table r there in
            ap (λ x. is_failed x.status) (e ∙ if_true _ _ ((==_iff id id).1 refl))))
    ]

discard-IsSingle : (id : String) (w : World) → IsSingle w → IsSingle (discard id w)
unfolding discard
discard-IsSingle id w h =
    let w' : World = record w { table = erase w.table id } in
    let h' : IsSingle w' = erase-IsSingle w id h in
    let free : get w'.table id ≡ none =
      get-erase w.table id id ∙ if_true _ _ ((==_iff id id).1 refl) in
    elim (Option-cases (get w.table id)) [
      | inl nothing ↦ rw nothing h'
      | inr (row, found) ↦ rw found (
          remove-IsSingle w' id row h' (not_handed w id row h found)
            (λ r there. absurd (cc (free, there))))
    ]

Step-IsSingle : {env : Setting} {w w' : World} → Step env w w' → IsSingle w → IsSingle w'
unfolding boot_done get
Step-IsSingle {env} {w} (claims kind server_id) h = claim-IsSingle env kind server_id w h
Step-IsSingle {env} {w} (starts now id kind server_id free new alive none_boots) h =
    start-IsSingle env now id kind server_id w h new alive
Step-IsSingle {env} {w} (runs now id runtime_id runtime_host at) h =
    ran-IsSingle now id runtime_id runtime_host w h
Step-IsSingle {env} {w} (shows now id at) h = shown-IsSingle now id w at h
Step-IsSingle {env} {w} (fails now id error boot at) h = failed-IsSingle now id error w h
Step-IsSingle {env} {w} (ends id at) h =
    threads-IsSingle w (erase w.threads id) w.claimed h (λ other. threads_erased w id other)
      h.counts
Step-IsSingle {env} {w} (discards id) h = discard-IsSingle id w h
Step-IsSingle {env} {w} restarts h =
    threads-IsSingle w [] [] h (λ other at. absurd (cc at)) (λ pool. omega arith)

-- Over any interleaving of claims whose requests commit, boots, refills and restarts, from a state of which what
-- follows holds: no pooled sandbox is handed out twice; one that is handed out was idle with a container, is not in
-- the table any more, and is never removed; a row whose container was removed is failed; and no pool counts more
-- claims than it handed out.
pub Reach-IsSingle :
    {env : Setting} {start w : World} → Reach env start w → IsSingle start → IsSingle w
Reach-IsSingle here h = h
Reach-IsSingle (next r step) h = Step-IsSingle step (Reach-IsSingle r h)
