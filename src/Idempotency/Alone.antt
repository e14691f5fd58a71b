-- ===== src/Idempotency/Alone.antt =====
-- Requests with keys, interleaved: a key's request runs alone.
use zoo.Base.{
  ℕ, ◌+◌, ◌≤◌, String, string_eq, pair_eq, ◌==◌, ◌≡◌, ◌≢◌, refl, sym, ◌∙◌, ap, subst, false, inl,
  inr, Option, none, some, ◌∷◌, arith, Bool-cases, Option-cases, if_true, if_false, eq_of_some,
}
use zoo.Base.Dict.{Dict, get, erase, get-erase, Distinct, erase-Distinct}
use zoo.Idempotency.{
  Row, KeyOf, Table, Decision, run, begin, End, end_request, purge, abandoned_seconds, decide,
  replay_of, key_reused,
}
use zoo.Idempotency.Keys.{
  IsFree, Runs, new_row, begin_cases, get-end_request, get-purge, end_request-Distinct,
  purge-Distinct,
}

-- The table, the requests whose application runs, each under its key with the time it began, and the clock.
pub record World : Type 0 where
  pub table : Table
  pub running : Dict KeyOf ℕ
  pub clock : ℕ

-- The table and the decision of one request.
abbrev pub after_begin : World → (path request_hash : String) → KeyOf → Table × Decision
after_begin w path request_hash key = begin w.clock path request_hash key w.table

-- The sections of requests. Time passes while no request runs for longer than ABANDONED_SECONDS.
pub data Step (w : World) : World → Type 0 where
  tick :
      (n : ℕ)
      → ((key : KeyOf) (began : ℕ)
          → get w.running key ≡ some began
          → w.clock + n ≤ began + abandoned_seconds)
      → Step w (record w { clock = w.clock + n })
  start_run :
      (path request_hash : String) (key : KeyOf)
      → (after_begin w path request_hash key).1 ≡ run
      → Step w (record w {
        table = (after_begin w path request_hash key).0;
        running = (key, w.clock) ∷ w.running;
      })
  answer :
      (path request_hash : String) (key : KeyOf)
      → (after_begin w path request_hash key).1 ≢ run
      → Step w (record w { table = (after_begin w path request_hash key).0 })
  end_run :
      (key : KeyOf) (began : ℕ) (ending : End)
      → get w.running key ≡ some began
      → Step w (record w { table = end_request ending key w.table; running = erase w.running key })
  purge_rows : Step w (record w { table = purge w.clock w.table })

pub data Reach (start : World) : World → Type 0 where
  here : Reach start start
  next : {w w' : World} → Reach start w → Step w w' → Reach start w'

-- The row of a request that runs: no response yet, as old as the request, and not too old.
pub record Holds (w : World) (key : KeyOf) (began : ℕ) : Type 0 where
  pub row : Row
  pub there : get w.table key ≡ some row
  pub silent : row.status ≡ none
  pub born : row.created_at ≡ began
  pub in_time : w.clock ≤ began + abandoned_seconds

pub record IsAlone (w : World) : Type 0 where
  pub alone : Distinct w.running
  pub keyed : Distinct w.table
  pub holds : (key : KeyOf) (began : ℕ) → get w.running key ≡ some began → Holds w key began

-- A key that is free has no request that runs.
free_lem :
    (w : World) (key : KeyOf) → IsAlone w → IsFree w.clock key w.table → get w.running key ≡ none
free_lem w key h free = elim (Option-cases (get w.running key)) [
  | inl idle ↦ idle
  | inr (began, busy) ↦
      let held = h.holds key began busy in
      elim free [
        | inl gone ↦ absurd (cc (gone, held.there))
        | inr (row, there, silent, old) ↦
            let same : row ≡ held.row = eq_of_some (sym there ∙ held.there) in
            let born : row.created_at ≡ began = ap (λ r. r.created_at) same ∙ held.born in
            absurd (omega (arith, old, held.in_time, born))
      ]
]

start_run-IsAlone :
    (w : World) (path request_hash : String) (key : KeyOf)
    → Runs w.clock path request_hash key w.table
    → IsAlone w
    → IsAlone (record w {
      table = (after_begin w path request_hash key).0;
      running = (key, w.clock) ∷ w.running;
    })
unfolding get
start_run-IsAlone w path request_hash key (free, runs, rows, distinct) h = record {
  alone = (free_lem w key h free, h.alone);
  keyed = distinct h.keyed;
  holds = λ other began found. elim (Bool-cases (key == other)) [
    | inl same ↦ record {
      row = new_row w.clock path request_hash;
      there = rows other ∙ if_true _ _ same;
      silent = refl;
      born = eq_of_some (sym (if_true _ _ same) ∙ found);
      in_time =
          let e : w.clock ≡ began = eq_of_some (sym (if_true _ _ same) ∙ found) in omega (arith, e);
    }
    | inr differs ↦
        let held = h.holds other began (sym (if_false _ _ differs) ∙ found) in
        record {
          row = held.row;
          there = rows other ∙ if_false _ _ differs ∙ held.there;
          silent = held.silent;
          born = held.born;
          in_time = held.in_time;
        }
  ];
}

end_run-IsAlone :
    (w : World) (key : KeyOf) (began : ℕ) (ending : End)
    → get w.running key ≡ some began
    → IsAlone w
    → IsAlone (record w { table = end_request ending key w.table; running = erase w.running key })
end_run-IsAlone w key began ending busy h = record {
  alone = erase-Distinct w.running key h.alone;
  keyed = end_request-Distinct ending key w.table h.keyed;
  holds = λ other began' found. elim (Bool-cases (key == other)) [
    | inl same ↦ absurd (cc (sym (get-erase w.running key other ∙ if_true _ _ same), found))
    | inr differs ↦
        let held =
          h.holds other began'
            (sym (get-erase w.running key other ∙ if_false _ _ differs) ∙ found) in
        let own = h.holds key began busy in
        record {
          row = held.row;
          silent = held.silent;
          born = held.born;
          in_time = held.in_time;
          there = get-end_request ending key other w.table own.row own.there differs ∙ held.there;
        }
  ];
}

purge-IsAlone : (w : World) → IsAlone w → IsAlone (record w { table = purge w.clock w.table })
purge-IsAlone w h = record {
  alone = h.alone;
  keyed = purge-Distinct w.clock w.table h.keyed;
  holds = λ key began busy.
      let held = h.holds key began busy in
      record {
        row = held.row;
        silent = held.silent;
        born = held.born;
        in_time = held.in_time;
        there =
            get-purge w.clock w.table key held.row h.keyed held.there
              (omega (arith, held.in_time, held.born));
      };
}

answer-IsAlone :
    (w : World) (path request_hash : String) (key : KeyOf)
    → (after_begin w path request_hash key).1 ≢ run
    → IsAlone w
    → IsAlone (record w { table = (after_begin w path request_hash key).0 })
answer-IsAlone w path request_hash key refused h =
    elim (begin_cases w.clock path request_hash key w.table) [
      | inl (free, runs, rows, distinct) ↦ absurd (refused runs)
      | inr (row, there, e) ↦ subst (λ b. IsAlone (record w { table = b.0 })) (sym e) h
    ]

other_run : key_reused ≢ run
other_run e = cc

replay_of-run : (row : Row) (status : Option ℕ) → replay_of row status ≢ run
replay_of-run row none e = cc
replay_of-run row (some status) e = cc

-- A row that was there lets no request run.
decide-run : (row : Row) (request_hash : String) → decide request_hash (row, false) ≢ run
decide-run row request_hash e = elim (Bool-cases (row.request_hash == request_hash)) [
  | inl same ↦ replay_of-run row row.status (sym (if_true _ _ same) ∙ e)
  | inr differs ↦ absurd (other_run (sym (if_false _ _ differs) ∙ e))
]

start_run_lem :
    (w : World) (path request_hash : String) (key : KeyOf)
    → (after_begin w path request_hash key).1 ≡ run
    → Runs w.clock path request_hash key w.table
start_run_lem w path request_hash key runs =
    elim (begin_cases w.clock path request_hash key w.table) [
      | inl r ↦ r
      | inr (row, there, e) ↦ absurd (decide-run row request_hash (sym (ap (λ b. b.1) e) ∙ runs))
    ]

pub Step-IsAlone : {w w' : World} → Step w w' → IsAlone w → IsAlone w'
Step-IsAlone {w} (tick n in_time) h = record {
  alone = h.alone;
  keyed = h.keyed;
  holds = λ key began busy.
      let held = h.holds key began busy in
      record {
        row = held.row;
        there = held.there;
        silent = held.silent;
        born = held.born;
        in_time = in_time key began busy;
      };
}
Step-IsAlone {w} (start_run path request_hash key runs) h =
    start_run-IsAlone w path request_hash key (start_run_lem w path request_hash key runs) h
Step-IsAlone {w} (answer path request_hash key refused) h =
    answer-IsAlone w path request_hash key refused h
Step-IsAlone {w} (end_run key began ending busy) h = end_run-IsAlone w key began ending busy h
Step-IsAlone {w} purge_rows h = purge-IsAlone w h

-- Over any interleaving of requests in which none runs for longer than ABANDONED_SECONDS, from a table with unique keys that has the row
-- of each request that runs: no two requests of one key run at a time, and each has its row, without a response, in the table.
pub Reach-IsAlone : {start w : World} → Reach start w → IsAlone start → IsAlone w
Reach-IsAlone here h = h
Reach-IsAlone (next r step) h = Step-IsAlone step (Reach-IsAlone r h)
