-- ===== src/Writer/Close.antt =====
-- The batches of close: they end, and write what was pending.
use zoo.Base.{
  ℕ, zero, suc, ◌-◌, ◌<◌, min, string_eq, nat_eq, pair_eq, ◌≡◌, refl, sym, ◌∙◌, ap, Bool, true,
  false, some, List, [], ◌∷◌, arith, Bool-cases, inl, inr, if_true, if_false, nat_beq, nat_beq_iff,
  length, take, drop, length-take, length-drop, take-append-drop, nil_of_length,
}
use zoo.Base.Dict.{get}
use zoo.Writer.{Writer, batch_rows, take_batch, settle, write, batch, drain, close, closed}
use zoo.Writer.Statements.{Entry, UsageKey, Database, persist, plus}
use zoo.Writer.Totals.{total, total-append, plus_assoc, plus-none, usage-persist}

-- What is left, and what has been written, when all batches commit.
record Drained (queue : List Entry) (unfinished : ℕ) (db : Database) (w' : Writer) (db' : Database)
    : Type 0 where
  empty : w'.queue ≡ []
  counted : w'.unfinished ≡ unfinished - length queue
  same_workspaces : db'.is_workspace ≡ db.is_workspace
  written :
      (key : UsageKey)
      → get db'.usage key ≡ plus (get db.usage key) (total db.is_workspace key queue)

usage-write :
    (commits : List Entry → Bool) (rows : List Entry) (db : Database) (key : UsageKey)
    → ((rows : List Entry) → commits rows ≡ true)
    → get (write commits rows db).usage key
      ≡ plus (get db.usage key) (total db.is_workspace key rows)
unfolding write total
usage-write commits [] db key all = sym (plus-none (get db.usage key))
usage-write commits (entry ∷ rows) db key all =
    ap (λ d. get d.usage key) (if_true (persist (entry ∷ rows) db) db (all (entry ∷ rows)))
    ∙ usage-persist (entry ∷ rows) db key

is_workspace-write :
    (commits : List Entry → Bool) (rows : List Entry) (db : Database)
    → (write commits rows db).is_workspace ≡ db.is_workspace
unfolding write persist
is_workspace-write commits [] db = refl
is_workspace-write commits (entry ∷ rows) db = elim (Bool-cases (commits (entry ∷ rows))) [
  | inl commit ↦ rw commit refl
  | inr fails ↦ rw fails refl
]

drain-Drained :
    (fuel : ℕ) (commits : List Entry → Bool) (w : Writer) (db : Database)
    → ((rows : List Entry) → commits rows ≡ true)
    → length w.queue < fuel
    → (w' : Writer) × (db' : Database) × (drain fuel commits (w, db) ≡ some (w', db'))
      × Drained w.queue w.unfinished db w' db'
unfolding drain batch take_batch settle total
drain-Drained zero commits w db all lt = absurd (omega arith)
drain-Drained (suc fuel) commits w db all lt = elim (Bool-cases (nat_beq (length w.queue) 0)) [
  | inl empty ↦
      let nil : w.queue ≡ [] = nil_of_length w.queue ((nat_beq_iff (length w.queue) 0).0 empty) in
      (
        w,
        db,
        if_true _ _ empty,
        record {
          empty = nil;
          counted = omega (arith, ap length nil);
          same_workspaces = refl;
          written = λ key. sym (rw nil (plus-none (get db.usage key)));
        },
      )
  | inr some_left ↦
      let rows = take batch_rows w.queue in
      let rest = drop batch_rows w.queue in
      let more : 0 < length w.queue = ground arith in
      let taken : length rows ≡ min batch_rows (length w.queue) = length-take batch_rows w.queue in
      let left : length rest ≡ length w.queue - batch_rows = length-drop batch_rows w.queue in
      let db1 = write commits rows db in
      let w1 : Writer = settle rows (record w { queue = rest }) in
      let (w', db', returns, done) =
        drain-Drained fuel commits w1 db1 all (omega (arith, lt, more, left)) in
      (
        w',
        db',
        if_false _ _ some_left ∙ returns,
        record {
          empty = done.empty;
          counted = omega (arith, done.counted, taken, left);
          same_workspaces = done.same_workspaces ∙ is_workspace-write commits rows db;
          written = λ key.
              done.written key
              ∙ ap (λ is. plus (get db1.usage key) (total is key rest))
                  (is_workspace-write commits rows db)
              ∙ ap (λ o. plus o (total db.is_workspace key rest))
                  (usage-write commits rows db key all)
              ∙ plus_assoc (get db.usage key) (total db.is_workspace key rows)
                  (total db.is_workspace key rest)
              ∙ ap (plus (get db.usage key)) (sym (total-append db.is_workspace key rows rest))
              ∙ ap (λ q. plus (get db.usage key) (total db.is_workspace key q))
                  (take-append-drop batch_rows w.queue);
        },
      )
]

-- With more fuel than entries are pending, and with transactions that commit, close returns: nothing is pending then, and the usage of
-- each key has grown by what the pending entries of the key add up to, however they fall into batches.
pub close_lem :
    (fuel : ℕ) (commits : List Entry → Bool) (w : Writer) (db : Database)
    → ((rows : List Entry) → commits rows ≡ true)
    → length w.queue < fuel
    → (w' : Writer) × (db' : Database) × (close fuel commits (w, db) ≡ some (w', db'))
      × (w'.queue ≡ [])
      × (w'.unfinished ≡ w.unfinished - length w.queue)
      × (w'.drained ≡ true)
      × ((key : UsageKey)
          → get db'.usage key ≡ plus (get db.usage key) (total db.is_workspace key w.queue))
unfolding close
close_lem fuel commits w db all lt =
    let (w', db', returns, done) =
      drain-Drained fuel commits (record w { accepting = false; wake = true }) db all lt in
    (
      record w' { started = false; wake = false; drained = true },
      db',
      ap closed returns,
      done.empty,
      done.counted,
      refl,
      done.written,
    )
