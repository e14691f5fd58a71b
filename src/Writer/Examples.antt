-- ===== src/Writer/Examples.antt =====
-- Two log entries and some usage, written in batches.
use zoo.Base.{
  ℕ, string_eq, nat_eq, pair_eq, ◌==◌, ◌≡◌, refl, ◌-◌, true, false, none, some, List, [], ◌∷◌,
  arith, length,
}
use zoo.Base.Dict.{get, put}
use zoo.Writer.{
  Writer, new_writer, start, execution, enqueue, wake_loop, usage, take_batch, settle, close, drain,
  batch, write, run_round,
}
use zoo.Writer
use zoo.Writer.Statements.{
  Entry, touch_row, usage_row, UsageKey, Database, persist, insert_starts, update_finishes,
  last_touch, last_key_touch, update_touched, insert_audits, group_usage, upsert_usage, plus,
}
use zoo.Writer.Totals.{total, usage-persist}
use zoo.Writer.Pending.{
  World, Reach, here, next, put_entry, take_rows, settle_rows, IsConsistent, Reach-IsConsistent,
  flush_lem,
}
use zoo.Writer.Close.{close_lem}

abbrev db : Database
db = record {
  is_workspace = λ id. id == "w";
  is_user = λ id. false;
  sandboxes = ("s1", some 5) ∷ [];
  api_keys = [];
  tool_executions = [];
  audit_logs = [];
  usage = (((("w", "s1"), "cpu_minutes"), 0), 7) ∷ [];
}

abbrev cpu : ℕ → Entry
cpu quantity = usage_row "w" "s1" "cpu_minutes" 0 quantity

abbrev entries : List Entry
entries = cpu 2 ∷ touch_row "s1" 9 ∷ cpu 3 ∷ touch_row "s1" 4 ∷ []

persist_run : persist entries db ≡ record db {
  sandboxes = ("s1", some 9) ∷ [];
  usage = (((("w", "s1"), "cpu_minutes"), 0), 12) ∷ [];
}
unfolding persist insert_starts update_finishes last_touch last_key_touch update_touched
    insert_audits group_usage upsert_usage get put
persist_run = refl

refused_run : execution "e1" "s1" "screenshot" "{}" 3 new_writer ≡ none
unfolding execution enqueue
refused_run = refl

abbrev running : Writer
running = record new_writer { started = true; accepting = true }

abbrev holding : Writer
holding = record running { queue = entries; unfinished = 4; drained = false }

start_run : start new_writer ≡ running
unfolding start
start_run = refl

abbrev key : UsageKey
key = ((("w", "s1"), "cpu_minutes"), 0)

usage-persist_example :
    get (persist entries db).usage key ≡ plus (get db.usage key) (total db.is_workspace key entries)
usage-persist_example = usage-persist entries db key

close_lem_example :
    (w' : Writer) × (db' : Database) × (close 5 (λ rows. true) (holding, db) ≡ some (w', db'))
    × (w'.queue ≡ [])
    × (w'.unfinished ≡ 4 - length entries)
    × (w'.drained ≡ true)
    × ((key : UsageKey)
        → get db'.usage key ≡ plus (get db.usage key) (total db.is_workspace key entries))
close_lem_example = close_lem 5 (λ rows. true) holding db (λ rows. refl) (omega arith)

abbrev before : World
before = record { writer = running; in_flight = []; accepted = []; settled = [] }

abbrev before-IsConsistent : IsConsistent before
before-IsConsistent = record { in_order = refl; counted = refl; says = refl; bounded = omega arith }

abbrev put_one : World
put_one = record before { writer = wake_loop (Writer.put (cpu 2) running); accepted = cpu 2 ∷ [] }

abbrev taken : World
taken = record put_one {
  writer = (take_batch put_one.writer).1;
  in_flight = (take_batch put_one.writer).0;
}

abbrev written : World
written = record taken {
  writer = settle taken.in_flight taken.writer;
  in_flight = [];
  settled = taken.in_flight;
}

written-Reach : Reach before written
written-Reach = next (next (next here (put_entry (cpu 2) refl)) (take_rows refl)) settle_rows

Reach-IsConsistent_example : IsConsistent written
Reach-IsConsistent_example = Reach-IsConsistent written-Reach before-IsConsistent

flush_lem_example : written.settled ≡ written.accepted
unfolding take_batch settle wake_loop Writer.put
flush_lem_example = flush_lem written-Reach before-IsConsistent refl
