-- ===== src/Events/Stream.antt =====
-- A stream beside the transactions that commit events: what it sends, over any interleaving.
use zoo.Base.{
  ℕ, ◌+◌, ◌≤◌, ◌<◌, nat_eq, ◌==◌, ==_iff, ◌≡◌, sym, ◌∙◌, ap, Bool, true, not, none, some, arith,
  if_true, if_false, Bool-cases, Option-cases, inl, inr, keep, length, ltb,
}
use zoo.Base.Dict.{get, get-keep, when, Distinct}
use zoo.Labels.{Store}
use zoo.Events.{
  Event, Table, Query, Follow, opened, selects, is_recent, is_late, page_size, purge_events, turn,
}
use zoo.Events.Sorted.{
  IsSorted, insert_event, insert-IsSorted, get-insert_event, keep-IsSorted, sorted-Distinct,
}
use zoo.Events.Seen.{may_see}
use zoo.Events.Rounds.{IsStream}
use zoo.Events.Turns.{turn-IsStream, turn_sends}

-- The table, the clock, the last horizon of the stream, and what the stream keeps.
pub record World : Type 0 where
  pub table : Table
  pub clock : ℕ
  pub horizon : ℕ
  pub stream : Follow

-- A stream that opens at a seq.
abbrev pub begun : Table → ℕ → ℕ → World
begun table clock after = record {
  table = table;
  clock = clock;
  horizon = 0;
  stream = opened after;
}

abbrev pub turned : Query → Store → ℕ → World → World
turned query store wait w = record {
  table = w.table;
  clock = w.clock + wait;
  horizon = w.clock + wait;
  stream = turn query store w.clock (w.clock + wait) w.table w.stream;
}

pub data Step (query : Query) (store : Store) (w : World) : World → Type 0 where
  tick : (n : ℕ) → Step query store w (record w { clock = w.clock + n })
  -- a transaction commits its event, whose seq may be lower than those of others that are there or were sent
  commit :
      (seq : ℕ) (row : Event)
      → get w.table seq ≡ none
      → get w.stream.log seq ≡ none
      → Step query store w (record w { table = insert_event seq row w.table })
  purge : (before : ℕ) → Step query store w (record w { table = purge_events before w.table })
  -- frames, and whatever the client waits for, take time
  turns : (wait : ℕ) → Step query store w (turned query store wait w)

pub data Reach (query : Query) (store : Store) (start : World) : World → Type 0 where
  here : Reach query store start start
  next :
      {w w' : World}
      → Reach query store start w
      → Step query store w w'
      → Reach query store start w'

record IsOpen (store : Store) (w : World) : Type 0 where
  stream_is : IsStream store w.table w.horizon w.stream
  in_order : w.horizon ≤ w.clock

-- Another table of the same events, or with one that was not sent.
retable-IsStream :
    (store : Store) (table table' : Table) (horizon : ℕ) (s : Follow)
    → IsStream store table horizon s
    → IsSorted table'
    → ((seq : ℕ) (row : Event) (at : ℕ)
        → get table' seq ≡ some row
        → get s.log seq ≡ some at
        → row.created_at ≡ at)
    → IsStream store table' horizon s
retable-IsStream store table table' horizon s h sorted dated = record {
  sorted = sorted;
  good = record {
    once = h.good.once;
    dated = dated;
    recent = h.good.recent;
    real = h.good.real;
    kept = h.good.kept;
  };
  bound = h.bound;
  ahead = h.ahead;
  honest = h.honest;
}

commit-IsStream :
    (store : Store) (table : Table) (horizon seq : ℕ) (row : Event) (s : Follow)
    → get table seq ≡ none
    → get s.log seq ≡ none
    → IsStream store table horizon s
    → IsStream store (insert_event seq row table) horizon s
commit-IsStream store table horizon seq row s free new h =
    retable-IsStream store table (insert_event seq row table) horizon s h
      (insert-IsSorted seq row table free h.sorted)
      (λ other r at found logged.
        let found' = sym (get-insert_event seq other row table free) ∙ found in
        elim (Bool-cases (seq == other)) [
          | inl same ↦
              let e : get s.log other ≡ none =
                ap (get s.log) (sym ((==_iff seq other).0 same)) ∙ new in
              absurd (cc (e, logged))
          | inr apart ↦ h.good.dated other r at (sym (if_false _ _ apart) ∙ found') logged
        ])

purge-IsStream :
    (store : Store) (table : Table) (horizon before : ℕ) (s : Follow)
    → IsStream store table horizon s
    → IsStream store (purge_events before table) horizon s
unfolding purge_events
purge-IsStream store table horizon before s h =
    let p : ℕ × Event → Bool = λ q. not (ltb (q.1).created_at before) in
    retable-IsStream store table (keep p table) horizon s h (keep-IsSorted p table h.sorted)
      (λ seq row at found logged.
        let e = get-keep p table seq (sorted-Distinct table h.sorted) in
        elim (Option-cases (get table seq)) [
          | inl free ↦ absurd (cc (sym (e ∙ ap (when p seq) free) ∙ found))
          | inr (r, there) ↦
              let e' = sym (e ∙ ap (when p seq) there) ∙ found in
              elim (Bool-cases (p (seq, r))) [
                | inl stays ↦ h.good.dated seq row at (there ∙ sym (if_true _ _ stays) ∙ e') logged
                | inr goes ↦ absurd (cc (sym (if_false _ _ goes) ∙ e'))
              ]
        ])

Step-IsOpen :
    {query : Query} {store : Store} {w w' : World}
    → Step query store w w'
    → IsOpen store w
    → IsOpen store w'
Step-IsOpen {query} {store} {w} (tick n) h = record {
  stream_is = h.stream_is;
  in_order = omega (arith, h.in_order);
}
Step-IsOpen {query} {store} {w} (commit seq row free new) h = record {
  stream_is = commit-IsStream store w.table w.horizon seq row w.stream free new h.stream_is;
  in_order = h.in_order;
}
Step-IsOpen {query} {store} {w} (purge before) h = record {
  stream_is = purge-IsStream store w.table w.horizon before w.stream h.stream_is;
  in_order = h.in_order;
}
Step-IsOpen {query} {store} {w} (turns wait) h = record {
  stream_is =
      turn-IsStream query store w.horizon w.clock w.table w.stream h.stream_is h.in_order
        (w.clock + wait) (omega arith);
  in_order = omega arith;
}

Reach-IsOpen :
    {query : Query} {store : Store} {start w : World}
    → Reach query store start w
    → IsOpen store start
    → IsOpen store w
Reach-IsOpen here h = h
Reach-IsOpen (next r step) h = Step-IsOpen step (Reach-IsOpen r h)

begun-IsOpen :
    (store : Store) (table : Table) (clock after : ℕ)
    → IsSorted table
    → IsOpen store (begun table clock after)
unfolding get
begun-IsOpen store table clock after sorted = record {
  stream_is = record {
    sorted = sorted;
    good = record {
      once = tt;
      dated = λ seq row at found logged. absurd (cc logged);
      recent = λ seq at logged new. absurd (cc logged);
      real = λ seq at held. absurd (cc held);
      kept = tt;
    };
    bound = λ seq at logged. absurd (cc logged);
    ahead = omega arith;
    honest = λ id labels found. absurd (cc found);
  };
  in_order = omega arith;
}

-- A stream that opens on a table in the order of seq, over any interleaving with commits in any order, purges and the
-- passing of time, while the labels stay as they are: when it has taken a turn, it has sent no event twice, and it has
-- sent each event of the table that the query selects and the member may see, that stands behind its start and not
-- behind where it has read to, and that was made in the last LATE_SECONDS, if the table has no more than PAGE late events
-- that the query selects.
pub stream_lem :
    (query : Query) (store : Store) (table : Table) (clock after : ℕ) (w : World) (wait seq : ℕ)
    (row : Event)
    → IsSorted table
    → Reach query store (begun table clock after) w
    → length (keep (is_late query w.stream.after w.clock) w.table) ≤ page_size
    → get w.table seq ≡ some row
    → selects query row ≡ true
    → may_see query.user store row ≡ true
    → w.stream.floor < seq
    → seq ≤ (turned query store wait w).stream.after
    → is_recent w.clock row.created_at ≡ true
    → Distinct (turned query store wait w).stream.log
      × (get (turned query store wait w).stream.log seq ≡ some row.created_at)
stream_lem query store table clock after w wait seq row sorted r few found mine sees behind upto
      new =
    let h : IsOpen store w = Reach-IsOpen r (begun-IsOpen store table clock after sorted) in
    let h' : IsOpen store (turned query store wait w) = Step-IsOpen (turns wait) h in
    (
      h'.stream_is.good.once,
      turn_sends query store w.horizon w.clock w.table w.stream h.stream_is h.in_order
          (w.clock + wait) seq row few found mine sees behind upto new,
    )
