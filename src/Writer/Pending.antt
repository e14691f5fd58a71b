-- ===== src/Writer/Pending.antt =====
-- The threads that put entries, and the task that writes them, interleaved.
use zoo.Base.{
  ℕ, ◌+◌, ◌-◌, ◌≤◌, ◌≡◌, sym, ◌∙◌, ap, ap₂, Bool, true, false, List, [], ◌∷◌, ◌++◌, append-nil,
  append_assoc, arith, if◌then◌else◌, ltb, ltb→lt, nat_beq, nat_beq_iff, length, length-append,
  length-drop, take, drop, take-append-drop, nil_of_length,
}
use zoo.Writer.{Writer, batch_rows, max_pending, put, wake_loop, take_batch, settle}
use zoo.Writer.Statements.{Entry}

-- The writer, the rows of the batch that is being written, and what has been taken in and settled so far.
pub record World : Type 0 where
  pub writer : Writer
  pub in_flight : List Entry
  pub accepted : List Entry
  pub settled : List Entry

abbrev pub fits : Writer → Bool
fits w = ltb (length w.queue) max_pending

-- From start to the last batch of close.
pub data Step (w : World) : World → Type 0 where
  -- a thread that enqueue has let through puts its entry, and wakes the loop
  put_entry :
      (entry : Entry)
      → fits w.writer ≡ true
      → Step w (record w {
        writer = wake_loop (put entry w.writer);
        accepted = w.accepted ++ entry ∷ [];
      })
  -- the queue is full
  discard_entry :
      (entry : Entry) → fits w.writer ≡ false → Step w (record w { writer = put entry w.writer })
  -- the task takes a batch; it has settled the one before
  take_rows :
      w.in_flight ≡ []
      → Step w (record w { writer = (take_batch w.writer).1; in_flight = (take_batch w.writer).0 })
  -- the transaction has committed or failed
  settle_rows : Step w (record w {
    writer = settle w.in_flight w.writer;
    in_flight = [];
    settled = w.settled ++ w.in_flight;
  })
  -- the loop's own events, and the end of accepting
  set_wake : (wake : Bool) → Step w (record w { writer = record w.writer { wake = wake } })
  stop_accepting : Step w (record w { writer = record w.writer { accepting = false } })

pub data Reach (start : World) : World → Type 0 where
  here : Reach start start
  next : {w w' : World} → Reach start w → Step w w' → Reach start w'

-- Nothing is lost, doubled or out of order, the tasks are counted, and drained says whether one is left.
pub record IsConsistent (w : World) : Type 0 where
  pub in_order : w.accepted ≡ w.settled ++ (w.in_flight ++ w.writer.queue)
  pub counted : w.writer.unfinished ≡ length w.in_flight + length w.writer.queue
  pub says : w.writer.drained ≡ nat_beq w.writer.unfinished 0
  pub bounded : length w.writer.queue ≤ max_pending

append_last :
    (xs ys zs : List Entry) (entry : Entry)
    → (xs ++ (ys ++ zs)) ++ entry ∷ [] ≡ xs ++ (ys ++ (zs ++ entry ∷ []))
append_last xs ys zs entry =
    append_assoc xs (ys ++ zs) (entry ∷ []) ∙ ap (λ l. xs ++ l) (append_assoc ys zs (entry ∷ []))

put-IsConsistent :
    (w : World) (entry : Entry)
    → fits w.writer ≡ true
    → IsConsistent w
    → IsConsistent
        (record w { writer = wake_loop (put entry w.writer); accepted = w.accepted ++ entry ∷ [] })
unfolding put wake_loop
put-IsConsistent w entry room h =
    let longer : length (w.writer.queue ++ entry ∷ []) ≡ length w.writer.queue + 1 =
      length-append w.writer.queue (entry ∷ []) in
    rw room (record {
      in_order =
          ap (λ l. l ++ entry ∷ []) h.in_order
          ∙ append_last w.settled w.in_flight w.writer.queue entry;
      counted = omega (arith, h.counted, longer);
      says = ground arith;
      bounded = omega (arith, longer, ltb→lt (length w.writer.queue) max_pending room);
    })

discard-IsConsistent :
    (w : World) (entry : Entry)
    → fits w.writer ≡ false
    → IsConsistent w
    → IsConsistent (record w { writer = put entry w.writer })
unfolding put
discard-IsConsistent w entry full h =
    rw full
      (record { in_order = h.in_order; counted = h.counted; says = h.says; bounded = h.bounded })

take-IsConsistent :
    (w : World)
    → w.in_flight ≡ []
    → IsConsistent w
    → IsConsistent
        (record w { writer = (take_batch w.writer).1; in_flight = (take_batch w.writer).0 })
unfolding take_batch
take-IsConsistent w idle h =
    let parts : take batch_rows w.writer.queue ++ drop batch_rows w.writer.queue ≡ w.writer.queue =
      take-append-drop batch_rows w.writer.queue in
    record {
      in_order =
          h.in_order
          ∙ ap (λ l. w.settled ++ (l ++ w.writer.queue)) idle
          ∙ ap (λ l. w.settled ++ l) (sym parts);
      counted = omega (
        arith,
        h.counted,
        ap length idle,
        ap length parts,
        length-append (take batch_rows w.writer.queue) (drop batch_rows w.writer.queue),
      );
      says = h.says;
      bounded = omega (arith, h.bounded, length-drop batch_rows w.writer.queue);
    }

drained_after :
    (left : ℕ) (drained : Bool) (before : ℕ)
    → drained ≡ nat_beq before 0
    → left ≤ before
    → (if nat_beq left 0 then true else drained) ≡ nat_beq left 0
drained_after left drained before h le = ground arith

settle-IsConsistent :
    (w : World)
    → IsConsistent w
    → IsConsistent (record w {
      writer = settle w.in_flight w.writer;
      in_flight = [];
      settled = w.settled ++ w.in_flight;
    })
unfolding settle
settle-IsConsistent w h = record {
  in_order = h.in_order ∙ sym (append_assoc w.settled w.in_flight w.writer.queue);
  counted = omega (arith, h.counted);
  says =
      drained_after (w.writer.unfinished - length w.in_flight) w.writer.drained w.writer.unfinished
        h.says (omega arith);
  bounded = h.bounded;
}

Step-IsConsistent : {w w' : World} → Step w w' → IsConsistent w → IsConsistent w'
Step-IsConsistent {w} (put_entry entry room) h = put-IsConsistent w entry room h
Step-IsConsistent {w} (discard_entry entry full) h = discard-IsConsistent w entry full h
Step-IsConsistent {w} (take_rows idle) h = take-IsConsistent w idle h
Step-IsConsistent {w} settle_rows h = settle-IsConsistent w h
Step-IsConsistent {w} (set_wake wake) h = record {
  in_order = h.in_order;
  counted = h.counted;
  says = h.says;
  bounded = h.bounded;
}
Step-IsConsistent {w} stop_accepting h = record {
  in_order = h.in_order;
  counted = h.counted;
  says = h.says;
  bounded = h.bounded;
}

-- Over any interleaving of threads and batches from a consistent writer: the entries taken in are those settled, those of the batch
-- and those queued, in this order; unfinished counts the last two, drained says whether there are none, and the queue is bounded.
pub Reach-IsConsistent : {start w : World} → Reach start w → IsConsistent start → IsConsistent w
Reach-IsConsistent here h = h
Reach-IsConsistent (next r step) h = Step-IsConsistent step (Reach-IsConsistent r h)

-- Over any interleaving of threads and batches from a consistent writer, where flush finds drained set, every entry taken in has been settled, and nothing else has.
pub flush_lem :
    {start w : World}
    → Reach start w
    → IsConsistent start
    → w.writer.drained ≡ true
    → w.settled ≡ w.accepted
flush_lem {w = w} r start h =
    let c = Reach-IsConsistent r start in
    let nothing : w.writer.unfinished ≡ 0 =
      (nat_beq_iff w.writer.unfinished 0).0 (sym c.says ∙ h) in
    let idle : w.in_flight ≡ [] = nil_of_length w.in_flight (omega (arith, c.counted, nothing)) in
    let empty : w.writer.queue ≡ [] =
      nil_of_length w.writer.queue (omega (arith, c.counted, nothing)) in
    sym (c.in_order ∙ ap₂ (λ a b. w.settled ++ (a ++ b)) idle empty ∙ append-nil w.settled)
