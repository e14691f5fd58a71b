-- ===== src/Idempotency/Replay.antt =====
-- A response that is kept is what repeats of its request get.
use zoo.Base.{
  ℕ, ◌+◌, ◌≤◌, String, string_eq, pair_eq, ◌==◌, ==_iff, ==_refl, ◌≡◌, refl, sym, ◌∙◌, ap, subst,
  false, inl, inr, Option, some, arith, Bool-cases, if◌then◌else◌, if_true, if_false, eq_of_some,
}
use zoo.Base.Dict.{get, erase}
use zoo.Idempotency.{
  Row, KeyOf, Table, replay, key_reused, begin, decide, End, finished, end_request, with_response,
  or_empty, replay_of, retention_seconds,
}
use zoo.Idempotency.Keys.{IsFree, begin_cases, get-finish, get-end_request, get-purge}
use zoo.Idempotency.Alone.{
  World, Step, tick, start_run, answer, end_run, purge_rows, Reach, here, next, IsAlone,
  Step-IsAlone, Reach-IsAlone, after_begin,
}

-- A row with a response.
record Kept (table : Table) (key : KeyOf) (row : Row) (status : ℕ) : Type 0 where
  there : get table key ≡ some row
  answered : row.status ≡ some status

kept_not_free :
    (now : ℕ) (table : Table) (key : KeyOf) (row : Row) (status : ℕ)
    → Kept table key row status
    → IsFree now key table
    → {A : Type 0} → A
kept_not_free now table key row status k (inl gone) = absurd (cc (gone, k.there))
kept_not_free now table key row status k (inr (other, there, silent, old)) =
    let same : other ≡ row = eq_of_some (sym there ∙ k.there) in
    absurd (cc (sym silent ∙ ap (λ r. r.status) same, k.answered))

begin-Kept :
    (w : World) (path request_hash : String) (other key : KeyOf) (row : Row) (status : ℕ)
    → Kept w.table key row status
    → get (after_begin w path request_hash other).0 key ≡ some row
begin-Kept w path request_hash other key row status k =
    elim (begin_cases w.clock path request_hash other w.table) [
      | inl (free, runs, rows, distinct) ↦ elim (Bool-cases (other == key)) [
        | inl same ↦
            kept_not_free w.clock w.table key row status k
              (subst (λ x. IsFree w.clock x w.table) ((==_iff other key).0 same) free)
        | inr differs ↦ rows key ∙ if_false _ _ differs ∙ k.there
      ]
      | inr (held, there, e) ↦ ap (λ b. get b.0 key) e ∙ k.there
    ]

end_run-Kept :
    (w : World) (other key : KeyOf) (began : ℕ) (ending : End) (row : Row) (status : ℕ)
    → IsAlone w
    → get w.running other ≡ some began
    → Kept w.table key row status
    → get (end_request ending other w.table) key ≡ some row
end_run-Kept w other key began ending row status h busy k =
    let own = IsAlone.holds h other began busy in
    elim (Bool-cases (other == key)) [
      | inl same ↦
          let e : other ≡ key = (==_iff other key).0 same in
          let one : own.row ≡ row = eq_of_some (sym own.there ∙ ap (get w.table) e ∙ k.there) in
          absurd (cc (sym own.silent ∙ ap (λ r. r.status) one, k.answered))
      | inr differs ↦ get-end_request ending other key w.table own.row own.there differs ∙ k.there
    ]

Step-clock : {w w' : World} → Step w w' → w.clock ≤ w'.clock
Step-clock {w} (tick n in_time) = omega arith
Step-clock {w} (start_run path request_hash key runs) = omega arith
Step-clock {w} (answer path request_hash key refused) = omega arith
Step-clock {w} (end_run key began ending busy) = omega arith
Step-clock {w} purge_rows = omega arith

Step-Kept :
    {w w' : World} (key : KeyOf) (row : Row) (status : ℕ)
    → Step w w'
    → IsAlone w
    → w'.clock ≤ row.created_at + retention_seconds
    → Kept w.table key row status
    → get w'.table key ≡ some row
Step-Kept {w} key row status (tick n in_time) h young k = k.there
Step-Kept {w} key row status (start_run path request_hash other runs) h young k =
    begin-Kept w path request_hash other key row status k
Step-Kept {w} key row status (answer path request_hash other refused) h young k =
    begin-Kept w path request_hash other key row status k
Step-Kept {w} key row status (end_run other began ending busy) h young k =
    end_run-Kept w other key began ending row status h busy k
Step-Kept {w} key row status purge_rows h young k =
    get-purge w.clock w.table key row h.keyed k.there young

Reach-Kept :
    {start w : World} (key : KeyOf) (row : Row) (status : ℕ)
    → Reach start w
    → IsAlone start
    → w.clock ≤ row.created_at + retention_seconds
    → Kept start.table key row status
    → get w.table key ≡ some row
Reach-Kept key row status here h young k = k.there
Reach-Kept {start = start} key row status (next {w} {w'} r step) h young k =
    let before : get w.table key ≡ some row =
      Reach-Kept key row status r h (omega (arith, young, Step-clock step)) k in
    Step-Kept key row status step (Reach-IsAlone r h) young
      (record { there = before; answered = k.answered })

decide-Kept :
    (row : Row) (request_hash : String) (status : ℕ)
    → row.status ≡ some status
    → decide request_hash (row, false) ≡ (
        if row.request_hash == request_hash
        then replay status row.content_type (or_empty row.response)
        else key_reused)
decide-Kept row request_hash status e =
    ap (λ o. if row.request_hash == request_hash then replay_of row o else key_reused) e

-- Let a request of a key run and end with a response that is kept, in a state as Reach-IsAlone has it. Until RETENTION_SECONDS from when it began, over
-- any interleaving in which no request runs for longer than ABANDONED_SECONDS, a repeat of the key gets that response if its
-- hash is the same, and is refused as a reuse of the key if it is not; it does not run, and the table stays as it is.
pub begin-replays :
    {w w' : World} (key : KeyOf) (began : ℕ) (row : Row) (status : ℕ) (content_type : Option String)
    (response path request_hash : String)
    → IsAlone w
    → get w.running key ≡ some began
    → get w.table key ≡ some row
    → Reach
        (record w {
          table = end_request (finished status content_type response) key w.table;
          running = erase w.running key;
        })
        w'
    → w'.clock ≤ began + retention_seconds
    → begin w'.clock path request_hash key w'.table ≡ (
      w'.table,
      if row.request_hash == request_hash then replay status content_type response else key_reused,
    )
unfolding end_request
begin-replays {w} {w'} key began row status content_type response path request_hash h busy there r
      young =
    let done = with_response status content_type response row in
    let own = IsAlone.holds h key began busy in
    let one : own.row ≡ row = eq_of_some (sym own.there ∙ there) in
    let born : row.created_at ≡ began = ap (λ r. r.created_at) (sym one) ∙ own.born in
    let kept : get w'.table key ≡ some done =
      Reach-Kept key done status r
        (Step-IsAlone (end_run key began (finished status content_type response) busy) h)
        (omega (arith, young, born))
        (record {
          there =
              get-finish status content_type response key key w.table row there
              ∙ if_true _ _ (==_refl key);
          answered = refl;
        }) in
    elim (begin_cases w'.clock path request_hash key w'.table) [
      | inl (free, runs, rows, distinct) ↦
          kept_not_free w'.clock w'.table key done status (record { there = kept; answered = refl })
            free
      | inr (held, found, e) ↦
          let same : held ≡ done = eq_of_some (sym found ∙ kept) in
          e
          ∙ ap (λ x. (w'.table, decide request_hash (x, false))) same
          ∙ ap (λ d. (w'.table, d)) (decide-Kept done request_hash status refl)
    ]
