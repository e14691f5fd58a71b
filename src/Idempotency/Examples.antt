-- ===== src/Idempotency/Examples.antt =====
-- One key of one caller, and the theorems at it.
use zoo.Base.{
  ℕ, string_eq, pair_eq, ◌==◌, ◌≡◌, refl, true, false, none, some, [], ◌∷◌, arith, eq_of_some,
  Bool-cases, inl, inr, if_true, if_false, sym, ◌∙◌,
}
use zoo.Base.Dict.{get, put, erase}
use zoo.Idempotency.{
  Row, KeyOf, run, key_in_progress, replay, begin, claim, claim_idempotency_key, release,
  end_request, finished, released, end_of, capture_all, capture, response_start, response_body,
  enter, key_too_long,
}
use zoo.Idempotency.Alone.{World, Reach, here, next, end_run, IsAlone, Reach-IsAlone}
use zoo.Idempotency.Replay.{begin-replays}

abbrev key : KeyOf
key = ("caller", "k1")

abbrev row_at : ℕ → Row
row_at now = record {
  method = "POST";
  path = "/sandboxes";
  request_hash = "h1";
  status = none;
  content_type = none;
  response = none;
  created_at = now;
}

first_run : begin 10 "/sandboxes" "h1" key [] ≡ ((key, row_at 10) ∷ [], run)
unfolding begin claim claim_idempotency_key get put
first_run = refl

busy_run :
    begin 610 "/sandboxes" "h1" key ((key, row_at 10) ∷ [])
    ≡ ((key, row_at 10) ∷ [], key_in_progress)
unfolding begin claim claim_idempotency_key get
busy_run = refl

abandoned_run :
    begin 611 "/sandboxes" "h1" key ((key, row_at 10) ∷ []) ≡ ((key, row_at 611) ∷ [], run)
unfolding begin claim claim_idempotency_key release get put erase
abandoned_run = refl

-- The abandoned request ends after all, and takes the row of the second: a third runs beside the second.
third_run :
    begin 612 "/sandboxes" "h1" key (end_request released key ((key, row_at 611) ∷ []))
    ≡ ((key, row_at 612) ∷ [], run)
unfolding begin claim claim_idempotency_key release end_request get put erase
third_run = refl

kept_end :
    end_of
      (λ bytes. some "ok")
      false
      (response_start 201 (some "application/json") ∷ response_body (1 ∷ 2 ∷ []) ∷ [])
    ≡ finished 201 (some "application/json") "ok"
unfolding end_of capture_all capture
kept_end = refl

stream_end :
    end_of
      (λ bytes. some "ok")
      false
      (response_start 200 (some "text/event-stream; charset=utf-8") ∷ [])
    ≡ released
unfolding end_of capture_all capture
stream_end = refl

enter_run : enter true "k1" 256 ≡ key_too_long
unfolding enter
enter_run = refl

abbrev running : World
running = record { table = (key, row_at 10) ∷ []; running = (key, 10) ∷ []; clock = 20 }

running-IsAlone : IsAlone running
unfolding get
running-IsAlone = record {
  alone = (refl, tt);
  keyed = (refl, tt);
  holds = λ other began found. elim (Bool-cases (key == other)) [
    | inl same ↦ record {
      row = row_at 10;
      there = if_true _ _ same;
      silent = refl;
      born = eq_of_some (sym (if_true _ _ same) ∙ found);
      in_time =
          let e : 10 ≡ began = eq_of_some (sym (if_true _ _ same) ∙ found) in omega (arith, e);
    }
    | inr differs ↦
        let e : get running.running other ≡ none = if_false _ _ differs in absurd (cc (e, found))
  ];
}

abbrev ended : World
ended = record running {
  table = end_request (finished 201 none "ok") key running.table;
  running = erase running.running key;
}

ended-Reach : Reach running ended
unfolding get
ended-Reach = next here (end_run key 10 (finished 201 none "ok") refl)

Reach-IsAlone_example : IsAlone ended
Reach-IsAlone_example = Reach-IsAlone ended-Reach running-IsAlone

begin-replays_example :
    begin 20 "/sandboxes" "h1" key ended.table ≡ (ended.table, replay 201 none "ok")
unfolding get
begin-replays_example =
    begin-replays key 10 (row_at 10) 201 none "ok" "/sandboxes" "h1" running-IsAlone refl refl here
      (omega arith)
