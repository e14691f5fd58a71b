-- ===== src/Events/Turns.antt =====
-- What a turn of the loop keeps of a stream, and what it sends.
use zoo.Base.{
  ℕ, ◌≤◌, ◌<◌, nat_eq, ◌≡◌, refl, sym, ◌∙◌, ap, subst, Bool, true, ◌&&◌, some, arith, if_true,
  Bool-cases, Option-cases, inl, inr, keep, take, Each, Each-imp, is_some, length, ltb, leb, leb→le,
  le→leb, lt→ltb,
}
use zoo.Base.Dict.{get, get-keep, when}
use zoo.Labels.{Store}
use zoo.Events.{
  Event, Table, Query, Follow, selects, is_recent, is_late, list_events, list_late_events, late,
  page, page_size, stragglers, read, told_late, told, turn, top,
}
use zoo.Events.Sorted.{sorted-Distinct, keep-IsSorted, take_all, get-take, top-le}
use zoo.Events.Seen.{IsHonest, may_see, visible-IsHonest, visible-Each, get-visible}
use zoo.Events.Sent.{IsGood, send_sent, send-IsKnown, send-floor, send-known, send-IsGood, send_all}
use zoo.Events.Rounds.{
  IsStream, IsStraggler, stragglers_lem, page_rows, send_bound, prune-IsGood, is_recent_le,
}

module _ (query : Query) (store : Store) (horizon now : ℕ) (table : Table) (s : Follow)
    (h : IsStream store table horizon s) (in_order : horizon ≤ now) where
  late_rows :
      Each (IsStraggler table s.after now) (stragglers query store now table s).0
      × IsHonest store (stragglers query store now table s).1
  late_rows = stragglers_lem query store now table s h.sorted h.honest

  seen_rows :
      Each
        (λ (p : ℕ × Event). (get table p.0 ≡ some p.1) × (s.after < p.0))
        ((read query store now table s).1).0
  unfolding read page
  seen_rows =
      visible-Each _ query.user store (list_events query s.after page_size table)
        (stragglers query store now table s).1 (page_rows query s.after table h.sorted)

  told_late-IsGood : IsGood table horizon (told_late query store now table s)
  unfolding told_late
  told_late-IsGood =
      let rows = (stragglers query store now table s).0 in
      let s0 = record s { known = ((read query store now table s).1).1 } in
      send-IsGood table horizon (λ seq. ltb s.floor seq) rows s0
        (Each-imp (λ p q. q.0) rows late_rows.0)
        (Each-imp
          (λ p q told. elim (Option-cases (get s.log p.0)) [
            | inl free ↦ absurd (cc (ap is_some free, told))
            | inr (at, logged) ↦
                let e = h.good.dated p.0 p.1 at q.0 logged in
                let new : is_recent horizon at ≡ true =
                  is_recent_le horizon now at in_order (sym (ap (is_recent now) e) ∙ q.2) in
                ap is_some (h.good.recent p.0 at logged new)
          ])
          rows late_rows.0)
        (record {
          once = h.good.once;
          dated = h.good.dated;
          recent = h.good.recent;
          real = h.good.real;
          kept = h.good.kept;
        })

  told-IsGood : IsGood table horizon (told query store now table s)
  unfolding told told_late
  told-IsGood =
      let rows = ((read query store now table s).1).0 in
      let s0 = record s { known = ((read query store now table s).1).1 } in
      send-IsGood table horizon (λ seq. true) rows (told_late query store now table s)
        (Each-imp (λ p q. q.0) rows seen_rows)
        (Each-imp
          (λ p q.
            send-IsKnown (λ seq. ltb s.floor seq) (stragglers query store now table s).0 s0 p
              (λ told. elim (Option-cases (get s.log p.0)) [
                | inl free ↦ absurd (cc (ap is_some free, told))
                | inr (at, logged) ↦ absurd (omega (arith, h.bound p.0 at logged, q.1))
              ]))
          rows seen_rows)
        told_late-IsGood

  turn-bound :
      (later seq at : ℕ)
      → get (turn query store now later table s).log seq ≡ some at
      → seq ≤ (turn query store now later table s).after
  unfolding turn told told_late read page
  turn-bound later =
      let rows = list_events query s.after page_size table in
      let b = top s.after rows in
      let (le, all) = top-le s.after rows in
      send_bound b (λ seq. true) ((read query store now table s).1).0
        (told_late query store now table s)
        (visible-Each _ query.user store rows (stragglers query store now table s).1 all)
        (send_bound b (λ seq. ltb s.floor seq) (stragglers query store now table s).0
          (record s { known = ((read query store now table s).1).1 })
          (Each-imp (λ p q. omega (arith, q.1, le)) _ late_rows.0)
          (λ seq at logged. omega (arith, h.bound seq at logged, le)))

  turn-floor : (later : ℕ) → (turn query store now later table s).floor ≡ s.floor
  unfolding turn told told_late
  turn-floor later =
      send-floor (λ seq. true) ((read query store now table s).1).0
        (told_late query store now table s)
      ∙ send-floor (λ seq. ltb s.floor seq) (stragglers query store now table s).0
          (record s { known = ((read query store now table s).1).1 })

  turn-IsHonest : (later : ℕ) → IsHonest store (turn query store now later table s).known
  unfolding turn told told_late read page
  turn-IsHonest later =
      let known = ((read query store now table s).1).1 in
      let e : (turn query store now later table s).known ≡ known =
        send-known (λ seq. true) ((read query store now table s).1).0
          (told_late query store now table s)
        ∙ send-known (λ seq. ltb s.floor seq) (stragglers query store now table s).0
            (record s { known = known }) in
      subst (IsHonest store) (sym e) (
        visible-IsHonest query.user store (list_events query s.after page_size table)
          (stragglers query store now table s).1 late_rows.1)

  pub turn-IsStream :
      (later : ℕ) → now ≤ later → IsStream store table later (turn query store now later table s)
  unfolding turn
  turn-IsStream later le = record {
    sorted = h.sorted;
    good =
        prune-IsGood table horizon later _ (told query store now table s)
          (omega (arith, in_order, le)) told-IsGood;
    bound = turn-bound later;
    ahead =
        omega
          (arith, turn-floor later, h.ahead, (top-le s.after (read query store now table s).0).0);
    honest = turn-IsHonest later;
  }

  get_straggler :
      (seq : ℕ) (row : Event)
      → length (keep (is_late query s.after now) table) ≤ page_size
      → get table seq ≡ some row
      → selects query row ≡ true
      → may_see query.user store row ≡ true
      → s.floor < seq
      → seq ≤ s.after
      → is_recent now row.created_at ≡ true
      → get (stragglers query store now table s).0 seq ≡ some row
  unfolding stragglers late list_late_events
  get_straggler seq row few found mine sees behind upto new =
      let behind' = lt→ltb s.floor s.after (omega (arith, behind, upto)) in
      let is_it : is_late query s.after now (seq, row) ≡ true =
        rw (le→leb seq s.after upto, new, mine) refl in
      let there : get (take page_size (keep (is_late query s.after now) table)) seq ≡ some row =
        ap (λ t. get t seq) (take_all page_size (keep (is_late query s.after now) table) few)
        ∙ get-keep (is_late query s.after now) table seq (sorted-Distinct table h.sorted)
        ∙ ap (when (is_late query s.after now) seq) found
        ∙ if_true _ _ is_it in
      rw behind' (
        get-visible query.user store (list_late_events query s.after now page_size table) s.known
          seq row h.honest there sees)

  get_seen :
      (seq : ℕ) (row : Event)
      → get table seq ≡ some row
      → selects query row ≡ true
      → may_see query.user store row ≡ true
      → s.after < seq
      → seq ≤ top s.after (read query store now table s).0
      → get ((read query store now table s).1).0 seq ≡ some row
  unfolding read page list_events
  get_seen seq row found mine sees ahead upto =
      let p : ℕ × Event → Bool = λ q. ltb s.after q.0 && selects query q.1 in
      let is_it : p (seq, row) ≡ true = rw (lt→ltb s.after seq ahead, mine) refl in
      let there =
        get-take page_size s.after seq row (keep p table) (keep-IsSorted p table h.sorted) ahead
          upto
          (get-keep p table seq (sorted-Distinct table h.sorted)
            ∙ ap (when p seq) found
            ∙ if_true _ _ is_it) in
      get-visible query.user store (list_events query s.after page_size table)
        (stragglers query store now table s).1 seq row late_rows.1 there sees

  -- A turn sends what stands behind the start of the stream, if it was not sent, is new enough and the late rows fit in a page.
  pub turn_sends :
      (later seq : ℕ) (row : Event)
      → length (keep (is_late query s.after now) table) ≤ page_size
      → get table seq ≡ some row
      → selects query row ≡ true
      → may_see query.user store row ≡ true
      → s.floor < seq
      → seq ≤ (turn query store now later table s).after
      → is_recent now row.created_at ≡ true
      → get (turn query store now later table s).log seq ≡ some row.created_at
  unfolding turn
  turn_sends later seq row few found mine sees behind upto new =
      let told_it : is_some (get (told query store now table s).sent seq) ≡ true =
        elim (Bool-cases (leb seq s.after)) [
          | inl old ↦
              send_sent (λ seq. true) ((read query store now table s).1).0
                (told_late query store now table s) seq
                (send_all (λ seq. ltb s.floor seq) (stragglers query store now table s).0
                  (record s { known = ((read query store now table s).1).1 }) seq row
                  (get_straggler seq row few found mine sees behind (leb→le seq s.after old) new)
                  (lt→ltb s.floor seq behind))
          | inr fresh ↦
              let ahead : s.after < seq = ground (arith, le→leb seq s.after) in
              send_all (λ seq. true) ((read query store now table s).1).0
                (told_late query store now table s) seq row
                (get_seen seq row found mine sees ahead upto) refl
        ] in
      elim (Option-cases (get (told query store now table s).sent seq)) [
        | inl free ↦ absurd (cc (ap is_some free, told_it))
        | inr (at, held) ↦
            let logged = told-IsGood.real seq at held in
            logged ∙ ap some (sym (told-IsGood.dated seq row at found logged))
      ]
