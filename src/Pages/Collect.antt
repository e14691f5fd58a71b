-- ===== src/Pages/Collect.antt =====
-- A page against the list of all the rows that `accept` takes.
use zoo.Base.{
  ℕ, zero, suc, ◌-◌, ◌≤◌, ◌<◌, ◌≡◌, refl, sym, ◌∙◌, ap, Bool, true, false, Option, none, some, List,
  [], ◌∷◌, ◌++◌, append-nil, append_assoc, arith, ltb, if◌then◌else◌, if_true, if_false, Bool-cases,
  inl, inr, length, length-append, nil_of_length, take, drop, take-append-drop, length-take,
  length-drop, take-append_le, get_elem?-append, keep, keep-append, ltb→lt, lt→ltb, le→ltb_false,
  ltb_false→le,
}
use zoo.Pages.{Scanned, page, more, scan, full_page, last_key, go_on, collect_from, collect}

-- The statements, from the rows behind a key.
module _ {R K : Type 0} where
  abbrev pub fetch_after : (Option K → List R) → Option K → ℕ → List R
  fetch_after after cursor n = take n (after cursor)

module _ {R K : Type 0} (key : R → K) (limit : ℕ) where
  -- The first `limit` of all the rows, with the key to go on from where there are more.
  abbrev pub cut : List R → List R × Option K
  cut all = if ltb limit (length all) then full_page key limit all else (all, none)

  pub full_page-append :
      (xs ys : List R) → limit < length xs → full_page key limit (xs ++ ys) ≡ full_page key limit xs
  full_page-append xs ys h =
      rw
        (take-append_le limit xs ys (omega arith), get_elem?-append (limit - 1) xs ys (omega arith))

  pub cut-append : (xs ys : List R) → limit < length xs → cut (xs ++ ys) ≡ full_page key limit xs
  cut-append xs ys h =
      rw (lt→ltb limit (length (xs ++ ys)) (omega (arith, length-append xs ys)))
        (full_page-append xs ys h)

  pub last_split :
      (r : R) (rows : List R)
      → (init : List R) × (last : R) × (r ∷ rows ≡ init ++ last ∷ [])
        × (last_key key (r ∷ rows) ≡ some (key last))
  last_split r [] = ([], r, refl, refl)
  last_split r (q ∷ rows) =
      let (init, last, e, k) = last_split q rows in (r ∷ init, last, ap (λ l. r ∷ l) e, k)

module _ {R K : Type 0} (accept : R → Bool) (key : R → K) (limit : ℕ) where
  abbrev scanned : List R → Scanned R K
  scanned all = if ltb limit (length all) then page (full_page key limit all) else more all

  scan_step :
      (found rows : List R) (r : R)
      → length found ≤ limit
      → limit < length (found ++ r ∷ [])
      → scanned ((found ++ r ∷ []) ++ rows) ≡ page (full_page key limit (found ++ r ∷ []))
  scan_step found rows r le full =
      rw
        (lt→ltb limit (length ((found ++ r ∷ []) ++ rows))
          (omega (arith, length-append (found ++ r ∷ []) rows)))
        (ap page (full_page-append key limit (found ++ r ∷ []) rows full))

  scan_lem :
      (found rows : List R)
      → length found ≤ limit
      → scan accept key limit found rows ≡ scanned (found ++ keep accept rows)
  unfolding scan keep
  scan_lem found [] le = rw (append-nil, le→ltb_false limit (length found) le)
  scan_lem found (r ∷ rows) le = elim (Bool-cases (accept r)) [
    | inr out ↦ rw out (scan_lem found rows le)
    | inl taken ↦ elim (Bool-cases (ltb limit (length (found ++ r ∷ [])))) [
      | inl full ↦
          rw (taken, full)
            (sym (scan_step found (keep accept rows) r le (ltb→lt limit _ full))
              ∙ ap scanned (append_assoc found (r ∷ []) (keep accept rows)))
      | inr room ↦
          rw (taken, room)
            (scan_lem (found ++ r ∷ []) rows (ltb_false→le limit _ room)
              ∙ ap scanned (append_assoc found (r ∷ []) (keep accept rows)))
    ]
  ]

  -- What the statements give: the rows behind a key, newest first. The rows behind a row of a list are
  -- those after it.
  module _ (after : Option K → List R)
      (next : (cursor : Option K) (xs ys : List R) (r : R)
        → after cursor ≡ xs ++ r ∷ ys
        → after (some (key r)) ≡ ys) where
    -- The key of the last row of a full batch leads to the rows behind the batch.
    next_batch :
        (cursor : Option K) (n : ℕ) (rows : List R)
        → take (suc n) (after cursor) ≡ rows
        → length rows ≡ suc n
        → (last : K) × (last_key key rows ≡ some last)
          × (after (some last) ≡ drop (suc n) (after cursor))
    next_batch cursor n [] e full = absurd (omega (arith, full))
    next_batch cursor n (r ∷ rows) e full =
        let (init, last, split, k) = last_split key limit r rows in
        let rest = drop (suc n) (after cursor) in
        let whole : after cursor ≡ init ++ last ∷ rest =
          sym (take-append-drop (suc n) (after cursor))
          ∙ ap (λ l. l ++ rest) (e ∙ split)
          ∙ append_assoc init (last ∷ []) rest in
        (key last, k, next cursor init rest last whole)

    batch_split :
        (cursor : Option K) (found : List R)
        → found ++ keep accept (after cursor)
          ≡ (found ++ keep accept (take (suc limit) (after cursor)))
            ++ keep accept (drop (suc limit) (after cursor))
    batch_split cursor found =
        let rows = take (suc limit) (after cursor) in
        let rest = drop (suc limit) (after cursor) in
        ap (λ l. found ++ keep accept l) (sym (take-append-drop (suc limit) (after cursor)))
        ∙ ap (λ l. found ++ l) (keep-append accept rows rest)
        ∙ sym (append_assoc found (keep accept rows) (keep accept rest))

    -- A short batch is the last one.
    short_batch :
        (cursor : Option K) (found : List R)
        → ltb limit (length (found ++ keep accept (take (suc limit) (after cursor)))) ≡ false
        → ltb (length (take (suc limit) (after cursor))) (suc limit) ≡ true
        → some (found ++ keep accept (take (suc limit) (after cursor)), none)
          ≡ some (cut key limit (found ++ keep accept (after cursor)))
    unfolding keep
    short_batch cursor found room short =
        let rows = take (suc limit) (after cursor) in
        let rest = drop (suc limit) (after cursor) in
        let over : rest ≡ [] = nil_of_length rest (
          omega (
            arith,
            length-drop (suc limit) (after cursor),
            length-take (suc limit) (after cursor),
            ltb→lt (length rows) (suc limit) short,
          )) in
        let all =
          batch_split cursor found
          ∙ ap (λ l. (found ++ keep accept rows) ++ keep accept l) over
          ∙ append-nil (found ++ keep accept rows) in
        ap some (sym (ap (cut key limit) all ∙ if_false _ _ room))

    collect_from_lem :
        (fuel : ℕ) (cursor : Option K) (found : List R)
        → length found ≤ limit
        → length (after cursor) < fuel
        → collect_from accept key limit (fetch_after after) fuel cursor found
          ≡ some (cut key limit (found ++ keep accept (after cursor)))
    unfolding collect_from
    collect_from_lem zero cursor found le lt = absurd (omega arith)
    collect_from_lem (suc fuel) cursor found le lt =
        let rows = take (suc limit) (after cursor) in
        let rest = drop (suc limit) (after cursor) in
        let all = batch_split cursor found in
        elim (Bool-cases (ltb limit (length (found ++ keep accept rows)))) [
          | inl full ↦
              ap
                (go_on accept key limit (fetch_after after)
                  (collect_from accept key limit (fetch_after after) fuel) rows)
                (scan_lem found rows le ∙ if_true _ _ full)
              ∙ ap some (
                  sym (
                    ap (cut key limit) all
                    ∙ cut-append key limit (found ++ keep accept rows) (keep accept rest)
                        (ltb→lt limit _ full)))
          | inr room ↦
              ap
                (go_on accept key limit (fetch_after after)
                  (collect_from accept key limit (fetch_after after) fuel) rows)
                (scan_lem found rows le ∙ if_false _ _ room)
              ∙ elim (Bool-cases (ltb (length rows) (suc limit))) [
                | inl short ↦ if_true _ _ short ∙ short_batch cursor found room short
                | inr full ↦
                    let (last, k, behind) = next_batch cursor limit rows refl (
                      omega
                        (arith, length-take (suc limit) (after cursor), ltb_false→le _ _ full)) in
                    if_false _ _ full
                    ∙ ap
                        (λ c.
                          collect_from accept key limit (fetch_after after) fuel c
                            (found ++ keep accept rows))
                        k
                    ∙ collect_from_lem fuel (some last) (found ++ keep accept rows)
                        (ltb_false→le limit _ room)
                        (omega (
                          arith,
                          lt,
                          ap length behind,
                          length-drop (suc limit) (after cursor),
                          length-take (suc limit) (after cursor),
                          ltb_false→le _ _ full,
                        ))
                    ∙ ap (λ l. some (cut key limit ((found ++ keep accept rows) ++ keep accept l)))
                        behind
                    ∙ ap (λ l. some (cut key limit l)) (sym all)
              ]
        ]

    -- With fuel for every row behind the cursor, collect returns: the page has the first `limit` of the
    -- rows behind the cursor that `accept` takes, and the key of the last of them where more are left,
    -- or all of them and no key.
    pub collect_lem :
        (fuel : ℕ) (cursor : Option K)
        → length (after cursor) < fuel
        → collect accept key limit (fetch_after after) fuel cursor
          ≡ some (cut key limit (keep accept (after cursor)))
    unfolding collect
    collect_lem fuel cursor lt = collect_from_lem fuel cursor [] (omega arith) lt
