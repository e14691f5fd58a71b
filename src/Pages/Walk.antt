-- ===== src/Pages/Walk.antt =====
-- All the pages of a list, from the first to the one without a next cursor.
use zoo.Base.{
  ℕ, zero, suc, ◌-◌, ◌<◌, ◌≡◌, refl, sym, ◌∙◌, ap, Bool, Option, none, some, List, [], ◌∷◌, ◌++◌,
  arith, ltb, ltb→lt, if_true, if_false, Bool-cases, inl, inr, length, take, drop, take-append-drop,
  length-drop, get_elem?, keep,
}
use zoo.Pages.{key_of, collect}
use zoo.Pages.Collect.{fetch_after, collect_lem}

module _ {R K : Type 0} (accept : R → Bool) (key : R → K) (limit : ℕ)
    (after : Option K → List R) where
  abbrev pub then_next : (Option K → List R) → Option (List R × Option K) → List R
  then_next again none = []
  then_next again (some (rows, none)) = rows
  then_next again (some (rows, some cursor)) = rows ++ again (some cursor)

  -- What a client reads that asks for page after page, `pages` of them at most.
  unfoldable pub walk : ℕ → ℕ → Option K → List R
  walk zero fuel cursor = []
  walk (suc pages) fuel cursor =
      then_next (walk pages fuel) (collect accept key limit (fetch_after after) fuel cursor)

  -- Where the kept row number i stands in the list.
  kept_at :
      (rows : List R) (i : ℕ)
      → i < length (keep accept rows)
      → (xs : List R) × (r : R) × (ys : List R) × (rows ≡ xs ++ r ∷ ys)
        × (get_elem? (keep accept rows) i ≡ some r)
        × (drop (suc i) (keep accept rows) ≡ keep accept ys)
  unfolding keep
  kept_at [] i h = absurd (omega arith)
  kept_at (q ∷ rows) zero h = elim (Bool-cases (accept q)) [
    | inl taken ↦ ([], q, rows, refl, rw taken, rw taken)
    | inr out ↦
        let (xs, r, ys, split, at, behind) = kept_at rows zero (ground arith) in
        (q ∷ xs, r, ys, ap (λ l. q ∷ l) split, rw out at, rw out behind)
  ]
  kept_at (q ∷ rows) (suc i) h = elim (Bool-cases (accept q)) [
    | inl taken ↦
        let (xs, r, ys, split, at, behind) = kept_at rows i (ground arith) in
        (q ∷ xs, r, ys, ap (λ l. q ∷ l) split, rw taken at, rw taken behind)
    | inr out ↦
        let (xs, r, ys, split, at, behind) = kept_at rows (suc i) (ground arith) in
        (q ∷ xs, r, ys, ap (λ l. q ∷ l) split, rw out at, rw out behind)
  ]

  module _
      (next : (cursor : Option K) (xs ys : List R) (r : R)
        → after cursor ≡ xs ++ r ∷ ys
        → after (some (key r)) ≡ ys) where
    -- A client that follows the cursors reads each row that `accept` takes exactly once and in order, for
    -- any limit from 1, with fuel and pages for every row.
    pub walk_lem :
        (pages fuel : ℕ) (cursor : Option K)
        → 0 < limit
        → ((c : Option K) → length (after c) < fuel)
        → length (keep accept (after cursor)) < pages
        → walk pages fuel cursor ≡ keep accept (after cursor)
    unfolding walk
    walk_lem zero fuel cursor pos enough lt = absurd (omega arith)
    walk_lem (suc pages) fuel cursor pos enough lt =
        let all = keep accept (after cursor) in
        let collected = collect_lem accept key limit after next fuel cursor (enough cursor) in
        elim (Bool-cases (ltb limit (length all))) [
          | inr last ↦ ap (then_next (walk pages fuel)) (collected ∙ ap some (if_false _ _ last))
          | inl full ↦
              let (xs, r, ys, split, at, behind) =
                kept_at (after cursor) (limit - 1)
                  (omega (arith, ltb→lt limit (length all) full, pos)) in
              let e : limit ≡ suc (limit - 1) = omega (arith, pos) in
              let behind' : drop limit all ≡ keep accept (after (some (key r))) =
                ap (λ n. drop n all) e
                ∙ behind
                ∙ ap (keep accept) (sym (next cursor xs ys r split)) in
              ap (then_next (walk pages fuel)) (collected ∙ ap some (if_true _ _ full))
              ∙ ap (λ k. then_next (walk pages fuel) (some (take limit all, key_of key k))) at
              ∙ ap (λ l. take limit all ++ l)
                  (walk_lem pages fuel (some (key r)) pos enough (
                      omega (
                        arith,
                        lt,
                        ap length behind',
                        length-drop limit all,
                        pos,
                        ltb→lt limit (length all) full,
                      ))
                    ∙ sym behind')
              ∙ take-append-drop limit all
        ]
