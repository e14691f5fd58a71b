-- ===== src/Pages/Cover.antt =====
-- collect on the statements of the database: what a page holds, and that the pages cover the list.
use zoo.Base.{ℕ, ◌<◌, ◌≡◌, Bool, Option, none, some, List, arith, length, length-keep, keep}
use zoo.Pages.{collect}
use zoo.Pages.Collect.{cut, collect_lem}
use zoo.Pages.Table.{Descending, Strict, rows_before, rows_before_next, fetch_page}
use zoo.Pages.Walk.{walk, walk_lem}

module _ {R K : Type 0} (below : K → K → Bool) (accept : R → Bool) (key : R → K) (limit : ℕ) where
  length-rows_before-le :
      (table : List R) (fuel : ℕ) (cursor : Option K)
      → length table < fuel
      → length (rows_before below key table cursor) < fuel
  unfolding rows_before
  length-rows_before-le table fuel none lt = lt
  length-rows_before-le table fuel (some cursor) lt =
      omega (arith, lt, length-keep (λ r. below (key r) cursor) table)

  -- On a table in the order of the statement, where the order is strict and the fuel exceeds its rows,
  -- collect returns: the page has the first `limit` of the rows before the cursor that `accept` takes,
  -- with the key of the last of them where there are more, and otherwise all of them and no key.
  pub collect-cut :
      (table : List R) (fuel : ℕ) (cursor : Option K)
      → Strict below key
      → Descending below key table
      → length table < fuel
      → collect accept key limit (fetch_page below key table) fuel cursor
        ≡ some (cut key limit (keep accept (rows_before below key table cursor)))
  unfolding fetch_page
  collect-cut table fuel cursor strict d lt =
      collect_lem accept key limit (rows_before below key table)
        (rows_before_next below key table strict d) fuel cursor
        (length-rows_before-le table fuel cursor lt)

  -- On a table in the order of the statement, where the order is strict, for a limit of at least 1 and enough pages and fuel for every row, a client that
  -- follows the cursors reads each row that `accept` takes exactly once and in order.
  pub walk-keep :
      (table : List R) (pages fuel : ℕ)
      → Strict below key
      → Descending below key table
      → 0 < limit
      → length table < fuel
      → length table < pages
      → walk accept key limit (rows_before below key table) pages fuel none ≡ keep accept table
  unfolding rows_before
  walk-keep table pages fuel strict d pos lf lp =
      walk_lem accept key limit (rows_before below key table)
        (rows_before_next below key table strict d) pages fuel none pos
        (λ c. length-rows_before-le table fuel c lf) (omega (arith, lp, length-keep accept table))
