-- ===== src/Pages/Table.antt =====
-- The rows that a `page_` statement selects: WHERE (created_at, id) < (…) ORDER BY created_at DESC, id
-- DESC LIMIT …, on a table of rows whose keys differ. The order of the database on keys is given.
use zoo.Base.{
  ℕ, ◌≡◌, refl, sym, ◌∙◌, ap, subst, Bool, true, false, Option, none, some, List, [], ◌∷◌, ◌++◌,
  arith, Bool-cases, inl, inr, Each, Each-middle, keep, keep-Each, take, if◌then◌else◌,
}

module _ {R K : Type 0} (below : K → K → Bool) (key : R → K) where
  -- The rows in the order of the query: each key is above all those after it.
  abbrev pub Descending : List R → Type 0
  Descending [] = Unit
  Descending (r ∷ rows) =
      Each (λ q. (below (key q) (key r) ≡ true) × (below (key r) (key q) ≡ false)) rows
      × Descending rows

  -- The WHERE clause, without the LIMIT.
  unfoldable pub rows_before : List R → Option K → List R
  rows_before table none = table
  rows_before table (some cursor) = keep (λ r. below (key r) cursor) table

  unfoldable pub fetch_page : List R → Option K → ℕ → List R
  unfolding rows_before
  fetch_page table cursor limit = take limit (rows_before table cursor)

  keep_all : (p : R → Bool) (rows : List R) → Each (λ q. p q ≡ true) rows → keep p rows ≡ rows
  unfolding keep
  keep_all p [] h = refl
  keep_all p (r ∷ rows) h = rw h.0 (ap (λ l. r ∷ l) (keep_all p rows h.1))

  firsts :
      (r : R) (rows : List R)
      → Each (λ q. (below (key q) (key r) ≡ true) × (below (key r) (key q) ≡ false)) rows
      → Each (λ q. below (key q) (key r) ≡ true) rows
  firsts r [] h = tt
  firsts r (q ∷ rows) h = (h.0.0, firsts r rows h.1)

  above_middle :
      (x : R) (xs ys : List R) (r : R)
      → Each (λ q. (below (key q) (key x) ≡ true) × (below (key x) (key q) ≡ false)) (xs ++ r ∷ ys)
      → below (key x) (key r) ≡ false
  above_middle x [] ys r h = h.0.1
  above_middle x (q ∷ xs) ys r h = above_middle x xs ys r h.1

  -- Where no key is below itself, the rows below a row are those behind it.
  behind_row :
      ((k : K) → below k k ≡ false)
      → (xs ys : List R) (r : R) → Descending (xs ++ r ∷ ys)
      → keep (λ q. below (key q) (key r)) (xs ++ r ∷ ys) ≡ ys
  unfolding keep
  behind_row irr [] ys r d =
      rw (irr (key r)) (keep_all (λ q. below (key q) (key r)) ys (firsts r ys d.0))
  behind_row irr (x ∷ xs) ys r d = rw (above_middle x xs ys r d.0) (behind_row irr xs ys r d.1)

  keep_passes : (p : R → Bool) (rows : List R) → Each (λ q. p q ≡ true) (keep p rows)
  unfolding keep
  keep_passes p [] = tt
  keep_passes p (r ∷ rows) = elim (Bool-cases (p r)) [
    | inl kept ↦ rw kept (kept, keep_passes p rows)
    | inr gone ↦ rw gone (keep_passes p rows)
  ]

  keep-Descending : (p : R → Bool) (rows : List R) → Descending rows → Descending (keep p rows)
  unfolding keep
  keep-Descending p [] d = tt
  keep-Descending p (r ∷ rows) d = elim (Bool-cases (p r)) [
    | inl kept ↦ rw kept (keep-Each p (λ q passes h. h) rows d.0, keep-Descending p rows d.1)
    | inr gone ↦ rw gone (keep-Descending p rows d.1)
  ]

  keep-keep :
      (p q : R → Bool)
      → ((r : R) → p r ≡ true → q r ≡ true)
      → (rows : List R) → keep p (keep q rows) ≡ keep p rows
  unfolding keep
  keep-keep p q imp [] = refl
  keep-keep p q imp (r ∷ rows) = elim (Bool-cases (q r)) [
    | inl taken ↦ rw taken (ap (λ l. if p r then r ∷ l else l) (keep-keep p q imp rows))
    | inr left_out ↦ elim (Bool-cases (p r)) [
      | inl kept ↦ let taken = imp r kept in ground arith
      | inr gone ↦ rw (left_out, gone) (keep-keep p q imp rows)
    ]
  ]

  -- An order: no key is below itself, and below is transitive.
  abbrev pub Strict : Type 0
  Strict =
      ((k : K) → below k k ≡ false)
      × ((i j k : K) → below i j ≡ true → below j k ≡ true → below i k ≡ true)

  -- The rows before the key of a row of a selection are those that follow it there.
  pub rows_before_next :
      (table : List R)
      → Strict
      → Descending table
      → (cursor : Option K) (xs ys : List R) (r : R) → rows_before table cursor ≡ xs ++ r ∷ ys
      → rows_before table (some (key r)) ≡ ys
  unfolding rows_before
  rows_before_next table strict d none xs ys r e =
      ap (keep (λ q. below (key q) (key r))) e ∙ behind_row strict.0 xs ys r (subst Descending e d)
  rows_before_next table strict d (some cursor) xs ys r e =
      let of_key = λ (q : R). below (key q) (key r) in
      let of_cursor = λ (q : R). below (key q) cursor in
      let here : below (key r) cursor ≡ true =
        Each-middle (λ q. below (key q) cursor ≡ true) xs ys r
          (subst (Each (λ q. below (key q) cursor ≡ true)) e (keep_passes of_cursor table)) in
      sym (keep-keep of_key of_cursor (λ q lt. strict.1 (key q) (key r) cursor lt here) table)
      ∙ ap (keep of_key) e
      ∙ behind_row strict.0 xs ys r (subst Descending e (keep-Descending of_cursor table d))
