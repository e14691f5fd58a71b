-- ===== src/Pool/Rows.antt =====
-- What the statements on pool_sandboxes do to the rows of a table.
use zoo.Base.{
  String, string_eq, ◌==◌, ==_iff, ◌≡◌, refl, sym, ◌∙◌, ap, Bool, true, Option, none, some, [], ◌∷◌,
  Bool-cases, Option-cases, inl, inr, if◌then◌else◌, if_true, if_false, eq_of_some,
}
use zoo.Base.Dict.{get, get-put, get-erase, Distinct, put-Distinct, erase}
use zoo.Pool.{PoolSandbox, Table, find, update_row}

-- What stands at an id, with a function applied.
abbrev pub applied : (PoolSandbox → PoolSandbox) → Option PoolSandbox → Option PoolSandbox
applied f none = none
applied f (some row) = some (f row)

pub differs :
    (table : Table) (id other : String) (row : PoolSandbox)
    → get table id ≡ none
    → get table other ≡ some row
    → (id == other) ≡ true
    → ⊥
differs table id other row free found same =
    let e : id ≡ other = (==_iff id other).0 same in cc (sym (ap (get table) e), free, found)

-- The row that find returns is in the table, and passes the test.
pub find_lem :
    (p : PoolSandbox → Bool) (table : Table) (id : String) (row : PoolSandbox)
    → Distinct table
    → find p table ≡ some (id, row)
    → (get table id ≡ some row) × (p row ≡ true)
unfolding find get
find_lem p [] id row d h = cc
find_lem p ((i, r) ∷ table) id row d h = elim (Bool-cases (p r)) [
  | inl taken ↦
      let e : (i, r) ≡ (id, row) = eq_of_some (sym (if_true _ _ taken) ∙ h) in
      let i_is : i ≡ id = ap (λ (c : String × PoolSandbox). c.0) e in
      let r_is : r ≡ row = ap (λ (c : String × PoolSandbox). c.1) e in
      (if_true _ _ ((==_iff i id).1 i_is) ∙ ap some r_is, sym (ap p r_is) ∙ taken)
  | inr passed ↦
      let (found, fits) = find_lem p table id row d.1 (sym (if_false _ _ passed) ∙ h) in
      elim (Bool-cases (i == id)) [
        | inl same ↦ absurd (differs table i id row d.0 found same)
        | inr other ↦ (if_false _ _ other ∙ found, fits)
      ]
]

pub get-update_row :
    (id other : String) (f : PoolSandbox → PoolSandbox) (table : Table)
    → get (update_row id f table) other
      ≡ (if id == other then applied f (get table id) else get table other)
unfolding update_row
get-update_row id other f table = elim (Option-cases (get table id)) [
  | inl free ↦ elim (Bool-cases (id == other)) [
    | inl same ↦ rw (free, same) (ap (get table) (sym ((==_iff id other).0 same)) ∙ free)
    | inr apart ↦ rw (free, apart) refl
  ]
  | inr (row, found) ↦ rw found (get-put table id other (f row))
]

pub update_row-Distinct :
    (id : String) (f : PoolSandbox → PoolSandbox) (table : Table)
    → Distinct table
    → Distinct (update_row id f table)
unfolding update_row
update_row-Distinct id f table d = elim (Option-cases (get table id)) [
  | inl free ↦ rw free d
  | inr (row, found) ↦ rw found (put-Distinct table id (f row) d)
]

-- A row behind an update is one from before, with the function applied where it has the id.
pub update_row_cases :
    (id other : String) (f : PoolSandbox → PoolSandbox) (table : Table) (row : PoolSandbox)
    → get (update_row id f table) other ≡ some row
    → (old : PoolSandbox) × (get table other ≡ some old)
      × (row ≡ (if id == other then f old else old))
update_row_cases id other f table row found = elim (Bool-cases (id == other)) [
  | inl same ↦
      let e : id ≡ other = (==_iff id other).0 same in
      let here : applied f (get table id) ≡ some row =
        sym (get-update_row id other f table ∙ if_true _ _ same) ∙ found in
      elim (Option-cases (get table id)) [
        | inl free ↦ absurd (cc (ap (applied f) free, here))
        | inr (old, there) ↦ (
          old,
          sym (ap (get table) e) ∙ there,
          sym (eq_of_some (sym (ap (applied f) there) ∙ here)) ∙ sym (if_true _ _ same),
        )
      ]
  | inr apart ↦ (
    row,
    sym (get-update_row id other f table ∙ if_false _ _ apart) ∙ found,
    sym (if_false _ _ apart),
  )
]

-- What stands in a table without a row stood there before.
pub get-erase-some :
    (table : Table) (id other : String) (row : PoolSandbox)
    → get (erase table id) other ≡ some row
    → get table other ≡ some row
get-erase-some table id other row found = elim (Bool-cases (id == other)) [
  | inl same ↦
      let e : get (erase table id) other ≡ none = get-erase table id other ∙ if_true _ _ same in
      absurd (cc (e, found))
  | inr apart ↦ sym (get-erase table id other ∙ if_false _ _ apart) ∙ found
]

pub get-erase-none :
    (table : Table) (id other : String) → get table other ≡ none → get (erase table id) other ≡ none
get-erase-none table id other free = elim (Bool-cases (id == other)) [
  | inl same ↦ get-erase table id other ∙ if_true _ _ same
  | inr apart ↦ get-erase table id other ∙ if_false _ _ apart ∙ free
]

pub update_row-none :
    (id other : String) (f : PoolSandbox → PoolSandbox) (table : Table)
    → get table other ≡ none
    → get (update_row id f table) other ≡ none
update_row-none id other f table free = elim (Option-cases (get (update_row id f table) other)) [
  | inl gone ↦ gone
  | inr (row, found) ↦
      let (old, there, e) = update_row_cases id other f table row found in absurd (cc (free, there))
]
