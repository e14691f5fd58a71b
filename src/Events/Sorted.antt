-- ===== src/Events/Sorted.antt =====
-- Tables in the order of seq, and what their parts hold.
use zoo.Base.{
  ℕ, zero, suc, ◌≤◌, ◌<◌, nat_eq, ◌==◌, ==_iff, ==_refl, ◌≡◌, refl, sym, ◌∙◌, ap, subst, Bool, none,
  some, [], ◌∷◌, arith, if◌then◌else◌, if_true, if_false, Bool-cases, Option-cases, inl, inr,
  length, take, keep, Each, keep-Each, Each-imp, ltb, ltb→lt, ltb_false→le,
}
use zoo.Base.Dict.{get, Distinct}
use zoo.Events.{Event, Table, top}

abbrev pub IsSorted : Table → Type 0
IsSorted [] = Unit
IsSorted ((seq, row) ∷ rows) = Each (λ (p : ℕ × Event). seq < p.0) rows × IsSorted rows

-- Every row of a list stands in the table.
abbrev pub StandsIn : Table → Table → Type 0
StandsIn table rows = Each (λ (p : ℕ × Event). get table p.0 ≡ some p.1) rows

get_above :
    (table : Table) (seq other : ℕ) (row : Event)
    → Each (λ (p : ℕ × Event). seq < p.0) table
    → get table other ≡ some row
    → seq < other
unfolding get
get_above [] seq other row h found = absurd (cc found)
get_above ((s, r) ∷ table) seq other row h found = elim (Bool-cases (s == other)) [
  | inl same ↦ subst (λ n. seq < n) ((==_iff s other).0 same) h.0
  | inr apart ↦ get_above table seq other row h.1 (sym (if_false _ _ apart) ∙ found)
]

pub get_free :
    (table : Table) (seq : ℕ) → Each (λ (p : ℕ × Event). seq < p.0) table → get table seq ≡ none
get_free table seq h = elim (Option-cases (get table seq)) [
  | inl free ↦ free
  | inr (row, found) ↦ absurd (omega (arith, get_above table seq seq row h found))
]

pub sorted-Distinct : (table : Table) → IsSorted table → Distinct table
sorted-Distinct [] h = tt
sorted-Distinct ((seq, row) ∷ table) h = (get_free table seq h.0, sorted-Distinct table h.1)

below :
    (seq : ℕ) (row : Event) (table rows : Table)
    → Each (λ (p : ℕ × Event). seq < p.0) rows
    → StandsIn table rows
    → StandsIn ((seq, row) ∷ table) rows
unfolding get
below seq row table [] h there = tt
below seq row table ((s, r) ∷ rows) h there = elim (Bool-cases (seq == s)) [
  | inl same ↦ absurd (omega (arith, (==_iff seq s).0 same, h.0))
  | inr apart ↦ (if_false _ _ apart ∙ there.0, below seq row table rows h.1 there.1)
]

pub sorted-StandsIn : (table : Table) → IsSorted table → StandsIn table table
unfolding get
sorted-StandsIn [] h = tt
sorted-StandsIn ((seq, row) ∷ table) h =
    (if_true _ _ (==_refl seq), below seq row table table h.0 (sorted-StandsIn table h.1))

pub take-Each {κ} :
    (P : ℕ × Event → Type κ) (n : ℕ) (rows : Table) → Each P rows → Each P (take n rows)
take-Each P zero rows h = tt
take-Each P (suc n) [] h = tt
take-Each P (suc n) (row ∷ rows) h = (h.0, take-Each P n rows h.1)

pub keep-IsSorted :
    (p : ℕ × Event → Bool) (table : Table) → IsSorted table → IsSorted (keep p table)
unfolding keep
keep-IsSorted p [] h = tt
keep-IsSorted p ((seq, row) ∷ table) h = elim (Bool-cases (p (seq, row))) [
  | inl kept ↦ rw kept (keep-Each p (λ x _ above. above) table h.0, keep-IsSorted p table h.1)
  | inr gone ↦ rw gone (keep-IsSorted p table h.1)
]

pub take_all : (n : ℕ) (rows : Table) → length rows ≤ n → take n rows ≡ rows
take_all zero [] h = refl
take_all zero (row ∷ rows) h = absurd (omega arith)
take_all (suc n) [] h = refl
take_all (suc n) (row ∷ rows) h = ap (λ xs. row ∷ xs) (take_all n rows (omega arith))

-- What a page leaves out is behind its last row.
pub get-take :
    (n after seq : ℕ) (row : Event) (rows : Table)
    → IsSorted rows
    → after < seq
    → seq ≤ top after (take n rows)
    → get rows seq ≡ some row
    → get (take n rows) seq ≡ some row
unfolding get
get-take zero after seq row rows h ahead last found = absurd (omega (arith, ahead, last))
get-take (suc n) after seq row [] h ahead last found = found
get-take (suc n) after seq row ((s, r) ∷ rows) h ahead last found = elim (Bool-cases (s == seq)) [
  | inl same ↦ if_true _ _ same ∙ sym (if_true _ _ same) ∙ found
  | inr apart ↦
      let found' : get rows seq ≡ some row = sym (if_false _ _ apart) ∙ found in
      let above = get_above rows s seq row h.0 found' in
      if_false _ _ apart
      ∙ get-take n after seq row rows h.1 ahead (omega (arith, last, above)) found'
]

pub top-le :
    (after : ℕ) (rows : Table)
    → (after ≤ top after rows) × Each (λ (p : ℕ × Event). p.0 ≤ top after rows) rows
top-le after [] = (omega arith, tt)
top-le after ((seq, row) ∷ rows) =
    let (first, rest) = top-le after rows in
    (omega (arith, first), (omega arith, Each-imp (λ p h. omega (arith, h)) rows rest))

-- A commit puts a row where its seq stands, which may be before rows that are there already.
unfoldable pub insert_event : ℕ → Event → Table → Table
insert_event seq row [] = (seq, row) ∷ []
insert_event seq row ((s, r) ∷ table) =
    let rest = insert_event seq row table in
    if ltb seq s then (seq, row) ∷ (s, r) ∷ table else (s, r) ∷ rest

pub get-insert_event :
    (seq other : ℕ) (row : Event) (table : Table)
    → get table seq ≡ none
    → get (insert_event seq row table) other ≡ (if seq == other then some row else get table other)
unfolding get insert_event
get-insert_event seq other row [] free = refl
get-insert_event seq other row ((s, r) ∷ table) free =
    ground
      (arith, get-insert_event seq other row table, ==_iff s seq, ==_iff s other, ==_iff seq other)

insert-Each {κ} :
    (P : ℕ × Event → Type κ) (seq : ℕ) (row : Event) (table : Table)
    → P (seq, row)
    → Each P table
    → Each P (insert_event seq row table)
unfolding insert_event
insert-Each P seq row [] new h = (new, tt)
insert-Each P seq row ((s, r) ∷ table) new h = elim (Bool-cases (ltb seq s)) [
  | inl before ↦ rw before (new, h)
  | inr behind ↦ rw behind (h.0, insert-Each P seq row table new h.1)
]

pub insert-IsSorted :
    (seq : ℕ) (row : Event) (table : Table)
    → get table seq ≡ none
    → IsSorted table
    → IsSorted (insert_event seq row table)
unfolding insert_event get
insert-IsSorted seq row [] free h = (tt, tt)
insert-IsSorted seq row ((s, r) ∷ table) free h = elim (Bool-cases (ltb seq s)) [
  | inl before ↦
      let lt = ltb→lt seq s before in
      rw before ((lt, Each-imp (λ p above. omega (arith, lt, above)) table h.0), h)
  | inr behind ↦ elim (Bool-cases (s == seq)) [
    | inl same ↦ absurd (cc (sym (if_true _ _ same) ∙ free))
    | inr apart ↦
        let le = ltb_false→le seq s behind in
        let lt : s < seq = ground (arith, le, ==_iff s seq) in
        rw behind (
          insert-Each (λ p. s < p.0) seq row table lt h.0,
          insert-IsSorted seq row table (sym (if_false _ _ apart) ∙ free) h.1,
        )
  ]
]
