-- ===== src/Labels/Rows.antt =====
-- The tables behind `put` and `of`: what a write leaves to read, for its sandbox and the others.
use zoo.Base.{
  String, string_eq, pair_eq, ◌==◌, ==_iff, ◌≡◌, refl, sym, ap, ◌∙◌, true, false, ◌&&◌, Bool,
  Option, none, some, [], ◌∷◌, arith, Bool-cases, if◌then◌else◌, inl, inr,
}
use zoo.Base.Dict.{get, get-put, Distinct, put-Distinct}
use zoo.Base.Dict
use zoo.Labels.{Labels, LabelRows, Store, delete_labels, set_labels, put, collect, of}
use zoo.Labels.Scope.{or_else}

get-delete_labels :
    (sandbox_id : String) (rows : LabelRows) (id key : String)
    → get (delete_labels sandbox_id rows) (id, key)
      ≡ (if id == sandbox_id then none else get rows (id, key))
unfolding delete_labels get
get-delete_labels sandbox_id [] id key = ground arith
get-delete_labels sandbox_id (((i, k), v) ∷ rows) id key = ground (
  arith,
  ==_iff i sandbox_id,
  ==_iff id sandbox_id,
  ==_iff i id,
  get-delete_labels sandbox_id rows id key,
)

delete_labels-Distinct :
    (sandbox_id : String) (rows : LabelRows)
    → Distinct rows
    → Distinct (delete_labels sandbox_id rows)
unfolding delete_labels
delete_labels-Distinct sandbox_id [] d = tt
delete_labels-Distinct sandbox_id (((i, k), v) ∷ rows) d = elim (Bool-cases (i == sandbox_id)) [
  | inl same ↦ rw same (delete_labels-Distinct sandbox_id rows d.1)
  | inr other ↦ rw other (
    ground (arith, get-delete_labels sandbox_id rows i k),
    delete_labels-Distinct sandbox_id rows d.1,
  )
]

-- The rows of one sandbox, where it is the one asked for.
abbrev found_in : Bool → Labels → String → Option String
found_in b labels key = if b then get labels key else none

set_step :
    (id sandbox_id k key v : String) (labels : Labels) (held : Option String)
    → get labels k ≡ none
    → or_else
        (found_in (id == sandbox_id) labels key)
        (if sandbox_id == id && k == key then some v else held)
      ≡ or_else (found_in (id == sandbox_id) ((k, v) ∷ labels) key) held
unfolding get
set_step id sandbox_id k key v labels held fresh =
    ground (arith, ==_iff k key, ==_iff id sandbox_id, ==_iff sandbox_id id)

get-set_labels :
    (sandbox_id : String) (labels : Labels) (rows : LabelRows) (id key : String)
    → Distinct labels
    → get (set_labels sandbox_id labels rows) (id, key)
      ≡ or_else (found_in (id == sandbox_id) labels key) (get rows (id, key))
unfolding set_labels get
get-set_labels sandbox_id [] rows id key d = ground arith
get-set_labels sandbox_id ((k, v) ∷ labels) rows id key d =
    get-set_labels sandbox_id labels (Dict.put rows (sandbox_id, k) v) id key d.1
    ∙ ap (or_else (found_in (id == sandbox_id) labels key))
        (get-put rows (sandbox_id, k) (id, key) v)
    ∙ set_step id sandbox_id k key v labels (get rows (id, key)) d.0

set_labels-Distinct :
    (sandbox_id : String) (labels : Labels) (rows : LabelRows)
    → Distinct rows
    → Distinct (set_labels sandbox_id labels rows)
unfolding set_labels
set_labels-Distinct sandbox_id [] rows d = d
set_labels-Distinct sandbox_id ((k, v) ∷ labels) rows d =
    set_labels-Distinct sandbox_id labels (Dict.put rows (sandbox_id, k) v)
      (put-Distinct rows (sandbox_id, k) v d)

collect_step :
    (sandbox_id i k key v : String) (rows : LabelRows) (labels : Labels)
    → get rows (i, k) ≡ none
    → or_else
        (get rows (sandbox_id, key))
        (get (if i == sandbox_id then Dict.put labels k v else labels) key)
      ≡ or_else (get (((i, k), v) ∷ rows) (sandbox_id, key)) (get labels key)
unfolding get
collect_step sandbox_id i k key v rows labels fresh = elim (Bool-cases (i == sandbox_id)) [
  | inl same ↦
      let e : i ≡ sandbox_id = (==_iff i sandbox_id).0 same in
      ground (arith, get-put labels k key v, ==_iff k key)
  | inr other ↦ rw other
]

get-collect :
    (sandbox_id : String) (rows : LabelRows) (labels : Labels) (key : String)
    → Distinct rows
    → get (collect sandbox_id rows labels) key
      ≡ or_else (get rows (sandbox_id, key)) (get labels key)
unfolding collect get
get-collect sandbox_id [] labels key d = refl
get-collect sandbox_id (((i, k), v) ∷ rows) labels key d =
    get-collect sandbox_id rows (if i == sandbox_id then Dict.put labels k v else labels) key d.1
    ∙ collect_step sandbox_id i k key v rows labels d.0

or_else-none : (o : Option String) → or_else o none ≡ o
or_else-none none = refl
or_else-none (some v) = refl

get-of :
    (sandbox_id key : String) (store : Store)
    → Distinct store.sandbox_labels
    → get (of sandbox_id store) key ≡ get store.sandbox_labels (sandbox_id, key)
unfolding of get
get-of sandbox_id key store d =
    get-collect sandbox_id store.sandbox_labels [] key d ∙ or_else-none _

found_or_held :
    (b : Bool) (labels : Labels) (key : String) (held : Option String)
    → or_else (found_in b labels key) (if b then none else held)
      ≡ (if b then get labels key else held)
found_or_held true labels key held = or_else-none (get labels key)
found_or_held false labels key held = refl

pub replaced :
    (sandbox_id : String) (labels : Labels) (rows : LabelRows) (id key : String)
    → Distinct labels
    → get (set_labels sandbox_id labels (delete_labels sandbox_id rows)) (id, key)
      ≡ (if id == sandbox_id then get labels key else get rows (id, key))
replaced sandbox_id labels rows id key d =
    get-set_labels sandbox_id labels (delete_labels sandbox_id rows) id key d
    ∙ ap (or_else (found_in (id == sandbox_id) labels key))
        (get-delete_labels sandbox_id rows id key)
    ∙ found_or_held (id == sandbox_id) labels key (get rows (id, key))

pub rewritten-Distinct :
    (sandbox_id : String) (labels : Labels) (rows : LabelRows)
    → Distinct rows
    → Distinct (set_labels sandbox_id labels (delete_labels sandbox_id rows))
rewritten-Distinct sandbox_id labels rows d =
    set_labels-Distinct sandbox_id labels (delete_labels sandbox_id rows)
      (delete_labels-Distinct sandbox_id rows d)

-- The primary keys of the two tables.
abbrev pub Keyed : Store → Type 0
Keyed store = Distinct store.sandbox_labels × Distinct store.usage_labels

-- From tables whose keys are unique, and for labels in which no key stands twice, put leaves unique
-- keys; of then returns the labels given for the sandbox, and for every other sandbox what it returned
-- before. The copy that usage keeps has the same.
pub of-put :
    (sandbox_id : String) (labels : Labels) (store : Store)
    → Distinct labels
    → Keyed store
    → Keyed (put sandbox_id labels store)
      × ((id key : String)
          → (get (of id (put sandbox_id labels store)) key
              ≡ (if id == sandbox_id then get labels key else get (of id store) key))
            × (get (put sandbox_id labels store).usage_labels (id, key)
                ≡ (if id == sandbox_id then get labels key else get store.usage_labels (id, key))))
unfolding put
of-put sandbox_id labels store d keyed =
    let keyed' : Keyed (put sandbox_id labels store) = (
      rewritten-Distinct sandbox_id labels store.sandbox_labels keyed.0,
      rewritten-Distinct sandbox_id labels store.usage_labels keyed.1,
    ) in
    (
      keyed',
      λ id key. (
        get-of id key (put sandbox_id labels store) keyed'.0
            ∙ replaced sandbox_id labels store.sandbox_labels id key d
            ∙ ap (λ o. if id == sandbox_id then get labels key else o)
                (sym (get-of id key store keyed.0)),
        replaced sandbox_id labels store.usage_labels id key d,
      ),
    )
