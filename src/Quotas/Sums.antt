-- ===== src/Quotas/Sums.antt =====
-- The sums of the usage statements, as rows come and change.
use zoo.Base.{
  ℕ, ◌≡◌, refl, ◌∙◌, ap, ap₂, String, string_eq, ◌==◌, ==_iff, Bool, true, false, none, some, [],
  ◌∷◌, arith, Each, if◌then◌else◌, Bool-cases, inl, inr,
}
use zoo.Base.Dict.{Dict, get, put}
use zoo.Quotas.{Sandbox, Usage, add_row, sum_usage}

add_row_comm :
    (u : ℕ) (r q : Sandbox) (used : Usage)
    → add_row u r (add_row u q used) ≡ add_row u q (add_row u r used)
unfolding add_row
add_row_comm u r q used = ground arith

abbrev pub add_when : ℕ → Bool → Sandbox → Usage → Usage
add_when u b row used = if b then add_row u row used else used

add_when_comm :
    (u : ℕ) (b c : Bool) (r q : Sandbox) (used : Usage)
    → add_when u b r (add_when u c q used) ≡ add_when u c q (add_when u b r used)
add_when_comm u true true r q used = add_row_comm u r q used
add_when_comm u true false r q used = refl
add_when_comm u false c r q used = refl

-- A new row adds itself to the sum.
pub sum_usage-put_new :
    (u : ℕ) (selected : String × Sandbox → Bool) (bytes : Usage) (rows : Dict String Sandbox)
    (id : String) (row : Sandbox)
    → get rows id ≡ none
    → sum_usage u selected bytes (put rows id row)
      ≡ add_when u (selected (id, row)) row (sum_usage u selected bytes rows)
unfolding sum_usage get put
sum_usage-put_new u selected bytes [] id row fresh = refl
sum_usage-put_new u selected bytes ((i, r) ∷ rows) id row fresh = elim (Bool-cases (i == id)) [
  | inl same ↦ ground arith
  | inr other ↦ rw other (
      ap (add_when u (selected (i, r)) r)
        (sum_usage-put_new u selected bytes rows id row (ground arith))
      ∙ add_when_comm u (selected (i, r)) (selected (id, row)) r row
          (sum_usage u selected bytes rows))
]

-- The sum over all rows but one.
pub sum_without :
    (u : ℕ) (selected : String × Sandbox → Bool) (bytes : Usage) (rows : Dict String Sandbox)
    (id : String)
    → Usage
unfolding sum_usage
sum_without u selected bytes [] id = bytes
sum_without u selected bytes ((i, r) ∷ rows) id =
    if i == id
    then sum_usage u selected bytes rows
    else add_when u (selected (i, r)) r (sum_without u selected bytes rows id)

-- The sum with a row, as it is and as another takes its place.
pub sum_usage-get :
    (u : ℕ) (selected : String × Sandbox → Bool) (bytes : Usage) (rows : Dict String Sandbox)
    (id : String) (row : Sandbox)
    → get rows id ≡ some row
    → sum_usage u selected bytes rows
      ≡ add_when u (selected (id, row)) row (sum_without u selected bytes rows id)
unfolding sum_usage sum_without get
sum_usage-get u selected bytes [] id row found = ground arith
sum_usage-get u selected bytes ((i, r) ∷ rows) id row found = elim (Bool-cases (i == id)) [
  | inl same ↦
      let ei : i ≡ id = (==_iff i id).0 same in
      let er : r ≡ row = ground arith in
      rw same (ap₂ (λ a b. add_when u (selected (a, b)) b (sum_usage u selected bytes rows)) ei er)
  | inr other ↦ rw other (
      ap (add_when u (selected (i, r)) r)
        (sum_usage-get u selected bytes rows id row (ground arith))
      ∙ add_when_comm u (selected (i, r)) (selected (id, row)) r row
          (sum_without u selected bytes rows id))
]

pub sum_usage-put :
    (u : ℕ) (selected : String × Sandbox → Bool) (bytes : Usage) (rows : Dict String Sandbox)
    (id : String) (row new : Sandbox)
    → get rows id ≡ some row
    → sum_usage u selected bytes (put rows id new)
      ≡ add_when u (selected (id, new)) new (sum_without u selected bytes rows id)
unfolding sum_usage sum_without get put
sum_usage-put u selected bytes [] id row new found = ground arith
sum_usage-put u selected bytes ((i, r) ∷ rows) id row new found = elim (Bool-cases (i == id)) [
  | inl same ↦
      let ei : i ≡ id = (==_iff i id).0 same in
      rw same (ap (λ a. add_when u (selected (a, new)) new (sum_usage u selected bytes rows)) ei)
  | inr other ↦ rw other (
      ap (add_when u (selected (i, r)) r)
        (sum_usage-put u selected bytes rows id row new (ground arith))
      ∙ add_when_comm u (selected (i, r)) (selected (id, new)) r new
          (sum_without u selected bytes rows id))
]

-- Selections that agree on the rows give one sum.
pub sum_usage_agree :
    (u : ℕ) (selected other : String × Sandbox → Bool) (bytes : Usage) (rows : Dict String Sandbox)
    → Each (λ item. selected item ≡ other item) rows
    → sum_usage u selected bytes rows ≡ sum_usage u other bytes rows
unfolding sum_usage
sum_usage_agree u selected other bytes [] h = refl
sum_usage_agree u selected other bytes ((i, r) ∷ rows) h =
    rw (h.0, sum_usage_agree u selected other bytes rows h.1)
