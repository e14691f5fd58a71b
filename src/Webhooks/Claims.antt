-- ===== src/Webhooks/Claims.antt =====
-- The rows that a claim takes, and those that it leaves.
use zoo.Base.{
  ℕ, zero, suc, String, string_eq, ◌==◌, ==_iff, ◌≡◌, refl, sym, ◌∙◌, ap, Bool, true, false, Option,
  none, some, [], ◌∷◌, Bool-cases, Option-cases, inl, inr, if◌then◌else◌, if_true, if_false,
  eq_of_some,
}
use zoo.Base.Dict.{get, Distinct}
use zoo.Webhooks.{Delivery, Table, is_due, leased, claim_webhook_deliveries}

module _ {A : Type 0} where
  abbrev pub or_get : Option A → Option A → Option A
  or_get none other = other
  or_get (some a) other = some a

claim-due :
    (now limit : ℕ) (table : Table) (i : String) (r : Delivery)
    → is_due now r ≡ true
    → claim_webhook_deliveries now (suc limit) ((i, r) ∷ table) ≡ (
      (i, leased now r) ∷ (claim_webhook_deliveries now limit table).0,
      (i, leased now r) ∷ (claim_webhook_deliveries now limit table).1,
    )
unfolding claim_webhook_deliveries
claim-due now limit table i r due = if_true _ _ due

claim-idle :
    (now limit : ℕ) (table : Table) (i : String) (r : Delivery)
    → is_due now r ≡ false
    → claim_webhook_deliveries now (suc limit) ((i, r) ∷ table) ≡ (
      (i, r) ∷ (claim_webhook_deliveries now (suc limit) table).0,
      (claim_webhook_deliveries now (suc limit) table).1,
    )
unfolding claim_webhook_deliveries
claim-idle now limit table i r idle = if_false _ _ idle

-- A row that was claimed was due, and is leased.
pub get-claimed :
    (now limit : ℕ) (table : Table) (id : String) (row : Delivery)
    → Distinct table
    → get (claim_webhook_deliveries now limit table).1 id ≡ some row
    → (before : Delivery) × (get table id ≡ some before)
      × (is_due now before ≡ true)
      × (row ≡ leased now before)
unfolding claim_webhook_deliveries get
get-claimed now limit [] id row d h = cc
get-claimed now zero ((i, r) ∷ table) id row d h = cc
get-claimed now (suc limit) ((i, r) ∷ table) id row d h = elim (Bool-cases (is_due now r)) [
  | inl due ↦
      let h' : (if i == id
            then some (leased now r)
            else get (claim_webhook_deliveries now limit table).1 id)
          ≡ some row =
        sym (ap (λ (c : Table × Table). get c.1 id) (claim-due now limit table i r due)) ∙ h in
      elim (Bool-cases (i == id)) [
        | inl same ↦ (r, if_true _ _ same, due, sym (eq_of_some (sym (if_true _ _ same) ∙ h')))
        | inr other ↦
            let (before, found, was_due, e) =
              get-claimed now limit table id row d.1 (sym (if_false _ _ other) ∙ h') in
            (before, if_false _ _ other ∙ found, was_due, e)
      ]
  | inr idle ↦
      let (before, found, was_due, e) =
        get-claimed now (suc limit) table id row d.1 (
          sym (ap (λ (c : Table × Table). get c.1 id) (claim-idle now limit table i r idle)) ∙ h) in
      elim (Bool-cases (i == id)) [
        | inl same ↦
            let e' : i ≡ id = (==_iff i id).0 same in
            absurd (cc (sym (ap (get table) e'), d.0, found))
        | inr other ↦ (before, if_false _ _ other ∙ found, was_due, e)
      ]
]

pub claimed_none :
    (now limit : ℕ) (table : Table) (id : String)
    → Distinct table
    → get table id ≡ none
    → get (claim_webhook_deliveries now limit table).1 id ≡ none
claimed_none now limit table id d gone =
    elim (Option-cases (get (claim_webhook_deliveries now limit table).1 id)) [
      | inl free ↦ free
      | inr (row, found) ↦
          let (before, there, due, e) = get-claimed now limit table id row d found in
          absurd (cc (gone, there))
    ]

step :
    (same : Bool) (own old : Delivery) (behind claimed rest : Option Delivery)
    → behind ≡ or_get claimed rest
    → (if same then some own else behind)
      ≡ or_get (if same then some own else claimed) (if same then some old else rest)
step true own old behind claimed rest h = refl
step false own old behind claimed rest h = h

idle_step :
    (i id : String) (r : Delivery) (table claimed : Table) (behind : Option Delivery)
    → get table i ≡ none
    → get claimed i ≡ none
    → behind ≡ or_get (get claimed id) (get table id)
    → (if i == id then some r else behind)
      ≡ or_get (get claimed id) (if i == id then some r else get table id)
idle_step i id r table claimed behind gone free h = elim (Bool-cases (i == id)) [
  | inl same ↦
      let e : i ≡ id = (==_iff i id).0 same in
      let free' : get claimed id ≡ none = ap (get claimed) (sym e) ∙ free in rw (same, free') refl
  | inr other ↦ rw other h
]

-- The table behind a claim has the rows claimed, and the others as they were.
pub get-claim_webhook_deliveries :
    (now limit : ℕ) (table : Table) (id : String)
    → Distinct table
    → get (claim_webhook_deliveries now limit table).0 id
      ≡ or_get (get (claim_webhook_deliveries now limit table).1 id) (get table id)
unfolding claim_webhook_deliveries get
get-claim_webhook_deliveries now limit [] id d = refl
get-claim_webhook_deliveries now zero ((i, r) ∷ table) id d = refl
get-claim_webhook_deliveries now (suc limit) ((i, r) ∷ table) id d =
    elim (Bool-cases (is_due now r)) [
      | inl due ↦
          ap (λ (c : Table × Table). get c.0 id) (claim-due now limit table i r due)
          ∙ step (i == id) (leased now r) r (get (claim_webhook_deliveries now limit table).0 id) _
              _ (get-claim_webhook_deliveries now limit table id d.1)
          ∙ sym (
              ap (λ (c : Table × Table). or_get (get c.1 id) (get ((i, r) ∷ table) id))
                (claim-due now limit table i r due))
      | inr idle ↦
          ap (λ (c : Table × Table). get c.0 id) (claim-idle now limit table i r idle)
          ∙ idle_step i id r table (claim_webhook_deliveries now (suc limit) table).1
              (get (claim_webhook_deliveries now (suc limit) table).0 id) d.0
              (claimed_none now (suc limit) table i d.1 d.0)
              (get-claim_webhook_deliveries now (suc limit) table id d.1)
          ∙ sym (
              ap (λ (c : Table × Table). or_get (get c.1 id) (get ((i, r) ∷ table) id))
                (claim-idle now limit table i r idle))
    ]

pub claim-Distinct :
    (now limit : ℕ) (table : Table)
    → Distinct table
    → Distinct (claim_webhook_deliveries now limit table).0
      × Distinct (claim_webhook_deliveries now limit table).1
unfolding claim_webhook_deliveries
claim-Distinct now limit [] d = (tt, tt)
claim-Distinct now zero ((i, r) ∷ table) d = (d, tt)
claim-Distinct now (suc limit) ((i, r) ∷ table) d = elim (Bool-cases (is_due now r)) [
  | inl due ↦
      let (rest, taken) = claim-Distinct now limit table d.1 in
      let free = claimed_none now limit table i d.1 d.0 in
      let gone =
        get-claim_webhook_deliveries now limit table i d.1
        ∙ ap (λ o. or_get o (get table i)) free
        ∙ d.0 in
      rw due ((gone, rest), (free, taken))
  | inr idle ↦
      let (rest, taken) = claim-Distinct now (suc limit) table d.1 in
      let free = claimed_none now (suc limit) table i d.1 d.0 in
      let gone =
        get-claim_webhook_deliveries now (suc limit) table i d.1
        ∙ ap (λ o. or_get o (get table i)) free
        ∙ d.0 in
      rw idle ((gone, rest), taken)
]
