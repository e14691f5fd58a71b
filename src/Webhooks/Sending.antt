-- ===== src/Webhooks/Sending.antt =====
-- The sessions of workers as steps of a relation, and what a claim keeps.
use zoo.Base.{
  ℕ, ◌+◌, ◌≤◌, ◌<◌, String, string_eq, ◌==◌, ==_iff, ==_refl, ◌≡◌, refl, sym, ◌∙◌, ap, subst, true,
  false, none, some, [], ◌∷◌, ◌++◌, ◌⊎◌, arith, Bool-cases, Option-cases, inl, inr, if_true,
  if_false, eq_of_some, leb, leb→le, and-eq_true, length,
}
use zoo.Base.Dict.{get, put, erase, Distinct}
use zoo.Webhooks.{
  Delivery, Table, is_pending, claim_webhook_deliveries, batch_size, Sent, finish_webhook_delivery,
  backoff,
}
use zoo.Webhooks.Claims.{or_get, get-claimed, get-claim_webhook_deliveries, claim-Distinct}

-- The table, what all workers have claimed and not finished, as they claimed it, and the clock.
pub record World : Type 0 where
  pub table : Table
  pub held : Table
  pub clock : ℕ

abbrev pub claims : World → Table × Table
claims w = claim_webhook_deliveries w.clock batch_size w.table

-- Time passes while no worker sends for longer than its lease.
pub data Step (w : World) : World → Type 0 where
  tick :
      (n : ℕ)
      → ((id : String) (d : Delivery) → get w.held id ≡ some d → w.clock + n < d.next_attempt_at)
      → Step w (record w { clock = w.clock + n })
  -- an event makes a delivery
  create :
      (id : String) (row : Delivery)
      → get w.table id ≡ none
      → row.attempts ≡ 0
      → Step w (record w { table = put w.table id row })
  claim_batch : Step w (record w { table = (claims w).0; held = (claims w).1 ++ w.held })
  finish_one :
      (id : String) (d : Delivery) (sent : Sent)
      → get w.held id ≡ some d
      → Step w (record w {
        table = finish_webhook_delivery w.clock d sent id w.table;
        held = erase w.held id;
      })

pub data Reach (start : World) : World → Type 0 where
  here : Reach start start
  next : {w w' : World} → Reach start w → Step w w' → Reach start w'

-- How often a delivery is tried.
abbrev pub IsWithin : Delivery → Type 0
IsWithin row =
    (row.attempts ≤ length backoff + 1)
    × (is_pending row.status ≡ true → row.attempts ≤ length backoff)

pub record IsExclusive (w : World) : Type 0 where
  pub alone : Distinct w.held
  pub keyed : Distinct w.table
  pub as_claimed : (id : String) (d : Delivery) → get w.held id ≡ some d → get w.table id ≡ some d
  pub in_time : (id : String) (d : Delivery) → get w.held id ≡ some d → w.clock < d.next_attempt_at
  pub unsent : (id : String) (d : Delivery) → get w.held id ≡ some d → is_pending d.status ≡ true
  pub tries : (id : String) (row : Delivery) → get w.table id ≡ some row → IsWithin row

get-append : (xs ys : Table) (id : String) → get (xs ++ ys) id ≡ or_get (get xs id) (get ys id)
unfolding get
get-append [] ys id = refl
get-append ((i, r) ∷ xs) ys id = elim (Bool-cases (i == id)) [
  | inl same ↦ rw same refl
  | inr other ↦ rw other (get-append xs ys id)
]

pub differs :
    (i id : String) (r row : Delivery) (xs : Table)
    → get xs i ≡ none
    → get xs id ≡ some row
    → (i == id) ≡ false
differs i id r row xs free found = elim (Bool-cases (i == id)) [
  | inl same ↦
      let e : i ≡ id = (==_iff i id).0 same in absurd (cc (sym (ap (get xs) e), free, found))
  | inr other ↦ other
]

Distinct-append :
    (xs ys : Table)
    → Distinct xs
    → Distinct ys
    → ((id : String) (row : Delivery) → get xs id ≡ some row → get ys id ≡ none)
    → Distinct (xs ++ ys)
unfolding get
Distinct-append [] ys dx dy apart = dy
Distinct-append ((i, r) ∷ xs) ys dx dy apart = (
  get-append xs ys i ∙ ap (λ o. or_get o (get ys i)) dx.0 ∙ apart i r (if_true _ _ (==_refl i)),
  Distinct-append xs ys dx.1 dy
      (λ id row found. apart id row (if_false _ _ (differs i id r row xs dx.0 found) ∙ found)),
)

-- A delivery that is due is not being sent.
claimed_free :
    (w : World) (id : String) (row : Delivery)
    → IsExclusive w
    → get (claims w).1 id ≡ some row
    → get w.held id ≡ none
claimed_free w id row h found = elim (Option-cases (get w.held id)) [
  | inl free ↦ free
  | inr (d, busy) ↦
      let (before, there, due, e) = get-claimed w.clock batch_size w.table id row h.keyed found in
      let same : before ≡ d = eq_of_some (sym there ∙ h.as_claimed id d busy) in
      let old : before.next_attempt_at ≤ w.clock =
        leb→le before.next_attempt_at w.clock
          (and-eq_true (is_pending before.status) (leb before.next_attempt_at w.clock) due).1 in
      let same_time : before.next_attempt_at ≡ d.next_attempt_at =
        ap (λ x. x.next_attempt_at) same in
      absurd (omega (arith, old, same_time, h.in_time id d busy))
]

-- What is held behind a claim: a row that was claimed now, or one held before.
held_cases :
    (w : World) (id : String) (d : Delivery)
    → get ((claims w).1 ++ w.held) id ≡ some d
    → (get (claims w).1 id ≡ some d) ⊎ ((get (claims w).1 id ≡ none) × (get w.held id ≡ some d))
held_cases w id d busy =
    let e : or_get (get (claims w).1 id) (get w.held id) ≡ some d =
      sym (get-append (claims w).1 w.held id) ∙ busy in
    elim (Option-cases (get (claims w).1 id)) [
      | inl none_now ↦ inr (none_now, sym (ap (λ o. or_get o (get w.held id)) none_now) ∙ e)
      | inr (row, now) ↦ inl (now ∙ sym (ap (λ o. or_get o (get w.held id)) now) ∙ e)
    ]

claim-as_claimed :
    (w : World) (id : String) (d : Delivery)
    → IsExclusive w
    → get ((claims w).1 ++ w.held) id ≡ some d
    → get (claims w).0 id ≡ some d
claim-as_claimed w id d h busy =
    let e = get-claim_webhook_deliveries w.clock batch_size w.table id h.keyed in
    elim (held_cases w id d busy) [
      | inl now ↦ e ∙ ap (λ o. or_get o (get w.table id)) now
      | inr (none_now, before) ↦
          e ∙ ap (λ o. or_get o (get w.table id)) none_now ∙ h.as_claimed id d before
    ]

claim-tries :
    (w : World) (id : String) (row : Delivery)
    → IsExclusive w
    → get (claims w).0 id ≡ some row
    → IsWithin row
claim-tries w id row h found =
    let e = get-claim_webhook_deliveries w.clock batch_size w.table id h.keyed in
    elim (Option-cases (get (claims w).1 id)) [
      | inl none_now ↦
          h.tries id row (sym (e ∙ ap (λ o. or_get o (get w.table id)) none_now) ∙ found)
      | inr (r, now) ↦
          let (before, there, due, leased_is) =
            get-claimed w.clock batch_size w.table id r h.keyed now in
          let same : r ≡ row =
            eq_of_some (sym (e ∙ ap (λ o. or_get o (get w.table id)) now) ∙ found) in
          subst IsWithin same (subst IsWithin (sym leased_is) (h.tries id before there))
    ]

pub claim-IsExclusive :
    (w : World)
    → IsExclusive w
    → IsExclusive (record w { table = (claims w).0; held = (claims w).1 ++ w.held })
claim-IsExclusive w h = record {
  alone =
      Distinct-append (claims w).1 w.held (claim-Distinct w.clock batch_size w.table h.keyed).1
        h.alone (λ id row found. claimed_free w id row h found);
  keyed = (claim-Distinct w.clock batch_size w.table h.keyed).0;
  as_claimed = λ id d busy. claim-as_claimed w id d h busy;
  in_time = λ id d busy. elim (held_cases w id d busy) [
    | inl now ↦
        let (before, there, due, e) = get-claimed w.clock batch_size w.table id d h.keyed now in
        let at : d.next_attempt_at ≡ w.clock + 120 = ap (λ x. x.next_attempt_at) e in
        omega (arith, at)
    | inr (none_now, before) ↦ h.in_time id d before
  ];
  unsent = λ id d busy. elim (held_cases w id d busy) [
    | inl now ↦
        let (before, there, due, e) = get-claimed w.clock batch_size w.table id d h.keyed now in
        ap (λ x. is_pending x.status) e
        ∙ (and-eq_true (is_pending before.status) (leb before.next_attempt_at w.clock) due).0
    | inr (none_now, before) ↦ h.unsent id d before
  ];
  tries = λ id row found. claim-tries w id row h found;
}
