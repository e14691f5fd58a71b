-- ===== src/Idempotency/Keys.antt =====
-- What the statements do to the row of each key.
use zoo.Base.{
  ℕ, ◌+◌, ◌≤◌, ◌<◌, String, string_eq, pair_eq, ◌==◌, ==_refl, ◌≡◌, refl, sym, ◌∙◌, ap, Bool, true,
  false, not, ◌⊎◌, inl, inr, Option, none, some, arith, Bool-cases, Option-cases, if◌then◌else◌,
  if_true, if_false, is_some, ltb, ltb→lt, and-eq_true, subst,
}
use zoo.Base.Dict.{
  get, put, erase, get-put, get-erase, get-keep, Distinct, put-Distinct, erase-Distinct,
  keep-Distinct,
}
use zoo.Idempotency.{
  Row, KeyOf, Table, claimed, claim_idempotency_key, release, is_abandoned, claim, claim_again,
  decided, with_response, finish, finish_row, purge, run, decide, begin, retention_seconds,
  abandoned_seconds, End, finished, released, end_request,
}

abbrev pub new_row : ℕ → String → String → Row
new_row now path request_hash = record {
  method = "POST";
  path = path;
  request_hash = request_hash;
  status = none;
  content_type = none;
  response = none;
  created_at = now;
}

-- A row that no request runs for any more: there is none, or one without a response that is too old.
abbrev pub IsFree : ℕ → KeyOf → Table → Type 0
IsFree now key table =
    (get table key ≡ none)
    ⊎ ((row : Row) × (get table key ≡ some row)
        × (row.status ≡ none)
        × (row.created_at + abandoned_seconds < now))

if_twice :
    {A : Type 0} (b : Bool) (x y z : A)
    → (if b then x else (if b then y else z)) ≡ (if b then x else z)
if_twice true x y z = refl
if_twice false x y z = refl

none_unless : {A : Type 0} (o : Option A) → not (is_some o) ≡ true → o ≡ none
none_unless none h = refl
none_unless (some a) h = absurd (ground arith)

abandoned_lem :
    (now : ℕ) (row : Row)
    → is_abandoned now (row, false) ≡ true
    → (row.status ≡ none) × (row.created_at + abandoned_seconds < now)
abandoned_lem now row old =
    let (silent, late) =
      and-eq_true (not (is_some row.status)) (ltb (row.created_at + abandoned_seconds) now) old in
    (none_unless row.status silent, ltb→lt (row.created_at + abandoned_seconds) now late)

claim-new :
    (now : ℕ) (path request_hash : String) (key : KeyOf) (table : Table)
    → get table key ≡ none
    → claim now path request_hash key table
      ≡ (put table key (new_row now path request_hash), (new_row now path request_hash, true))
unfolding claim claim_idempotency_key
claim-new now path request_hash key table gone =
    ap (λ o. claim_again now path request_hash key (claimed now path request_hash key table o)) gone

claim-abandoned :
    (now : ℕ) (path request_hash : String) (key : KeyOf) (table : Table) (row : Row)
    → get table key ≡ some row
    → is_abandoned now (row, false) ≡ true
    → claim now path request_hash key table ≡ (
      put (erase table key) key (new_row now path request_hash),
      (new_row now path request_hash, true),
    )
unfolding claim claim_idempotency_key release
claim-abandoned now path request_hash key table row found old =
    ap (λ o. claim_again now path request_hash key (claimed now path request_hash key table o))
      found
    ∙ if_true _ _ old
    ∙ ap (claimed now path request_hash key (erase table key))
        (get-erase table key key ∙ if_true _ _ (==_refl key))

claim-held :
    (now : ℕ) (path request_hash : String) (key : KeyOf) (table : Table) (row : Row)
    → get table key ≡ some row
    → is_abandoned now (row, false) ≡ false
    → claim now path request_hash key table ≡ (table, (row, false))
unfolding claim claim_idempotency_key
claim-held now path request_hash key table row found young =
    ap (λ o. claim_again now path request_hash key (claimed now path request_hash key table o))
      found
    ∙ if_false _ _ young

-- A request runs where the key is free, behind a new row for it.
abbrev pub Runs : ℕ → String → String → KeyOf → Table → Type 0
Runs now path request_hash key table =
    IsFree now key table
    × ((begin now path request_hash key table).1 ≡ run)
    × ((other : KeyOf)
        → get (begin now path request_hash key table).0 other
          ≡ (if key == other then some (new_row now path request_hash) else get table other))
    × (Distinct table → Distinct (begin now path request_hash key table).0)

-- Else nothing changes.
abbrev pub Held : ℕ → String → String → KeyOf → Table → Type 0
Held now path request_hash key table =
    (row : Row) × (get table key ≡ some row)
    × (begin now path request_hash key table ≡ (table, decide request_hash (row, false)))

pub begin_cases :
    (now : ℕ) (path request_hash : String) (key : KeyOf) (table : Table)
    → Runs now path request_hash key table ⊎ Held now path request_hash key table
unfolding begin
begin_cases now path request_hash key table = elim (Option-cases (get table key)) [
  | inl gone ↦
      let e = claim-new now path request_hash key table gone in
      inl (
        inl gone,
        ap (λ c. (decided request_hash c).1) e,
        λ other.
            ap (λ c. get (decided request_hash c).0 other) e
            ∙ get-put table key other (new_row now path request_hash),
        λ d. subst (λ c. Distinct (decided request_hash c).0) (sym e) (put-Distinct table key _ d),
      )
  | inr (row, found) ↦ elim (Bool-cases (is_abandoned now (row, false))) [
    | inl old ↦
        let e = claim-abandoned now path request_hash key table row found old in
        let (silent, late) = abandoned_lem now row old in
        inl (
          inr (row, found, silent, late),
          ap (λ c. (decided request_hash c).1) e,
          λ other.
              ap (λ c. get (decided request_hash c).0 other) e
              ∙ get-put (erase table key) key other (new_row now path request_hash)
              ∙ ap (λ o. if key == other then some (new_row now path request_hash) else o)
                  (get-erase table key other)
              ∙ if_twice (key == other) _ _ _,
          λ d.
              subst (λ c. Distinct (decided request_hash c).0) (sym e)
                (put-Distinct (erase table key) key _ (erase-Distinct table key d)),
        )
    | inr young ↦ inr (
      row,
      found,
      ap (decided request_hash) (claim-held now path request_hash key table row found young),
    )
  ]
]

pub get-finish :
    (status : ℕ) (content_type : Option String) (response : String) (key other : KeyOf)
    (table : Table) (row : Row)
    → get table key ≡ some row
    → get (finish status content_type response key table) other ≡ (
        if key == other
        then some (with_response status content_type response row)
        else get table other)
unfolding finish
get-finish status content_type response key other table row found =
    rw found (get-put table key other (with_response status content_type response row))

-- An end leaves the rows of other keys.
pub get-end_request :
    (ending : End) (key other : KeyOf) (table : Table) (row : Row)
    → get table key ≡ some row
    → (key == other) ≡ false
    → get (end_request ending key table) other ≡ get table other
unfolding end_request release
get-end_request (finished status content_type response) key other table row found differs =
    get-finish status content_type response key other table row found ∙ if_false _ _ differs
get-end_request released key other table row found differs =
    get-erase table key other ∙ if_false _ _ differs

pub get-purge :
    (now : ℕ) (table : Table) (key : KeyOf) (row : Row)
    → Distinct table
    → get table key ≡ some row
    → now ≤ row.created_at + retention_seconds
    → get (purge now table) key ≡ some row
unfolding purge
get-purge now table key row d found young =
    get-keep (λ item. not (ltb (item.1.created_at + retention_seconds) now)) table key d
    ∙ (rw found (ground arith))

finish_row-Distinct :
    (status : ℕ) (content_type : Option String) (response : String) (key : KeyOf) (table : Table)
    (row : Option Row)
    → Distinct table
    → Distinct (finish_row status content_type response key table row)
finish_row-Distinct status content_type response key table none d = d
finish_row-Distinct status content_type response key table (some row) d = put-Distinct table key _ d

pub end_request-Distinct :
    (ending : End) (key : KeyOf) (table : Table)
    → Distinct table
    → Distinct (end_request ending key table)
unfolding end_request release finish
end_request-Distinct (finished status content_type response) key table d =
    finish_row-Distinct status content_type response key table (get table key) d
end_request-Distinct released key table d = erase-Distinct table key d

pub purge-Distinct : (now : ℕ) (table : Table) → Distinct table → Distinct (purge now table)
unfolding purge
purge-Distinct now table d = keep-Distinct _ table d
