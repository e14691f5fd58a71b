-- ===== src/Writer/Totals.antt =====
-- The quantities of usage: what a batch adds to each row of the table.
use zoo.Base.{
  ℕ, ◌+◌, String, string_eq, nat_eq, pair_eq, ◌==◌, ==_iff, ◌≡◌, refl, sym, ◌∙◌, ap, Bool, ◌&&◌,
  Option, none, some, List, [], ◌∷◌, ◌++◌, arith, Bool-cases, inl, inr, if◌then◌else◌,
}
use zoo.Base.Dict.{Dict, get, put, get-put, Distinct, put-Distinct}
use zoo.Writer.Statements.{
  Entry, start_row, finish_row, touch_row, key_touch_row, audit_row, usage_row, UsageKey, Database,
  plus, or_zero, group_usage, upsert_usage, persist,
}

-- What the entries of a key add up to, where its workspace is there; `none` where there are no such entries.
unfoldable pub total : (String → Bool) → UsageKey → List Entry → Option ℕ
total is_workspace key [] = none
total is_workspace key (usage_row workspace_id sandbox_id metric period_start quantity ∷ entries) =
    let rest = total is_workspace key entries in
    if is_workspace workspace_id && (((workspace_id, sandbox_id), metric), period_start) == key
    then plus (some quantity) rest
    else rest
total is_workspace key (start_row _ _ _ _ _ _ ∷ entries) = total is_workspace key entries
total is_workspace key (finish_row _ _ _ _ _ ∷ entries) = total is_workspace key entries
total is_workspace key (touch_row _ _ ∷ entries) = total is_workspace key entries
total is_workspace key (key_touch_row _ _ ∷ entries) = total is_workspace key entries
total is_workspace key (audit_row _ _ _ _ _ _ ∷ entries) = total is_workspace key entries

pub plus_assoc : (a b c : Option ℕ) → plus (plus a b) c ≡ plus a (plus b c)
plus_assoc none b c = refl
plus_assoc (some a) none c = refl
plus_assoc (some a) (some b) none = refl
plus_assoc (some a) (some b) (some c) = ap some (omega arith)

pub plus-none : (a : Option ℕ) → plus a none ≡ a
plus-none none = refl
plus-none (some a) = refl

plus-some : (a : Option ℕ) (n : ℕ) → plus a (some n) ≡ some (or_zero a + n)
plus-some none n = ap some (omega arith)
plus-some (some a) n = refl

pub total-append :
    (is_workspace : String → Bool) (key : UsageKey) (xs ys : List Entry)
    → total is_workspace key (xs ++ ys)
      ≡ plus (total is_workspace key xs) (total is_workspace key ys)
unfolding total
total-append is key [] ys = refl
total-append is key (usage_row w s m p q ∷ xs) ys =
    elim (Bool-cases (is w && (((w, s), m), p) == key)) [
      | inl own ↦ rw own (
          ap (plus (some q)) (total-append is key xs ys)
          ∙ sym (plus_assoc (some q) (total is key xs) (total is key ys)))
      | inr other ↦ rw other (total-append is key xs ys)
    ]
total-append is key (start_row _ _ _ _ _ _ ∷ xs) ys = total-append is key xs ys
total-append is key (finish_row _ _ _ _ _ ∷ xs) ys = total-append is key xs ys
total-append is key (touch_row _ _ ∷ xs) ys = total-append is key xs ys
total-append is key (key_touch_row _ _ ∷ xs) ys = total-append is key xs ys
total-append is key (audit_row _ _ _ _ _ _ ∷ xs) ys = total-append is key xs ys

-- One more quantity in a table.
get-added :
    (table : Dict UsageKey ℕ) (own key : UsageKey) (n : ℕ)
    → get (put table own (or_zero (get table own) + n)) key
      ≡ (if own == key then plus (get table key) (some n) else get table key)
get-added table own key n = elim (Bool-cases (own == key)) [
  | inl same ↦
      let e : own ≡ key = (==_iff own key).0 same in
      get-put table own key _
      ∙ (rw same (ap (λ k. some (or_zero (get table k) + n)) e ∙ sym (plus-some (get table key) n)))
  | inr other ↦ get-put table own key _ ∙ (rw other refl)
]

get-group_usage :
    (is_workspace : String → Bool) (entries : List Entry) (groups : Dict UsageKey ℕ)
    (key : UsageKey)
    → get (group_usage is_workspace entries groups) key
      ≡ plus (get groups key) (total is_workspace key entries)
unfolding group_usage total
get-group_usage is [] groups key = sym (plus-none (get groups key))
get-group_usage is (usage_row w s m p q ∷ entries) groups key = elim (Bool-cases (is w)) [
  | inl there ↦
      let own : UsageKey = (((w, s), m), p) in
      elim (Bool-cases (own == key)) [
        | inl same ↦
            rw (there, same)
              (get-group_usage is entries (put groups own (or_zero (get groups own) + q)) key
                ∙ ap (λ o. plus o (total is key entries))
                    (get-added groups own key q ∙ (rw same refl))
                ∙ plus_assoc (get groups key) (some q) (total is key entries))
        | inr other ↦
            rw (there, other)
              (get-group_usage is entries (put groups own (or_zero (get groups own) + q)) key
                ∙ ap (λ o. plus o (total is key entries))
                    (get-added groups own key q ∙ (rw other refl)))
      ]
  | inr gone ↦ rw gone (get-group_usage is entries groups key)
]
get-group_usage is (start_row _ _ _ _ _ _ ∷ entries) groups key =
    get-group_usage is entries groups key
get-group_usage is (finish_row _ _ _ _ _ ∷ entries) groups key =
    get-group_usage is entries groups key
get-group_usage is (touch_row _ _ ∷ entries) groups key = get-group_usage is entries groups key
get-group_usage is (key_touch_row _ _ ∷ entries) groups key = get-group_usage is entries groups key
get-group_usage is (audit_row _ _ _ _ _ _ ∷ entries) groups key =
    get-group_usage is entries groups key

group_usage-Distinct :
    (is_workspace : String → Bool) (entries : List Entry) (groups : Dict UsageKey ℕ)
    → Distinct groups
    → Distinct (group_usage is_workspace entries groups)
unfolding group_usage
group_usage-Distinct is [] groups d = d
group_usage-Distinct is (usage_row w s m p q ∷ entries) groups d = elim (Bool-cases (is w)) [
  | inl there ↦ rw there (
      group_usage-Distinct is entries
        (put groups (((w, s), m), p) (or_zero (get groups (((w, s), m), p)) + q))
        (put-Distinct groups (((w, s), m), p) _ d))
  | inr gone ↦ rw gone (group_usage-Distinct is entries groups d)
]
group_usage-Distinct is (start_row _ _ _ _ _ _ ∷ entries) groups d =
    group_usage-Distinct is entries groups d
group_usage-Distinct is (finish_row _ _ _ _ _ ∷ entries) groups d =
    group_usage-Distinct is entries groups d
group_usage-Distinct is (touch_row _ _ ∷ entries) groups d =
    group_usage-Distinct is entries groups d
group_usage-Distinct is (key_touch_row _ _ ∷ entries) groups d =
    group_usage-Distinct is entries groups d
group_usage-Distinct is (audit_row _ _ _ _ _ _ ∷ entries) groups d =
    group_usage-Distinct is entries groups d

get-upsert_usage :
    (groups table : Dict UsageKey ℕ) (key : UsageKey)
    → Distinct groups
    → get (upsert_usage groups table) key ≡ plus (get table key) (get groups key)
unfolding upsert_usage get
get-upsert_usage [] table key d = sym (plus-none (get table key))
get-upsert_usage ((own, n) ∷ groups) table key d = elim (Bool-cases (own == key)) [
  | inl same ↦
      let e : own ≡ key = (==_iff own key).0 same in
      get-upsert_usage groups (put table own (or_zero (get table own) + n)) key d.1
      ∙ (rw (same, sym (ap (get groups) e), d.0)
          (plus-none _ ∙ get-added table own key n ∙ (rw same refl)))
  | inr other ↦
      get-upsert_usage groups (put table own (or_zero (get table own) + n)) key d.1
      ∙ (rw other (ap (λ o. plus o (get groups key)) (get-added table own key n ∙ (rw other refl))))
]

get-group_usage-empty :
    (is_workspace : String → Bool) (entries : List Entry) (key : UsageKey)
    → get (group_usage is_workspace entries []) key ≡ total is_workspace key entries
unfolding get
get-group_usage-empty is entries key = get-group_usage is entries [] key

-- A transaction adds to the quantity of each key what its entries add up to.
pub usage-persist :
    (entries : List Entry) (db : Database) (key : UsageKey)
    → get (persist entries db).usage key
      ≡ plus (get db.usage key) (total db.is_workspace key entries)
unfolding persist
usage-persist entries db key =
    get-upsert_usage (group_usage db.is_workspace entries []) db.usage key
      (group_usage-Distinct db.is_workspace entries [] tt)
    ∙ ap (plus (get db.usage key)) (get-group_usage-empty db.is_workspace entries key)
