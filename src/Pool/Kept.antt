-- ===== src/Pool/Kept.antt =====
-- What an update, a removal, a hand-over and an insertion keep of the pool.
use zoo.Base.{
  ℕ, ◌+◌, ◌≤◌, String, string_eq, pair_eq, ◌==◌, ==_iff, ◌≡◌, sym, ◌∙◌, ap, true, Option, none,
  some, ◌∷◌, arith, is_some, Bool-cases, inl, inr, if◌then◌else◌, if_true, if_false, eq_of_some,
}
use zoo.Base.Dict.{Dict, get, put, erase, get-put, erase-Distinct, put-Distinct}
use zoo.Pool.{
  Setting, World, Boot, begun, ran, PoolSandbox, Table, PoolId, pool_id, or_zero, is_idle,
  is_failed, hand_over, update_row, new_pool_sandbox, start,
}
use zoo.Pool.Rows.{
  differs, update_row-Distinct, update_row_cases, update_row-none, get-erase-some, get-erase-none,
}
use zoo.Pool.Steps.{IsSingle, count_of}

pub update-IsSingle :
    (w : World) (id : String) (f : PoolSandbox → PoolSandbox) (threads : Dict String Boot)
    → IsSingle w
    → ((row : PoolSandbox)
        → get w.table id ≡ some row
        → is_failed row.status ≡ true
        → is_failed (f row).status ≡ true)
    → ((row : PoolSandbox)
        → get w.table id ≡ some row
        → is_idle (f row).status ≡ true
        → is_some (f row).runtime_id ≡ true)
    → ((other : String) (row : PoolSandbox)
        → get threads other ≡ some ran
        → get (update_row id f w.table) other ≡ some row
        → is_some row.runtime_id ≡ true)
    → IsSingle (record w { table = update_row id f w.table; threads = threads })
update-IsSingle w id f threads h fails idles rans = record {
  keyed = update_row-Distinct id f w.table h.keyed;
  once = h.once;
  taken = λ other row out. update_row-none id other f w.table (h.taken other row out);
  alive = h.alive;
  up = h.up;
  gone = λ other row old out found.
      let (before, there, e) = update_row_cases id other f w.table row found in
      elim (Bool-cases (id == other)) [
        | inl same ↦
            let e' : row ≡ f before = e ∙ if_true _ _ same in
            let there' : get w.table id ≡ some before =
              ap (get w.table) ((==_iff id other).0 same) ∙ there in
            ap (λ r. is_failed r.status) e'
            ∙ fails before there' (h.gone other before old out there)
        | inr apart ↦
            ap (λ r. is_failed r.status) (e ∙ if_false _ _ apart)
            ∙ h.gone other before old out there
      ];
  idle_up = λ other row found waits.
      let (before, there, e) = update_row_cases id other f w.table row found in
      elim (Bool-cases (id == other)) [
        | inl same ↦
            let e' : row ≡ f before = e ∙ if_true _ _ same in
            let there' : get w.table id ≡ some before =
              ap (get w.table) ((==_iff id other).0 same) ∙ there in
            ap (λ r. is_some r.runtime_id) e'
            ∙ idles before there' (sym (ap (λ r. is_idle r.status) e') ∙ waits)
        | inr apart ↦
            let e' : row ≡ before = e ∙ if_false _ _ apart in
            ap (λ r. is_some r.runtime_id) e'
            ∙ h.idle_up other before there (sym (ap (λ r. is_idle r.status) e') ∙ waits)
      ];
  ran_up = rans;
  counts = h.counts;
}

pub remove-IsSingle :
    (w : World) (id : String) (row : PoolSandbox)
    → IsSingle w
    → get w.handed id ≡ none
    → ((r : PoolSandbox) → get w.table id ≡ some r → is_failed r.status ≡ true)
    → IsSingle (record w { removed = (id, row) ∷ w.removed })
unfolding get
remove-IsSingle w id row h kept fails = record {
  keyed = h.keyed;
  once = h.once;
  taken = h.taken;
  alive = λ other r out. elim (Bool-cases (id == other)) [
    | inl same ↦ absurd (differs w.handed id other r kept out same)
    | inr apart ↦ if_false _ _ apart ∙ h.alive other r out
  ];
  up = h.up;
  gone = λ other r old out found. elim (Bool-cases (id == other)) [
    | inl same ↦ fails r (ap (get w.table) ((==_iff id other).0 same) ∙ found)
    | inr apart ↦ h.gone other r old (sym (if_false _ _ apart) ∙ out) found
  ];
  idle_up = h.idle_up;
  ran_up = h.ran_up;
  counts = h.counts;
}

pub erase-IsSingle :
    (w : World) (id : String) → IsSingle w → IsSingle (record w { table = erase w.table id })
erase-IsSingle w id h = record {
  keyed = erase-Distinct w.table id h.keyed;
  once = h.once;
  taken = λ other row out. get-erase-none w.table id other (h.taken other row out);
  alive = h.alive;
  up = h.up;
  gone = λ other row old out found.
      h.gone other row old out (get-erase-some w.table id other row found);
  idle_up = λ other row found. h.idle_up other row (get-erase-some w.table id other row found);
  ran_up = λ other row up found. h.ran_up other row up (get-erase-some w.table id other row found);
  counts = h.counts;
}

count_step :
    (pool other : PoolId) (row : PoolSandbox) (id : String) (claimed : Dict PoolId ℕ)
    (table : Table)
    → pool ≡ pool_id row.kind row.server_id
    → or_zero (get claimed other) ≤ count_of other table
    → or_zero (get (put claimed pool (or_zero (get claimed pool) + 1)) other)
      ≤ count_of other ((id, row) ∷ table)
unfolding count_of
count_step pool other row id claimed table e h = elim (Bool-cases (pool == other)) [
  | inl same ↦
      let e' : pool ≡ other = (==_iff pool other).0 same in
      let own : (other == pool_id row.kind row.server_id) ≡ true =
        (==_iff other (pool_id row.kind row.server_id)).1 (sym e' ∙ e) in
      rw (get-put claimed pool other (or_zero (get claimed pool) + 1), same, own, e')
        (omega (arith, h))
  | inr apart ↦
      rw (get-put claimed pool other (or_zero (get claimed pool) + 1), apart) (omega (arith, h))
]

pub hand_over-IsSingle :
    (w : World) (pool : PoolId) (id : String) (row : PoolSandbox)
    → IsSingle w
    → get w.table id ≡ none
    → get w.handed id ≡ none
    → get w.removed id ≡ none
    → is_idle row.status ≡ true
    → is_some row.runtime_id ≡ true
    → pool ≡ pool_id row.kind row.server_id
    → IsSingle (hand_over pool (some (id, row)) w)
unfolding get
hand_over-IsSingle w pool id row h free new alive waits runs of_pool = record {
  keyed = h.keyed;
  once = (new, h.once);
  taken = λ other r out. elim (Bool-cases (id == other)) [
    | inl same ↦ ap (get w.table) (sym ((==_iff id other).0 same)) ∙ free
    | inr apart ↦ h.taken other r (sym (if_false _ _ apart) ∙ out)
  ];
  alive = λ other r out. elim (Bool-cases (id == other)) [
    | inl same ↦ ap (get w.removed) (sym ((==_iff id other).0 same)) ∙ alive
    | inr apart ↦ h.alive other r (sym (if_false _ _ apart) ∙ out)
  ];
  up = λ other r out. elim (Bool-cases (id == other)) [
    | inl same ↦
        let e : row ≡ r = eq_of_some (sym (if_true _ _ same) ∙ out) in
        (sym (ap (λ x. is_idle x.status) e) ∙ waits, sym (ap (λ x. is_some x.runtime_id) e) ∙ runs)
    | inr apart ↦ h.up other r (sym (if_false _ _ apart) ∙ out)
  ];
  gone = h.gone;
  idle_up = h.idle_up;
  ran_up = h.ran_up;
  counts = λ other. count_step pool other row id w.claimed w.handed of_pool (h.counts other);
}

-- A row behind an insert is the new one or one from before.
put_cases :
    (table : Table) (id other : String) (new row : PoolSandbox)
    → get (put table id new) other ≡ some row
    → (if id == other then some new else get table other) ≡ some row
put_cases table id other new row found = sym (get-put table id other new) ∙ found

pub start-IsSingle :
    (env : Setting) (now : ℕ) (id kind : String) (server_id : Option String) (w : World)
    → IsSingle w
    → get w.handed id ≡ none
    → get w.removed id ≡ none
    → IsSingle (start env now id kind server_id w)
unfolding start
start-IsSingle env now id kind server_id w h new alive =
    let row : PoolSandbox = new_pool_sandbox env now id kind server_id in
    record {
      keyed = put-Distinct w.table id row h.keyed;
      once = h.once;
      taken = λ other r out. elim (Bool-cases (id == other)) [
        | inl same ↦ absurd (differs w.handed id other r new out same)
        | inr apart ↦ get-put w.table id other row ∙ if_false _ _ apart ∙ h.taken other r out
      ];
      alive = h.alive;
      up = h.up;
      gone = λ other r old out found. elim (Bool-cases (id == other)) [
        | inl same ↦ absurd (differs w.removed id other old alive out same)
        | inr apart ↦
            h.gone other r old out
              (sym (if_false _ _ apart) ∙ put_cases w.table id other row r found)
      ];
      idle_up = λ other r found waits. elim (Bool-cases (id == other)) [
        | inl same ↦
            let e : row ≡ r =
              eq_of_some (sym (if_true _ _ same) ∙ put_cases w.table id other row r found) in
            absurd (cc (ap (λ x. is_idle x.status) e, waits))
        | inr apart ↦
            h.idle_up other r (sym (if_false _ _ apart) ∙ put_cases w.table id other row r found)
              waits
      ];
      ran_up = λ other r runs found. elim (Bool-cases (id == other)) [
        | inl same ↦
            let e : some begun ≡ some ran =
              sym (get-put w.threads id other begun ∙ if_true _ _ same) ∙ runs in
            absurd (cc e)
        | inr apart ↦
            h.ran_up other r (sym (get-put w.threads id other begun ∙ if_false _ _ apart) ∙ runs)
              (sym (if_false _ _ apart) ∙ put_cases w.table id other row r found)
      ];
      counts = h.counts;
    }
