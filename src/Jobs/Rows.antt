-- ===== src/Jobs/Rows.antt =====
-- What the statements on the `jobs` table do to the row of each id.
use zoo.Base.{
  ℕ, String, string_eq, ◌==◌, ==_iff, ◌≡◌, refl, sym, ◌∙◌, subst, Bool, true, ◌&&◌, Option, none,
  some, [], ◌∷◌, arith, if◌then◌else◌, Bool-cases, and-eq_true, eq_of_some, inl, inr,
}
use zoo.Base.Dict.{get, get-put, get-erase}
use zoo.Jobs.Table.{
  Job, JobState, Table, insert_row, update_when, update_row, is_queued, cancel_sandbox_jobs,
  cancelled_row, delete_sandbox_jobs,
}

abbrev pub updated : (JobState → Bool) → (Job → Job) → Option Job → Option Job
updated test change none = none
updated test change (some row) = some (if test row.state then change row else row)

get-update_when :
    (test : JobState → Bool) (change : Job → Job) (table : Table) (id k : String)
    (found : Option Job)
    → get table id ≡ found
    → get (update_when test change table id found) k
      ≡ (if id == k then updated test change (get table k) else get table k)
get-update_when test change table id k none e = ground (arith, ==_iff id k)
get-update_when test change table id k (some row) e =
    ground (arith, ==_iff id k, get-put table id k (change row))

-- An UPDATE by primary key changes the row of its id, if the test on the state passes, and no other.
pub get-update_row :
    (test : JobState → Bool) (change : Job → Job) (table : Table) (id k : String)
    → get (update_row test change table id) k
      ≡ (if id == k then updated test change (get table k) else get table k)
unfolding update_row
get-update_row test change table id k = get-update_when test change table id k (get table id) refl

pub get-insert_row :
    (table : Table) (id k : String) (row : Job)
    → get table id ≡ none
    → get (insert_row table id row) k ≡ (if id == k then some row else get table k)
unfolding insert_row get
get-insert_row [] id k row h = refl
get-insert_row ((i, other) ∷ table) id k row h =
    ground (arith, ==_iff id k, ==_iff i id, ==_iff i k, get-insert_row table id k row)

abbrev pub cancelled_if : ℕ → String → Option Job → Option Job
cancelled_if now sandbox_id none = none
cancelled_if now sandbox_id (some row) =
    some
      (if is_queued row.state && row.sandbox_id == sandbox_id then cancelled_row now row else row)

pub get-cancel_sandbox_jobs :
    (now : ℕ) (sandbox_id : String) (table : Table) (k : String)
    → get (cancel_sandbox_jobs now sandbox_id table) k ≡ cancelled_if now sandbox_id (get table k)
unfolding cancel_sandbox_jobs get
get-cancel_sandbox_jobs now sandbox_id [] k = refl
get-cancel_sandbox_jobs now sandbox_id ((i, row) ∷ table) k =
    ground (arith, get-cancel_sandbox_jobs now sandbox_id table k)

-- A property of every row, under its id.
abbrev pub AllRows : (String → Job → Type 0) → Table → Type 0
AllRows P table = (id : String) (row : Job) → get table id ≡ some row → P id row

updated-P :
    (P : String → Job → Type 0) (test : JobState → Bool) (change : Job → Job) (id : String)
    (found : Option Job)
    → ((row : Job) → found ≡ some row → P id row)
    → ((row : Job) → found ≡ some row → test row.state ≡ true → P id (change row))
    → (row' : Job) → updated test change found ≡ some row'
    → P id row'
updated-P P test change id none old new row' e = cc
updated-P P test change id (some row) old new row' e = elim (Bool-cases (test row.state)) [
  | inl passes ↦ subst (P id) (eq_of_some (rw passes at e)) (new row refl passes)
  | inr fails ↦ subst (P id) (eq_of_some (rw fails at e)) (old row refl)
]

pub AllRows-update_row :
    (P : String → Job → Type 0) (test : JobState → Bool) (change : Job → Job) (table : Table)
    (id : String)
    → AllRows P table
    → ((row : Job) → get table id ≡ some row → test row.state ≡ true → P id (change row))
    → AllRows P (update_row test change table id)
AllRows-update_row P test change table id old new k row' h =
    let h' = get-update_row test change table id k in
    elim (Bool-cases (id == k)) [
      | inl same ↦
          let e = (==_iff id k).0 same in
          subst (λ i. P i row') e
            (updated-P P test change id (get table id) (old id) new row' (
              subst (λ i. updated test change (get table i) ≡ some row') (sym e)
                (sym (rw same at h') ∙ h)))
      | inr other ↦ old k row' (sym (rw other at h') ∙ h)
    ]

pub AllRows-insert_row :
    (P : String → Job → Type 0) (table : Table) (id : String) (row : Job)
    → get table id ≡ none
    → AllRows P table
    → P id row
    → AllRows P (insert_row table id row)
AllRows-insert_row P table id row free old new k row' h =
    let h' = get-insert_row table id k row free in
    elim (Bool-cases (id == k)) [
      | inl same ↦
          subst (λ i. P i row') ((==_iff id k).0 same)
            (subst (P id) (eq_of_some (sym (rw same at h') ∙ h)) new)
      | inr other ↦ old k row' (sym (rw other at h') ∙ h)
    ]

cancelled-P :
    (P : String → Job → Type 0) (now : ℕ) (sandbox_id id : String) (found : Option Job)
    → ((row : Job) → found ≡ some row → P id row)
    → ((row : Job) → found ≡ some row → is_queued row.state ≡ true → P id (cancelled_row now row))
    → (row' : Job) → cancelled_if now sandbox_id found ≡ some row'
    → P id row'
cancelled-P P now sandbox_id id none old new row' e = cc
cancelled-P P now sandbox_id id (some row) old new row' e =
    elim (Bool-cases (is_queued row.state && row.sandbox_id == sandbox_id)) [
      | inl passes ↦
          subst (P id) (eq_of_some (rw passes at e))
            (new row refl (and-eq_true (is_queued row.state) _ passes).0)
      | inr fails ↦ subst (P id) (eq_of_some (rw fails at e)) (old row refl)
    ]

pub AllRows-cancel_sandbox_jobs :
    (P : String → Job → Type 0) (now : ℕ) (sandbox_id : String) (table : Table)
    → AllRows P table
    → ((id : String) (row : Job)
        → get table id ≡ some row
        → is_queued row.state ≡ true
        → P id (cancelled_row now row))
    → AllRows P (cancel_sandbox_jobs now sandbox_id table)
AllRows-cancel_sandbox_jobs P now sandbox_id table old new k row' h =
    cancelled-P P now sandbox_id k (get table k) (old k) (new k) row'
      (sym (get-cancel_sandbox_jobs now sandbox_id table k) ∙ h)

abbrev pub unless_of : String → Option Job → Option Job
unless_of sandbox_id none = none
unless_of sandbox_id (some row) = if row.sandbox_id == sandbox_id then none else some row

pub get-delete_sandbox_jobs :
    (sandbox_id : String) (table : Table) (k : String)
    → get (delete_sandbox_jobs sandbox_id table) k ≡ unless_of sandbox_id (get table k)
unfolding delete_sandbox_jobs get
get-delete_sandbox_jobs sandbox_id [] k = refl
get-delete_sandbox_jobs sandbox_id ((i, row) ∷ table) k = ground (
  arith,
  ==_iff i k,
  get-erase (delete_sandbox_jobs sandbox_id table) i k,
  get-delete_sandbox_jobs sandbox_id table k,
)

kept_row :
    (sandbox_id : String) (found : Option Job) (row : Job)
    → unless_of sandbox_id found ≡ some row
    → found ≡ some row
kept_row sandbox_id none row e = e
kept_row sandbox_id (some other) row e = ground arith

pub AllRows-delete_sandbox_jobs :
    (P : String → Job → Type 0) (sandbox_id : String) (table : Table)
    → AllRows P table
    → AllRows P (delete_sandbox_jobs sandbox_id table)
AllRows-delete_sandbox_jobs P sandbox_id table old k row h =
    old k row
      (kept_row sandbox_id (get table k) row (sym (get-delete_sandbox_jobs sandbox_id table k) ∙ h))
