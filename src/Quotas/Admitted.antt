-- ===== src/Quotas/Admitted.antt =====
-- Rows that come and change behind a check, and the usage they leave.
use zoo.Base.{
  ℕ, ◌≡◌, sym, ◌∙◌, ap, subst, subst₂, String, string_eq, pair_eq, ◌==◌, Bool, true, false, none,
  some, [], ◌∷◌, arith, Each, Each-imp, if_false, Bool-cases, inl, inr, not, ◌&&◌, ◌||◌,
}
use zoo.Base.Dict.{Dict, get, put, Distinct}
use zoo.Labels.{Labels, Store}
use zoo.Labels
use zoo.Labels.Rows.{replaced}
use zoo.Quotas.{
  Size, Sandbox, Usage, Tables, deleting, deleted, status_beq, check, sum_usage, new_disk,
  workspace_usage, label_usage, get_label_quota, stored, in_workspace, carries, is_value, size_of,
}
use zoo.Quotas.Sums.{
  add_when, sum_usage-put_new, sum_usage-get, sum_usage-put, sum_without, sum_usage_agree,
}
use zoo.Quotas.Bounds.{
  Grows, Asked, Within, add_row-Grows, restart-Grows, check-none, check_labels-Each,
  compare_quota-Within,
}

-- The limits of a workspace, and those of the label values in a list.
abbrev pub Keeps : ℕ → String → Labels → Tables → Type 0
Keeps u workspace_id labels tables =
    Within (get tables.workspace_quotas workspace_id) (workspace_usage u workspace_id tables)
    × Each
        (λ label.
          Within (get_label_quota workspace_id label.0 label.1 tables)
            (label_usage u workspace_id label.0 label.1 tables))
        labels

-- No row of a dict has a key that it does not have.
fresh-Each :
    {A : Type 0} (rows : Dict String A) (id : String)
    → get rows id ≡ none
    → Each (λ item. (item.0 == id) ≡ false) rows
unfolding get
fresh-Each [] id h = tt
fresh-Each ((i, r) ∷ rows) id h = elim (Bool-cases (i == id)) [
  | inl same ↦ absurd (ground arith)
  | inr other ↦ (other, fresh-Each rows id (ground arith))
]

-- A new row and its labels.
unfoldable pub insert_sandbox : String → Sandbox → Labels → Tables → Tables
insert_sandbox id row labels tables = record tables {
  sandboxes = put tables.sandboxes id row;
  labels = Labels.put id labels tables.labels;
}

carries_other :
    (id : String) (labels : Labels) (store : Store) (ws key value : String)
    (item : String × Sandbox)
    → Distinct labels
    → (item.0 == id) ≡ false
    → carries (Labels.put id labels store).sandbox_labels ws key value item
      ≡ carries store.sandbox_labels ws key value item
unfolding Labels.put
carries_other id labels store ws key value (i, row) d other =
    ap
      (λ o.
        is_value o value
        && row.workspace_id == ws
        && not (status_beq row.status deleting || status_beq row.status deleted))
      (replaced id labels store.sandbox_labels i key d ∙ if_false _ _ other)

label_usage-insert_sandbox :
    (u : ℕ) (ws key value id : String) (row : Sandbox) (labels : Labels) (tables : Tables)
    → Distinct labels
    → get tables.sandboxes id ≡ none
    → label_usage u ws key value (insert_sandbox id row labels tables)
      ≡ add_when u
          (carries (Labels.put id labels tables.labels).sandbox_labels ws key value (id, row))
          row
          (label_usage u ws key value tables)
unfolding label_usage insert_sandbox
label_usage-insert_sandbox u ws key value id row labels tables d fresh =
    let after = carries (Labels.put id labels tables.labels).sandbox_labels ws key value in
    let bytes = stored 0 (tables.label_snapshot_bytes ws key value) in
    sum_usage-put_new u after bytes tables.sandboxes id row fresh
    ∙ ap (add_when u (after (id, row)) row) (
        sum_usage_agree u after (carries tables.labels.sandbox_labels ws key value) bytes
          tables.sandboxes
          (Each-imp (λ item other. carries_other id labels tables.labels ws key value item d other)
            tables.sandboxes (fresh-Each tables.sandboxes id fresh)))

-- A row of the size that check let in keeps the limits it compared.
pub insert_sandbox-Keeps :
    (u : ℕ) (ws id : String) (size : Size) (row : Sandbox) (labels : Labels) (tables : Tables)
    → Distinct labels
    → get tables.sandboxes id ≡ none
    → Asked u size (new_disk u size true) row
    → check u ws size true labels tables ≡ none
    → Keeps u ws labels (insert_sandbox id row labels tables)
unfolding insert_sandbox workspace_usage get_label_quota
insert_sandbox-Keeps u ws id size row labels tables d fresh asked h =
    let (room, each) = check-none u ws size true labels tables h in
    let disk = new_disk u size true in
    (
      subst (Within (get tables.workspace_quotas ws))
          (sym (
            sum_usage-put_new u (in_workspace ws)
              (stored (tables.profile_bytes ws) (tables.snapshot_bytes ws)) tables.sandboxes id row
              fresh))
          (compare_quota-Within (get tables.workspace_quotas ws) (workspace_usage u ws tables) _
            size disk room
            (add_row-Grows u (workspace_usage u ws tables) size disk row (in_workspace ws (id, row))
              asked)),
      Each-imp
          (λ label fits.
            subst (Within (get_label_quota ws label.0 label.1 tables))
              (sym (label_usage-insert_sandbox u ws label.0 label.1 id row labels tables d fresh))
              (compare_quota-Within (get_label_quota ws label.0 label.1 tables)
                (label_usage u ws label.0 label.1 tables) _ size disk fits
                (add_row-Grows u (label_usage u ws label.0 label.1 tables) size disk row
                  (carries (Labels.put id labels tables.labels).sandbox_labels ws label.0 label.1
                    (id, row))
                  asked)))
          labels (check_labels-Each u ws size disk labels tables each),
    )

-- A row in place of another.
unfoldable pub replace_sandbox : String → Sandbox → Tables → Tables
replace_sandbox id row tables = record tables { sandboxes = put tables.sandboxes id row }

-- What a row that takes another's place may change: it is of the same workspace, size and disk.
pub record Restarted (row new : Sandbox) : Type 0 where
  pub same_workspace : new.workspace_id ≡ row.workspace_id
  pub same_cpus : new.cpus ≡ row.cpus
  pub same_memory : new.memory_mb ≡ row.memory_mb
  pub same_disk : new.disk_gb ≡ row.disk_gb
  pub not_deleting : status_beq row.status deleting ≡ false
  pub not_deleted : status_beq row.status deleted ≡ false

selected_before :
    (selected : String × Sandbox → Bool) (u : ℕ) (bytes : Usage) (rows : Dict String Sandbox)
    (id : String) (row new : Sandbox)
    → Restarted row new
    → (selected (id, new) ≡ true → selected (id, row) ≡ true)
    → get rows id ≡ some row
    → Grows
        (sum_usage u selected bytes rows)
        (size_of row)
        0
        (sum_usage u selected bytes (put rows id new))
unfolding size_of
selected_before selected u bytes rows id row new r imp found =
    subst₂ (λ a b. Grows a (size_of row) 0 b)
      (sym (sum_usage-get u selected bytes rows id row found))
      (sym (sum_usage-put u selected bytes rows id row new found))
      (restart-Grows u (sum_without u selected bytes rows id) (size_of row) row new
        (selected (id, row)) (selected (id, new)) r.same_cpus r.same_memory r.same_disk imp)

in_workspace_before :
    (ws id : String) (row new : Sandbox)
    → Restarted row new
    → in_workspace ws (id, new) ≡ true
    → in_workspace ws (id, row) ≡ true
in_workspace_before ws id row new r h =
    let e : row.workspace_id == ws ≡ new.workspace_id == ws =
      ap (λ w. w == ws) (sym r.same_workspace) in
    rw (e, r.not_deleted) ground arith

carries_before :
    (store : Store) (ws key value id : String) (row new : Sandbox)
    → Restarted row new
    → carries store.sandbox_labels ws key value (id, new) ≡ true
    → carries store.sandbox_labels ws key value (id, row) ≡ true
carries_before store ws key value id row new r h =
    let e : row.workspace_id == ws ≡ new.workspace_id == ws =
      ap (λ w. w == ws) (sym r.same_workspace) in
    rw (e, r.not_deleted, r.not_deleting) ground arith

-- A sandbox that check lets start keeps the limits it compared.
pub replace_sandbox-Keeps :
    (u : ℕ) (ws id : String) (row new : Sandbox) (labels : Labels) (tables : Tables)
    → get tables.sandboxes id ≡ some row
    → Restarted row new
    → check u ws (size_of row) false labels tables ≡ none
    → Keeps u ws labels (replace_sandbox id new tables)
unfolding replace_sandbox workspace_usage label_usage get_label_quota
replace_sandbox-Keeps u ws id row new labels tables found r h =
    let (room, each) = check-none u ws (size_of row) false labels tables h in
    (
      compare_quota-Within (get tables.workspace_quotas ws) (workspace_usage u ws tables) _
          (size_of row) 0 room
          (selected_before (in_workspace ws) u
            (stored (tables.profile_bytes ws) (tables.snapshot_bytes ws)) tables.sandboxes id row
            new r (in_workspace_before ws id row new r) found),
      Each-imp
          (λ label fits.
            compare_quota-Within (get_label_quota ws label.0 label.1 tables)
              (label_usage u ws label.0 label.1 tables) _ (size_of row) 0 fits
              (selected_before (carries tables.labels.sandbox_labels ws label.0 label.1) u
                (stored 0 (tables.label_snapshot_bytes ws label.0 label.1)) tables.sandboxes id row
                new r (carries_before tables.labels ws label.0 label.1 id row new r) found))
          labels (check_labels-Each u ws (size_of row) 0 labels tables each),
    )
