-- ===== src/Quotas/Refusals.antt =====
-- What a refusal says is so: the limit that it names would be passed.
use zoo.Base.{
  ℕ, ◌+◌, ◌*◌, ◌<◌, ◌≡◌, refl, subst, String, string_eq, pair_eq, ◌==◌, ==_refl, Bool, true, Option,
  none, some, [], ◌∷◌, arith, any, ltb→lt, ◌&&◌, Option-cases, inl, inr, eq_of_some,
}
use zoo.Base.Dict.{get}
use zoo.Labels.{Labels}
use zoo.Quotas.{
  Size, Usage, Quota, Resource, running_sandboxes, cpu, memory, storage, Tables, Refusal,
  of_workspace, of_label, passes, in_bytes, compare, compare_quota, check, check_labels, new_disk,
  workspace_usage, label_usage, get_label_quota, storage_bytes, gb,
}

abbrev pub limit_of : Quota → Resource → Option ℕ
limit_of quota running_sandboxes = quota.max_running_sandboxes
limit_of quota cpu = quota.max_cpus
limit_of quota memory = quota.max_memory_mb
limit_of quota storage = in_bytes quota.max_storage_gb

abbrev pub wanted : Usage → Size → ℕ → Resource → ℕ
wanted used size disk running_sandboxes = used.running + 1
wanted used size disk cpu = used.cpus + size.cpus
wanted used size disk memory = used.memory_mb + size.memory_mb
wanted used size disk storage = storage_bytes used + disk * gb

-- There is a limit on the resource, and what is wanted is above it.
abbrev pub Overruns : Quota → Usage → Size → ℕ → Resource → Type 0
Overruns quota used size disk resource =
    (limit : ℕ) × (limit_of quota resource ≡ some limit) × (limit < wanted used size disk resource)

passes-some :
    (limit : Option ℕ) (n : ℕ)
    → passes limit n ≡ true
    → (bound : ℕ) × (limit ≡ some bound) × (bound < n)
passes-some none n h = absurd (ground arith)
passes-some (some bound) n h = (bound, refl, ltb→lt bound n h)

compare-some :
    (quota : Quota) (used : Usage) (size : Size) (disk : ℕ) (resource : Resource)
    → compare quota used size disk ≡ some resource
    → passes (limit_of quota resource) (wanted used size disk resource) ≡ true
unfolding compare
compare-some quota used size disk running_sandboxes h = ground arith
compare-some quota used size disk cpu h = ground arith
compare-some quota used size disk memory h = ground arith
compare-some quota used size disk storage h = ground arith

compare_quota-some :
    (found : Option Quota) (used : Usage) (size : Size) (disk : ℕ) (resource : Resource)
    → compare_quota found used size disk ≡ some resource
    → (quota : Quota) × (found ≡ some quota) × Overruns quota used size disk resource
compare_quota-some none used size disk resource h = cc
compare_quota-some (some quota) used size disk resource h =
    (quota, refl, passes-some _ _ (compare-some quota used size disk resource h))

abbrev is_label : String → String → String × String → Bool
is_label key value label = label.0 == key && label.1 == value

-- The quota that a refusal names is there, and the resource that it names would overrun it.
abbrev pub Justified : ℕ → String → Size → ℕ → Labels → Tables → Refusal → Type 0
Justified u ws size disk labels tables (of_workspace resource) =
    (quota : Quota) × (get tables.workspace_quotas ws ≡ some quota)
    × Overruns quota (workspace_usage u ws tables) size disk resource
Justified u ws size disk labels tables (of_label key value resource) =
    (any (is_label key value) labels ≡ true)
    × ((quota : Quota) × (get_label_quota ws key value tables ≡ some quota)
        × Overruns quota (label_usage u ws key value tables) size disk resource)

Justified-later :
    (u : ℕ) (ws : String) (size : Size) (disk : ℕ) (label : String × String) (labels : Labels)
    (tables : Tables) (refusal : Refusal)
    → Justified u ws size disk labels tables refusal
    → Justified u ws size disk (label ∷ labels) tables refusal
unfolding any
Justified-later u ws size disk label labels tables (of_workspace resource) j = j
Justified-later u ws size disk label labels tables (of_label key value resource) (among, rest) =
    (ground arith, rest)

check_labels-Justified :
    (u : ℕ) (ws : String) (size : Size) (disk : ℕ) (labels : Labels) (tables : Tables)
    (refusal : Refusal)
    → check_labels u ws size disk labels tables ≡ some refusal
    → Justified u ws size disk labels tables refusal
unfolding check_labels any
check_labels-Justified u ws size disk [] tables refusal h = cc
check_labels-Justified u ws size disk ((key, value) ∷ labels) tables refusal h =
    elim (Option-cases (
      compare_quota (get_label_quota ws key value tables) (label_usage u ws key value tables) size
        disk)) [
          | inl fits ↦
              Justified-later u ws size disk (key, value) labels tables refusal
                (check_labels-Justified u ws size disk labels tables refusal (rw fits at h))
          | inr (resource, over) ↦
              subst (Justified u ws size disk ((key, value) ∷ labels) tables)
                (eq_of_some (rw over at h))
                (
                  rw (==_refl key, ==_refl value) refl,
                  compare_quota-some _ _ size disk resource over,
                )
        ]

-- Where check refuses, the quota that it names is that of the workspace, or of one of the sandbox's labels, and the
-- resource that it names has a limit there, above which one more sandbox of the size would use.
pub check-Justified :
    (u : ℕ) (ws : String) (size : Size) (new : Bool) (labels : Labels) (tables : Tables)
    (refusal : Refusal)
    → check u ws size new labels tables ≡ some refusal
    → Justified u ws size (new_disk u size new) labels tables refusal
unfolding check
check-Justified u ws size new labels tables refusal h =
    let disk = new_disk u size new in
    elim (Option-cases
      (compare_quota (get tables.workspace_quotas ws) (workspace_usage u ws tables) size disk)) [
        | inl fits ↦ check_labels-Justified u ws size disk labels tables refusal (rw fits at h)
        | inr (resource, over) ↦
            subst (Justified u ws size disk labels tables) (eq_of_some (rw over at h))
              (compare_quota-some _ _ size disk resource over)
      ]
