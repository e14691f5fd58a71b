-- ===== src/Pool/Sized.antt =====
-- How many sandboxes a refill starts for a pool: what it lacks of its size.
use zoo.Base.{
  ℕ, ◌+◌, max, String, string_eq, nat_eq, pair_eq, ◌==◌, ==_iff, pair_beq, false, ◌≡◌, refl, sym,
  ◌∙◌, ap, ap₂, Bool, not, ◌&&◌, none, List, [], ◌∷◌, ◌++◌, append-nil, append_assoc, arith,
  if◌then◌else◌, if_true, if_false, Bool-cases, inl, inr, keep, any,
}
use zoo.Base.Dict.{Dict, get, put, get-put, Distinct, put-Distinct}
use zoo.Pool.{Setting, PoolSandbox, Table, PoolId, pool_id, or_zero, kinds}
use zoo.Pool.Demand.{or_nil, demand, by_kind, quantiles, list_recent_creates}
use zoo.Pool.Filling.{
  Seen, discard_ids, fill_pools, raise_sizes, group, stays, discard_pools, refill,
}
use zoo.Pool.Counts.{
  count_starts, count_starts-append, count_starts-discard_ids, count_starts-discard_pools, lacks,
  count_starts-fill_pools,
}

-- The rows of a pool that stay.
abbrev pub members_of : (String × PoolSandbox → Bool) → PoolId → Table → Table
members_of p pool rows =
    keep (λ (m : String × PoolSandbox). p m && pool_id (m.1).kind (m.1).server_id == pool) rows

get-group :
    (p : String × PoolSandbox → Bool) (pool : PoolId) (rows : Table) (pools : Dict PoolId Table)
    → or_nil (get (group p rows pools) pool) ≡ or_nil (get pools pool) ++ members_of p pool rows
unfolding group keep
get-group p pool [] pools = sym (append-nil (or_nil (get pools pool)))
get-group p pool ((id, row) ∷ rows) pools =
    let key : PoolId = pool_id row.kind row.server_id in
    let joined = put pools key (or_nil (get pools key) ++ (id, row) ∷ []) in
    elim (Bool-cases (p (id, row))) [
      | inr gone ↦ rw gone (get-group p pool rows pools)
      | inl kept ↦ elim (Bool-cases (key == pool)) [
        | inl same ↦
            let e : key ≡ pool = (==_iff key pool).0 same in
            let there : or_nil (get joined pool) ≡ or_nil (get pools pool) ++ (id, row) ∷ [] =
              ap or_nil (
                get-put pools key pool (or_nil (get pools key) ++ (id, row) ∷ [])
                ∙ if_true _ _ same)
              ∙ ap (λ k. or_nil (get pools k) ++ (id, row) ∷ []) e in
            rw (kept, same)
              (get-group p pool rows joined
                ∙ ap (λ xs. xs ++ members_of p pool rows) there
                ∙ append_assoc (or_nil (get pools pool)) ((id, row) ∷ []) (members_of p pool rows))
        | inr other ↦
            let there : or_nil (get joined pool) ≡ or_nil (get pools pool) = ap or_nil (
              get-put pools key pool (or_nil (get pools key) ++ (id, row) ∷ [])
              ∙ if_false _ _ other) in
            rw (kept, other)
              (get-group p pool rows joined ∙ ap (λ xs. xs ++ members_of p pool rows) there)
      ]
    ]

-- What recent creates ask of a pool: only the pools of the installation itself.
abbrev pub local_demand : PoolId → Dict String ℕ → ℕ
local_demand pool demands = if pool.1 == "local" then or_zero (get demands pool.0) else 0

demand_local :
    (server kind : String) (demands : Dict String ℕ)
    → server ≡ "local"
    → local_demand (kind, server) demands ≡ or_zero (get demands kind)
demand_local server kind demands e = if_true _ _ ((==_iff server "local").1 e)

other_kind :
    (own kind server : String)
    → server ≡ "local"
    → pair_beq (own, "local") (kind, server) ≡ false
    → (own == kind) ≡ false
other_kind own kind server e h = ground (arith, ==_iff own kind, ==_iff "local" server)

get-raise_sizes :
    (demands : Dict String ℕ) (sizes : Dict PoolId ℕ) (kind server : String)
    → Distinct demands
    → or_zero (get (raise_sizes demands sizes) (kind, server))
      ≡ max (or_zero (get sizes (kind, server))) (local_demand (kind, server) demands)
unfolding raise_sizes get
get-raise_sizes [] sizes kind server d = ground arith
get-raise_sizes ((own, wanted) ∷ demands) sizes kind server d =
    let key : PoolId = (own, "local") in
    let raised = max (or_zero (get sizes key)) wanted in
    let rest = get-raise_sizes demands (put sizes key raised) kind server d.1 in
    let here = get-put sizes key (kind, server) raised in
    elim (Bool-cases (key == (kind, server))) [
      | inl same ↦
          let e : key ≡ (kind, server) = (==_iff key (kind, server)).0 same in
          let ek : own ≡ kind = ap (λ (p : PoolId). p.0) e in
          let es : "local" ≡ server = ap (λ (p : PoolId). p.1) e in
          let first : or_zero (get (put sizes key raised) (kind, server))
              ≡ max (or_zero (get sizes (kind, server))) wanted =
            ap or_zero (here ∙ if_true _ _ same) ∙ ap (λ p. max (or_zero (get sizes p)) wanted) e in
          let free : or_zero (get demands kind) ≡ 0 =
            ap (λ k. or_zero (get demands k)) (sym ek) ∙ ap or_zero d.0 in
          rw ((==_iff own kind).1 ek, (==_iff server "local").1 (sym es))
            (omega (arith, rest, first, demand_local server kind demands (sym es), free))
      | inr other ↦
          let first : or_zero (get (put sizes key raised) (kind, server))
              ≡ or_zero (get sizes (kind, server)) =
            ap or_zero (here ∙ if_false _ _ other) in
          elim (Bool-cases (server == "local")) [
            | inr remote ↦ rw remote (rest ∙ ap₂ max first (if_false _ _ remote))
            | inl local ↦
                let es : server ≡ "local" = (==_iff server "local").0 local in
                let apart : (own == kind) ≡ false = other_kind own kind server es other in
                rw (local, apart) (rest ∙ ap₂ max first (if_true _ _ local))
          ]
    ]

raise_sizes-Distinct :
    (demands : Dict String ℕ) (sizes : Dict PoolId ℕ)
    → Distinct sizes
    → Distinct (raise_sizes demands sizes)
unfolding raise_sizes
raise_sizes-Distinct [] sizes d = d
raise_sizes-Distinct ((own, wanted) ∷ demands) sizes d =
    raise_sizes-Distinct demands _ (put-Distinct sizes (own, "local") _ d)

by_kind-Distinct :
    (rows : Dict (String × ℕ) ℕ) (counts : Dict String (List ℕ))
    → Distinct counts
    → Distinct (by_kind rows counts)
unfolding by_kind
by_kind-Distinct [] counts d = d
by_kind-Distinct (((kind, bucket), creates) ∷ rows) counts d =
    elim (Bool-cases (any (λ own. kind == own) kinds)) [
      | inl known ↦ rw known (by_kind-Distinct rows _ (put-Distinct counts kind _ d))
      | inr other ↦ rw other (by_kind-Distinct rows counts d)
    ]

quantiles-none :
    (counts : Dict String (List ℕ)) (kind : String)
    → get counts kind ≡ none
    → get (quantiles counts) kind ≡ none
unfolding get
quantiles-none [] kind h = refl
quantiles-none ((own, found) ∷ counts) kind h = ground (arith, quantiles-none counts kind)

quantiles-Distinct : (counts : Dict String (List ℕ)) → Distinct counts → Distinct (quantiles counts)
quantiles-Distinct [] d = tt
quantiles-Distinct ((own, found) ∷ counts) d =
    (quantiles-none counts own d.0, quantiles-Distinct counts d.1)

demand-Distinct : (now : ℕ) (created : List (String × ℕ)) → Distinct (demand now created)
unfolding demand
demand-Distinct now created =
    quantiles-Distinct _ (by_kind-Distinct (list_recent_creates now created) [] tt)

-- Where no pool is set twice, a refill starts as many sandboxes of each pool as its rows that stay are fewer than its size, and none
-- where one of them failed, its server is gone or the guest is not ready: the size is the greater of the
-- configured one and, in the installation's own pools, what recent creates ask for.
pub refill_starts :
    (env : Setting) (boots : String → Bool) (now : ℕ) (seen : Seen) (kind server : String)
    → Distinct seen.settings
    → let pool : PoolId = (kind, server) in
      count_starts pool (refill env boots now seen)
      ≡ lacks env seen.servers pool
          (max (or_zero (get seen.settings pool)) (local_demand pool (demand now seen.created)))
          (members_of (stays env boots now) pool seen.rows)
unfolding refill get
refill_starts env boots now seen kind server d =
    let pool : PoolId = (kind, server) in
    let p = stays env boots now in
    let demands = demand now seen.created in
    let sizes = raise_sizes demands seen.settings in
    let pools = group p seen.rows [] in
    let filled = fill_pools env seen.servers sizes pools in
    let strays = keep (λ member. not (p member)) seen.rows in
    count_starts-append pool (discard_ids strays) (filled.0 ++ discard_pools boots filled.1)
    ∙ ap₂ (λ a b. a + b) (count_starts-discard_ids pool strays)
        (count_starts-append pool filled.0 (discard_pools boots filled.1))
    ∙ ap (λ n. 0 + (count_starts pool filled.0 + n))
        (count_starts-discard_pools pool boots filled.1)
    ∙ ap (λ n. 0 + (n + 0))
        (count_starts-fill_pools env seen.servers pool sizes pools
          (raise_sizes-Distinct demands seen.settings d))
    ∙ omega arith
    ∙ ap₂ (λ size members. lacks env seen.servers pool size members)
        (get-raise_sizes demands seen.settings kind server (demand-Distinct now seen.created))
        (get-group p pool seen.rows [])
