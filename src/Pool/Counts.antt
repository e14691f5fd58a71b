-- ===== src/Pool/Counts.antt =====
-- How many sandboxes the parts of a refill start for a pool.
use zoo.Base.{
  ℕ, zero, suc, ◌+◌, ◌-◌, String, string_eq, nat_eq, pair_eq, ◌==◌, ==_iff, ◌≡◌, refl, sym, ◌∙◌, ap,
  ap₂, Bool, none, List, [], ◌∷◌, ◌++◌, arith, if◌then◌else◌, if_true, if_false, Bool-cases, inl,
  inr, keep, length,
}
use zoo.Base.Dict.{Dict, get, erase, get-erase, Distinct}
use zoo.Pool.{Setting, Table, PoolId, or_zero}
use zoo.Pool.Demand.{or_nil}
use zoo.Pool.Filling.{
  Action, discards, starts, discard_ids, start_all, server_of, is_held, fill_pool, fill_pools,
  discard_pools,
}

-- How many sandboxes the actions start for a pool.
unfoldable pub count_starts : PoolId → List Action → ℕ
count_starts pool [] = 0
count_starts pool (discards id ∷ actions) = count_starts pool actions
count_starts pool (starts own ∷ actions) =
    (if own == pool then 1 else 0) + count_starts pool actions

pub count_starts-append :
    (pool : PoolId) (xs ys : List Action)
    → count_starts pool (xs ++ ys) ≡ count_starts pool xs + count_starts pool ys
unfolding count_starts
count_starts-append pool [] ys = omega arith
count_starts-append pool (discards id ∷ xs) ys = count_starts-append pool xs ys
count_starts-append pool (starts own ∷ xs) ys = omega (arith, count_starts-append pool xs ys)

pub count_starts-discard_ids :
    (pool : PoolId) (rows : Table) → count_starts pool (discard_ids rows) ≡ 0
unfolding count_starts
count_starts-discard_ids pool [] = refl
count_starts-discard_ids pool ((id, row) ∷ rows) = count_starts-discard_ids pool rows

count_starts-start_all :
    (pool own : PoolId) (n : ℕ)
    → count_starts pool (start_all n own) ≡ (if own == pool then n else 0)
unfolding count_starts
count_starts-start_all pool own zero = ground arith
count_starts-start_all pool own (suc n) = ground (arith, count_starts-start_all pool own n)

pub count_starts-discard_pools :
    (pool : PoolId) (boots : String → Bool) (pools : Dict PoolId Table)
    → count_starts pool (discard_pools boots pools) ≡ 0
unfolding discard_pools count_starts
count_starts-discard_pools pool boots [] = refl
count_starts-discard_pools pool boots ((own, members) ∷ pools) =
    count_starts-append pool (discard_ids (keep _ members)) (discard_pools boots pools)
    ∙ ap₂ (λ a b. a + b) (count_starts-discard_ids pool (keep _ members))
        (count_starts-discard_pools pool boots pools)
    ∙ omega arith

-- What a pool lacks of its size: nothing where it holds a failed boot back, its server is gone or the guest is not ready.
unfoldable pub lacks : Setting → List String → PoolId → ℕ → Table → ℕ
lacks env servers pool size members =
    if is_held servers pool members
    then 0
    else if env.guest_ready (server_of pool.1)
    then size - length members
    else 0

lacks_zero :
    (env : Setting) (servers : List String) (pool : PoolId) (members : Table)
    → lacks env servers pool 0 members ≡ 0
unfolding lacks
lacks_zero env servers pool members = ground arith

count_starts-fill_pool :
    (env : Setting) (servers : List String) (pool own : PoolId) (size : ℕ) (members : Table)
    → count_starts pool (fill_pool env servers own size members)
      ≡ (if own == pool then lacks env servers own size members else 0)
unfolding fill_pool lacks count_starts
count_starts-fill_pool env servers pool own size members =
    elim (Bool-cases (is_held servers own members)) [
      | inl held ↦ rw held (ground arith)
      | inr free ↦
          rw (free, count_starts-append, count_starts-discard_ids, count_starts-start_all)
            (omega arith)
    ]

pub count_starts-fill_pools :
    (env : Setting) (servers : List String) (pool : PoolId) (sizes : Dict PoolId ℕ)
    (pools : Dict PoolId Table)
    → Distinct sizes
    → count_starts pool (fill_pools env servers sizes pools).0
      ≡ lacks env servers pool (or_zero (get sizes pool)) (or_nil (get pools pool))
unfolding fill_pools count_starts get
count_starts-fill_pools env servers pool [] pools d =
    sym (lacks_zero env servers pool (or_nil (get pools pool)))
count_starts-fill_pools env servers pool ((own, size) ∷ sizes) pools d =
    let first = count_starts-fill_pool env servers pool own size (or_nil (get pools own)) in
    let rest = count_starts-fill_pools env servers pool sizes (erase pools own) d.1 in
    let all =
      count_starts-append pool (fill_pool env servers own size (or_nil (get pools own)))
        (fill_pools env servers sizes (erase pools own)).0 in
    elim (Bool-cases (own == pool)) [
      | inl same ↦
          let e : own ≡ pool = (==_iff own pool).0 same in
          let free : get sizes pool ≡ none = ap (get sizes) (sym e) ∙ d.0 in
          let none_left =
            rest
            ∙ ap (λ o. lacks env servers pool (or_zero o) (or_nil (get (erase pools own) pool)))
                free
            ∙ lacks_zero env servers pool (or_nil (get (erase pools own) pool)) in
          let here : lacks env servers own size (or_nil (get pools own))
              ≡ lacks env servers pool size (or_nil (get pools pool)) =
            ap (λ p. lacks env servers p size (or_nil (get pools p))) e in
          rw same
            (all ∙ ap₂ (λ a b. a + b) (first ∙ if_true _ _ same ∙ here) none_left ∙ omega arith)
      | inr other ↦
          let still : get (erase pools own) pool ≡ get pools pool =
            get-erase pools own pool ∙ if_false _ _ other in
          rw other (
            all
            ∙ ap₂ (λ a b. a + b) (first ∙ if_false _ _ other)
                (rest
                  ∙ ap (λ o. lacks env servers pool (or_zero (get sizes pool)) (or_nil o)) still)
            ∙ omega arith)
    ]
