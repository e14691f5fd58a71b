-- ===== src/Pool/Filling.antt =====
-- _fill of apps/server/pool.py: what it discards and starts.
--
-- `_fill` decides from what one session reads, and its actions follow in order; the ids that boot are those that
-- boot when it begins.
use zoo.Base.{
  ℕ, zero, suc, ◌-◌, max, String, string_eq, pair_eq, ◌==◌, Bool, true, false, not, ◌&&◌, ◌||◌,
  Option, none, some, List, [], ◌∷◌, ◌++◌, ltb, if◌then◌else◌, any, keep, length, drop,
}
use zoo.Base.Dict.{Dict, get, put, erase}
use zoo.Pool.{
  Setting, World, PoolSandbox, Table, PoolId, pool_id, booting, idle, failed, is_idle, is_failed,
  or_zero, discard, start,
}
use zoo.Pool.Demand.{or_nil, demand}

abbrev pub failed_ttl : ℕ
failed_ttl = 300

-- What the session of `_fill` reads.
pub record Seen : Type 0 where
  pub settings : Dict PoolId ℕ
  pub created : List (String × ℕ)
  pub rows : Table
  pub servers : List String

-- sizes[key] = max(sizes.get(key, 0), wanted)
unfoldable pub raise_sizes : Dict String ℕ → Dict PoolId ℕ → Dict PoolId ℕ
raise_sizes [] sizes = sizes
raise_sizes ((kind, wanted) ∷ demands) sizes =
    let key = pool_id kind none in
    raise_sizes demands (put sizes key (max (or_zero (get sizes key)) wanted))

unfoldable pub alive : Setting → PoolSandbox → Bool
alive env row = elim row.runtime_id [
  | none ↦ false
  | some runtime_id ↦
      if runtime_id == ""
      then false
      else elim (env.is_running runtime_id) [ none ↦ true | some answer ↦ answer ]
]

-- The branches for a row: whether it stays a member of its pool.
unfoldable pub stays : Setting → (String → Bool) → ℕ → String × PoolSandbox → Bool
unfolding alive
stays env boots now (id, row) = if boots id then true else elim row.status [
  | booting ↦ false
  | failed ↦ not (ltb failed_ttl (now - row.updated_at))
  | idle ↦ row.image == env.default_image row.kind && alive env row
]

-- pools[pool_id(row.kind, row.server_id)].append(row)
unfoldable pub group : (String × PoolSandbox → Bool) → Table → Dict PoolId Table → Dict PoolId Table
group p [] pools = pools
group p ((id, row) ∷ rows) pools =
    let key = pool_id row.kind row.server_id in
    let joined = put pools key (or_nil (get pools key) ++ (id, row) ∷ []) in
    group p rows (if p (id, row) then joined else pools)

-- self.discard(row, server), and self.start(kind, server)
pub data Action : Type 0 where
  discards : (id : String) → Action
  starts : (pool : PoolId) → Action

abbrev pub discard_ids : Table → List Action
discard_ids [] = []
discard_ids ((id, row) ∷ rows) = discards id ∷ discard_ids rows

abbrev pub start_all : ℕ → PoolId → List Action
start_all zero pool = []
start_all (suc missing) pool = starts pool ∷ start_all missing pool

abbrev pub server_of : String → Option String
server_of server = if server == "local" then none else some server

-- Whether a pool is left as it is: it holds a failed boot back, or its server is gone.
unfoldable pub is_held : List String → PoolId → Table → Bool
is_held servers (kind, server) members =
    any (λ (member : String × PoolSandbox). is_failed (member.1).status) members
    || (not (server == "local") && not (any (λ own. server == own) servers))

-- The loop over sizes, for one pool.
unfoldable pub fill_pool : Setting → List String → PoolId → ℕ → Table → List Action
unfolding is_held
fill_pool env servers pool size members =
    let idle_ones = keep (λ (member : String × PoolSandbox). is_idle (member.1).status) members in
    let missing = if env.guest_ready (server_of pool.1) then size - length members else 0 in
    if is_held servers pool members
    then []
    else discard_ids (drop size idle_ones) ++ start_all missing pool

unfoldable pub fill_pools :
    Setting → List String → Dict PoolId ℕ → Dict PoolId Table → List Action × Dict PoolId Table
unfolding fill_pool
fill_pools env servers [] pools = ([], pools)
fill_pools env servers ((pool, size) ∷ sizes) pools =
    let rest = fill_pools env servers sizes (erase pools pool) in
    (fill_pool env servers pool size (or_nil (get pools pool)) ++ rest.0, rest.1)

-- pools whose setting was removed
unfoldable pub discard_pools : (String → Bool) → Dict PoolId Table → List Action
discard_pools boots [] = []
discard_pools boots ((pool, members) ∷ pools) =
    discard_ids (keep (λ (member : String × PoolSandbox). not (boots member.0)) members)
    ++ discard_pools boots pools

-- _fill: its actions
unfoldable pub refill : Setting → (String → Bool) → ℕ → Seen → List Action
unfolding demand raise_sizes stays group fill_pools discard_pools
refill env boots now seen =
    let sizes = raise_sizes (demand now seen.created) seen.settings in
    let p = stays env boots now in
    let filled = fill_pools env seen.servers sizes (group p seen.rows []) in
    discard_ids (keep (λ member. not (p member)) seen.rows)
    ++ (filled.0 ++ discard_pools boots filled.1)

-- The actions, one after the other; the ids that start are given.
unfoldable pub perform : Setting → ℕ → (ℕ → String) → List Action → World → World
perform env now fresh [] w = w
perform env now fresh (discards id ∷ actions) w = perform env now fresh actions (discard id w)
perform env now fresh (starts pool ∷ actions) w =
    perform env now (λ n. fresh (suc n)) actions
      (start env now (fresh 0) pool.0 (server_of pool.1) w)
