-- ===== src/Pool/Steps.antt =====
-- The sections of requests, boots and refills as steps of a relation, and what they keep.
use zoo.Base.{
  ℕ, ◌+◌, ◌≤◌, String, string_eq, pair_eq, ◌==◌, ◌≡◌, true, Option, none, some, [], ◌∷◌, is_some,
}
use zoo.Base.Dict.{get, Distinct}
use zoo.Pool.{
  Setting, World, Boot, begun, ran, shown, PoolSandbox, Table, PoolId, pool_id, or_zero, is_idle,
  is_failed, claim, start, boot_ran, boot_shown, boot_failed, boot_done, discard,
}
use zoo.Quotas.{counted}

-- A request may claim at any time, and commits; self.claimed counts a claim that is rolled back as well, which is left
-- out. `fill` and `drain` discard, at any time, an id that they read before. The sections of one boot come in their order.
pub data Step (env : Setting) (w : World) : World → Type 0 where
  claims : (kind : String) (server_id : Option String) → Step env w (claim env kind server_id w).1
  -- with a fresh id
  starts :
      (now : ℕ) (id kind : String) (server_id : Option String)
      → get w.table id ≡ none
      → get w.handed id ≡ none
      → get w.removed id ≡ none
      → get w.threads id ≡ none
      → Step env w (start env now id kind server_id w)
  runs :
      (now : ℕ) (id runtime_id runtime_host : String)
      → get w.threads id ≡ some begun
      → Step env w (boot_ran now id runtime_id runtime_host w)
  shows : (now : ℕ) (id : String) → get w.threads id ≡ some ran → Step env w (boot_shown now id w)
  fails :
      (now : ℕ) (id error : String) (boot : Boot)
      → get w.threads id ≡ some boot
      → Step env w (boot_failed now id error w)
  ends : (id : String) → get w.threads id ≡ some shown → Step env w (boot_done id w)
  discards : (id : String) → Step env w (discard id w)
  -- the process restarts: its threads and its counts are gone
  restarts : Step env w (record w { threads = []; claimed = [] })

pub data Reach (env : Setting) (start : World) : World → Type 0 where
  here : Reach env start start
  next : {w w' : World} → Reach env start w → Step env w w' → Reach env start w'

-- How many rows of a log belong to a pool.
unfoldable pub count_of : PoolId → Table → ℕ
count_of pool [] = 0
count_of pool ((id, row) ∷ table) =
    counted (pool == pool_id row.kind row.server_id) 1 + count_of pool table

pub record IsSingle (w : World) : Type 0 where
  pub keyed : Distinct w.table
  -- no sandbox is handed out twice, one that is handed out is not pooled any more, and neither was nor is it removed
  pub once : Distinct w.handed
  pub taken : (id : String) (row : PoolSandbox) → get w.handed id ≡ some row → get w.table id ≡ none
  pub alive :
      (id : String) (row : PoolSandbox) → get w.handed id ≡ some row → get w.removed id ≡ none
  -- it had come up: its row is idle, with a container
  pub up :
      (id : String) (row : PoolSandbox)
      → get w.handed id ≡ some row
      → (is_idle row.status ≡ true) × (is_some row.runtime_id ≡ true)
  -- a row whose container was removed is failed
  pub gone :
      (id : String) (row old : PoolSandbox)
      → get w.removed id ≡ some old
      → get w.table id ≡ some row
      → is_failed row.status ≡ true
  pub idle_up :
      (id : String) (row : PoolSandbox)
      → get w.table id ≡ some row
      → is_idle row.status ≡ true
      → is_some row.runtime_id ≡ true
  pub ran_up :
      (id : String) (row : PoolSandbox)
      → get w.threads id ≡ some ran
      → get w.table id ≡ some row
      → is_some row.runtime_id ≡ true
  -- the counts of the status are of sandboxes handed out
  pub counts : (pool : PoolId) → or_zero (get w.claimed pool) ≤ count_of pool w.handed
