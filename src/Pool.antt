-- ===== src/Pool.antt =====
-- apps/server/pool.py, the warm pool: sandboxes booted ahead of the request that takes them, with the statements of
-- db/generated/query.py on pool_sandboxes.
--
-- The rows are kept in the order of created_at and seq. Times are whole seconds. A pool's id, the text
-- `kind:server`, is the pair here, since no kind has a colon. Given are the images, what the container runtime and the
-- guest's hub answer, and fresh ids. One process is modelled; its lock is what makes `fill` a single caller of the
-- sections here. Left out: the secrets of a boot's environment, metrics, logging and the wake-up of the refill.
pub mod Demand
pub mod Filling
pub mod Entries
pub mod Counts
pub mod Sized
pub mod Rows
pub mod Steps
pub mod Kept
pub mod Single
pub mod Examples
use zoo.Base.{
  ℕ, ◌+◌, String, string_eq, pair_eq, ◌==◌, Bool, true, false, not, ◌&&◌, Option, none, some, List,
  [], ◌∷◌, if◌then◌else◌, any,
}
use zoo.Base.Dict.{Dict, get, put, erase}

abbrev pub kinds : List String
kinds = "desktop" ∷ "browser" ∷ "code" ∷ []

pub data Status : Type 0 where
  booting idle failed : Status

abbrev pub is_idle : Status → Bool
is_idle booting = false
is_idle idle = true
is_idle failed = false

abbrev pub is_booting : Status → Bool
is_booting booting = true
is_booting idle = false
is_booting failed = false

abbrev pub is_failed : Status → Bool
is_failed booting = false
is_failed idle = false
is_failed failed = true

pub record PoolSandbox : Type 0 where
  pub kind : String
  pub server_id : Option String
  pub image : String
  pub config : String
  pub status : Status
  pub runtime_id : Option String
  pub runtime_host : Option String
  pub error_message : Option String
  pub updated_at : ℕ

abbrev pub Table : Type 0
Table = Dict String PoolSandbox

abbrev pub PoolId : Type 0
PoolId = String × String

-- server_id or "local"
abbrev pub or_local : Option String → String
or_local none = "local"
or_local (some server) = if server == "" then "local" else server

abbrev pub pool_id : String → Option String → PoolId
pool_id kind server_id = (kind, or_local server_id)

-- server_id or "", and COALESCE(server_id, '')
abbrev pub or_empty : Option String → String
or_empty none = ""
or_empty (some server) = server

-- Where the thread that boots a container stands: before run_container has returned, behind the statement that
-- saves what it returned, and behind the one that makes the row idle.
pub data Boot : Type 0 where
  begun ran shown : Boot

-- The table; the thread of each sandbox that boots, whose ids are self.booting; self.claimed; and two logs, of
-- the rows handed to requests and of those passed to `remove`, which takes away the container and the volume.
pub record World : Type 0 where
  pub table : Table
  pub threads : Dict String Boot
  pub claimed : Dict PoolId ℕ
  pub handed : Table
  pub removed : Table

pub record Setting : Type 0 where
  pub default_image : (kind : String) → String
  pub config_of : (id : String) (kind : String) (server_id : Option String) → String
  -- what is_running answers, with none where it raises
  pub is_running : (runtime_id : String) → Option Bool
  pub guest_ready : (server_id : Option String) → Bool

-- The first row that a WHERE clause selects.
unfoldable pub find : (PoolSandbox → Bool) → Table → Option (String × PoolSandbox)
find p [] = none
find p ((id, row) ∷ table) = let later = find p table in if p row then some (id, row) else later

abbrev pub may_be_claimed : String → String → String → PoolSandbox → Bool
may_be_claimed kind server image row =
    is_idle row.status && row.kind == kind && or_empty row.server_id == server && row.image == image

-- CLAIM_POOL_SANDBOX: what it returns, and the table without it
abbrev pub taken_out : Table → Option (String × PoolSandbox) → Option (String × PoolSandbox) × Table
taken_out table none = (none, table)
taken_out table (some (id, row)) = (some (id, row), erase table id)

unfoldable pub claim_pool_sandbox :
    String → String → String → Table → Option (String × PoolSandbox) × Table
unfolding find
claim_pool_sandbox kind server image table =
    taken_out table (find (may_be_claimed kind server image) table)

abbrev pub or_zero : Option ℕ → ℕ
or_zero none = 0
or_zero (some n) = n

-- `claimed` of a row that a claim returned, and the row in the hands of the request
abbrev pub hand_over : PoolId → Option (String × PoolSandbox) → World → World
hand_over pool none w = w
hand_over pool (some (id, row)) w = record w {
  claimed = put w.claimed pool (or_zero (get w.claimed pool) + 1);
  handed = (id, row) ∷ w.handed;
}

unfoldable pub claim :
    Setting → String → Option String → World → Option (String × PoolSandbox) × World
unfolding claim_pool_sandbox
claim env kind server_id w =
    let found = claim_pool_sandbox kind (or_empty server_id) (env.default_image kind) w.table in
    if any (λ own. kind == own) kinds
    then (found.0, hand_over (pool_id kind server_id) found.0 (record w { table = found.1 }))
    else (none, w)

-- CREATE_POOL_SANDBOX, behind the config of `start`
abbrev pub new_pool_sandbox : Setting → ℕ → String → String → Option String → PoolSandbox
new_pool_sandbox env now id kind server_id = record {
  kind = kind;
  server_id = server_id;
  image = env.default_image kind;
  config = env.config_of id kind server_id;
  status = booting;
  runtime_id = none;
  runtime_host = none;
  error_message = none;
  updated_at = now;
}

unfoldable pub start : Setting → ℕ → String → String → Option String → World → World
start env now id kind server_id w = record w {
  table = put w.table id (new_pool_sandbox env now id kind server_id);
  threads = put w.threads id begun;
}

abbrev pub update_found : String → (PoolSandbox → PoolSandbox) → Table → Option PoolSandbox → Table
update_found id f table none = table
update_found id f table (some row) = put table id (f row)

-- An UPDATE of the row with an id, which does nothing where there is none.
unfoldable pub update_row : String → (PoolSandbox → PoolSandbox) → Table → Table
update_row id f table = update_found id f table (get table id)

-- SET_POOL_SANDBOX_RUNTIME
unfoldable pub set_pool_sandbox_runtime : ℕ → String → String → String → Table → Table
unfolding update_row
set_pool_sandbox_runtime now runtime_id runtime_host id table =
    update_row id
      (λ row. record row {
        runtime_id = some runtime_id;
        runtime_host = some runtime_host;
        updated_at = now;
      })
      table

-- SET_POOL_SANDBOX_IDLE
unfoldable pub set_pool_sandbox_idle : ℕ → String → Table → Table
unfolding update_row
set_pool_sandbox_idle now id table =
    update_row id
      (λ row. if is_booting row.status then record row { status = idle; updated_at = now } else row)
      table

-- SET_POOL_SANDBOX_FAILED
unfoldable pub set_pool_sandbox_failed : ℕ → String → String → Table → Table
unfolding update_row
set_pool_sandbox_failed now error id table =
    update_row id
      (λ row. record row { status = failed; error_message = some error; updated_at = now }) table

-- The sections of boot: behind run_container,
unfoldable pub boot_ran : ℕ → String → String → String → World → World
unfolding set_pool_sandbox_runtime
boot_ran now id runtime_id runtime_host w = record w {
  table = set_pool_sandbox_runtime now runtime_id runtime_host id w.table;
  threads = put w.threads id ran;
}

-- behind the wait for the guest,
unfoldable pub boot_shown : ℕ → String → World → World
unfolding set_pool_sandbox_idle
boot_shown now id w = record w {
  table = set_pool_sandbox_idle now id w.table;
  threads = put w.threads id shown;
}

abbrev pub remove_found : String → Option PoolSandbox → World → World
remove_found id none w = w
remove_found id (some row) w = record w { removed = (id, row) ∷ w.removed }

-- its except branch and what follows it,
unfoldable pub boot_failed : ℕ → String → String → World → World
unfolding set_pool_sandbox_failed
boot_failed now id error w =
    let table = set_pool_sandbox_failed now error id w.table in
    remove_found id (get table id) (record w { table = table; threads = erase w.threads id })

-- and its finally branch, where nothing failed
unfoldable pub boot_done : String → World → World
boot_done id w = record w { threads = erase w.threads id }

-- What becomes of a boot.
pub data Outcome : Type 0 where
  not_run : (error : String) → Outcome
  not_ready : (runtime_id runtime_host error : String) → Outcome
  ready : (runtime_id runtime_host : String) → Outcome

-- boot, where nothing comes between its sections
unfoldable pub boot : ℕ → String → Outcome → World → World
unfolding boot_ran boot_shown boot_failed boot_done
boot now id (not_run error) w = boot_failed now id error w
boot now id (not_ready runtime_id runtime_host error) w =
    boot_failed now id error (boot_ran now id runtime_id runtime_host w)
boot now id (ready runtime_id runtime_host) w =
    boot_done id (boot_shown now id (boot_ran now id runtime_id runtime_host w))

-- DELETE_POOL_SANDBOX returns the row, which `remove` takes
unfoldable pub discard : String → World → World
discard id w = remove_found id (get w.table id) (record w { table = erase w.table id })
