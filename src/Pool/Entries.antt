-- ===== src/Pool/Entries.antt =====
-- drain and status of apps/server/pool.py.
use zoo.Base.{
  ℕ, String, string_eq, pair_eq, ◌==◌, Bool, false, Option, none, some, List, [], ◌∷◌,
  if◌then◌else◌, keep, length,
}
use zoo.Base.Dict.{Dict, get}
use zoo.Pool.{
  World, PoolSandbox, Table, PoolId, pool_id, is_idle, is_booting, is_failed, or_zero, discard,
}

-- drain, of the rows that it reads
unfoldable pub discard_all : (PoolSandbox → Bool) → Table → World → World
unfolding discard
discard_all p [] w = w
discard_all p ((id, row) ∷ rows) w =
    let rest = discard_all p rows w in
    let first = discard_all p rows (discard id w) in if p row then first else rest

abbrev pub stands_on : String → PoolSandbox → Bool
stands_on server_id row = elim row.server_id [ none ↦ false | some own ↦ own == server_id ]

unfoldable pub drain : String → World → World
unfolding discard_all
drain server_id w = discard_all (stands_on server_id) w.table w

-- A line of the status, without the pool's names.
pub record Entry : Type 0 where
  pub size : ℕ
  pub idle_count : ℕ
  pub booting_count : ℕ
  pub claimed : ℕ
  pub error : Option String

abbrev pub first_error : Table → Option String
first_error [] = none
first_error ((id, row) ∷ rows) =
    if is_failed row.status then row.error_message else first_error rows

unfoldable pub entry : Dict PoolId ℕ → World → PoolId → Entry
entry settings w pool =
    let members =
      keep (λ (member : String × PoolSandbox). pool_id (member.1).kind (member.1).server_id == pool)
        w.table in
    record {
      size = or_zero (get settings pool);
      idle_count =
          length (keep (λ (member : String × PoolSandbox). is_idle (member.1).status) members);
      booting_count =
          length (keep (λ (member : String × PoolSandbox). is_booting (member.1).status) members);
      claimed = or_zero (get w.claimed pool);
      error = first_error members;
    }

-- status
unfoldable pub status : Dict PoolId ℕ → World → List (String × Option String) → List Entry
unfolding entry
status settings w [] = []
status settings w ((kind, server_id) ∷ keys) =
    entry settings w (pool_id kind server_id) ∷ status settings w keys
