-- ===== src/Leases.antt =====
-- apps/server/workers.py: the leases under which processes do singleton work, with the statements of
-- db/generated/query.py on the table `leases`.
--
-- Times are whole microseconds. A statement is atomic; its CURRENT_TIMESTAMP and the process's
-- stamp() read one clock.
pub mod Rows
pub mod Exclusive
pub mod Examples
use zoo.Base.{
  ℕ, ◌+◌, ◌*◌, String, string_eq, ◌==◌, Bool, true, false, ◌&&◌, ◌||◌, Option, none, some, [], ◌∷◌,
  ltb, if◌then◌else◌,
}
use zoo.Base.Dict.{Dict, get, put, erase}

pub record Lease : Type 0 where
  pub holder : String
  pub expires_at : ℕ

-- Under the primary key `name`.
abbrev pub Leases : Type 0
Leases = Dict String Lease

abbrev pub second : ℕ
second = 1_000_000

-- stamp(seconds)
abbrev pub stamp : ℕ → ℕ → ℕ
stamp now seconds = now + seconds * second

-- The WHERE of the DO UPDATE.
abbrev pub may_take : String → ℕ → Option Lease → Bool
may_take holder now none = true
may_take holder now (some lease) = lease.holder == holder || ltb lease.expires_at now

-- INSERT … ON CONFLICT (name) DO UPDATE … RETURNING holder: `none` where no row is returned.
unfoldable pub acquire_lease : String → String → ℕ → ℕ → Leases → Leases × Option String
acquire_lease name holder expires_at now leases =
    if may_take holder now (get leases name)
    then (put leases name (record { holder = holder; expires_at = expires_at }), some holder)
    else (leases, none)

abbrev pub is_holder : Option String → String → Bool
is_holder none worker_id = false
is_holder (some holder) worker_id = holder == worker_id

-- hold, in the process `worker_id` at the time `now`
unfoldable pub hold : String → String → ℕ → ℕ → Leases → Leases × Bool
unfolding acquire_lease
hold worker_id name ttl now leases =
    let (leases', returned) = acquire_lease name worker_id (stamp now ttl) now leases in
    (leases', is_holder returned worker_id)

abbrev pub held_by : Option Lease → String → Bool
held_by none holder = false
held_by (some lease) holder = lease.holder == holder

-- DELETE FROM leases WHERE name = … AND holder = …
unfoldable pub release_lease : String → String → Leases → Leases
release_lease name holder leases =
    if held_by (get leases name) holder then erase leases name else leases

unfoldable pub release : String → String → Leases → Leases
unfolding release_lease
release worker_id name leases = release_lease name worker_id leases
