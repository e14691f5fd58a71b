-- ===== src/Tickets.antt =====
-- apps/server/tickets.py: single-use tickets for websocket URLs, with the statements of
-- db/generated/query.py on the table `tickets`.
--
-- The hash (hashlib.sha256, as hexadecimal) and the fresh ticket of secrets.token_urlsafe are given.
-- Times are whole microseconds; CURRENT_TIMESTAMP and stamp() read one clock.
pub mod Single
pub mod Examples
use zoo.Base.{
  ℕ, ◌+◌, ◌*◌, String, string_eq, ◌==◌, Bool, true, false, not, ◌||◌, Option, none, some, ltb, leb,
  if◌then◌else◌, keep,
}
use zoo.Base.Dict.{Dict, get, put, erase}

pub record Ticket : Type 0 where
  pub user_id : String
  pub target : String
  pub expires_at : ℕ

-- Under the primary key `ticket_hash`.
abbrev pub Tickets : Type 0
Tickets = Dict String Ticket

abbrev pub ticket_ttl : ℕ
ticket_ttl = 30

-- stamp(TICKET_TTL)
abbrev pub expiry : ℕ → ℕ
expiry now = now + ticket_ttl * 1_000_000

-- DELETE FROM tickets WHERE expires_at <= CURRENT_TIMESTAMP
unfoldable pub purge_tickets : ℕ → Tickets → Tickets
purge_tickets now tickets = keep (λ (_, row). not (leb row.expires_at now)) tickets

abbrev pub insert_row : Option Ticket → String → Ticket → Tickets → Option Tickets
insert_row none ticket_hash row tickets = some (put tickets ticket_hash row)
insert_row (some other) ticket_hash row tickets = none

-- INSERT INTO tickets: `none` where the key is taken and the statement fails.
unfoldable pub create_ticket : String → Ticket → Tickets → Option Tickets
create_ticket ticket_hash row tickets = insert_row (get tickets ticket_hash) ticket_hash row tickets

-- DELETE FROM tickets WHERE ticket_hash = … RETURNING …
unfoldable pub redeem_ticket : String → Tickets → Tickets × Option Ticket
redeem_ticket ticket_hash tickets = (erase tickets ticket_hash, get tickets ticket_hash)

-- The tests of redeem on the row.
abbrev pub user_of : Option Ticket → String → ℕ → Option String
user_of none target now = none
user_of (some row) target now =
    if not (row.target == target) || leb row.expires_at now then none else some row.user_id

module _ (hash : String → String) where
  -- issue, where token_urlsafe gives `ticket`; `none` where the transaction fails.
  unfoldable pub issue : String → String → String → ℕ → Tickets → Option Tickets
  unfolding purge_tickets create_ticket
  issue ticket user_id target now tickets =
      create_ticket (hash ticket)
        (record { user_id = user_id; target = target; expires_at = expiry now })
        (purge_tickets now tickets)

  unfoldable pub redeem : String → String → ℕ → Tickets → Tickets × Option String
  unfolding redeem_ticket
  redeem ticket target now tickets =
      let (tickets', row) = redeem_ticket (hash ticket) tickets in
      (tickets', user_of row target now)
