-- ===== src/Webhooks.antt =====
-- apps/server/webhooks.py: the deliveries of webhooks, with the statements of db/generated/query.py on
-- webhook_deliveries.
--
-- The rows are kept in the order of their seq. What sending does, from the check of the URL on, is given: its answer or
-- its error. Times are whole seconds of one clock. Left out: metrics and logging.
pub mod Claims
pub mod Sending
pub mod Exclusive
pub mod Examples
use zoo.Base.{
  ℕ, zero, suc, ◌+◌, ◌-◌, String, string_eq, ◌==◌, Bool, true, false, not, ◌&&◌, Option, none, some,
  List, [], ◌∷◌, ltb, leb, if◌then◌else◌, length, get_elem?,
}
use zoo.Base.Dict.{Dict, get, put}

-- BACKOFF, where the environment does not override it
abbrev pub backoff : List ℕ
backoff = 60 ∷ 300 ∷ 1800 ∷ 7200 ∷ 21600 ∷ []

abbrev pub timeout_seconds : ℕ
timeout_seconds = 10

abbrev pub batch_size : ℕ
batch_size = 20

abbrev pub lease_seconds : ℕ
lease_seconds = 120

pub data Status : Type 0 where
  pending delivered failed : Status

abbrev pub is_pending : Status → Bool
is_pending pending = true
is_pending delivered = false
is_pending failed = false

pub record Delivery : Type 0 where
  pub webhook_id : String
  pub event_id : String
  pub status : Status
  pub attempts : ℕ
  pub next_attempt_at : ℕ
  pub last_error : Option String
  pub response_status : Option ℕ
  pub delivered_at : Option ℕ

abbrev pub Table : Type 0
Table = Dict String Delivery

-- WHERE status = 'pending' AND next_attempt_at <= CURRENT_TIMESTAMP
abbrev pub is_due : ℕ → Delivery → Bool
is_due now row = is_pending row.status && leb row.next_attempt_at now

abbrev pub leased : ℕ → Delivery → Delivery
leased now row = record row { next_attempt_at = now + lease_seconds }

-- CLAIM_WEBHOOK_DELIVERIES: the table, and the rows that it returns
unfoldable pub claim_webhook_deliveries : ℕ → ℕ → Table → Table × Table
claim_webhook_deliveries now limit [] = ([], [])
claim_webhook_deliveries now zero ((id, row) ∷ table) = ((id, row) ∷ table, [])
claim_webhook_deliveries now (suc limit) ((id, row) ∷ table) =
    let taken = claim_webhook_deliveries now limit table in
    let left = claim_webhook_deliveries now (suc limit) table in
    if is_due now row
    then ((id, leased now row) ∷ taken.0, (id, leased now row) ∷ taken.1)
    else ((id, row) ∷ left.0, left.1)

-- What comes of a delivery: its webhook or event is gone or disabled, the receiver answers (with the text of last_error), or sending raises.
pub data Sent : Type 0 where
  gone : Sent
  answered : (code : ℕ) (text : String) → Sent
  broken : (error : String) → Sent

-- response.is_success
abbrev pub is_success : ℕ → Bool
is_success code = leb 200 code && ltb code 300

-- `attempts <= len(BACKOFF)` after a try that failed
abbrev pub retry_or_fail : ℕ → Status
retry_or_fail attempts = if leb attempts (length backoff) then pending else failed

abbrev pub status_after : ℕ → Sent → Status
status_after attempts gone = failed
status_after attempts (answered code text) =
    if is_success code then delivered else retry_or_fail attempts
status_after attempts (broken error) = retry_or_fail attempts

abbrev pub or_now : ℕ → Option ℕ → ℕ
or_now now none = now
or_now now (some delay) = now + delay

-- stamp(BACKOFF[attempts - 1]) if status == "pending" else stamp(), for attempts of at least 1
abbrev pub retry_at : ℕ → ℕ → Status → ℕ
retry_at now attempts pending = or_now now (get_elem? backoff (attempts - 1))
retry_at now attempts delivered = now
retry_at now attempts failed = now

abbrev pub code_of : Sent → Option ℕ
code_of gone = none
code_of (answered code text) = some code
code_of (broken error) = none

abbrev pub error_of : Sent → Option String
error_of gone = some "the webhook was disabled or removed"
error_of (answered code text) = if is_success code then none else some text
error_of (broken error) = some error

abbrev pub delivered_time : ℕ → Status → Option ℕ
delivered_time now pending = none
delivered_time now delivered = some now
delivered_time now failed = none

-- The row behind a try, of the delivery as it was claimed; FINISH_WEBHOOK_DELIVERY
abbrev pub finished_row : ℕ → Delivery → Sent → Delivery → Delivery
finished_row now delivery sent row =
    let attempts = delivery.attempts + 1 in
    let status = status_after attempts sent in
    record row {
      status = status;
      attempts = attempts;
      next_attempt_at = retry_at now attempts status;
      last_error = error_of sent;
      response_status = code_of sent;
      delivered_at = delivered_time now status;
    }

abbrev pub finish_found : ℕ → Delivery → Sent → String → Table → Option Delivery → Table
finish_found now delivery sent id table none = table
finish_found now delivery sent id table (some row) =
    put table id (finished_row now delivery sent row)

-- deliver_due, for one delivery of its batch, behind sending
unfoldable pub finish_webhook_delivery : ℕ → Delivery → Sent → String → Table → Table
finish_webhook_delivery now delivery sent id table =
    finish_found now delivery sent id table (get table id)

-- deliver_due, where no time passes between its sessions
unfoldable pub deliver_all : ℕ → (String → Sent) → Table → Table → Table
unfolding finish_webhook_delivery
deliver_all now send [] table = table
deliver_all now send ((id, delivery) ∷ due) table =
    deliver_all now send due (finish_webhook_delivery now delivery (send id) id table)

unfoldable pub deliver_due : ℕ → (String → Sent) → Table → Table × ℕ
unfolding claim_webhook_deliveries deliver_all
deliver_due now send table =
    let claimed = claim_webhook_deliveries now batch_size table in
    (deliver_all now send claimed.1 claimed.0, length claimed.1)
