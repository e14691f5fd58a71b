-- ===== src/Events.antt =====
-- apps/server/events.py: the events of a workspace, in pages and as a stream, with the statements of
-- db/generated/query.py on events.
--
-- The rows are kept in the order of seq, which is their key. Times are whole seconds. A frame of the stream is the
-- row that it tells of. Left out: the JSON of a frame, metrics, keepalives and the wait for a notification, behind which
-- a stream may look at any time.
pub mod Sorted
pub mod Seen
pub mod Sent
pub mod Rounds
pub mod Turns
pub mod Stream
pub mod Examples
use zoo.Base.{
  ℕ, ◌+◌, max, String, string_eq, nat_eq, ◌==◌, Bool, true, false, not, ◌&&◌, Option, none, some,
  List, [], ◌∷◌, ltb, leb, if◌then◌else◌, is_some, keep, take,
}
use zoo.Base.Dict.{Dict, get, put}
use zoo.Labels.{Labels, Store, matches, of}
use zoo.Sandboxes.{Member}

-- PAGE
abbrev pub page_size : ℕ
page_size = 200

abbrev pub late_seconds : ℕ
late_seconds = 60

pub record Event : Type 0 where
  pub workspace_id : String
  pub sandbox_id : Option String
  pub event_type : String
  pub «data» : String
  pub created_at : ℕ

abbrev pub Table : Type 0
Table = Dict ℕ Event

-- :p IS NULL OR column = :p
abbrev pub takes : Option String → Option String → Bool
takes none column = true
takes (some wanted) none = false
takes (some wanted) (some value) = value == wanted

-- What a reader asks for: its workspace, one sandbox or all, one type or all.
pub record Query : Type 0 where
  pub user : Member
  pub sandbox_id : Option String
  pub event_type : Option String

abbrev pub selects : Query → Event → Bool
selects query row =
    row.workspace_id == query.user.workspace_id
    && takes query.sandbox_id row.sandbox_id
    && takes query.event_type (some row.event_type)

-- LIST_EVENTS
unfoldable pub list_events : Query → ℕ → ℕ → Table → Table
list_events query after limit table =
    take limit (keep (λ (p : ℕ × Event). ltb after p.0 && selects query p.1) table)

-- created_at >= stamp(-LATE_SECONDS)
abbrev pub is_recent : ℕ → ℕ → Bool
is_recent now created_at = leb now (created_at + late_seconds)

-- LIST_LATE_EVENTS, its WHERE
abbrev pub is_late : Query → ℕ → ℕ → ℕ × Event → Bool
is_late query upto now p = (leb p.0 upto && is_recent now (p.1).created_at) && selects query p.1

-- LIST_LATE_EVENTS
unfoldable pub list_late_events : Query → ℕ → ℕ → ℕ → Table → Table
list_late_events query upto now limit table = take limit (keep (is_late query upto now) table)

-- LATEST_EVENT_SEQ
unfoldable pub latest_event_seq : String → Table → ℕ
latest_event_seq workspace_id [] = 0
latest_event_seq workspace_id ((seq, row) ∷ table) =
    let rest = latest_event_seq workspace_id table in
    if row.workspace_id == workspace_id then max seq rest else rest

-- PURGE_EVENTS
unfoldable pub purge_events : ℕ → Table → Table
purge_events before table = keep (λ (p : ℕ × Event). not (ltb (p.1).created_at before)) table

-- Scope.known
abbrev pub Known : Type 0
Known = Dict String Labels

abbrev pub or_read : String → Store → Option Labels → Labels
or_read sandbox_id store none = of sandbox_id store
or_read sandbox_id store (some labels) = labels

abbrev pub remember : String → Store → Known → Option Labels → Known
remember sandbox_id store known none = put known sandbox_id (of sandbox_id store)
remember sandbox_id store known (some labels) = known

abbrev pub is_own : String → Option String → Bool
is_own own none = false
is_own own (some sandbox_id) = sandbox_id == own

-- Scope.allows, for a key with a label selector
abbrev pub allows_labelled : Labels → Store → Option String → Known → Bool × Known
allows_labelled selector store none known = (false, known)
allows_labelled selector store (some sandbox_id) known = (
  matches (or_read sandbox_id store (get known sandbox_id)) (some selector),
  remember sandbox_id store known (get known sandbox_id),
)

abbrev pub allows_key : Option String → Option Labels → Store → Event → Known → Bool × Known
allows_key (some own) selector store row known = (is_own own row.sandbox_id, known)
allows_key none (some selector) store row known =
    allows_labelled selector store row.sandbox_id known
allows_key none none store row known = (true, known)

-- Scope.allows: the answer, and what the scope knows then
unfoldable pub allows : Member → Store → Event → Known → Bool × Known
allows user store row known = allows_key user.key_sandbox_id user.key_labels store row known

-- [row for row in rows if scope.allows(row, db)]
unfoldable pub visible : Member → Store → Table → Known → Table × Known
unfolding allows
visible user store [] known = ([], known)
visible user store ((seq, row) ∷ rows) known =
    let answer = allows user store row known in
    let rest = visible user store rows answer.1 in
    (if answer.0 then (seq, row) ∷ rest.0 else rest.0, rest.1)

-- max([after, *(row.seq for row in rows)])
abbrev pub top : ℕ → Table → ℕ
top after [] = after
top after ((seq, row) ∷ rows) = max seq (top after rows)

-- page: the rows read, those that the member may see, and the scope
unfoldable pub page : Query → Store → ℕ → Table → Known → Table × (Table × Known)
unfolding list_events visible
page query store after table known =
    let rows = list_events query after page_size table in
    (rows, visible query.user store rows known)

unfoldable pub late : Query → Store → ℕ → ℕ → Table → Known → Table × Known
unfolding list_late_events visible
late query store upto now table known =
    visible query.user store (list_late_events query upto now page_size table) known

-- GET /events: the events, and the `after` of the next page
unfoldable pub list_page : Query → Store → ℕ → Table → Table × ℕ
unfolding page
list_page query store after table =
    let read = page query store after table [] in ((read.1).0, top after read.0)

-- What follow keeps, and a log of the frames that it has yielded, the last first: the seq and the time of each event.
pub record Follow : Type 0 where
  pub after : ℕ
  pub floor : ℕ
  pub sent : Dict ℕ ℕ
  pub known : Known
  pub log : Dict ℕ ℕ

abbrev pub opened : ℕ → Follow
opened after = record { after = after; floor = after; sent = []; known = []; log = [] }

-- stream: where it starts, for a client without Last-Event-ID
abbrev pub start_of : Option ℕ → String → Table → ℕ
start_of none workspace_id table = latest_event_seq workspace_id table
start_of (some after) workspace_id table = after

-- frame
abbrev pub frame : ℕ → Event → Follow → Follow
frame seq row s = record s {
  sent = put s.sent seq row.created_at;
  log = (seq, row.created_at) ∷ s.log;
}

-- `for row in …: if … row.seq not in sent: yield frame(row)`
unfoldable pub send : (ℕ → Bool) → Table → Follow → Follow
send p [] s = s
send p ((seq, row) ∷ rows) s =
    let told = send p rows (frame seq row s) in
    let passed = send p rows s in if p seq && not (is_some (get s.sent seq)) then told else passed

unfoldable pub stragglers : Query → Store → ℕ → Table → Follow → Table × Known
unfolding late
stragglers query store now table s =
    if ltb s.floor s.after then late query store s.after now table s.known else ([], s.known)

module _ (query : Query) (store : Store) (now : ℕ) (table : Table) (s : Follow) where
  -- What the session of a turn reads behind `after`.
  unfoldable pub read : Table × (Table × Known)
  unfolding stragglers page
  read = page query store s.after table (stragglers query store now table s).1

  -- the loop over the stragglers
  unfoldable pub told_late : Follow
  unfolding stragglers read send
  told_late =
      send (λ seq. ltb s.floor seq) (stragglers query store now table s).0
        (record s { known = (read.1).1 })

  -- and that over the page
  unfoldable pub told : Follow
  unfolding read told_late send
  told = send (λ seq. true) (read.1).0 told_late

-- One turn of the loop of follow: what its session reads at `now`, and the horizon that it takes at `later`.
unfoldable pub turn : Query → Store → ℕ → ℕ → Table → Follow → Follow
unfolding read told
turn query store now later table s =
    let t = told query store now table s in
    record t {
      after = top s.after (read query store now table s).0;
      sent = keep (λ (p : ℕ × ℕ). is_recent later p.1) t.sent;
    }
