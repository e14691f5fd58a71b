-- ===== src/Idempotency.antt =====
-- apps/server/idempotency.py: keys under which a POST runs once, with the statements of db/generated/query.py
-- on idempotency_keys.
--
-- A request is cut where the application runs: `begin` comes before, `capture` reads what the
-- application sends, and `end_request` comes behind. The hash and the decoding of bytes are parameters.
-- Times are whole seconds of one clock, which the database and the processes share.
pub mod Keys
pub mod Alone
pub mod Replay
pub mod Examples
use zoo.Base.{
  ℕ, ◌+◌, ◌-◌, ◌*◌, ◌^◌, String, string_eq, pair_eq, ◌==◌, Bool, true, false, not, ◌&&◌, Option,
  none, some, List, [], ◌∷◌, ◌++◌, ltb, leb, if◌then◌else◌, length, keep, is_some,
}
use zoo.Base.Dict.{Dict, get, put, erase}
use Prim.Native.String.{String}

abbrev pub max_key : ℕ
max_key = 255

-- 1 << 20
abbrev pub max_response : ℕ
max_response = 2 ^ 20

abbrev pub abandoned_seconds : ℕ
abandoned_seconds = 600

abbrev pub retention_seconds : ℕ
retention_seconds = 24 * 3600

pub record Row : Type 0 where
  pub method : String
  pub path : String
  pub request_hash : String
  pub status : Option ℕ
  pub content_type : Option String
  pub response : Option String
  pub created_at : ℕ

-- (owner, key)
abbrev pub KeyOf : Type 0
KeyOf = String × String

abbrev pub Table : Type 0
Table = Dict KeyOf Row

-- The row of CLAIM_IDEMPOTENCY_KEY, and what it returns: the row that is there then, and whether it is new.
abbrev pub claimed :
    (now : ℕ) (path request_hash : String) (key : KeyOf) (table : Table)
    → Option Row
    → Table × (Row × Bool)
claimed now path request_hash key table (some row) = (table, (row, false))
claimed now path request_hash key table none =
    let row : Row = record {
      method = "POST";
      path = path;
      request_hash = request_hash;
      status = none;
      content_type = none;
      response = none;
      created_at = now;
    } in
    (put table key row, (row, true))

unfoldable pub claim_idempotency_key : ℕ → String → String → KeyOf → Table → Table × (Row × Bool)
claim_idempotency_key now path request_hash key table =
    claimed now path request_hash key table (get table key)

-- DELETE … WHERE owner = … AND key = …
unfoldable pub release : KeyOf → Table → Table
release key table = erase table key

-- not row.inserted and row.status is None and the row is older than ABANDONED_SECONDS
abbrev pub is_abandoned : ℕ → Row × Bool → Bool
is_abandoned now (row, inserted) =
    not inserted && not (is_some row.status) && ltb (row.created_at + abandoned_seconds) now

-- An abandoned row is released, and the key claimed again.
abbrev pub claim_again : ℕ → String → String → KeyOf → Table × (Row × Bool) → Table × (Row × Bool)
claim_again now path request_hash key (table, found) =
    if is_abandoned now found
    then claim_idempotency_key now path request_hash key (release key table)
    else (table, found)

unfoldable pub claim : ℕ → String → String → KeyOf → Table → Table × (Row × Bool)
unfolding claim_idempotency_key release
claim now path request_hash key table =
    claim_again now path request_hash key (claim_idempotency_key now path request_hash key table)

abbrev pub with_response :
    (status : ℕ) (content_type : Option String) (response : String) → Row → Row
with_response status content_type response row = record row {
  status = some status;
  content_type = content_type;
  response = some response;
}

abbrev pub finish_row : ℕ → Option String → String → KeyOf → Table → Option Row → Table
finish_row status content_type response key table none = table
finish_row status content_type response key table (some row) =
    put table key (with_response status content_type response row)

-- finish, with FINISH_IDEMPOTENCY_KEY
unfoldable pub finish : ℕ → Option String → String → KeyOf → Table → Table
finish status content_type response key table =
    finish_row status content_type response key table (get table key)

-- PURGE_IDEMPOTENCY_KEYS, at stamp(-RETENTION_SECONDS)
unfoldable pub purge : ℕ → Table → Table
unfolding keep
purge now table = keep (λ item. not (ltb (item.1.created_at + retention_seconds) now)) table

-- How a request with a key goes on behind claim.
pub data Decision : Type 0 where
  run : Decision
  key_reused : Decision
  key_in_progress : Decision
  replay : (status : ℕ) (content_type : Option String) (response : String) → Decision

abbrev pub or_empty : Option String → String
or_empty none = ""
or_empty (some text) = text

abbrev pub replay_of : Row → Option ℕ → Decision
replay_of row none = key_in_progress
replay_of row (some status) = replay status row.content_type (or_empty row.response)

abbrev pub decide : String → Row × Bool → Decision
decide request_hash (row, true) = run
decide request_hash (row, false) =
    if row.request_hash == request_hash then replay_of row row.status else key_reused

abbrev pub decided : String → Table × (Row × Bool) → Table × Decision
decided request_hash (table, found) = (table, decide request_hash found)

unfoldable pub begin : ℕ → String → String → KeyOf → Table → Table × Decision
unfolding claim
begin now path request_hash key table = decided request_hash (claim now path request_hash key table)

-- What the application sends: the start with its status and content type, and chunks of the body.
pub data Message : Type 0 where
  response_start : ℕ → Option String → Message
  response_body : List ℕ → Message

pub record Captured : Type 0 where
  pub status : ℕ
  pub content_type : Option String
  pub kept : List ℕ
  pub size : ℕ

abbrev pub nothing_captured : Captured
nothing_captured = record { status = 500; content_type = none; kept = []; size = 0 }

-- An empty content type is none.
abbrev pub or_none : Option String → Option String
or_none none = none
or_none (some text) = if text == "" then none else some text

unfoldable pub capture : Message → Captured → Captured
capture (response_start status content_type) c = record c {
  status = status;
  content_type = or_none content_type;
}
capture (response_body chunk) c =
    let size = c.size + length chunk in
    record c { size = size; kept = if leb size max_response then c.kept ++ chunk else c.kept }

unfoldable pub capture_all : List Message → Captured → Captured
unfolding capture
capture_all [] c = c
capture_all (message ∷ messages) c = capture_all messages (capture message c)

abbrev pub starts_with : String → String → Bool
starts_with String.[] text = true
starts_with (String.◌∷◌ c prefix) String.[] = false
starts_with (String.◌∷◌ c prefix) (String.◌∷◌ d text) =
    (String.◌∷◌ c String.[] == String.◌∷◌ d String.[]) && starts_with prefix text

-- keep, before the bytes are decoded
abbrev pub may_keep : Captured → Bool
may_keep c =
    ltb c.status 500
    && leb c.size max_response
    && not (starts_with "text/event-stream" (or_empty c.content_type))

-- How a request ends: with a response that is kept, or with its row released.
pub data End : Type 0 where
  finished : (status : ℕ) (content_type : Option String) (response : String) → End
  released : End

abbrev pub decoded : Captured → Option String → End
decoded c none = released
decoded c (some response) = finished c.status c.content_type response

-- The finally branch, `raised` where the application raised.
unfoldable pub end_of : (List ℕ → Option String) → (raised : Bool) → List Message → End
unfolding capture_all
end_of decode true messages = released
end_of decode false messages =
    let c = capture_all messages nothing_captured in
    if may_keep c then decoded c (decode c.kept) else released

unfoldable pub end_request : End → KeyOf → Table → Table
unfolding finish release
end_request (finished status content_type response) key table =
    finish status content_type response key table
end_request released key table = release key table

-- What a request without a row of its own gets: without a key it is not looked at.
pub data Entry : Type 0 where
  passed_on : Entry
  key_too_long : Entry
  keyed : String → Entry

-- __call__, up to the body, from the stripped header and the length of its text
unfoldable pub enter : (post : Bool) → String → (key_length : ℕ) → Entry
enter false key key_length = passed_on
enter true key key_length =
    if key == "" then passed_on else if ltb max_key key_length then key_too_long else keyed key
