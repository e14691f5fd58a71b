-- ===== src/Errors.antt =====
-- apps/server/errors.py: the one error format of the API, the table of its codes, and the handlers that answer
-- with it.
--
-- `is_word` is \w of the re library, of which a space is none, and `lower` is str.lower. The meaning of a code, which only the
-- documentation reads, is left out. The request id is given.
pub mod Known
pub mod Examples
use zoo.Base.{
  ℕ, String, string_eq, nat_eq, ◌==◌, nat_beq, Bool, true, false, not, ◌&&◌, ◌||◌, Option, none,
  some, List, [], ◌∷◌, ltb, if◌then◌else◌, is_some,
}
use zoo.Base.Dict.{Dict, get, put}
use Prim.Native.Char.{code as code_of}

-- CODES, each with its status
abbrev pub codes : Dict String ℕ
codes =
    ("bad_request", 400)
    ∷ ("unauthenticated", 401)
    ∷ ("forbidden", 403)
    ∷ ("not_found", 404)
    ∷ ("sandbox_not_found", 404)
    ∷ ("method_not_allowed", 405)
    ∷ ("create_failed", 503)
    ∷ ("conflict", 409)
    ∷ ("quota_exceeded", 409)
    ∷ ("idempotency_key_reused", 409)
    ∷ ("idempotency_key_in_progress", 409)
    ∷ ("gone", 410)
    ∷ ("too_large", 413)
    ∷ ("validation_failed", 422)
    ∷ ("rate_limited", 429)
    ∷ ("internal_error", 500)
    ∷ ("not_supported", 501)
    ∷ ("upstream_error", 502)
    ∷ ("unavailable", 503)
    ∷ ("guest_unavailable", 503)
    ∷ ("timeout", 504)
    ∷ []

abbrev pub hints : Dict String String
hints =
    (
      "unauthenticated",
      "Create an API key in Settings → API keys and send it as `Authorization: Bearer <key>`.",
    )
    ∷ (
      "sandbox_not_found",
      "`GET /v1/sandboxes` lists this workspace's sandboxes; ids are case-sensitive.",
    )
    ∷ ("quota_exceeded", "Stop or delete sandboxes, or ask a workspace admin to raise the quota.")
    ∷ ("idempotency_key_reused", "Use a new Idempotency-Key for a different request.")
    ∷ ("idempotency_key_in_progress", "Wait for the first request to finish, then retry.")
    ∷ ("create_failed", "Retry the create; a cold create starts once no warm sandbox is left.")
    ∷ ("rate_limited", "Retry after the number of seconds in the Retry-After header.")
    ∷ ("internal_error", "Retry. If it keeps failing, report the request id to your Zoo operator.")
    ∷ ("unavailable", "Retry with exponential backoff.")
    ∷ ("guest_unavailable", "the sandbox's guest agent is not connected; restart the sandbox")
    ∷ ("timeout", "Retry; long commands can pass a larger `timeout`.")
    ∷ []

abbrev pub by_status : Dict ℕ String
by_status =
    (400, "bad_request")
    ∷ (401, "unauthenticated")
    ∷ (403, "forbidden")
    ∷ (404, "not_found")
    ∷ (405, "method_not_allowed")
    ∷ (409, "conflict")
    ∷ (410, "gone")
    ∷ (413, "too_large")
    ∷ (422, "validation_failed")
    ∷ (429, "rate_limited")
    ∷ (500, "internal_error")
    ∷ (501, "not_supported")
    ∷ (502, "upstream_error")
    ∷ (503, "unavailable")
    ∷ (504, "timeout")
    ∷ []

-- " not found" to the end, or to a newline at the end
abbrev pub ends_not_found : String → Bool
ends_not_found text = text == " not found" || text == " not found\n"

-- text after text
abbrev pub append_text : String → String → String
append_text String.[] text = text
append_text (String.◌∷◌ c s) text = String.◌∷◌ c (append_text s text)

abbrev pub cons_word : Option String → String → Option String
cons_word none c = none
cons_word (some word) c = some (append_text c word)

abbrev pub starts_with : String → String → Bool
starts_with String.[] text = true
starts_with (String.◌∷◌ c prefix) String.[] = false
starts_with (String.◌∷◌ c prefix) (String.◌∷◌ d text) =
    nat_beq (code_of c) (code_of d) && starts_with prefix text

-- needle in text
unfoldable pub contains : String → String → Bool
contains needle String.[] = starts_with needle String.[]
contains needle (String.◌∷◌ c text) = starts_with needle (String.◌∷◌ c text) || contains needle text

-- The word before " not found", behind at least one character of it.
unfoldable pub word_rest : (is_word : ℕ → Bool) → String → Option String
word_rest is_word String.[] = none
word_rest is_word (String.◌∷◌ c text) =
    let rest = word_rest is_word text in
    if is_word (code_of c)
    then cons_word rest (String.◌∷◌ c String.[])
    else if ends_not_found (String.◌∷◌ c text)
    then some String.[]
    else none

-- NOT_FOUND.match(message).group(1)
unfoldable pub not_found_word : (is_word : ℕ → Bool) → String → Option String
unfolding word_rest
not_found_word is_word String.[] = none
not_found_word is_word (String.◌∷◌ c text) =
    if is_word (code_of c)
    then cons_word (word_rest is_word text) (String.◌∷◌ c String.[])
    else none

abbrev pub known : String → Option String
known name = if is_some (get codes name) then some name else none

-- f"{word}_not_found", where it is one of CODES
abbrev pub not_found_code : Option String → Option String
not_found_code none = none
not_found_code (some word) = known (append_text word "_not_found")

abbrev pub or_status : Option String → ℕ → String
or_status (some name) status = name
or_status none status = if ltb status 500 then "bad_request" else "internal_error"

abbrev pub may_be_quota : ℕ → Bool
may_be_quota status = nat_beq status 403 || nat_beq status 409 || nat_beq status 429

abbrev pub quota_or_status : (lower : String → String) → ℕ → String → String
quota_or_status lower status message =
    if contains "quota" (lower message) && may_be_quota status
    then "quota_exceeded"
    else or_status (get by_status status) status

abbrev pub or_else_code : Option String → String → String
or_else_code none other = other
or_else_code (some name) other = name

unfoldable pub code_for : (is_word : ℕ → Bool) (lower : String → String) → ℕ → String → String
unfolding not_found_word contains
code_for is_word lower status message =
    or_else_code
      (if nat_beq status 404 then not_found_code (not_found_word is_word message) else none)
      (quota_or_status lower status message)

-- The body under "error".
pub record Body : Type 0 where
  pub code : String
  pub message : String
  pub hint : Option String
  pub docs_url : String
  pub request_id : String

pub record Response : Type 0 where
  pub status : ℕ
  pub body : Body
  pub headers : Dict String String

-- hint if hint is not None else HINTS.get(code)
abbrev pub or_hint : Option String → String → Option String
or_hint (some hint) name = some hint
or_hint none name = get hints name

unfoldable pub body : (docs_url : String) → String → String → Option String → String → Body
body docs_url name message hint request_id = record {
  code = name;
  message = message;
  hint = or_hint hint name;
  docs_url = append_text docs_url (append_text "#" name);
  request_id = request_id;
}

unfoldable pub respond :
    (docs_url request_id : String)
    → ℕ
    → String
    → String
    → Option String
    → Dict String String
    → Response
unfolding body
respond docs_url request_id status name message hint headers = record {
  status = status;
  body = body docs_url name message hint request_id;
  headers = put headers "X-Request-Id" request_id;
}

-- What a route raises: a ZooError, whose status is that of its code, another HTTPException, the problems of a request
-- that does not fit its schema, each with where it is, or another exception.
pub data Raised : Type 0 where
  zoo_error : (name message : String) (hint : Option String) (headers : Dict String String) → Raised
  http_error : (status : ℕ) (message : String) (headers : Dict String String) → Raised
  invalid : List (String × String) → Raised
  crashed : Raised

-- f"{where}: {msg}", or the message alone
abbrev pub problem : String × String → String
problem (place, message) =
    if place == "" then message else append_text place (append_text ": " message)

-- "; ".join(problems)
unfoldable pub join_problems : List (String × String) → String
join_problems [] = ""
join_problems (p ∷ []) = problem p
join_problems (p ∷ q ∷ problems) =
    append_text (problem p) (append_text "; " (join_problems (q ∷ problems)))

abbrev pub or_invalid : String → String
or_invalid text = if text == "" then "invalid request" else text

abbrev pub with_status : Option ℕ → (ℕ → Response) → Option Response
with_status none answer = none
with_status (some status) answer = some (answer status)

-- The exception handlers; `none` for a ZooError whose code is none of CODES, which cannot be made (KeyError).
unfoldable pub answer :
    (ℕ → Bool) → (String → String) → (docs_url request_id : String) → Raised → Option Response
unfolding code_for respond join_problems
answer is_word lower docs_url request_id (zoo_error name message hint headers) =
    with_status (get codes name)
      (λ status. respond docs_url request_id status name message hint headers)
answer is_word lower docs_url request_id (http_error status message headers) = some (
    respond docs_url request_id status (code_for is_word lower status message) message none headers)
answer is_word lower docs_url request_id (invalid problems) = some (
    respond docs_url request_id 422 "validation_failed" (or_invalid (join_problems problems)) none
      [])
answer is_word lower docs_url request_id crashed = some (
    respond docs_url request_id 500 "internal_error"
      (append_text "internal error (request id " (append_text request_id ")")) none [])
