-- ===== src/Limits.antt =====
-- apps/server/limits.py: the sliding-window rate limits of one API process.
--
-- `Limit` is the class: `hits` is its dict from a key to the times of its counted requests, oldest
-- first. Times are readings of time.monotonic() in whole ticks, `ticks` of which make a second;
-- `count` and `window` (in seconds) are the constructor's. `check` returns the new object beside
-- the outcome: `allowed`, `refused retry` where the source raises 429 with `retry` as the Retry-After
-- header, and `index_error` where `hits[0]` is read from an empty deque (a limit of 0 requests). The test `hits[0] <= now - self.window` is written without
-- the difference, which may be negative, and int() rounds down.
pub mod Window
pub mod Spec
pub mod Bound
pub mod Retry
pub mod Examples
use zoo.Base.{
  ℕ, ◌+◌, ◌-◌, ◌*◌, ◌/◌, String, string_eq, Bool, false, Option, none, some, List, [], ◌∷◌, ◌++◌,
  ltb, leb, if◌then◌else◌, length, keep,
}
use zoo.Base.Dict.{Dict, get, put}

pub record Limit : Type 0 where
  pub count : ℕ
  pub window : ℕ
  pub hits : Dict String (List ℕ)

abbrev pub ticks : ℕ
ticks = 1_000_000_000

-- self.hits.setdefault(key, deque())
abbrev pub or_empty : Option (List ℕ) → List ℕ
or_empty none = []
or_empty (some hits) = hits

-- The `while` loop of `check`: the hits that the window has left behind are dropped at the front.
unfoldable pub expire : ℕ → ℕ → List ℕ → List ℕ
expire width now [] = []
expire width now (hit ∷ hits) =
    let rest = expire width now hits in if leb (hit + width) now then rest else hit ∷ hits

-- The last hit of a deque, `v[-1]`.
unfoldable pub last_hit : List ℕ → Option ℕ
last_hit [] = none
last_hit (hit ∷ []) = some hit
last_hit (hit ∷ other ∷ hits) = last_hit (other ∷ hits)

-- `v and v[-1] > now - self.window`
unfoldable pub live : ℕ → ℕ → List ℕ → Bool
unfolding last_hit
live width now hits = elim (last_hit hits) [ none ↦ false | some hit ↦ ltb now (hit + width) ]

-- The largest number of keys that are kept without a sweep.
abbrev pub max_keys : ℕ
max_keys = 10_000

-- The sweep of keys whose hits have all left the window.
unfoldable pub sweep : ℕ → ℕ → Dict String (List ℕ) → Dict String (List ℕ)
unfolding keep live
sweep width now hits =
    if ltb max_keys (length hits) then keep (λ (key, found). live width now found) hits else hits

pub data Outcome : Type 0 where
  allowed : Outcome
  refused : (retry : ℕ) → Outcome
  index_error : Outcome

-- raise HTTPException(429), with int(hits[0] + self.window - now) + 1
unfoldable pub refuse : ℕ → ℕ → List ℕ → Outcome
refuse width now [] = index_error
refuse width now (hit ∷ hits) = refused ((hit + width - now) / ticks + 1)

abbrev pub width_of : Limit → ℕ
width_of limit = limit.window * ticks

unfoldable pub check : Limit → String → ℕ → Limit × Outcome
unfolding expire refuse sweep
check limit key now =
    let width = width_of limit in
    let hits = expire width now (or_empty (get limit.hits key)) in
    if leb limit.count (length hits)
    then (record limit { hits = put limit.hits key hits }, refuse width now hits)
    else (record limit { hits = sweep width now (put limit.hits key (hits ++ now ∷ [])) }, allowed)

unfoldable pub reset : Limit → Limit
reset limit = record limit { hits = [] }

abbrev pub login_per_ip : Limit
login_per_ip = record { count = 20; window = 60; hits = [] }

abbrev pub login_per_email : Limit
login_per_email = record { count = 10; window = 60; hits = [] }

abbrev pub signup_per_ip : Limit
signup_per_ip = record { count = 10; window = 3600; hits = [] }

abbrev pub api_key : Limit
api_key = record { count = 600; window = 60; hits = [] }
