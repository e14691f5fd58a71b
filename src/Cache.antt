-- ===== src/Cache.antt =====
-- apps/server/cache.py: the process-local cache of request lookups, dropped by notifications.
--
-- The OrderedDict is a dict in the order of its moves: least recently used first. `get` stands around
-- a call of the loader, in which other tasks run: `begin` is what comes before the call and `finish`
-- what comes behind it. Values do not change, so the deep copies are the values themselves. Times are
-- ticks of time.monotonic().
pub mod Runs
pub mod Cases
pub mod Coherent
pub mod Steps
pub mod Fresh
pub mod Bound
pub mod Examples
use zoo.Base.{
  ℕ, ◌+◌, ◌*◌, String, string_eq, pair_eq, nat_beq, ◌==◌, Bool, true, false, not, ◌&&◌, Option,
  none, some, List, [], ◌∷◌, ◌++◌, ltb, if◌then◌else◌, length, keep, drop,
}
use zoo.Base.Dict.{Dict, get, put, erase}

abbrev pub ticks : ℕ
ticks = 1_000_000_000

abbrev pub ttl_seconds : ℕ
ttl_seconds = 30

abbrev pub max_entries : ℕ
max_entries = 10000

-- self.ready: None, an event that is not set, and one that is set.
pub data Ready : Type 0 where
  no_event waiting listening : Ready

abbrev pub is_ready : Ready → Bool
is_ready no_event = false
is_ready waiting = false
is_ready listening = true

-- (kind, identity)
abbrev pub CacheKey : Type 0
CacheKey = String × String

pub record Entry (Value : Type 0) : Type 0 where
  pub value : Value
  pub workspace_id : Option String
  pub expires : ℕ

pub record Cache (Value : Type 0) : Type 0 where
  pub entries : Dict CacheKey (Entry Value)
  pub generation : ℕ
  pub ready : Ready

-- entry.workspace_id in (None, workspace_id)
abbrev pub in_workspace : String → Option String → Bool
in_workspace workspace_id none = true
in_workspace workspace_id (some other) = other == workspace_id

-- How `get` goes on: with a value from the entries, with the loader's value as it comes, or with
-- the loader and then `finish`, for which the generation is kept.
pub data Lookup (Value : Type 0) : Type 0 where
  hit : Value → Lookup Value
  bypass : Lookup Value
  miss : (generation : ℕ) → Lookup Value

module _ {Value : Type 0} where
  unfoldable pub invalidate : Option String → Cache Value → Cache Value
  invalidate none cache = record {
    entries = [];
    generation = cache.generation + 1;
    ready = cache.ready;
  }
  invalidate (some workspace_id) cache = record {
    entries = keep (λ (_, entry). not (in_workspace workspace_id entry.workspace_id)) cache.entries;
    generation = cache.generation + 1;
    ready = cache.ready;
  }

  -- self.entries.move_to_end(key)
  unfoldable pub move_to_end :
      CacheKey → Entry Value → Dict CacheKey (Entry Value) → Dict CacheKey (Entry Value)
  move_to_end key entry entries = erase entries key ++ (key, entry) ∷ []

  unfoldable pub look_up :
      CacheKey → ℕ → Option (Entry Value) → Cache Value → Cache Value × Lookup Value
  unfolding move_to_end
  look_up key now none cache = (cache, miss cache.generation)
  look_up key now (some entry) cache =
      if ltb now entry.expires
      then (record cache { entries = move_to_end key entry cache.entries }, hit entry.value)
      else (record cache { entries = erase cache.entries key }, miss cache.generation)

  -- get, up to `await loader()`
  unfoldable pub begin : CacheKey → ℕ → Cache Value → Cache Value × Lookup Value
  unfolding look_up
  begin key now cache =
      if is_ready cache.ready
      then look_up key now (get cache.entries key) cache
      else (cache, bypass)

  -- `if len(self.entries) > MAX_ENTRIES: self.entries.popitem(last=False)`
  unfoldable pub evict : Dict CacheKey (Entry Value) → Dict CacheKey (Entry Value)
  evict entries = if ltb max_entries (length entries) then drop 1 entries else entries

  module _ (workspace_of : Value → Option String) where
    unfoldable pub store : CacheKey → Value → ℕ → Cache Value → Cache Value
    unfolding evict
    store key value now cache = record cache {
      entries = evict (
          put cache.entries key (record {
            value = value;
            workspace_id = workspace_of value;
            expires = now + ttl_seconds * ticks;
          }));
    }

    -- The test of `ready` behind the load: `none` where self.ready is None and the test raises.
    unfoldable pub store_ready :
        Ready → CacheKey → Option Value → ℕ → Cache Value → Option (Cache Value)
    unfolding store
    store_ready no_event key value now cache = none
    store_ready waiting key value now cache = some cache
    store_ready listening key none now cache = some cache
    store_ready listening key (some value) now cache = some (store key value now cache)

    -- get, behind `value = await loader()`, for the generation that stood before; the value is
    -- returned in each case.
    unfoldable pub finish : CacheKey → ℕ → Option Value → ℕ → Cache Value → Option (Cache Value)
    unfolding store_ready
    finish key generation value now cache =
        if nat_beq generation cache.generation
        then store_ready cache.ready key value now cache
        else some cache

  -- notice, with the payload of the notification: `payload or None`
  unfoldable pub notice : String → Cache Value → Cache Value
  unfolding invalidate
  notice payload cache = invalidate (if payload == "" then none else some payload) cache

  -- start, up to the task: `self.ready = asyncio.Event()`
  unfoldable pub start : Cache Value → Cache Value
  start cache = record cache { ready = waiting }

  -- listen, before and behind a connection: `self.ready.clear()` and `self.invalidate()`
  unfoldable pub disconnect : Cache Value → Cache Value
  unfolding invalidate
  disconnect cache = invalidate none (record cache { ready = waiting })

  -- listen, once the listener is added: `self.ready.set()`
  unfoldable pub connect : Cache Value → Cache Value
  connect cache = record cache { ready = listening }

  -- close, behind the task: `self.ready = None` and `self.invalidate()`
  unfoldable pub close : Cache Value → Cache Value
  unfolding invalidate
  close cache = invalidate none (record cache { ready = no_event })
