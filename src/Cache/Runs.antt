-- ===== src/Cache/Runs.antt =====
-- The event loop around the cache: lookups that wait for their loaders, commits of the database and
-- their notifications, and the listener's connection, as interleaved steps.
--
-- A commit changes what the database holds for any number of keys, and sends any number of
-- notifications, which are lost unless the listener's connection is up. For each key whose value it
-- changes, either one of its notifications names the workspace of the old value, or the key is one
-- of those that the commit changes unannounced. The triggers of db/migrations make some commits of
-- the first kind; users and the secrets of a sandbox have no trigger, and that of sandboxes skips
-- changes of some columns, so that commits on these are of the second.
use zoo.Base.{
  ℕ, ◌+◌, ◌≡◌, String, string_eq, pair_eq, ◌==◌, Bool, true, false, Option, none, some, List, [],
  ◌∷◌, ◌++◌, if◌then◌else◌, any, ◌⊎◌, Each,
}
use zoo.Cache.{
  Cache, CacheKey, Lookup, miss, begin, finish, notice, start, connect, disconnect, close,
  in_workspace, no_event, waiting,
}

-- A lookup that waits for its loader: the generation it keeps, and what its loader has read.
pub record Load (Value : Type 0) : Type 0 where
  pub key : CacheKey
  pub generation : ℕ
  pub read : Option (Option Value)

pub record Database (Value : Type 0) : Type 0 where
  -- what a loader reads for a key now
  pub held : CacheKey → Option Value
  -- the keys that some commit has changed without a notification that names the workspace
  pub unannounced : List CacheKey

pub record World (Value : Type 0) : Type 0 where
  pub cache : Cache Value
  pub now : ℕ
  pub truth : Database Value
  -- the notifications sent and not yet received, as their payloads
  pub sent : List String
  -- whether the listener's connection is up
  pub linked : Bool
  pub loads : List (Load Value)

-- A payload under which `notice` drops the entries of a workspace.
abbrev pub reaches : String → Option String → Bool
reaches payload owner = if payload == "" then true else in_workspace payload owner

module _ {Value : Type 0} (workspace_of : Value → Option String) where
  -- What becomes of a value that the database holds before a commit: it stays, or a notification
  -- reaches it, or the commit changes its key unannounced.
  abbrev pub Announced :
      (held held' : CacheKey → Option Value) (payloads : List String) (missed : List CacheKey)
      → Type 0
  Announced held held' payloads missed =
      (key : CacheKey) (value : Value)
      → held key ≡ some value
      → (held' key ≡ some value)
        ⊎ (any (λ p. reaches p (workspace_of value)) payloads ≡ true)
        ⊎ (any (λ k. k == key) missed ≡ true)

  -- The commit changes a value, and no notification of it reaches that value.
  abbrev pub IsMissed :
      (held held' : CacheKey → Option Value) (payloads : List String) → CacheKey → Type 0
  IsMissed held held' payloads key =
      (value : Value) × (held key ≡ some value)
      × ¬ (held' key ≡ some value)
      × (any (λ p. reaches p (workspace_of value)) payloads ≡ false)

  pub data Step (w : World Value) : World Value → Type 0 where
    tick : (n : ℕ) → Step w (record w { now = w.now + n })
    -- a lookup that is answered at once
    answer :
        (key : CacheKey) (cache : Cache Value) (found : Lookup Value)
        → begin key w.now w.cache ≡ (cache, found)
        → Step w (record w { cache = cache })
    -- a lookup that goes to its loader
    ask :
        (key : CacheKey) (cache : Cache Value) (generation : ℕ)
        → begin key w.now w.cache ≡ (cache, miss generation)
        → Step w (record w {
          cache = cache;
          loads = record { key = key; generation = generation; read = none } ∷ w.loads;
        })
    -- a loader reads the database
    read :
        (before after : List (Load Value)) (load : Load Value)
        → w.loads ≡ before ++ load ∷ after
        → Step w (record w {
          loads = before ++ (record load { read = some (w.truth.held load.key) }) ∷ after;
        })
    -- a loader has returned what it read
    return :
        (before after : List (Load Value)) (load : Load Value) (value : Option Value)
        (cache : Cache Value)
        → w.loads ≡ before ++ load ∷ after
        → load.read ≡ some value
        → finish workspace_of load.key load.generation value w.now w.cache ≡ some cache
        → Step w (record w { cache = cache; loads = before ++ after })
    -- a loader has raised
    drop_load :
        (before after : List (Load Value)) (load : Load Value)
        → w.loads ≡ before ++ load ∷ after
        → Step w (record w { loads = before ++ after })
    -- a commit
    commit :
        (held : CacheKey → Option Value) (payloads : List String) (missed : List CacheKey)
        → Announced w.truth.held held payloads missed
        → Each (IsMissed w.truth.held held payloads) missed
        → Step w (record w {
          truth = record { held = held; unannounced = missed ++ w.truth.unannounced };
          sent = w.sent ++ payloads;
        })
    -- the first notification arrives
    hear :
        (payload : String) (rest : List String)
        → w.linked ≡ true
        → w.sent ≡ payload ∷ rest
        → Step w (record w { cache = notice payload w.cache; sent = rest })
    -- the connection breaks, and with it the notifications on their way
    break : Step w (record w { linked = false; sent = [] })
    -- listen has seen that, or is at its start
    reset : Step w (record w { cache = disconnect w.cache; linked = false; sent = [] })
    -- listen adds the listener to a fresh connection; the event is not set
    listen : w.cache.ready ≡ waiting → Step w (record w { linked = true; sent = [] })
    -- listen sets the event
    set_ready :
        w.linked ≡ true → w.cache.ready ≡ waiting → Step w (record w { cache = connect w.cache })
    -- start and close
    begin_task : w.cache.ready ≡ no_event → Step w (record w { cache = start w.cache })
    end_task : Step w (record w { cache = close w.cache; linked = false; sent = [] })

  pub data Reach (start : World Value) : World Value → Type 0 where
    here : Reach start start
    then : {w v : World Value} → Reach start w → Step w v → Reach start v
