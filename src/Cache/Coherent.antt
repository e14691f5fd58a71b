-- ===== src/Cache/Coherent.antt =====
-- What the cache answers with against what the database holds.
use zoo.Base.{
  ℕ, ◌+◌, ◌*◌, ◌≤◌, ◌<◌, ◌≡◌, ◌⊎◌, inl, inr, refl, sym, ◌∙◌, ap, subst, String, string_eq, pair_eq,
  ◌==◌, Bool, true, false, not, Option, some, List, [], ◌∷◌, ◌++◌, arith, any, Each, Each-append,
  keep-Each, length, Bool-cases, ltb, keep, ◌||◌,
}
use zoo.Base.Dict.{Dict, erase, get-Each, put-Each, erase-Each}
use zoo.Cache.{
  Cache, CacheKey, Entry, Lookup, begin, move_to_end, evict, store, finish, invalidate, notice,
  is_ready, in_workspace, max_entries, ticks, ttl_seconds,
}
use zoo.Cache.Cases.{begin_cases, finish_cases}
use zoo.Cache.Runs.{Load, World, reaches, Database, Announced}

module _ {Value : Type 0} (workspace_of : Value → Option String) where
  -- The database holds the value for the key, or a notification that drops it is on its way, or a
  -- commit has changed the key unannounced.
  abbrev pub Fresh : Database Value → List String → CacheKey → Value → Type 0
  Fresh truth sent key value =
      (truth.held key ≡ some value)
      ⊎ (any (λ p. reaches p (workspace_of value)) sent ≡ true)
      ⊎ (any (λ k. k == key) truth.unannounced ≡ true)

  abbrev pub Right : Database Value → List String → CacheKey × Entry Value → Type 0
  Right truth sent (key, entry) =
      (entry.workspace_id ≡ workspace_of entry.value) × Fresh truth sent key entry.value

  -- What a load would store, if `finish` stored it now.
  abbrev pub Awaits : Database Value → List String → ℕ → Load Value → Type 0
  Awaits truth sent generation load =
      load.generation ≡ generation
      → (value : Value) → load.read ≡ some (some value)
      → Fresh truth sent load.key value

  abbrev pub Quiet : Cache Value → List (Load Value) → Type 0
  Quiet cache loads =
      is_ready cache.ready ≡ false
      → (cache.entries ≡ []) × Each (λ load. load.generation < cache.generation) loads

  pub record Coherent (w : World Value) : Type 0 where
    pub past : Each (λ load. load.generation ≤ w.cache.generation) w.loads
    pub quiet : Quiet w.cache w.loads
    pub entries_right : w.linked ≡ true → Each (Right w.truth w.sent) w.cache.entries
    pub loads_right : w.linked ≡ true → Each (Awaits w.truth w.sent w.cache.generation) w.loads

  any-append :
      {A : Type 0} (p : A → Bool) (xs ys : List A) → any p (xs ++ ys) ≡ any p xs || any p ys
  unfolding any
  any-append p [] ys = refl
  any-append p (x ∷ xs) ys = ground (arith, any-append p xs ys)

  pub Fresh-commit :
      (truth : Database Value) (sent : List String) (held : CacheKey → Option Value)
      (payloads : List String) (missed : List CacheKey) (key : CacheKey) (value : Value)
      → Announced workspace_of truth.held held payloads missed
      → Fresh truth sent key value
      → Fresh
          (record { held = held; unannounced = missed ++ truth.unannounced })
          (sent ++ payloads)
          key
          value
  Fresh-commit truth sent held payloads missed key value announced fresh =
      let reached = any-append (λ p. reaches p (workspace_of value)) sent payloads in
      let marked = any-append (λ k. k == key) missed truth.unannounced in
      elim fresh [
        | inr (inl h) ↦ inr (inl (reached ∙ ground arith))
        | inr (inr h) ↦ inr (inr (marked ∙ ground arith))
        | inl h ↦ elim (announced key value h) [
          | inl same ↦ inl same
          | inr (inl n) ↦ inr (inl (reached ∙ ground arith))
          | inr (inr m) ↦ inr (inr (marked ∙ ground arith))
        ]
      ]

  Right-hear :
      (truth : Database Value) (payload : String) (rest : List String)
      (item : CacheKey × Entry Value)
      → reaches payload item.1.workspace_id ≡ false
      → Right truth (payload ∷ rest) item
      → Right truth rest item
  unfolding any
  Right-hear truth payload rest item kept (tag, inl h) = (tag, inl h)
  Right-hear truth payload rest item kept (tag, inr (inr h)) = (tag, inr (inr h))
  Right-hear truth payload rest item kept (tag, inr (inl h)) =
      let kept' = subst (λ o. reaches payload o ≡ false) tag kept in (tag, inr (inl (ground arith)))

  -- No load waits at the generation that an invalidation makes.
  pub outdated :
      (truth : Database Value) (sent : List String) (generation : ℕ) (loads : List (Load Value))
      → Each (λ load. load.generation < generation) loads
      → Each (Awaits truth sent generation) loads
  outdated truth sent generation [] h = tt
  outdated truth sent generation (load ∷ loads) h =
      (λ e. ground arith, outdated truth sent generation loads h.1)

  unreached :
      (payload : String) (owner : Option String)
      → (payload == "") ≡ false
      → not (in_workspace payload owner) ≡ true
      → reaches payload owner ≡ false
  unreached payload owner one kept = rw one (ground arith)

  -- An invalidation keeps what it must, and no load may store behind it.
  pub entries_behind :
      (truth : Database Value) (payload : String) (rest : List String) (cache : Cache Value)
      → Each (Right truth (payload ∷ rest)) cache.entries
      → Each (Right truth rest) (notice payload cache).entries
  unfolding notice invalidate
  entries_behind truth payload rest cache h = elim (Bool-cases (payload == "")) [
    | inl all ↦ rw all tt
    | inr one ↦ rw one (
        keep-Each (λ item. not (in_workspace payload item.1.workspace_id))
          (λ item kept r. Right-hear truth payload rest item (unreached payload _ one kept) r)
          cache.entries h)
  ]

  pub generation_behind :
      (payload : String) (cache : Cache Value)
      → ((notice payload cache).generation ≡ cache.generation + 1)
        × ((notice payload cache).ready ≡ cache.ready)
        × (cache.entries ≡ [] → (notice payload cache).entries ≡ [])
  unfolding notice invalidate keep
  generation_behind payload cache = elim (Bool-cases (payload == "")) [
    | inl all ↦ rw all (refl, refl, λ e. refl)
    | inr one ↦ rw one (refl, refl, λ e. rw e refl)
  ]

  pub earlier :
      (generation : ℕ) (loads : List (Load Value))
      → Each (λ load. load.generation ≤ generation) loads
      → Each (λ load. load.generation < generation + 1) loads
  earlier generation [] h = tt
  earlier generation (load ∷ loads) h = (omega (arith, h.0), earlier generation loads h.1)

  evict-Each :
      (P : CacheKey × Entry Value → Type 0) (entries : Dict CacheKey (Entry Value))
      → Each P entries
      → Each P (evict entries)
  unfolding evict
  evict-Each P [] h = tt
  evict-Each P (x ∷ entries) h = elim (Bool-cases (ltb max_entries (length (x ∷ entries)))) [
    | inl full ↦ rw full h.1
    | inr room ↦ rw room h
  ]

  move_to_end-Each :
      (P : CacheKey × Entry Value → Type 0) (key : CacheKey) (entry : Entry Value)
      (entries : Dict CacheKey (Entry Value))
      → Each P entries
      → P (key, entry)
      → Each P (move_to_end key entry entries)
  unfolding move_to_end
  move_to_end-Each P key entry entries h new =
      Each-append P (erase entries key) ((key, entry) ∷ []) (erase-Each P entries key h) (new, tt)

  pub begin-Each :
      (P : CacheKey × Entry Value → Type 0) (key : CacheKey) (now : ℕ) (cache after : Cache Value)
      (found : Lookup Value)
      → begin key now cache ≡ (after, found)
      → Each P cache.entries
      → Each P after.entries
  begin-Each P key now cache after found e h = elim (begin_cases key now cache after found e) [
    | inl (down, same, f) ↦ subst (λ c. Each P c.entries) (sym same) h
    | inr (up, inl (entry, g, moved, f)) ↦
        subst (λ c. Each P c.entries) (sym moved)
          (move_to_end-Each P key entry cache.entries h (get-Each P cache.entries key entry h g))
    | inr (up, inr (inl same, f)) ↦ subst (λ c. Each P c.entries) (sym same) h
    | inr (up, inr (inr gone, f)) ↦
        subst (λ c. Each P c.entries) (sym gone) (erase-Each P cache.entries key h)
  ]

  -- A change of the cache that keeps its generation and event, and its entries while not ready.
  abbrev pub Calm : Cache Value → Cache Value → Type 0
  Calm cache after =
      (after.generation ≡ cache.generation)
      × (after.ready ≡ cache.ready)
      × (is_ready cache.ready ≡ false → after.entries ≡ cache.entries)

  pub begin-Calm :
      (key : CacheKey) (now : ℕ) (cache after : Cache Value) (found : Lookup Value)
      → begin key now cache ≡ (after, found)
      → Calm cache after
  begin-Calm key now cache after found e = elim (begin_cases key now cache after found e) [
    | inl (down, same, f) ↦ subst (Calm cache) (sym same) (refl, refl, λ d. refl)
    | inr (up, inl (entry, g, moved, f)) ↦
        subst (Calm cache) (sym moved) (refl, refl, λ d. ground arith)
    | inr (up, inr (inl same, f)) ↦ subst (Calm cache) (sym same) (refl, refl, λ d. refl)
    | inr (up, inr (inr gone, f)) ↦ subst (Calm cache) (sym gone) (refl, refl, λ d. ground arith)
  ]

  pub finish-Calm :
      (key : CacheKey) (generation : ℕ) (value : Option Value) (now : ℕ) (cache after : Cache Value)
      → finish workspace_of key generation value now cache ≡ some after
      → Calm cache after
  unfolding store
  finish-Calm key generation value now cache after e =
      elim (finish_cases workspace_of key generation value now cache after e) [
        | inl same ↦ subst (Calm cache) (sym same) (refl, refl, λ d. refl)
        | inr (v, ev, eg, up, stored) ↦
            subst (Calm cache) (sym stored) (refl, refl, λ d. ground arith)
      ]

  pub finish-Each :
      (P : CacheKey × Entry Value → Type 0) (key : CacheKey) (generation : ℕ) (value : Option Value)
      (now : ℕ) (cache after : Cache Value)
      → finish workspace_of key generation value now cache ≡ some after
      → Each P cache.entries
      → ((v : Value)
          → generation ≡ cache.generation
          → value ≡ some v
          → P (
            key,
            record {
              value = v;
              workspace_id = workspace_of v;
              expires = now + ttl_seconds * ticks;
            },
          ))
      → Each P after.entries
  unfolding store
  finish-Each P key generation value now cache after e h new =
      elim (finish_cases workspace_of key generation value now cache after e) [
        | inl same ↦ subst (λ c. Each P c.entries) (sym same) h
        | inr (v, ev, eg, up, stored) ↦
            subst (λ c. Each P c.entries) (sym stored)
              (evict-Each P _ (put-Each P cache.entries key _ h (new v eg ev)))
      ]

  pub Quiet-Calm :
      (cache after : Cache Value) (loads : List (Load Value))
      → Calm cache after
      → Quiet cache loads
      → Quiet after loads
  Quiet-Calm cache after loads (eg, er, same) q down =
      let down' : is_ready cache.ready ≡ false = sym (ap is_ready er) ∙ down in
      let (empty, late) = q down' in
      (same down' ∙ empty, subst (λ g. Each (λ load. load.generation < g) loads) (sym eg) late)
