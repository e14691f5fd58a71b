-- ===== src/Cache/Bound.antt =====
-- The cache never grows past its limit.
use zoo.Base.{
  ℕ, ◌+◌, ◌≤◌, ◌<◌, ◌≡◌, sym, subst, String, string_eq, pair_eq, ◌==◌, Option, none, some, [], ◌∷◌,
  arith, length, length-append, length-keep, length-drop, ◌*◌, inl, inr, Bool-cases,
}
use zoo.Base.Dict.{Dict, get, put, erase, length-put, length-erase}
use zoo.Cache.{
  Cache, CacheKey, Entry, Lookup, begin, finish, store, evict, move_to_end, invalidate, notice,
  start, connect, disconnect, close, max_entries, ttl_seconds, ticks,
}
use zoo.Cache.Cases.{begin_cases, finish_cases}
use zoo.Cache.Runs.{
  World, Step, tick, answer, ask, read, return, drop_load, commit, hear, break, reset, listen,
  set_ready, begin_task, end_task, Reach, here, then,
}

module _ {Value : Type 0} where
  length-erase_lt :
      (d : Dict CacheKey (Entry Value)) (key : CacheKey) (entry : Entry Value)
      → get d key ≡ some entry
      → length (erase d key) < length d
  unfolding get erase
  length-erase_lt [] key entry found = ground arith
  length-erase_lt ((k, e) ∷ d) key entry found = elim (Bool-cases (k == key)) [
    | inl same ↦ rw same (omega (arith, length-erase d key))
    | inr other ↦
        let found' : get d key ≡ some entry = ground arith in
        rw other (omega (arith, length-erase_lt d key entry found'))
  ]

  abbrev pub Small : Cache Value → Type 0
  Small cache = length cache.entries ≤ max_entries

  Small-begin :
      (key : CacheKey) (now : ℕ) (cache after : Cache Value) (found : Lookup Value)
      → begin key now cache ≡ (after, found)
      → Small cache
      → Small after
  unfolding move_to_end
  Small-begin key now cache after found e s = elim (begin_cases key now cache after found e) [
    | inl (down, same, f) ↦ subst Small (sym same) s
    | inr (up, inl (entry, g, moved, f)) ↦ subst Small (sym moved) (
        omega (
          arith,
          s,
          length-erase_lt cache.entries key entry g,
          length-append (erase cache.entries key) ((key, entry) ∷ []),
        ))
    | inr (up, inr (inl same, f)) ↦ subst Small (sym same) s
    | inr (up, inr (inr gone, f)) ↦
        subst Small (sym gone) (omega (arith, s, length-erase cache.entries key))
  ]

  length-evict :
      (entries : Dict CacheKey (Entry Value))
      → length entries ≤ max_entries + 1
      → length (evict entries) ≤ max_entries
  unfolding evict
  length-evict entries le = ground (arith, length-drop 1 entries)

  Small-invalidate :
      (workspace_id : Option String) (cache : Cache Value)
      → Small cache
      → Small (invalidate workspace_id cache)
  unfolding invalidate
  Small-invalidate none cache s = omega arith
  Small-invalidate (some w) cache s = omega (arith, s, length-keep _ cache.entries)

module _ {Value : Type 0} (workspace_of : Value → Option String) where
  Small-finish :
      (key : CacheKey) (generation : ℕ) (value : Option Value) (now : ℕ) (cache after : Cache Value)
      → finish workspace_of key generation value now cache ≡ some after
      → Small cache
      → Small after
  unfolding store
  Small-finish key generation value now cache after e s =
      elim (finish_cases workspace_of key generation value now cache after e) [
        | inl same ↦ subst Small (sym same) s
        | inr (v, ev, eg, up, stored) ↦
            let entry : Entry Value = record {
              value = v;
              workspace_id = workspace_of v;
              expires = now + ttl_seconds * ticks;
            } in
            subst Small (sym stored) (
              length-evict (put cache.entries key entry)
                (omega (arith, s, length-put cache.entries key entry)))
      ]

  Small-step : (w v : World Value) → Step workspace_of w v → Small w.cache → Small v.cache
  unfolding notice disconnect close start connect
  Small-step w v (tick n) s = s
  Small-step w v (answer key cache found e) s = Small-begin key w.now w.cache cache found e s
  Small-step w v (ask key cache generation e) s = Small-begin key w.now w.cache cache _ e s
  Small-step w v (read before after load split) s = s
  Small-step w v (return before after load value cache split got e) s =
      Small-finish load.key load.generation value w.now w.cache cache e s
  Small-step w v (drop_load before after load split) s = s
  Small-step w v (commit held payloads missed announced silent) s = s
  Small-step w v (hear payload rest up split) s = Small-invalidate _ w.cache s
  Small-step w v break s = s
  Small-step w v reset s = Small-invalidate none w.cache s
  Small-step w v (listen ready) s = s
  Small-step w v (set_ready up ready) s = s
  Small-step w v (begin_task ready) s = s
  Small-step w v end_task s = Small-invalidate none w.cache s

  -- Over any run from a cache of at most max_entries entries, the cache has at most so many.
  pub Reach-Small :
      (begun w : World Value) → Reach workspace_of begun w → Small begun.cache → Small w.cache
  Reach-Small begun w here s = s
  Reach-Small begun w (then {w = u} r step) s = Small-step u w step (Reach-Small begun u r s)
