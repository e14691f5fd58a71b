-- ===== src/Cache/Examples.antt =====
-- A run of the cache: a lookup loads a value, and a second one finds it.
use zoo.Base.{
  arith, String, string_eq, pair_eq, ◌≡◌, refl, Option, none, some, List, [], ◌∷◌, true, false,
  keep, any, Bool-cases, inl, inr, ◌==◌, ==_iff, if◌then◌else◌, eq_of_some, ap,
}
use zoo.Base.Dict.{get, put, erase}
use zoo.Cache.{
  Cache, CacheKey, hit, begin, look_up, finish, store_ready, store, evict, move_to_end, waiting,
  listening, notice, invalidate, connect,
}
use zoo.Cache.Runs.{
  Load, Database, World, Reach, here, commit, Announced, ask, read, return, listen, set_ready,
}
use zoo.Cache.Coherent.{Fresh}
use zoo.Cache.Bound.{Small, Reach-Small}
use zoo.Cache.Fresh.{hit-Fresh, finish-returns}

-- A value is a sandbox's workspace and its name.
abbrev Sandbox : Type 0
Sandbox = String × String

abbrev owner : Sandbox → Option String
owner (workspace_id, name) = some workspace_id

abbrev box : CacheKey
box = ("sandbox", "s1")

abbrev stored_rows : Database Sandbox
stored_rows = record {
  held = λ key. if key == box then some ("w1", "box") else none;
  unannounced = [];
}

abbrev empty : Cache Sandbox
empty = record { entries = []; generation = 1; ready = waiting }

abbrev begun : World Sandbox
begun = record {
  cache = empty;
  now = 5;
  truth = stored_rows;
  sent = [];
  linked = false;
  loads = [];
}

abbrev filled : Cache Sandbox
filled = record {
  entries =
      (box, record { value = ("w1", "box"); workspace_id = some "w1"; expires = 30_000_000_005 })
      ∷ [];
  generation = 1;
  ready = listening;
}

abbrev loading : List (Load Sandbox)
loading = record { key = box; generation = 1; read = none } ∷ []

abbrev loaded : World Sandbox
loaded = record {
  cache = filled;
  now = 5;
  truth = stored_rows;
  sent = [];
  linked = true;
  loads = [];
}

abbrev asked : World Sandbox
asked = record {
  cache = record { entries = []; generation = 1; ready = listening };
  now = 5;
  truth = stored_rows;
  sent = [];
  linked = true;
  loads = loading;
}

asked_reached : Reach owner begun asked
unfolding begin look_up get connect
asked_reached =
    Reach.then (Reach.then (Reach.then here (listen refl)) (set_ready refl refl))
      (ask box (record { entries = []; generation = 1; ready = listening }) 1 refl)

loaded_reached : Reach owner begun loaded
unfolding finish store_ready store evict put
loaded_reached =
    Reach.then
      (Reach.then asked_reached
        (read [] [] (record { key = box; generation = 1; read = none }) refl))
      (return [] [] (record { key = box; generation = 1; read = some (some ("w1", "box")) })
        (some ("w1", "box")) filled refl refl refl)

notice_run : (notice "w2" filled).entries ≡ filled.entries
unfolding notice invalidate keep
notice_run = refl

hit_run : begin box 5 filled ≡ (filled, hit ("w1", "box"))
unfolding begin look_up get move_to_end erase
hit_run = refl

-- A commit that renames the sandbox and sends no notification.
abbrev renamed_rows : Database Sandbox
renamed_rows = record {
  held = λ key. if key == box then some ("w1", "new") else none;
  unannounced = box ∷ [];
}

abbrev renamed : World Sandbox
renamed = record loaded { truth = renamed_rows }

renamed_rows-Announced : Announced owner stored_rows.held renamed_rows.held [] (box ∷ [])
unfolding any
renamed_rows-Announced key value h = elim (Bool-cases (key == box)) [
  | inl same ↦ inr (inr (rw ((==_iff key box).0 same) refl))
  | inr other ↦ let h' = rw other at h in cc
]

renamed_reached : Reach owner begun renamed
unfolding any
renamed_reached = Reach.then loaded_reached (
    commit renamed_rows.held [] (box ∷ []) renamed_rows-Announced (
      (
        ("w1", "box"),
        refl,
        (λ e. let b = ap (λ (p : Sandbox). p.1 == "box") (eq_of_some e) in cc),
        refl,
      ),
      tt,
    ))

-- The hit returns what was loaded before the commit.
hit-Fresh_example : Fresh owner renamed_rows [] box ("w1", "box")
hit-Fresh_example =
    hit-Fresh owner begun renamed box filled ("w1", "box") (refl, refl) renamed_reached refl hit_run

finish-returns_example :
    (cache : Cache Sandbox) × (finish owner box 1 (some ("w1", "box")) 5 asked.cache ≡ some cache)
finish-returns_example =
    finish-returns owner begun asked (record { key = box; generation = 1; read = none }) [] []
      (some ("w1", "box")) (refl, refl) asked_reached refl

Reach-Small_example : Small loaded.cache
Reach-Small_example = Reach-Small owner begun loaded loaded_reached (omega arith)
