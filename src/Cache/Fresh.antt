-- ===== src/Cache/Fresh.antt =====
-- The cache stays coherent over every run, so that a hit is fresh and a load can end.
use zoo.Base.{
  ◌≡◌, inl, inr, refl, sym, ◌∙◌, ap, subst, String, string_eq, pair_eq, true, false, Option, some,
  List, [], ◌∷◌, ◌++◌, arith, Each, Each-middle,
}
use zoo.Cache.{
  Cache, CacheKey, hit, miss, begin, finish, invalidate, notice, start, connect, disconnect, close,
  is_ready,
}
use zoo.Base.Dict.{get-Each}
use zoo.Cache.Cases.{begin_cases, finish_some}
use zoo.Cache.Runs.{
  Load, World, Step, tick, answer, ask, read, return, drop_load, commit, hear, break, reset, listen,
  set_ready, begin_task, end_task, Reach, here, then,
}
use zoo.Cache.Coherent.{Fresh, Right, Coherent, outdated, entries_behind, generation_behind}
use zoo.Cache.Steps.{
  Coherent-begin, Coherent-ask, ask_generation, Coherent-read, Coherent-drop, Coherent-finish,
  load_fresh, Coherent-commit, Coherent-renew,
}

module _ {Value : Type 0} (workspace_of : Value → Option String) where
  Coherent-hear :
      (w : World Value) (payload : String) (rest : List String)
      → w.linked ≡ true
      → w.sent ≡ payload ∷ rest
      → Coherent workspace_of w
      → Coherent workspace_of (record w { cache = notice payload w.cache; sent = rest })
  Coherent-hear w payload rest up split c =
      let (eg, er, ee) = generation_behind workspace_of payload w.cache in
      let right =
        subst (λ s. Each (Right workspace_of w.truth s) w.cache.entries) split
          (c.entries_right up) in
      Coherent-renew workspace_of w (notice payload w.cache) rest w.linked eg
        (λ down. ee (c.quiet (sym (ap is_ready er) ∙ down)).0)
        (λ linked. entries_behind workspace_of w.truth payload rest w.cache right) c

  Coherent-step :
      (w v : World Value)
      → Step workspace_of w v
      → Coherent workspace_of w
      → Coherent workspace_of v
  unfolding disconnect close invalidate start connect
  Coherent-step w v (tick n) c = record {
    past = c.past;
    quiet = c.quiet;
    entries_right = c.entries_right;
    loads_right = c.loads_right;
  }
  Coherent-step w v (answer key cache found e) c = Coherent-begin workspace_of w key cache found e c
  Coherent-step w v (ask key cache generation e) c =
      let (same, ready) = ask_generation workspace_of w key cache generation e in
      Coherent-ask workspace_of (record w { cache = cache }) key generation same ready
        (Coherent-begin workspace_of w key cache (miss generation) e c)
  Coherent-step w v (read before after load split) c =
      Coherent-read workspace_of w before after load split c
  Coherent-step w v (return before after load value cache split got e) c =
      Coherent-drop workspace_of (record w { cache = cache }) before after load split
        (Coherent-finish workspace_of w load value cache
          (load_fresh workspace_of w before after load split c) got e c)
  Coherent-step w v (drop_load before after load split) c =
      Coherent-drop workspace_of w before after load split c
  Coherent-step w v (commit held payloads missed announced silent) c =
      Coherent-commit workspace_of w held payloads missed announced c
  Coherent-step w v (hear payload rest up split) c = Coherent-hear w payload rest up split c
  Coherent-step w v break c = record {
    past = c.past;
    quiet = c.quiet;
    entries_right = λ up. ground arith;
    loads_right = λ up. ground arith;
  }
  Coherent-step w v reset c =
      Coherent-renew workspace_of w (disconnect w.cache) [] false refl (λ down. refl) (λ up. tt) c
  Coherent-step w v (listen ready) c =
      let (empty, late) = c.quiet (ap is_ready ready) in
      record {
        past = c.past;
        quiet = c.quiet;
        entries_right = λ up. subst (Each _) (sym empty) tt;
        loads_right = λ up. outdated workspace_of w.truth [] w.cache.generation w.loads late;
      }
  Coherent-step w v (set_ready up ready) c = record {
    past = c.past;
    quiet = λ down. ground arith;
    entries_right = c.entries_right;
    loads_right = c.loads_right;
  }
  Coherent-step w v (begin_task ready) c = record {
    past = c.past;
    quiet = λ down. c.quiet (ap is_ready ready);
    entries_right = c.entries_right;
    loads_right = c.loads_right;
  }
  Coherent-step w v end_task c =
      Coherent-renew workspace_of w (close w.cache) [] false refl (λ down. refl) (λ up. tt) c

  Reach-Coherent :
      (start w : World Value)
      → Reach workspace_of start w
      → Coherent workspace_of start
      → Coherent workspace_of w
  Reach-Coherent start w here c = c
  Reach-Coherent start w (then {w = u} r step) c =
      Coherent-step u w step (Reach-Coherent start u r c)

  -- A cache as `Cache()` makes it, before any lookup.
  abbrev pub Initial : World Value → Type 0
  Initial w = (w.cache.entries ≡ []) × (w.loads ≡ [])

  Initial-Coherent : (w : World Value) → Initial w → Coherent workspace_of w
  Initial-Coherent w (empty, none_yet) = record {
    past = subst (Each _) (sym none_yet) tt;
    quiet = λ down. (empty, subst (Each _) (sym none_yet) tt);
    entries_right = λ up. subst (Each _) (sym empty) tt;
    loads_right = λ up. subst (Each _) (sym none_yet) tt;
  }

  -- Over any interleaving of lookups, loads, commits, notifications and losses of the connection,
  -- from a cache without entries or loads: while the listener's connection is up, a hit returns what
  -- the database holds for the key, or a notification that drops the value is on its way, or some
  -- commit has changed what the database holds for the key and sent no notification that names the
  -- workspace of the value it changed.
  pub hit-Fresh :
      (start w : World Value) (key : CacheKey) (cache : Cache Value) (value : Value)
      → Initial start
      → Reach workspace_of start w
      → w.linked ≡ true
      → begin key w.now w.cache ≡ (cache, hit value)
      → Fresh workspace_of w.truth w.sent key value
  hit-Fresh start w key cache value init r up e =
      let c = Reach-Coherent start w r (Initial-Coherent start init) in
      elim (begin_cases key w.now w.cache cache (hit value) e) [
        | inl (down, same, f) ↦ ground arith
        | inr (ready, inr (same, f)) ↦ ground arith
        | inr (ready, inl (entry, g, moved, f)) ↦
            let (tag, fresh) =
              get-Each (Right workspace_of w.truth w.sent) w.cache.entries key entry
                (c.entries_right up) g in
            let ev : entry.value ≡ value = cc in
            subst (Fresh workspace_of w.truth w.sent key) ev fresh
      ]

  -- Over any interleaving of lookups, loads, commits, notifications and losses of the connection, from a cache without
  -- entries or loads, the end of a load that waits never meets a cache without an event
  -- while its generation is still that of the load: `self.ready.is_set()` does not raise.
  pub finish-returns :
      (start w : World Value) (load : Load Value) (before after : List (Load Value))
      (value : Option Value)
      → Initial start
      → Reach workspace_of start w
      → w.loads ≡ before ++ load ∷ after
      → (cache : Cache Value) × (finish workspace_of load.key load.generation value w.now w.cache
          ≡ some cache)
  finish-returns start w load before after value init r split =
      let c = Reach-Coherent start w r (Initial-Coherent start init) in
      finish_some workspace_of load.key load.generation value w.now w.cache
        (λ down. Each-middle _ before after load (subst (Each _) split (c.quiet down).1))
