-- ===== src/Cache/Steps.antt =====
-- What each kind of step does to a coherent cache.
use zoo.Base.{
  ℕ, ◌+◌, ◌≤◌, ◌<◌, ◌≡◌, ◌⊎◌, inl, inr, refl, sym, ◌∙◌, ap, subst, String, string_eq, pair_eq, Bool,
  true, false, Option, none, some, List, [], ◌∷◌, ◌++◌, arith, Each, Each-imp, Each-middle,
  Each-without, Each-replace, eq_of_some, Bool-cases,
}
use zoo.Cache.{Cache, CacheKey, Entry, Lookup, miss, begin, finish, is_ready}
use zoo.Cache.Cases.{begin_cases}
use zoo.Cache.Runs.{Load, World, Database, Announced}
use zoo.Cache.Coherent.{
  Fresh, Right, Awaits, Coherent, Fresh-commit, outdated, earlier, begin-Each, begin-Calm,
  finish-Calm, finish-Each, Quiet-Calm,
}

module _ {Value : Type 0} (workspace_of : Value → Option String) where
  pub Coherent-begin :
      (w : World Value) (key : CacheKey) (cache : Cache Value) (found : Lookup Value)
      → begin key w.now w.cache ≡ (cache, found)
      → Coherent workspace_of w
      → Coherent workspace_of (record w { cache = cache })
  Coherent-begin w key cache found e c =
      let calm = begin-Calm workspace_of key w.now w.cache cache found e in
      record {
        past = subst (λ g. Each (λ load. load.generation ≤ g) w.loads) (sym calm.0) c.past;
        quiet = Quiet-Calm workspace_of w.cache cache w.loads calm c.quiet;
        entries_right = λ up.
            begin-Each workspace_of (Right workspace_of w.truth w.sent) key w.now w.cache cache
              found e (c.entries_right up);
        loads_right = λ up.
            subst (λ g. Each (Awaits workspace_of w.truth w.sent g) w.loads) (sym calm.0)
              (c.loads_right up);
      }

  -- A load that begins has the cache's generation, has read nothing, and finds the cache ready.
  pub Coherent-ask :
      (w : World Value) (key : CacheKey) (generation : ℕ)
      → generation ≡ w.cache.generation
      → is_ready w.cache.ready ≡ true
      → Coherent workspace_of w
      → Coherent workspace_of (record w {
        loads = record { key = key; generation = generation; read = none } ∷ w.loads;
      })
  Coherent-ask w key generation same ready c = record {
    past = (omega (arith, same), c.past);
    quiet = λ down. ground arith;
    entries_right = c.entries_right;
    loads_right = λ up. (λ e v got. ground arith, c.loads_right up);
  }

  pub ask_generation :
      (w : World Value) (key : CacheKey) (cache : Cache Value) (generation : ℕ)
      → begin key w.now w.cache ≡ (cache, miss generation)
      → (generation ≡ cache.generation) × (is_ready cache.ready ≡ true)
  ask_generation w key cache generation e =
      let calm = begin-Calm workspace_of key w.now w.cache cache (miss generation) e in
      elim (begin_cases key w.now w.cache cache (miss generation) e) [
        | inl (down, same, f) ↦ ground arith
        | inr (up, inl (entry, g, moved, f)) ↦ ground arith
        | inr (up, inr (same, f)) ↦
            let eg : generation ≡ w.cache.generation = cc in
            (eg ∙ sym calm.0, ap is_ready calm.1 ∙ up)
      ]

  pub Coherent-read :
      (w : World Value) (before after : List (Load Value)) (load : Load Value)
      → w.loads ≡ before ++ load ∷ after
      → Coherent workspace_of w
      → Coherent workspace_of (record w {
        loads = before ++ (record load { read = some (w.truth.held load.key) }) ∷ after;
      })
  Coherent-read w before after load split c =
      let past' = subst (Each _) split c.past in
      record {
        past = Each-replace _ before after load _ past' (Each-middle _ before after load past');
        quiet = λ down.
            let (empty, late) = c.quiet down in
            let late' = subst (Each (λ l. l.generation < w.cache.generation)) split late in
            (
              empty,
              Each-replace _ before after load _ late' (Each-middle _ before after load late'),
            );
        entries_right = c.entries_right;
        loads_right = λ up.
            Each-replace _ before after load _ (subst (Each _) split (c.loads_right up))
              (λ e v got. inl (eq_of_some got));
      }

  pub Coherent-drop :
      (w : World Value) (before after : List (Load Value)) (load : Load Value)
      → w.loads ≡ before ++ load ∷ after
      → Coherent workspace_of w
      → Coherent workspace_of (record w { loads = before ++ after })
  Coherent-drop w before after load split c = record {
    past = Each-without _ before after load (subst (Each _) split c.past);
    quiet = λ down.
        let (empty, late) = c.quiet down in
        (empty, Each-without _ before after load (subst (Each _) split late));
    entries_right = c.entries_right;
    loads_right = λ up. Each-without _ before after load (subst (Each _) split (c.loads_right up));
  }

  pub Coherent-finish :
      (w : World Value) (load : Load Value) (value : Option Value) (cache : Cache Value)
      → Awaits workspace_of w.truth w.sent w.cache.generation load ⊎ (w.linked ≡ false)
      → load.read ≡ some value
      → finish workspace_of load.key load.generation value w.now w.cache ≡ some cache
      → Coherent workspace_of w
      → Coherent workspace_of (record w { cache = cache })
  Coherent-finish w load value cache awaits got e c =
      let calm = finish-Calm workspace_of load.key load.generation value w.now w.cache cache e in
      record {
        past = subst (λ g. Each (λ load. load.generation ≤ g) w.loads) (sym calm.0) c.past;
        quiet = Quiet-Calm workspace_of w.cache cache w.loads calm c.quiet;
        entries_right = λ up.
            finish-Each workspace_of (Right workspace_of w.truth w.sent) load.key load.generation
              value w.now w.cache cache e (c.entries_right up)
              (λ v eg ev. elim awaits [
                | inl fresh ↦ (refl, fresh eg v (got ∙ ap some ev))
                | inr lost ↦ ground arith
              ]);
        loads_right = λ up.
            subst (λ g. Each (Awaits workspace_of w.truth w.sent g) w.loads) (sym calm.0)
              (c.loads_right up);
      }

  pub load_fresh :
      (w : World Value) (before after : List (Load Value)) (load : Load Value)
      → w.loads ≡ before ++ load ∷ after
      → Coherent workspace_of w
      → Awaits workspace_of w.truth w.sent w.cache.generation load ⊎ (w.linked ≡ false)
  load_fresh w before after load split c = elim (Bool-cases w.linked) [
    | inl up ↦ inl (Each-middle _ before after load (subst (Each _) split (c.loads_right up)))
    | inr down ↦ inr down
  ]

  pub Coherent-commit :
      (w : World Value) (held : CacheKey → Option Value) (payloads : List String)
      (missed : List CacheKey)
      → Announced workspace_of w.truth.held held payloads missed
      → Coherent workspace_of w
      → Coherent workspace_of (record w {
        truth = record { held = held; unannounced = missed ++ w.truth.unannounced };
        sent = w.sent ++ payloads;
      })
  Coherent-commit w held payloads missed announced c =
      let truth : Database Value = record {
        held = held;
        unannounced = missed ++ w.truth.unannounced;
      } in
      let kept : (k : CacheKey) (v : Value)
          → Fresh workspace_of w.truth w.sent k v
          → Fresh workspace_of truth (w.sent ++ payloads) k v =
        λ k v. Fresh-commit workspace_of w.truth w.sent held payloads missed k v announced in
      let entry_kept : (item : CacheKey × Entry Value)
          → Right workspace_of w.truth w.sent item
          → Right workspace_of truth (w.sent ++ payloads) item =
        λ (k, entry) (tag, fresh). (tag, kept k entry.value fresh) in
      let load_kept : (load : Load Value)
          → Awaits workspace_of w.truth w.sent w.cache.generation load
          → Awaits workspace_of truth (w.sent ++ payloads) w.cache.generation load =
        λ load awaits e v got. kept load.key v (awaits e v got) in
      record {
        past = c.past;
        quiet = c.quiet;
        entries_right = λ up. Each-imp entry_kept w.cache.entries (c.entries_right up);
        loads_right = λ up. Each-imp load_kept w.loads (c.loads_right up);
      }

  -- A step that makes a new generation.
  pub Coherent-renew :
      (w : World Value) (cache : Cache Value) (sent : List String) (linked : Bool)
      → cache.generation ≡ w.cache.generation + 1
      → (is_ready cache.ready ≡ false → cache.entries ≡ [])
      → (linked ≡ true → Each (Right workspace_of w.truth sent) cache.entries)
      → Coherent workspace_of w
      → Coherent workspace_of (record w { cache = cache; sent = sent; linked = linked })
  Coherent-renew w cache sent linked new empty right c =
      let late =
        subst (λ g. Each (λ load. load.generation < g) w.loads) (sym new)
          (earlier workspace_of w.cache.generation w.loads c.past) in
      let lt→le : (load : Load Value)
          → load.generation < cache.generation
          → load.generation ≤ cache.generation =
        λ load lt. omega (arith, lt) in
      record {
        past = Each-imp lt→le w.loads late;
        quiet = λ down. (empty down, late);
        entries_right = right;
        loads_right = λ up. outdated workspace_of w.truth sent cache.generation w.loads late;
      }
