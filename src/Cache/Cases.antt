-- ===== src/Cache/Cases.antt =====
-- The cases of `begin` and `finish`, from their results.
use zoo.Base.{
  ℕ, ◌<◌, ◌≡◌, ◌⊎◌, inl, inr, refl, sym, ◌∙◌, ap, nat_beq, nat_beq_iff, String, string_eq, pair_eq,
  true, false, Option, none, some, arith, Bool-cases, ltb, eq_of_some, if_true, if_false,
}
use zoo.Base.Dict.{get, erase}
use zoo.Cache.{
  Cache, CacheKey, Entry, Lookup, hit, bypass, miss, begin, look_up, move_to_end, store,
  store_ready, finish, is_ready, Ready, no_event, waiting, listening,
}

module _ {Value : Type 0} where
  -- The entries after a lookup and how it goes on, where the cache is ready.
  abbrev pub Found : CacheKey → ℕ → Cache Value → Cache Value → Lookup Value → Type 0
  Found key now cache after found =
      (entry : Entry Value) × (get cache.entries key ≡ some entry)
      × (after ≡ record cache { entries = move_to_end key entry cache.entries })
      × (found ≡ hit entry.value)

  abbrev pub Missed : CacheKey → Cache Value → Cache Value → Lookup Value → Type 0
  Missed key cache after found =
      ((after ≡ cache) ⊎ (after ≡ record cache { entries = erase cache.entries key }))
      × (found ≡ miss cache.generation)

  abbrev pub Begun : CacheKey → ℕ → Cache Value → Cache Value → Lookup Value → Type 0
  Begun key now cache after found =
      ((is_ready cache.ready ≡ false) × (after ≡ cache) × (found ≡ bypass))
      ⊎ ((is_ready cache.ready ≡ true)
          × (Found key now cache after found ⊎ Missed key cache after found))

  look_up_cases :
      (key : CacheKey) (now : ℕ) (cache after : Cache Value) (found : Lookup Value)
      (o : Option (Entry Value))
      → get cache.entries key ≡ o
      → look_up key now o cache ≡ (after, found)
      → Found key now cache after found ⊎ Missed key cache after found
  unfolding look_up
  look_up_cases key now cache after found none g e =
      inr (inl (sym (ap (λ p. p.0) e)), sym (ap (λ p. p.1) e))
  look_up_cases key now cache after found (some entry) g e =
      elim (Bool-cases (ltb now entry.expires)) [
        | inl live ↦
            let e' = sym (if_true _ _ live) ∙ e in
            inl (entry, g, sym (ap (λ p. p.0) e'), sym (ap (λ p. p.1) e'))
        | inr old ↦
            let e' = sym (if_false _ _ old) ∙ e in
            inr (inr (sym (ap (λ p. p.0) e')), sym (ap (λ p. p.1) e'))
      ]

  pub begin_cases :
      (key : CacheKey) (now : ℕ) (cache after : Cache Value) (found : Lookup Value)
      → begin key now cache ≡ (after, found)
      → Begun key now cache after found
  unfolding begin
  begin_cases key now cache after found e = elim (Bool-cases (is_ready cache.ready)) [
    | inl up ↦ inr (up, look_up_cases key now cache after found _ refl (sym (if_true _ _ up) ∙ e))
    | inr down ↦
        let e' = sym (if_false _ _ down) ∙ e in
        inl (down, sym (ap (λ p. p.0) e'), sym (ap (λ p. p.1) e'))
  ]

  module _ (workspace_of : Value → Option String) where
    -- `finish` leaves the cache, or stores the value of an up-to-date load.
    abbrev pub Finished : CacheKey → ℕ → Option Value → ℕ → Cache Value → Cache Value → Type 0
    Finished key generation value now cache after =
        (after ≡ cache)
        ⊎ ((v : Value) × (value ≡ some v)
            × (generation ≡ cache.generation)
            × (is_ready cache.ready ≡ true)
            × (after ≡ store workspace_of key v now cache))

    store_ready_cases :
        (ready : Ready) (key : CacheKey) (value : Option Value) (now : ℕ)
        (cache after : Cache Value)
        → store_ready workspace_of ready key value now cache ≡ some after
        → (after ≡ cache)
          ⊎ ((v : Value) × (value ≡ some v)
              × (is_ready ready ≡ true)
              × (after ≡ store workspace_of key v now cache))
    unfolding store_ready
    store_ready_cases no_event key value now cache after e = ground arith
    store_ready_cases waiting key value now cache after e = inl (sym (eq_of_some e))
    store_ready_cases listening key none now cache after e = inl (sym (eq_of_some e))
    store_ready_cases listening key (some v) now cache after e =
        inr (v, refl, refl, sym (eq_of_some e))

    pub finish_cases :
        (key : CacheKey) (generation : ℕ) (value : Option Value) (now : ℕ)
        (cache after : Cache Value)
        → finish workspace_of key generation value now cache ≡ some after
        → Finished key generation value now cache after
    unfolding finish
    finish_cases key generation value now cache after e =
        elim (Bool-cases (nat_beq generation cache.generation)) [
          | inl same ↦
              elim (store_ready_cases cache.ready key value now cache after
                (sym (if_true _ _ same) ∙ e)) [
                  | inl kept ↦ inl kept
                  | inr (v, ev, up, stored) ↦
                      inr (v, ev, (nat_beq_iff generation cache.generation).0 same, up, stored)
                ]
          | inr other ↦ inl (sym (eq_of_some (sym (if_false _ _ other) ∙ e)))
        ]

    store_ready-some :
        (ready : Ready) (key : CacheKey) (value : Option Value) (now : ℕ) (cache : Cache Value)
        → is_ready ready ≡ true
        → (after : Cache Value) × (store_ready workspace_of ready key value now cache ≡ some after)
    unfolding store_ready
    store_ready-some no_event key value now cache up = ground arith
    store_ready-some waiting key value now cache up = (cache, refl)
    store_ready-some listening key none now cache up = (cache, refl)
    store_ready-some listening key (some v) now cache up =
        (store workspace_of key v now cache, refl)

    pub finish_some :
        (key : CacheKey) (generation : ℕ) (value : Option Value) (now : ℕ) (cache : Cache Value)
        → (is_ready cache.ready ≡ false → generation < cache.generation)
        → (after : Cache Value) × (finish workspace_of key generation value now cache ≡ some after)
    unfolding finish
    finish_some key generation value now cache late =
        elim (Bool-cases (nat_beq generation cache.generation)) [
          | inl same ↦ elim (Bool-cases (is_ready cache.ready)) [
            | inl up ↦
                let (after, e) = store_ready-some cache.ready key value now cache up in
                (after, if_true _ _ same ∙ e)
            | inr down ↦
                let lt = late down in
                let e = (nat_beq_iff generation cache.generation).0 same in
                let absurd : ⊥ = omega (arith, lt, e) in elim absurd [ ]
          ]
          | inr other ↦ (cache, if_false _ _ other)
        ]
