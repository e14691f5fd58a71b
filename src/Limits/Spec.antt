-- ===== src/Limits/Spec.antt =====
-- What a limit promises: it decides like a log that forgets nothing (`Log`, `admits`).
use zoo.Base.{
  ℕ, ◌≤◌, String, string_eq, ==_iff, ◌==◌, ◌≡◌, refl, sym, ◌∙◌, subst, ==_refl, Bool, true, false,
  not, Option, none, some, List, [], ◌∷◌, ◌++◌, arith, ltb, leb, if◌then◌else◌, length, Each,
  Each-append, Each-imp, inl, inr, Bool-cases,
}
use zoo.Base.Dict.{Dict, get, put, get-put, Distinct, put-Distinct, get-keep, keep-Distinct, when}
use zoo.Limits.{
  Limit, Outcome, allowed, or_empty, expire, live, max_keys, sweep, refuse, width_of, check,
}
use zoo.Limits.Window.{
  within, within-append, within-expire, within-live, expire-Each, expire-Ordered, length-expire,
  Ordered,
}

-- What the deque of a key must be, against the whole log of its counted requests.
pub record Tracks (width : ℕ) (now : ℕ) (log hits : List ℕ) : Type 0 where
  pub ordered : Ordered hits
  pub past : Each (λ b. b ≤ now) hits
  pub log_past : Each (λ b. b ≤ now) log
  pub agrees : (later : ℕ) → now ≤ later → within width later hits ≡ within width later log

pub record Represents (width now : ℕ) (log : String → List ℕ) (found : Dict String (List ℕ))
    : Type 0 where
  pub distinct : Distinct found
  pub tracks : (key : String) → Tracks width now (log key) (or_empty (get found key))

Ordered-snoc :
    (now : ℕ) (hits : List ℕ) → Ordered hits → Each (λ b. b ≤ now) hits → Ordered (hits ++ now ∷ [])
Ordered-snoc now [] o k = (tt, tt)
Ordered-snoc now (a ∷ hits) o k =
    (Each-append (λ b. a ≤ b) hits (now ∷ []) o.0 (k.0, tt), Ordered-snoc now hits o.1 k.1)

module _ (width : ℕ) (now later : ℕ) (le : now ≤ later) {log hits : List ℕ}
    (t : Tracks width now log hits) where
  abbrev pub kept : List ℕ
  kept = expire width later hits

  past_later : Each (λ b. b ≤ later) hits
  past_later = Each-imp (λ b (h : b ≤ now). omega arith) hits t.past

  -- The number that `check` compares with its limit is that of the whole log.
  pub length-kept : length kept ≡ within width later log
  length-kept =
      omega (arith, length-expire width later hits t.ordered past_later, t.agrees later le)

  expire-Tracks : Tracks width later log kept
  expire-Tracks = record {
    ordered = expire-Ordered width later hits t.ordered;
    past = expire-Each width later (λ b. b ≤ later) hits past_later;
    log_past = Each-imp (λ b (h : b ≤ now). omega arith) log t.log_past;
    agrees = λ at h. omega (arith, within-expire width later at hits h, t.agrees at (omega arith));
  }

  snoc-Tracks : Tracks width later (log ++ later ∷ []) (kept ++ later ∷ [])
  snoc-Tracks =
      let e = expire-Tracks in
      record {
        ordered = Ordered-snoc later kept e.ordered e.past;
        past = Each-append (λ b. b ≤ later) kept (later ∷ []) e.past (omega arith, tt);
        log_past = Each-append (λ b. b ≤ later) log (later ∷ []) e.log_past (omega arith, tt);
        agrees = λ at h. omega (
          arith,
          within-append width at kept (later ∷ []),
          within-append width at log (later ∷ []),
          e.agrees at h,
        );
      }

-- A key that the sweep drops had nothing left to count.
swept-Tracks :
    (width : ℕ) (now : ℕ) (log hits : List ℕ)
    → Tracks width now log hits
    → live width now hits ≡ false
    → Tracks width now log []
unfolding within
swept-Tracks width now log hits t dead = record {
  ordered = tt;
  past = tt;
  log_past = t.log_past;
  agrees = λ at h. sym (within-live width now at hits t.ordered t.past h dead) ∙ t.agrees at h;
}

when-Tracks :
    (width : ℕ) (now : ℕ) (log : List ℕ) (key : String) (found : Option (List ℕ))
    → Tracks width now log (or_empty found)
    → Tracks width now log (or_empty (when (λ (k, hits). live width now hits) key found))
when-Tracks width now log key none t = t
when-Tracks width now log key (some hits) t = elim (Bool-cases (live width now hits)) [
  | inl alive ↦ rw alive t
  | inr dead ↦ rw dead (swept-Tracks width now log hits t dead)
]

sweep-Represents :
    (width now : ℕ) (log : String → List ℕ) (found : Dict String (List ℕ))
    → Represents width now log found
    → Represents width now log (sweep width now found)
unfolding sweep
sweep-Represents width now log found r = elim (Bool-cases (ltb max_keys (length found))) [
  | inl many ↦ rw many (record {
    distinct = keep-Distinct (λ (k, hits). live width now hits) found r.distinct;
    tracks = λ key.
        rw (get-keep (λ (k, hits). live width now hits) found key r.distinct)
          (when-Tracks width now (log key) key (get found key) (r.tracks key));
  })
  | inr few ↦ rw few r
]

-- The specification: a log of every request that was let through, key by key.
abbrev pub Log : Type 0
Log = String → List ℕ

unfoldable pub admits : Limit → Log → String → ℕ → Bool
admits limit log key now = ltb (within (width_of limit) now (log key)) limit.count

pub note : Log → String → ℕ → Log
note log key now other = if key == other then log key ++ now ∷ [] else log other

unfoldable pub log_after : Limit → Log → String → ℕ → Log
log_after limit log key now = if admits limit log key now then note log key now else log

abbrev pub is_allowed : Outcome → Bool
is_allowed allowed = true
is_allowed _ = false

later-Tracks :
    (width : ℕ) (now later : ℕ) (log hits : List ℕ)
    → now ≤ later
    → Tracks width now log hits
    → Tracks width later log hits
later-Tracks width now later log hits le t = record {
  ordered = t.ordered;
  past = Each-imp (λ b (h : b ≤ now). omega arith) hits t.past;
  log_past = Each-imp (λ b (h : b ≤ now). omega arith) log t.log_past;
  agrees = λ at h. t.agrees at (omega arith);
}

-- Writing one key's deque, when it tracks the log that the key is given.
put-Represents :
    (width now later : ℕ) (log log' : Log) (found : Dict String (List ℕ)) (key : String)
    (hits : List ℕ)
    → Represents width now log found
    → now ≤ later
    → Tracks width later (log' key) hits
    → ((other : String) → (key == other) ≡ false → log' other ≡ log other)
    → Represents width later log' (put found key hits)
put-Represents width now later log log' found key hits r le t same = record {
  distinct = put-Distinct found key hits r.distinct;
  tracks = λ other. rw (get-put found key other hits) (elim (Bool-cases (key == other)) [
    | inl eq ↦ rw eq (subst (λ k. Tracks width later (log' k) hits) ((==_iff key other).0 eq) t)
    | inr ne ↦
        rw (ne, same other ne) (later-Tracks width now later (log other) _ le (r.tracks other))
  ]);
}

is_allowed-refuse : (width now : ℕ) (hits : List ℕ) → is_allowed (refuse width now hits) ≡ false
unfolding refuse
is_allowed-refuse width now [] = refl
is_allowed-refuse width now (hit ∷ hits) = refl

admits-length :
    (limit : Limit) (log : Log) (key : String) (now n : ℕ)
    → n ≡ within (width_of limit) now (log key)
    → admits limit log key now ≡ not (leb limit.count n)
unfolding admits
admits-length limit log key now n e = ground arith

pub note_self : (log : Log) (key : String) (now : ℕ) → note log key now key ≡ log key ++ now ∷ []
unfolding note
note_self log key now = rw (==_refl key)

pub note_ne :
    (log : Log) (key other : String) (now : ℕ)
    → (key == other) ≡ false
    → note log key now other ≡ log other
unfolding note
note_ne log key other now ne = rw ne

-- Whatever requests came before, a request is let through exactly when the log of all the counted
-- requests of its key has fewer than `count` in the window that ends now; and the object that
-- `check` leaves behind represents the log with the request added, if it was let through.
pub check-Represents :
    (limit : Limit) (now later : ℕ) (log : Log) (key : String)
    → Represents (width_of limit) now log limit.hits
    → now ≤ later
    → (is_allowed (check limit key later).1 ≡ admits limit log key later)
      × Represents
          (width_of limit)
          later
          (log_after limit log key later)
          (check limit key later).0.hits
unfolding check log_after
check-Represents limit now later log key r le =
    let width = width_of limit in
    let hits = expire width later (or_empty (get limit.hits key)) in
    let t = r.tracks key in
    let same = admits-length limit log key later (length hits) (length-kept width now later le t) in
    elim (Bool-cases (leb limit.count (length hits))) [
      | inl full ↦
          let no' : admits limit log key later ≡ false = rw full at same in
          rw (full, no')
            (
              is_allowed-refuse width later hits,
              put-Represents width now later log log limit.hits key hits r le
                  (expire-Tracks width now later le t) (λ other ne. refl),
            )
      | inr room ↦
          let yes' : admits limit log key later ≡ true = rw room at same in
          rw (room, yes')
            (
              refl,
              sweep-Represents width later (note log key later) _ (
                  put-Represents width now later log (note log key later) limit.hits key
                    (hits ++ later ∷ []) r le
                    (rw (note_self log key later) (snoc-Tracks width now later le t))
                    (λ other ne. note_ne log key other later ne)),
            )
    ]
