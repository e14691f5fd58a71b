-- ===== src/Limits/Retry.antt =====
-- The Retry-After header of a refusal: how long a client has to wait.
use zoo.Base.{
  ℕ, ◌+◌, ◌*◌, ◌≤◌, ◌<◌, String, string_eq, ==_refl, ◌≡◌, refl, sym, ap, ap₂, ◌∙◌, subst, true,
  false, List, [], ◌∷◌, arith, ltb, leb, leb→le, lt→ltb, le→ltb_false, length, Each, Each-imp, inl,
  inr, Bool-cases,
}
use native.Mathlib.Nat.{le_refl, le_trans}
use zoo.Base.Dict.{get, get-put}
use zoo.Limits.{Limit, allowed, refused, or_empty, expire, refuse, width_of, check, ticks}
use zoo.Limits.Window.{within, within-le, within-eq-length, Ordered}
use zoo.Limits.Spec.{Log, Represents, admits, log_after, is_allowed, check-Represents, length-kept}
use zoo.Limits.Bound.{Bounded, check-keeps}

-- What a refusal says of the hits that it leaves.
record IsFull (width count now retry : ℕ) (hits : List ℕ) : Type 0 where
  full : count ≤ length hits
  refuses : refuse width now hits ≡ refused retry

-- From full hits of which the first is still inside the window: once `retry` seconds are over, the
-- first hit has left; a second before that it has not.
IsFull-leaves :
    (width count now retry later : ℕ) (hits : List ℕ)
    → length hits ≤ count
    → IsFull width count now retry hits
    → now + retry * ticks ≤ later
    → within width later hits < count
unfolding refuse within
IsFull-leaves width count now retry later [] le f h = ground (arith, f.refuses)
IsFull-leaves width count now retry later (a ∷ hits) le f h =
    ground (arith, within-le width later hits, f.full, f.refuses)

IsFull-stays :
    (width count now retry later : ℕ) (hits : List ℕ)
    → Ordered hits
    → Each (λ b. b ≤ now) hits
    → IsFull width count now retry hits
    → now ≤ later
    → later + ticks < now + retry * ticks
    → count ≤ within width later hits
unfolding refuse
IsFull-stays width count now retry later [] o k f le h = ground (arith, f.refuses)
IsFull-stays width count now retry later (a ∷ hits) o k f le h =
    let past = Each-imp (λ b (p : b ≤ now). le_trans p le) (a ∷ hits) k in
    let e =
      within-eq-length width later a (a ∷ hits) (le_refl a, o.0) past (ground (arith, f.refuses)) in
    rw e f.full

-- What a refusal leaves of the key's deque.
refused-IsFull :
    (limit : Limit) (key : String) (now retry : ℕ)
    → (check limit key now).1 ≡ refused retry
    → (or_empty (get (check limit key now).0.hits key)
        ≡ expire (width_of limit) now (or_empty (get limit.hits key)))
      × IsFull
          (width_of limit)
          limit.count
          now
          retry
          (expire (width_of limit) now (or_empty (get limit.hits key)))
unfolding check
refused-IsFull limit key now retry e =
    let hits = expire (width_of limit) now (or_empty (get limit.hits key)) in
    elim (Bool-cases (leb limit.count (length hits))) [
      | inl full ↦
          let e' : refuse (width_of limit) now hits ≡ refused retry = rw full at e in
          rw (full, get-put, ==_refl key)
            (refl, record { full = leb→le limit.count (length hits) full; refuses = e' })
      | inr room ↦ let e' : allowed ≡ refused retry = rw room at e in cc
    ]

-- The next decision, by the log.
decides :
    (limit : Limit) (now later : ℕ) (log : Log) (key : String)
    → Represents (width_of limit) now log (check limit key now).0.hits
    → now ≤ later
    → is_allowed (check (check limit key now).0 key later).1
      ≡ ltb (within (width_of limit) later (log key)) limit.count
unfolding admits
decides limit now later log key r le =
    let (kc, kw) = check-keeps limit key now in
    let limit' = (check limit key now).0 in
    let r' = subst (λ w. Represents w now log limit'.hits) (sym kw) r in
    let (decided, _) = check-Represents limit' now later log key r' le in
    decided ∙ ap₂ (λ w c. ltb (within w later (log key)) c) kw kc

-- After a refusal, a request of the same key is let through once `retry` seconds have passed, and
-- none is while more than a second of them is left, provided no other request came between.
pub check-retry_after :
    (limit : Limit) (before now retry later : ℕ) (log : Log) (key : String)
    → Represents (width_of limit) before log limit.hits
    → Bounded (width_of limit) limit.count log
    → before ≤ now
    → now ≤ later
    → (check limit key now).1 ≡ refused retry
    → (now + retry * ticks ≤ later → is_allowed (check (check limit key now).0 key later).1 ≡ true)
      × (later + ticks < now + retry * ticks
          → is_allowed (check (check limit key now).0 key later).1 ≡ false)
unfolding log_after
check-retry_after limit before now retry later log key r b le le' e =
    let width = width_of limit in
    let limit' = (check limit key now).0 in
    let (decided, r') = check-Represents limit before now log key r le in
    let out : admits limit log key now ≡ false = sym decided ∙ ap is_allowed e in
    let r'' : Represents width now log limit'.hits = rw out at r' in
    let (same, full) = refused-IsFull limit key now retry e in
    let t = r''.tracks key in
    let few : length (expire width now (or_empty (get limit.hits key))) ≤ limit.count =
      rw (length-kept width before now le (r.tracks key)) (b key now) in
    let hits = expire width now (or_empty (get limit.hits key)) in
    let counted : within width later hits ≡ within width later (log key) =
      rw same at (t.agrees later le') in
    let past = rw same at t.past in
    let ordered = rw same at t.ordered in
    let decided' = decides limit now later log key r'' le' in
    (
      λ over.
          decided'
          ∙ lt→ltb _ _
              (rw (← counted) (IsFull-leaves width limit.count now retry later hits few full over)),
      λ early.
          decided'
          ∙ le→ltb_false _ _ (
              rw (← counted)
                (IsFull-stays width limit.count now retry later hits ordered past full le' early)),
    )
