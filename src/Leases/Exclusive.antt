-- ===== src/Leases/Exclusive.antt =====
-- At most one process holds a lease at a time.
--
-- `Believed` is what the processes know: until when their last `hold` of a name that returned true, and
-- was not released since, lets them work.
use zoo.Base.{
  ℕ, ◌+◌, ◌≤◌, ◌≡◌, sym, ◌∙◌, ap, ap₂, eq_of_some, String, string_eq, pair_eq, ◌==◌, ==_iff,
  if_true, if_false, Bool, true, false, ◌&&◌, ◌⊎◌, inl, inr, Option, none, some, arith,
  if◌then◌else◌, Bool-cases,
}
use mathlib.Core.Path.{subst₂}
use zoo.Base.Dict.{get, put, erase, get-put, get-erase}
use zoo.Leases.Rows.{hold_cases, may_take_same, held_self}
use zoo.Leases.{Leases, stamp, may_take, hold, release_lease, release, held_by}

abbrev pub Believed : Type 0
Believed = String → String → Option ℕ

abbrev pub set_until : Believed → String → String → Option ℕ → Believed
set_until until worker_id name end w n = if worker_id == w && name == n then end else until w n

pub record World : Type 0 where
  pub leases : Leases
  pub now : ℕ
  pub until : Believed

pub data Step (s : World) : World → Type 0 where
  tick : (n : ℕ) → Step s (record s { now = s.now + n })
  -- hold returns, and its process learns whether it may work, and until when
  holds :
      (worker_id name : String) (ttl : ℕ) (leases : Leases) (taken : Bool)
      → hold worker_id name ttl s.now s.leases ≡ (leases, taken)
      → Step s (record {
        leases = leases;
        now = s.now;
        until = set_until s.until worker_id name (if taken then some (stamp s.now ttl) else none);
      })
  releases :
      (worker_id name : String)
      → Step s (record {
        leases = release worker_id name s.leases;
        now = s.now;
        until = set_until s.until worker_id name none;
      })

pub data Reach (start : World) : World → Type 0 where
  here : Reach start start
  next : {s t : World} → Reach start s → Step s t → Reach start t

-- The row behind each belief that has not run out.
abbrev Backed : World → Type 0
Backed s =
    (worker_id name : String) (end : ℕ)
    → s.until worker_id name ≡ some end
    → s.now ≤ end
    → get s.leases name ≡ some (record { holder = worker_id; expires_at = end })

set_until_self :
    (until : Believed) (worker_id name : String) (end : Option ℕ) (w n : String)
    → (set_until until worker_id name end w n ≡ until w n)
      ⊎ ((worker_id ≡ w) × (name ≡ n) × (set_until until worker_id name end w n ≡ end))
set_until_self until worker_id name end w n = elim (Bool-cases (worker_id == w && name == n)) [
  | inl both ↦ inr (ground (arith, ==_iff worker_id w, ==_iff name n))
  | inr other ↦ inl (if_false _ _ other)
]

-- Who believes in a lease behind a hold that took it is the process that held.
taker :
    (s : World) (worker_id name : String) (ttl : ℕ)
    → may_take worker_id s.now (get s.leases name) ≡ true
    → Backed s
    → (w n : String) (end : ℕ) → (name == n) ≡ true
    → set_until s.until worker_id name (some (stamp s.now ttl)) w n ≡ some end
    → s.now ≤ end
    → worker_id ≡ w
taker s worker_id name ttl may b w n end same u le =
    elim (set_until_self s.until worker_id name (some (stamp s.now ttl)) w n) [
      | inl old ↦
          let row = b w n end (sym old ∙ u) le in
          let en : name ≡ n = (==_iff name n).0 same in
          sym (
            may_take_same worker_id w s.now end (get s.leases name) may (ap (get s.leases) en ∙ row)
              le)
      | inr (ew, em, new) ↦ ew
    ]

Backed-holds :
    (s : World) (worker_id name : String) (ttl : ℕ)
    → may_take worker_id s.now (get s.leases name) ≡ true
    → Backed s
    → Backed (record {
      leases = put s.leases name (record { holder = worker_id; expires_at = stamp s.now ttl });
      now = s.now;
      until = set_until s.until worker_id name (some (stamp s.now ttl));
    })
Backed-holds s worker_id name ttl may b w n end u le = elim (Bool-cases (name == n)) [
  | inl same ↦
      let ew = taker s worker_id name ttl may b w n end same u le in
      let both : (worker_id == w && name == n) ≡ true = rw ((==_iff worker_id w).1 ew) same in
      let ee : stamp s.now ttl ≡ end = eq_of_some (sym (if_true _ _ both) ∙ u) in
      get-put s.leases name n _
      ∙ if_true _ _ same
      ∙ ap₂ (λ h x. some (record { holder = h; expires_at = x })) ew ee
  | inr other ↦
      let old : set_until s.until worker_id name (some (stamp s.now ttl)) w n ≡ s.until w n =
        ground arith in
      get-put s.leases name n _ ∙ if_false _ _ other ∙ b w n end (sym old ∙ u) le
]

Backed-refused :
    (s : World) (worker_id name : String)
    → Backed s
    → Backed
        (record { leases = s.leases; now = s.now; until = set_until s.until worker_id name none })
Backed-refused s worker_id name b w n end u le =
    elim (set_until_self s.until worker_id name none w n) [
      | inl old ↦ b w n end (sym old ∙ u) le
      | inr (ew, em, new) ↦ ground arith
    ]

apart :
    (until : Believed) (worker_id name w n : String) (end : ℕ)
    → set_until until worker_id name none w n ≡ some end
    → (worker_id ≡ w → (name == n) ≡ false) × (until w n ≡ some end)
apart until worker_id name w n end u = ground (arith, ==_iff worker_id w)

Backed-erase :
    (s : World) (worker_id name : String)
    → held_by (get s.leases name) worker_id ≡ true
    → Backed s
    → (w n : String) (end : ℕ) → set_until s.until worker_id name none w n ≡ some end
    → s.now ≤ end
    → get (erase s.leases name) n ≡ some (record { holder = w; expires_at = end })
Backed-erase s worker_id name held b w n end u le =
    let (ne, old) = apart s.until worker_id name w n end u in
    let row = b w n end old le in
    let other : (name == n) ≡ false = elim (Bool-cases (name == n)) [
      | inl same ↦
          let en : name ≡ n = (==_iff name n).0 same in
          ne (held_self worker_id w end (get s.leases name) held (ap (get s.leases) en ∙ row))
      | inr no_match ↦ no_match
    ] in
    get-erase s.leases name n ∙ if_false _ _ other ∙ row

Backed-releases :
    (s : World) (worker_id name : String)
    → Backed s
    → Backed (record {
      leases = release worker_id name s.leases;
      now = s.now;
      until = set_until s.until worker_id name none;
    })
unfolding release release_lease
Backed-releases s worker_id name b w n end u le =
    elim (Bool-cases (held_by (get s.leases name) worker_id)) [
      | inl held ↦ rw held (Backed-erase s worker_id name held b w n end u le)
      | inr free ↦ rw free (Backed-refused s worker_id name b w n end u le)
    ]

Backed-step : (s t : World) → Step s t → Backed s → Backed t
Backed-step s t (tick n) b = λ w m end u le. b w m end u (omega (arith, le))
Backed-step s t (holds worker_id name ttl leases taken e) b =
    let Goal : Leases → Bool → Type 0 = λ l k. Backed (record {
      leases = l;
      now = s.now;
      until = set_until s.until worker_id name (if k then some (stamp s.now ttl) else none);
    }) in
    elim (hold_cases worker_id name ttl s.now s.leases leases taken e) [
      | inl (may, after, took) ↦
          subst₂ Goal (sym after) (sym took) (Backed-holds s worker_id name ttl may b)
      | inr (may, after, refused) ↦
          subst₂ Goal (sym after) (sym refused) (Backed-refused s worker_id name b)
    ]
Backed-step s t (releases worker_id name) b = Backed-releases s worker_id name b

Reach-Backed : (start s : World) → Reach start s → Backed start → Backed s
Reach-Backed start s here b = b
Reach-Backed start s (next {s = r} reach step) b =
    Backed-step r s step (Reach-Backed start r reach b)

-- Over any run of hold and release from a world in which no process believes in a lease, two processes
-- that may work under a name at the same time are one.
pub hold-exclusive :
    (start s : World) (a b name : String) (end_a end_b : ℕ)
    → ((w n : String) → start.until w n ≡ none)
    → Reach start s
    → s.until a name ≡ some end_a
    → s.until b name ≡ some end_b
    → s.now ≤ end_a
    → s.now ≤ end_b
    → a ≡ b
hold-exclusive start s a b name end_a end_b fresh reach ua ub la lb =
    let backed = Reach-Backed start s reach (λ w n end u le. ground (arith, fresh w n)) in
    let e = eq_of_some (sym (backed a name end_a ua la) ∙ backed b name end_b ub lb) in
    ap (λ l. l.holder) e
