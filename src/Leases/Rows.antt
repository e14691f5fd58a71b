-- ===== src/Leases/Rows.antt =====
-- What hold and release do to the row of a lease, and a hold behind another.
use zoo.Base.{
  ℕ, ◌≤◌, ◌<◌, ◌≡◌, sym, ◌∙◌, ap, String, string_eq, pair_eq, ==_iff, ==_refl, if_true, if_false,
  Bool, true, false, ◌⊎◌, inl, inr, Option, none, some, arith, Bool-cases,
}
use zoo.Base.Dict.{get, put, get-put, get-erase}
use zoo.Leases.{
  Lease, Leases, stamp, may_take, acquire_lease, hold, release_lease, release, is_holder, held_by,
}

pub hold_cases :
    (worker_id name : String) (ttl now : ℕ) (leases after : Leases) (taken : Bool)
    → hold worker_id name ttl now leases ≡ (after, taken)
    → ((may_take worker_id now (get leases name) ≡ true)
        × (after ≡ put leases name (record { holder = worker_id; expires_at = stamp now ttl }))
        × (taken ≡ true))
      ⊎ ((may_take worker_id now (get leases name) ≡ false) × (after ≡ leases) × (taken ≡ false))
unfolding hold acquire_lease
hold_cases worker_id name ttl now leases after taken e =
    elim (Bool-cases (may_take worker_id now (get leases name))) [
      | inl may ↦
          let q : acquire_lease name worker_id (stamp now ttl) now leases ≡ (
            put leases name (record { holder = worker_id; expires_at = stamp now ttl }),
            some worker_id,
          ) =
            if_true _ _ may in
          inl (
            may,
            sym (ap (λ p. p.0) e) ∙ ap (λ p. p.0) q,
            sym (ap (λ p. p.1) e) ∙ ap (λ p. is_holder p.1 worker_id) q ∙ ==_refl worker_id,
          )
      | inr not_now ↦
          let q : acquire_lease name worker_id (stamp now ttl) now leases ≡ (leases, none) =
            if_false _ _ not_now in
          inr (
            not_now,
            sym (ap (λ p. p.0) e) ∙ ap (λ p. p.0) q,
            sym (ap (λ p. p.1) e) ∙ ap (λ p. is_holder p.1 worker_id) q,
          )
    ]

-- A live belief of another process keeps the lease from being taken.
pub may_take_same :
    (worker_id w : String) (now end : ℕ) (found : Option Lease)
    → may_take worker_id now found ≡ true
    → found ≡ some (record { holder = w; expires_at = end })
    → now ≤ end
    → w ≡ worker_id
may_take_same worker_id w now end none may e le = ground arith
may_take_same worker_id w now end (some lease) may e le =
    let eh : lease.holder ≡ w = cc in
    let ee : lease.expires_at ≡ end = cc in ground (arith, ==_iff lease.holder worker_id)

-- A row that its holder deletes backs no other process.
pub held_self :
    (worker_id w : String) (end : ℕ) (found : Option Lease)
    → held_by found worker_id ≡ true
    → found ≡ some (record { holder = w; expires_at = end })
    → worker_id ≡ w
held_self worker_id w end none held e = ground arith
held_self worker_id w end (some lease) held e =
    let eh : lease.holder ≡ w = cc in ground (arith, ==_iff lease.holder worker_id)

hold_may :
    (worker_id name : String) (ttl now : ℕ) (leases : Leases)
    → may_take worker_id now (get leases name) ≡ true
    → (hold worker_id name ttl now leases).1 ≡ true
unfolding hold acquire_lease
hold_may worker_id name ttl now leases may = rw may (==_refl worker_id)

row_after :
    (name : String) (leases : Leases) (lease : Lease)
    → get (put leases name lease) name ≡ some lease
row_after name leases lease = get-put leases name name lease ∙ if_true _ _ (==_refl name)

gone_after :
    (worker_id name : String) (end : ℕ) (leases : Leases)
    → get
        (release worker_id name (put leases name (record { holder = worker_id; expires_at = end })))
        name
      ≡ none
unfolding release release_lease
gone_after worker_id name end leases =
    let lease : Lease = record { holder = worker_id; expires_at = end } in
    rw (row_after name leases lease, ==_refl worker_id)
      (get-erase (put leases name lease) name name ∙ if_true _ _ (==_refl name))

-- Behind a hold that returned true, any process takes the lease at once where its holder has released
-- it, and from a time past its end on where it has not.
pub hold-hold :
    (worker_id other name : String) (ttl ttl' now later : ℕ) (leases after : Leases)
    → hold worker_id name ttl now leases ≡ (after, true)
    → ((hold other name ttl' later (release worker_id name after)).1 ≡ true)
      × (stamp now ttl < later → (hold other name ttl' later after).1 ≡ true)
hold-hold worker_id other name ttl ttl' now later leases after e =
    elim (hold_cases worker_id name ttl now leases after true e) [
      | inr (may, same, refused) ↦ ground arith
      | inl (may, same, took) ↦
          let lease : Lease = record { holder = worker_id; expires_at = stamp now ttl } in
          let gone =
            ap (λ l. get (release worker_id name l) name) same
            ∙ gone_after worker_id name (stamp now ttl) leases in
          let row = ap (λ l. get l name) same ∙ row_after name leases lease in
          (
            hold_may other name ttl' later (release worker_id name after)
                (ap (may_take other later) gone),
            λ past.
                hold_may other name ttl' later after (ap (may_take other later) row ∙ ground arith),
          )
    ]
