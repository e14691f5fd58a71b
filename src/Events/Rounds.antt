-- ===== src/Events/Rounds.antt =====
-- What a turn of the loop reads, and what it forgets.
use zoo.Base.{
  ℕ, ◌+◌, ◌≤◌, ◌<◌, nat_eq, ◌==◌, ==_iff, ◌≡◌, sym, ◌∙◌, ap, subst, Bool, true, ◌&&◌, some, arith,
  if_true, if_false, Bool-cases, Option-cases, inl, inr, keep, Each, Each-imp, keep-Each,
  and-eq_true, ltb, leb, leb→le, ltb→lt,
}
use zoo.Base.Dict.{get, get-keep, when, keep-Distinct}
use zoo.Labels.{Store}
use zoo.Events.{
  Event, Table, Query, Follow, selects, is_recent, is_late, list_events, list_late_events, late,
  page_size, stragglers, send, late_seconds,
}
use zoo.Events.Sorted.{IsSorted, sorted-StandsIn, take-Each}
use zoo.Events.Seen.{IsHonest, visible-IsHonest, visible-Each}
use zoo.Events.Sent.{IsGood, send_keeps}

-- A stream whose last horizon was taken at `horizon`.
pub record IsStream (store : Store) (table : Table) (horizon : ℕ) (s : Follow) : Type 0 where
  pub sorted : IsSorted table
  pub good : IsGood table horizon s
  pub bound : (seq at : ℕ) → get s.log seq ≡ some at → seq ≤ s.after
  pub ahead : s.floor ≤ s.after
  pub honest : IsHonest store s.known

-- A straggler: a row of the table that is recent and not behind `after`.
abbrev pub IsStraggler : Table → ℕ → ℕ → ℕ × Event → Type 0
IsStraggler table after now p =
    (get table p.0 ≡ some p.1) × (p.0 ≤ after) × (is_recent now (p.1).created_at ≡ true)

late-IsStraggler :
    (query : Query) (after now limit : ℕ) (table : Table)
    → IsSorted table
    → Each (IsStraggler table after now) (list_late_events query after now limit table)
unfolding list_late_events
late-IsStraggler query after now limit table h =
    take-Each (IsStraggler table after now) limit (keep (is_late query after now) table) (
      keep-Each (is_late query after now)
        (λ p passed there.
          let a = and-eq_true (leb p.0 after && is_recent now (p.1).created_at) _ passed in
          let b = and-eq_true (leb p.0 after) (is_recent now (p.1).created_at) a.0 in
          (there, leb→le p.0 after b.0, b.1))
        table (sorted-StandsIn table h))

pub stragglers_lem :
    (query : Query) (store : Store) (now : ℕ) (table : Table) (s : Follow)
    → IsSorted table
    → IsHonest store s.known
    → Each (IsStraggler table s.after now) (stragglers query store now table s).0
      × IsHonest store (stragglers query store now table s).1
unfolding stragglers late
stragglers_lem query store now table s sorted honest = elim (Bool-cases (ltb s.floor s.after)) [
  | inl behind ↦ rw behind (
    visible-Each (IsStraggler table s.after now) query.user store
        (list_late_events query s.after now page_size table) s.known
        (late-IsStraggler query s.after now page_size table sorted),
    visible-IsHonest query.user store (list_late_events query s.after now page_size table) s.known
        honest,
  )
  | inr at_start ↦ rw at_start (tt, honest)
]

pub page_rows :
    (query : Query) (after : ℕ) (table : Table)
    → IsSorted table
    → Each
        (λ (p : ℕ × Event). (get table p.0 ≡ some p.1) × (after < p.0))
        (list_events query after page_size table)
unfolding list_events
page_rows query after table h = take-Each _ page_size (keep _ table) (
    keep-Each (λ p. ltb after p.0 && selects query p.1)
      (λ p passed there.
        (there, ltb→lt after p.0 (and-eq_true (ltb after p.0) (selects query p.1) passed).0))
      table (sorted-StandsIn table h))

pub is_recent_le :
    (early later at : ℕ) → early ≤ later → is_recent later at ≡ true → is_recent early at ≡ true
is_recent_le early later at le h = ground (arith, leb→le later (at + late_seconds))

-- The seqs of what is sent are at most those of the rows read.
pub send_bound :
    (b : ℕ) (p : ℕ → Bool) (rows : Table) (s : Follow)
    → Each (λ (r : ℕ × Event). r.0 ≤ b) rows
    → ((seq at : ℕ) → get s.log seq ≡ some at → seq ≤ b)
    → (seq at : ℕ) → get (send p rows s).log seq ≡ some at
    → seq ≤ b
unfolding get
send_bound b p rows s small h =
    send_keeps (λ t. (seq at : ℕ) → get t.log seq ≡ some at → seq ≤ b) p rows
      (Each-imp
        (λ r le t fits old seq at logged. elim (Bool-cases (r.0 == seq)) [
          | inl same ↦ subst (λ n. n ≤ b) ((==_iff r.0 seq).0 same) le
          | inr apart ↦ old seq at (sym (if_false _ _ apart) ∙ logged)
        ])
        rows small)
      s h

pub prune-IsGood :
    (table : Table) (horizon later after : ℕ) (s : Follow)
    → horizon ≤ later
    → IsGood table horizon s
    → IsGood table later
        (record s { after = after; sent = keep (λ (p : ℕ × ℕ). is_recent later p.1) s.sent })
prune-IsGood table horizon later after s le h =
    let p : ℕ × ℕ → Bool = λ q. is_recent later q.1 in
    record {
      once = h.once;
      dated = h.dated;
      recent = λ seq at logged new.
          get-keep p s.sent seq h.kept
          ∙ ap (when p seq) (h.recent seq at logged (is_recent_le horizon later at le new))
          ∙ if_true _ _ new;
      real = λ seq at held. elim (Option-cases (get s.sent seq)) [
        | inl free ↦ absurd (cc (sym (get-keep p s.sent seq h.kept ∙ ap (when p seq) free) ∙ held))
        | inr (other, found) ↦
            let e = sym (get-keep p s.sent seq h.kept ∙ ap (when p seq) found) ∙ held in
            elim (Bool-cases (is_recent later other)) [
              | inl new ↦ h.real seq at (found ∙ sym (if_true _ _ new) ∙ e)
              | inr old ↦ absurd (cc (sym (if_false _ _ old) ∙ e))
            ]
      ];
      kept = keep-Distinct p s.sent h.kept;
    }
