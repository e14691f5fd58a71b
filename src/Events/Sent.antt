-- ===== src/Events/Sent.antt =====
-- What the frames that a stream yields keep of what it has sent.
use zoo.Base.{
  ℕ, nat_eq, ◌==◌, ==_iff, ◌≡◌, refl, sym, ◌∙◌, ap, subst, Bool, true, false, not, ◌&&◌, none, some,
  [], ◌∷◌, arith, if◌then◌else◌, if_true, if_false, Bool-cases, Option-cases, inl, inr, eq_of_some,
  Each, is_some, and-eq_true, Each-imp,
}
use zoo.Base.Dict.{get, get-put, Distinct, put-Distinct}
use zoo.Events.{Event, Table, Follow, frame, send, is_recent}
use zoo.Events.Sorted.{StandsIn}

pub record IsGood (table : Table) (horizon : ℕ) (s : Follow) : Type 0 where
  -- no event was sent twice
  pub once : Distinct s.log
  pub dated :
      (seq : ℕ) (row : Event) (at : ℕ)
      → get table seq ≡ some row
      → get s.log seq ≡ some at
      → row.created_at ≡ at
  -- what was sent and may be read as late is remembered, and nothing else is
  pub recent :
      (seq at : ℕ)
      → get s.log seq ≡ some at
      → is_recent horizon at ≡ true
      → get s.sent seq ≡ some at
  pub real : (seq at : ℕ) → get s.sent seq ≡ some at → get s.log seq ≡ some at
  pub kept : Distinct s.sent

-- A row that was sent is remembered.
abbrev pub IsKnown : Follow → ℕ × Event → Type 0
IsKnown s p = is_some (get s.log p.0) ≡ true → is_some (get s.sent p.0) ≡ true

get-frame-log :
    (seq other : ℕ) (row : Event) (s : Follow)
    → get (frame seq row s).log other
      ≡ (if seq == other then some row.created_at else get s.log other)
unfolding get
get-frame-log seq other row s = refl

frame-IsGood :
    (table : Table) (horizon seq : ℕ) (row : Event) (s : Follow)
    → get table seq ≡ some row
    → get s.log seq ≡ none
    → IsGood table horizon s
    → IsGood table horizon (frame seq row s)
unfolding get
frame-IsGood table horizon seq row s there new h = record {
  once = (new, h.once);
  dated = λ other r at found told. elim (Bool-cases (seq == other)) [
    | inl same ↦
        let e : row ≡ r =
          eq_of_some (sym there ∙ ap (get table) ((==_iff seq other).0 same) ∙ found) in
        sym (ap (λ x. x.created_at) e) ∙ eq_of_some (sym (if_true _ _ same) ∙ told)
    | inr apart ↦ h.dated other r at found (sym (if_false _ _ apart) ∙ told)
  ];
  recent = λ other at told new_one.
      get-put s.sent seq other row.created_at ∙ elim (Bool-cases (seq == other)) [
        | inl same ↦ if_true _ _ same ∙ sym (if_true _ _ same) ∙ told
        | inr apart ↦
            if_false _ _ apart ∙ h.recent other at (sym (if_false _ _ apart) ∙ told) new_one
      ];
  real = λ other at held.
      let held' : (if seq == other then some row.created_at else get s.sent other) ≡ some at =
        sym (get-put s.sent seq other row.created_at) ∙ held in
      elim (Bool-cases (seq == other)) [
        | inl same ↦ if_true _ _ same ∙ sym (if_true _ _ same) ∙ held'
        | inr apart ↦ if_false _ _ apart ∙ h.real other at (sym (if_false _ _ apart) ∙ held')
      ];
  kept = put-Distinct s.sent seq row.created_at h.kept;
}

frame-IsKnown :
    (seq : ℕ) (row : Event) (s : Follow) (p : ℕ × Event) → IsKnown s p → IsKnown (frame seq row s) p
unfolding get
frame-IsKnown seq row s p h told = elim (Bool-cases (seq == p.0)) [
  | inl same ↦ ap is_some (get-put s.sent seq p.0 row.created_at ∙ if_true _ _ same)
  | inr apart ↦
      ap is_some (get-put s.sent seq p.0 row.created_at ∙ if_false _ _ apart)
      ∙ h (sym (ap is_some (if_false _ _ apart)) ∙ told)
]

frame_sent :
    (seq other : ℕ) (row : Event) (s : Follow)
    → is_some (get s.sent other) ≡ true
    → is_some (get (frame seq row s).sent other) ≡ true
frame_sent seq other row s h = elim (Bool-cases (seq == other)) [
  | inl same ↦ ap is_some (get-put s.sent seq other row.created_at ∙ if_true _ _ same)
  | inr apart ↦ ap is_some (get-put s.sent seq other row.created_at ∙ if_false _ _ apart) ∙ h
]

-- A frame is yielded, or nothing happens; `send` goes on in either case.
abbrev fits : (ℕ → Bool) → ℕ → Follow → Bool
fits p seq s = p seq && not (is_some (get s.sent seq))

send_told :
    (p : ℕ → Bool) (seq : ℕ) (row : Event) (rows : Table) (s : Follow)
    → fits p seq s ≡ true
    → send p ((seq, row) ∷ rows) s ≡ send p rows (frame seq row s)
unfolding send
send_told p seq row rows s h = if_true _ _ h

send_passed :
    (p : ℕ → Bool) (seq : ℕ) (row : Event) (rows : Table) (s : Follow)
    → fits p seq s ≡ false
    → send p ((seq, row) ∷ rows) s ≡ send p rows s
unfolding send
send_passed p seq row rows s h = if_false _ _ h

-- What holds of a stream and is kept by each frame is kept by `send`.
pub send_keeps {ℓ} :
    (P : Follow → Type ℓ) (p : ℕ → Bool) (rows : Table)
    → Each (λ (r : ℕ × Event). (s : Follow) → fits p r.0 s ≡ true → P s → P (frame r.0 r.1 s)) rows
    → (s : Follow) → P s
    → P (send p rows s)
unfolding send
send_keeps P p [] kept s h = h
send_keeps P p ((seq, row) ∷ rows) kept s h = elim (Bool-cases (fits p seq s)) [
  | inl told ↦
      subst P (sym (send_told p seq row rows s told))
        (send_keeps P p rows kept.1 (frame seq row s) (kept.0 s told h))
  | inr passed ↦
      subst P (sym (send_passed p seq row rows s passed)) (send_keeps P p rows kept.1 s h)
]

every_row {κ} : {P : ℕ × Event → Type κ} (rows : Table) → ((r : ℕ × Event) → P r) → Each P rows
every_row [] f = tt
every_row (row ∷ rows) f = (f row, every_row rows f)

pub send_sent :
    (p : ℕ → Bool) (rows : Table) (s : Follow) (other : ℕ)
    → is_some (get s.sent other) ≡ true
    → is_some (get (send p rows s).sent other) ≡ true
send_sent p rows s other =
    send_keeps (λ t. is_some (get t.sent other) ≡ true) p rows
      (every_row rows (λ r t _ held. frame_sent r.0 other r.1 t held)) s

pub send-IsKnown :
    (p : ℕ → Bool) (rows : Table) (s : Follow) (r : ℕ × Event)
    → IsKnown s r
    → IsKnown (send p rows s) r
send-IsKnown p rows s r =
    send_keeps (λ t. IsKnown t r) p rows (every_row rows (λ q t _ h. frame-IsKnown q.0 q.1 t r h)) s

pub send-floor : (p : ℕ → Bool) (rows : Table) (s : Follow) → (send p rows s).floor ≡ s.floor
send-floor p rows s =
    send_keeps (λ t. t.floor ≡ s.floor) p rows (every_row rows (λ r t _ h. h)) s refl

pub send-known : (p : ℕ → Bool) (rows : Table) (s : Follow) → (send p rows s).known ≡ s.known
send-known p rows s =
    send_keeps (λ t. t.known ≡ s.known) p rows (every_row rows (λ r t _ h. h)) s refl

-- Rows of the table, each of which is remembered if it was sent, are sent once.
pub send-IsGood :
    (table : Table) (horizon : ℕ) (p : ℕ → Bool) (rows : Table) (s : Follow)
    → StandsIn table rows
    → Each (IsKnown s) rows
    → IsGood table horizon s
    → IsGood table horizon (send p rows s)
unfolding send
send-IsGood table horizon p [] s there known h = h
send-IsGood table horizon p ((seq, row) ∷ rows) s there known h = elim (Bool-cases (fits p seq s)) [
  | inl told ↦
      let unsent : is_some (get s.sent seq) ≡ false =
        ground (arith, and-eq_true (p seq) (not (is_some (get s.sent seq))) told) in
      let new : get s.log seq ≡ none = elim (Option-cases (get s.log seq)) [
        | inl free ↦ free
        | inr (at, logged) ↦ absurd (cc (known.0 (ap is_some logged), unsent))
      ] in
      subst (IsGood table horizon) (sym (send_told p seq row rows s told)) (
        send-IsGood table horizon p rows (frame seq row s) there.1
          (Each-imp (λ r. frame-IsKnown seq row s r) rows known.1)
          (frame-IsGood table horizon seq row s there.0 new h))
  | inr passed ↦
      subst (IsGood table horizon) (sym (send_passed p seq row rows s passed))
        (send-IsGood table horizon p rows s there.1 known.1 h)
]

-- Each of the rows that is to be sent is remembered then.
pub send_all :
    (p : ℕ → Bool) (rows : Table) (s : Follow) (seq : ℕ) (row : Event)
    → get rows seq ≡ some row
    → p seq ≡ true
    → is_some (get (send p rows s).sent seq) ≡ true
unfolding get send
send_all p [] s seq row found wanted = absurd (cc found)
send_all p ((i, r) ∷ rows) s seq row found wanted = elim (Bool-cases (i == seq)) [
  | inr apart ↦
      let found' : get rows seq ≡ some row = sym (if_false _ _ apart) ∙ found in
      elim (Bool-cases (fits p i s)) [
        | inl told ↦
            ap (λ t. is_some (get t.sent seq)) (send_told p i r rows s told)
            ∙ send_all p rows (frame i r s) seq row found' wanted
        | inr passed ↦
            ap (λ t. is_some (get t.sent seq)) (send_passed p i r rows s passed)
            ∙ send_all p rows s seq row found' wanted
      ]
  | inl same ↦
      let e : i ≡ seq = (==_iff i seq).0 same in
      elim (Bool-cases (fits p i s)) [
        | inl told ↦
            ap (λ t. is_some (get t.sent seq)) (send_told p i r rows s told)
            ∙ send_sent p rows (frame i r s) seq
                (ap is_some (get-put s.sent i seq r.created_at ∙ if_true _ _ same))
        | inr passed ↦
            let held : is_some (get s.sent i) ≡ true = ground (arith, passed, ap p e, wanted) in
            ap (λ t. is_some (get t.sent seq)) (send_passed p i r rows s passed)
            ∙ send_sent p rows s seq (ap (λ n. is_some (get s.sent n)) (sym e) ∙ held)
      ]
]
