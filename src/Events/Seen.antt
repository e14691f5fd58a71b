-- ===== src/Events/Seen.antt =====
-- What a member may see: the labels that a scope has read already are those of the table, while these stay.
use zoo.Base.{
  ℕ, String, string_eq, nat_eq, ◌==◌, ==_iff, ◌≡◌, refl, sym, ◌∙◌, ap, subst, Bool, true, false,
  Option, none, some, [], ◌∷◌, if_true, if_false, Bool-cases, Option-cases, inl, inr, eq_of_some,
  Each,
}
use zoo.Base.Dict.{get, put, get-put}
use zoo.Labels.{Labels, Store, matches, of}
use zoo.Sandboxes.{Member}
use zoo.Events.{
  Event, Table, Known, allows, allows_key, allows_labelled, visible, is_own, or_read, remember,
}

abbrev pub carries_labels : Labels → Store → Option String → Bool
carries_labels selector store none = false
carries_labels selector store (some sandbox_id) = matches (of sandbox_id store) (some selector)

abbrev pub key_sees : Option String → Option Labels → Store → Event → Bool
key_sees (some own) selector store row = is_own own row.sandbox_id
key_sees none (some selector) store row = carries_labels selector store row.sandbox_id
key_sees none none store row = true

-- The events that a member may see: all of the workspace, or those of the sandboxes of their API key.
abbrev pub may_see : Member → Store → Event → Bool
may_see user store row = key_sees user.key_sandbox_id user.key_labels store row

abbrev pub IsHonest : Store → Known → Type 0
IsHonest store known =
    (sandbox_id : String) (labels : Labels)
    → get known sandbox_id ≡ some labels
    → labels ≡ of sandbox_id store

remember-IsHonest :
    (sandbox_id : String) (store : Store) (known : Known)
    → IsHonest store known
    → IsHonest store (remember sandbox_id store known (get known sandbox_id))
remember-IsHonest sandbox_id store known h other labels found =
    elim (Option-cases (get known sandbox_id)) [
      | inr (l, e) ↦
          h other labels (sym (ap (λ o. get (remember sandbox_id store known o) other) e) ∙ found)
      | inl e ↦
          let found' : get (put known sandbox_id (of sandbox_id store)) other ≡ some labels =
            sym (ap (λ o. get (remember sandbox_id store known o) other) e) ∙ found in
          let found'' = sym (get-put known sandbox_id other (of sandbox_id store)) ∙ found' in
          elim (Bool-cases (sandbox_id == other)) [
            | inl same ↦
                sym (eq_of_some (sym (if_true _ _ same) ∙ found''))
                ∙ ap (λ i. of i store) ((==_iff sandbox_id other).0 same)
            | inr apart ↦ h other labels (sym (if_false _ _ apart) ∙ found'')
          ]
    ]

or_read_lem :
    (sandbox_id : String) (store : Store) (known : Known)
    → IsHonest store known
    → or_read sandbox_id store (get known sandbox_id) ≡ of sandbox_id store
or_read_lem sandbox_id store known h = elim (Option-cases (get known sandbox_id)) [
  | inl e ↦ ap (or_read sandbox_id store) e
  | inr (labels, e) ↦ ap (or_read sandbox_id store) e ∙ h sandbox_id labels e
]

allows_labelled_lem :
    (selector : Labels) (store : Store) (sandbox_id : Option String) (known : Known)
    → IsHonest store known
    → ((allows_labelled selector store sandbox_id known).0
        ≡ carries_labels selector store sandbox_id)
      × IsHonest store (allows_labelled selector store sandbox_id known).1
allows_labelled_lem selector store none known h = (refl, h)
allows_labelled_lem selector store (some sandbox_id) known h = (
  ap (λ l. matches l (some selector)) (or_read_lem sandbox_id store known h),
  remember-IsHonest sandbox_id store known h,
)

allows_key_lem :
    (own : Option String) (selector : Option Labels) (store : Store) (row : Event) (known : Known)
    → IsHonest store known
    → ((allows_key own selector store row known).0 ≡ key_sees own selector store row)
      × IsHonest store (allows_key own selector store row known).1
allows_key_lem (some own) selector store row known h = (refl, h)
allows_key_lem none (some selector) store row known h =
    allows_labelled_lem selector store row.sandbox_id known h
allows_key_lem none none store row known h = (refl, h)

allows_lem :
    (user : Member) (store : Store) (row : Event) (known : Known)
    → IsHonest store known
    → ((allows user store row known).0 ≡ may_see user store row)
      × IsHonest store (allows user store row known).1
unfolding allows
allows_lem user store row known h =
    allows_key_lem user.key_sandbox_id user.key_labels store row known h

pub visible-IsHonest :
    (user : Member) (store : Store) (rows : Table) (known : Known)
    → IsHonest store known
    → IsHonest store (visible user store rows known).1
unfolding visible
visible-IsHonest user store [] known h = h
visible-IsHonest user store ((seq, row) ∷ rows) known h =
    visible-IsHonest user store rows (allows user store row known).1
      (allows_lem user store row known h).1

pub visible-Each {κ} :
    (P : ℕ × Event → Type κ) (user : Member) (store : Store) (rows : Table) (known : Known)
    → Each P rows
    → Each P (visible user store rows known).0
unfolding visible
visible-Each P user store [] known h = tt
visible-Each P user store ((seq, row) ∷ rows) known h =
    let rest = visible-Each P user store rows (allows user store row known).1 h.1 in
    elim (Bool-cases (allows user store row known).0) [
      | inl yes_it ↦ subst (Each P) (sym (if_true _ _ yes_it)) (h.0, rest)
      | inr no_it ↦ subst (Each P) (sym (if_false _ _ no_it)) rest
    ]

-- What a member may see of rows is among the visible ones.
pub get-visible :
    (user : Member) (store : Store) (rows : Table) (known : Known) (seq : ℕ) (row : Event)
    → IsHonest store known
    → get rows seq ≡ some row
    → may_see user store row ≡ true
    → get (visible user store rows known).0 seq ≡ some row
unfolding visible get
get-visible user store [] known seq row h found sees = absurd (cc found)
get-visible user store ((i, r) ∷ rows) known seq row h found sees =
    let (answer, honest) = allows_lem user store r known h in
    let rest : Table = (visible user store rows (allows user store r known).1).0 in
    elim (Bool-cases (i == seq)) [
      | inl same ↦
          let e : r ≡ row = eq_of_some (sym (if_true _ _ same) ∙ found) in
          let allowed = answer ∙ ap (may_see user store) e ∙ sees in
          ap (λ (t : Table). get t seq)
            (if_true {b = (allows user store r known).0} ((i, r) ∷ rest) rest allowed)
          ∙ if_true _ _ same
          ∙ ap some e
      | inr apart ↦
          let found' : get rows seq ≡ some row = sym (if_false _ _ apart) ∙ found in
          let there =
            get-visible user store rows (allows user store r known).1 seq row honest found' sees in
          elim (Bool-cases (allows user store r known).0) [
            | inl allowed ↦
                ap (λ (t : Table). get t seq)
                  (if_true {b = (allows user store r known).0} ((i, r) ∷ rest) rest allowed)
                ∙ if_false _ _ apart
                ∙ there
            | inr refused ↦
                ap (λ (t : Table). get t seq)
                  (if_false {b = (allows user store r known).0} ((i, r) ∷ rest) rest refused)
                ∙ there
          ]
    ]
