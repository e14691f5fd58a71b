-- ===== src/Tickets/Single.antt =====
-- A ticket works once, for its target and until it expires.
use zoo.Base.{
  ℕ, ◌≡◌, ◌∙◌, subst, String, string_eq, ◌==◌, ==_refl, false, Option, none, some, List, [], ◌∷◌,
  arith, Each, if_true, if_false, if◌then◌else◌, eq_of_some, Option-cases, inl, inr, leb,
}
use zoo.Base.Dict.{get, get-put, get-erase, get-keep-none}
use zoo.Tickets.{
  Ticket, Tickets, expiry, purge_tickets, insert_row, create_ticket, redeem_ticket, issue, redeem,
}

-- What the processes do to the table: tickets are issued and redeemed.
pub data Use : Type 0 where
  issues : (ticket user_id target : String) (now : ℕ) → Use
  redeems : (ticket target : String) (now : ℕ) → Use

-- A transaction that fails leaves the table.
abbrev pub or_same : Option Tickets → Tickets → Tickets
or_same none tickets = tickets
or_same (some after) tickets = after

module _ (hash : String → String) where
  abbrev pub use_one : Use → Tickets → Tickets
  use_one (issues ticket user_id target now) tickets =
      or_same (issue hash ticket user_id target now tickets) tickets
  use_one (redeems ticket target now) tickets = (redeem hash ticket target now tickets).0

  abbrev pub use_all : List Use → Tickets → Tickets
  use_all [] tickets = tickets
  use_all (u ∷ uses) tickets = use_all uses (use_one u tickets)

  -- The use does not issue a ticket with the hash.
  abbrev pub Other : String → Use → Type 0
  Other ticket_hash (issues ticket user_id target now) = (hash ticket == ticket_hash) ≡ false
  Other ticket_hash (redeems ticket target now) = Unit

  create_absent :
      (key ticket_hash : String) (row : Ticket) (tickets : Tickets)
      → (key == ticket_hash) ≡ false
      → get tickets ticket_hash ≡ none
      → (before : Tickets) → get before ticket_hash ≡ none
      → get (or_same (create_ticket key row tickets) before) ticket_hash ≡ none
  unfolding create_ticket
  create_absent key ticket_hash row tickets ne absent before gone =
      elim (Option-cases (get tickets key)) [
        | inl free ↦ rw free (get-put tickets key ticket_hash row ∙ if_false _ _ ne ∙ absent)
        | inr (other, taken) ↦ rw taken gone
      ]

  use_one-absent :
      (ticket_hash : String) (u : Use) (tickets : Tickets)
      → Other ticket_hash u
      → get tickets ticket_hash ≡ none
      → get (use_one u tickets) ticket_hash ≡ none
  unfolding issue redeem redeem_ticket purge_tickets
  use_one-absent ticket_hash (issues ticket user_id target now) tickets ne absent =
      create_absent (hash ticket) ticket_hash _ (purge_tickets now tickets) ne
        (get-keep-none _ tickets ticket_hash absent) tickets absent
  use_one-absent ticket_hash (redeems ticket target now) tickets ne absent =
      get-erase tickets (hash ticket) ticket_hash ∙ ground (arith, absent)

  use_all-absent :
      (ticket_hash : String) (uses : List Use) (tickets : Tickets)
      → Each (Other ticket_hash) uses
      → get tickets ticket_hash ≡ none
      → get (use_all uses tickets) ticket_hash ≡ none
  use_all-absent ticket_hash [] tickets others absent = absent
  use_all-absent ticket_hash (u ∷ uses) tickets others absent =
      use_all-absent ticket_hash uses (use_one u tickets) others.1
        (use_one-absent ticket_hash u tickets others.0 absent)

  redeem_absent :
      (ticket target : String) (now : ℕ) (tickets : Tickets)
      → get tickets (hash ticket) ≡ none
      → (redeem hash ticket target now tickets).1 ≡ none
  unfolding redeem redeem_ticket
  redeem_absent ticket target now tickets absent = rw absent

  gone_behind :
      (ticket target : String) (now : ℕ) (tickets : Tickets)
      → get (redeem hash ticket target now tickets).0 (hash ticket) ≡ none
  unfolding redeem redeem_ticket
  gone_behind ticket target now tickets =
      get-erase tickets (hash ticket) (hash ticket) ∙ if_true _ _ (==_refl (hash ticket))

  -- Once a ticket has been redeemed, with whatever target and result, no later redeem of it returns a
  -- user, over any uses of the table between that issue no ticket with its hash.
  pub redeem-use_all-redeem :
      (ticket target target' : String) (now later : ℕ) (tickets : Tickets) (uses : List Use)
      → Each (Other (hash ticket)) uses
      → (redeem hash ticket target' later
          (use_all uses (redeem hash ticket target now tickets).0)).1
        ≡ none
  redeem-use_all-redeem ticket target target' now later tickets uses others =
      redeem_absent ticket target' later _
        (use_all-absent (hash ticket) uses _ others (gone_behind ticket target now tickets))

  inserted :
      (o : Option Ticket) (key : String) (row : Ticket) (tickets after : Tickets)
      → insert_row o key row tickets ≡ some after
      → get after key ≡ some row
  inserted none key row tickets after e =
      subst (λ t. get t key ≡ some row) (eq_of_some e)
        (get-put tickets key key row ∙ if_true _ _ (==_refl key))
  inserted (some other) key row tickets after e = ground arith

  issued_row :
      (ticket user_id target : String) (now : ℕ) (tickets after : Tickets)
      → issue hash ticket user_id target now tickets ≡ some after
      → get after (hash ticket)
        ≡ some (record { user_id = user_id; target = target; expires_at = expiry now })
  unfolding issue create_ticket
  issued_row ticket user_id target now tickets after e = inserted _ (hash ticket) _ _ after e

  -- In the table that its issue has returned, before any other use of the table: a ticket gives its
  -- user for its target before it expires, and nothing for another target or from its expiry on.
  pub redeem-issue :
      (ticket user_id target asked : String) (now later : ℕ) (tickets after : Tickets)
      → issue hash ticket user_id target now tickets ≡ some after
      → (redeem hash ticket asked later after).1 ≡ (
          if target == asked then (if leb (expiry now) later then none else some user_id) else none)
  unfolding redeem redeem_ticket
  redeem-issue ticket user_id target asked now later tickets after e =
      rw (issued_row ticket user_id target now tickets after e) (ground arith)
