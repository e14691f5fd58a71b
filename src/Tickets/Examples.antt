-- ===== src/Tickets/Examples.antt =====
-- A ticket for a screen, and the theorems at it.
use zoo.Base.{
  String, string_eq, ◌==◌, ◌≡◌, refl, none, some, List, [], ◌∷◌, leb, if◌then◌else◌, keep,
}
use zoo.Base.Dict.{get, put}
use zoo.Tickets.{Tickets, issue, redeem, expiry, purge_tickets, create_ticket}
use zoo.Tickets.Single.{Use, issues, redeems, use_all, redeem-use_all-redeem, redeem-issue}

abbrev plain : String → String
plain ticket = ticket

abbrev screen : Tickets
screen = ("t", record { user_id = "u"; target = "sandbox:1"; expires_at = 30_000_007 }) ∷ []

issue_run : issue plain "t" "u" "sandbox:1" 7 [] ≡ some screen
unfolding issue purge_tickets create_ticket keep get put
issue_run = refl

abbrev between : List Use
between = issues "v" "w" "sandbox:2" 8 ∷ redeems "v" "sandbox:2" 9 ∷ []

redeem-use_all-redeem_example :
    (redeem plain "t" "sandbox:1" 10
      (use_all plain between (redeem plain "t" "sandbox:2" 8 screen).0)).1
    ≡ none
redeem-use_all-redeem_example =
    redeem-use_all-redeem plain "t" "sandbox:2" "sandbox:1" 8 10 screen between (refl, (tt, tt))

abbrev box : String
box = "sandbox:1"

redeem-issue_example :
    (redeem plain "t" box 9 screen).1
    ≡ (if box == box then (if leb (expiry 7) 9 then none else some "u") else none)
redeem-issue_example = redeem-issue plain "t" "u" box box 7 9 [] screen issue_run
