-- ===== src/Limits/Examples.antt =====
-- Runs of small limits, and the theorems at them.
use zoo.Base.{◌+◌, ◌≤◌, ◌*◌, ◌<◌, String, ◌≡◌, refl, true, false, [], ◌∷◌, arith}
use zoo.Base.Dict.{get, put}
use zoo.Limits.{Limit, refused, allowed, check, width_of, ticks}
use zoo.Limits.Window.{within}
use zoo.Limits.Spec.{Log, Represents, admits, log_after, is_allowed, check-Represents}
use zoo.Limits.Bound.{
  Bounded, let_through, let_through-le-count, fresh-Represents, log_after-Bounded,
}
use zoo.Limits.Retry.{check-retry_after}

abbrev two_a_minute : Limit
two_a_minute = record { count = 2; window = 60; hits = [] }

abbrev ip : String
ip = "10.0.0.1"

abbrev no_log : Log
no_log key = []

abbrev asked_once : Limit
asked_once = record { count = 1; window = 60; hits = (ip, 5 ∷ []) ∷ [] }

check_refuses : (check asked_once ip 7).1 ≡ refused 60
unfolding check get
check_refuses = refl

check_allows : (check asked_once ip 60_000_000_005).1 ≡ allowed
unfolding check get put
check_allows = refl

check-Represents_example :
    (is_allowed (check two_a_minute ip 5).1 ≡ admits two_a_minute no_log ip 5)
    × Represents
        (width_of two_a_minute)
        5
        (log_after two_a_minute no_log ip 5)
        (check two_a_minute ip 5).0.hits
check-Represents_example =
    check-Represents two_a_minute 0 5 no_log ip (fresh-Represents (width_of two_a_minute))
      (omega arith)

let_through-le-count_example :
    within
      (60 * ticks)
      9
      (let_through two_a_minute ip ((ip, 1) ∷ (ip, 2) ∷ ("other", 2) ∷ (ip, 3) ∷ []))
    ≤ 2
let_through-le-count_example =
    let_through-le-count 2 60 ip ((ip, 1) ∷ (ip, 2) ∷ ("other", 2) ∷ (ip, 3) ∷ []) 9 (omega arith)

abbrev one_a_minute : Limit
one_a_minute = record { count = 1; window = 60; hits = [] }

abbrev asked : Limit
asked = (check one_a_minute ip 5).0

once_Bounded : Bounded (60 * ticks) 1 (log_after one_a_minute no_log ip 5)
unfolding within
once_Bounded = log_after-Bounded one_a_minute no_log ip 5 tt (λ key at. omega arith)

asked_refuses : (check asked ip 7).1 ≡ refused 60
unfolding check get put
asked_refuses = refl

check-retry_after_example :
    (7 + 60 * ticks ≤ 8 → is_allowed (check (check asked ip 7).0 ip 8).1 ≡ true)
    × (8 + ticks < 7 + 60 * ticks → is_allowed (check (check asked ip 7).0 ip 8).1 ≡ false)
unfolding check get
check-retry_after_example =
    check-retry_after asked 5 7 60 8 (log_after one_a_minute no_log ip 5) ip
      (check-Represents one_a_minute 0 5 no_log ip (fresh-Represents (60 * ticks)) (omega arith)).1
      once_Bounded (omega arith) (omega arith) asked_refuses
