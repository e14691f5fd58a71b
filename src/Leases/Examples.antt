-- ===== src/Leases/Examples.antt =====
-- Two workers and the lease of the metering, and the theorems at them.
use zoo.Base.{String, string_eq, ◌≡◌, ◌<◌, refl, none, some, [], ◌∷◌, true, false, arith}
use zoo.Base.Dict.{get, put, erase}
use zoo.Leases.{Leases, acquire_lease, hold, release, release_lease, stamp}
use zoo.Leases.Rows.{hold-hold}
use zoo.Leases.Exclusive
use zoo.Leases.Exclusive.{Believed, World, Step, Reach, here, next, holds, tick, hold-exclusive}

abbrev nobody : Believed
nobody worker_id name = none

abbrev begun : World
begun = record { leases = []; now = 7; until = nobody }

abbrev taken : Leases
taken = ("metering", record { holder = "a"; expires_at = 30_000_007 }) ∷ []

abbrev working : World
working = record {
  leases = taken;
  now = 7;
  until = Exclusive.set_until nobody "a" "metering" (some 30_000_007);
}

taken_run : hold "a" "metering" 30 7 [] ≡ (taken, true)
unfolding hold acquire_lease get put
taken_run = refl

refused_run : hold "b" "metering" 30 8 taken ≡ (taken, false)
unfolding hold acquire_lease get
refused_run = refl

released_run : release "a" "metering" taken ≡ []
unfolding release release_lease get erase
released_run = refl

abbrev worker_id : String
worker_id = "a"

working_reached : Reach begun working
working_reached = next here (holds "a" "metering" 30 taken true taken_run)

hold-exclusive_example : worker_id ≡ worker_id
hold-exclusive_example =
    hold-exclusive begun working worker_id worker_id "metering" 30_000_007 30_000_007 (λ w n. refl)
      working_reached refl refl (omega arith) (omega arith)

hold-hold_example :
    ((hold "b" "metering" 30 50_000_000 (release "a" "metering" taken)).1 ≡ true)
    × (stamp 7 30 < 50_000_000 → (hold "b" "metering" 30 50_000_000 taken).1 ≡ true)
hold-hold_example = hold-hold "a" "b" "metering" 30 30 7 50_000_000 [] taken taken_run
