-- ===== src/Pool/Demand.antt =====
-- demand of apps/server/pool.py: how many sandboxes of a kind recent creates ask for. Creates are the pairs of a kind
-- and a time.
use zoo.Base.{
  ℕ, zero, suc, ◌+◌, ◌-◌, ◌*◌, ◌/◌, min, String, string_eq, nat_eq, pair_eq, ◌==◌, Option, none,
  some, List, [], ◌∷◌, ◌++◌, ltb, leb, if◌then◌else◌, any, length, get_elem?,
}
use zoo.Base.Dict.{Dict, get, put}
use zoo.Pool.{kinds, or_zero}

abbrev pub max_size : ℕ
max_size = 10

abbrev pub refill_seconds : ℕ
refill_seconds = 10

module _ {A : Type 0} where
  abbrev pub or_nil : Option (List A) → List A
  or_nil none = []
  or_nil (some xs) = xs

-- LIST_RECENT_CREATES: how many per kind and interval, over the last hour
unfoldable pub list_recent_creates : ℕ → List (String × ℕ) → Dict (String × ℕ) ℕ
list_recent_creates now [] = []
list_recent_creates now ((kind, at) ∷ created) =
    let rest = list_recent_creates now created in
    let bucket : String × ℕ = (kind, at / refill_seconds) in
    if ltb now (at + 3600) then put rest bucket (or_zero (get rest bucket) + 1) else rest

abbrev pub intervals : ℕ
intervals = 3600 / refill_seconds

-- min(intervals, math.ceil(0.99 * intervals)) - 1
abbrev pub rank : ℕ
rank = min intervals ((99 * intervals + 99) / 100) - 1

unfoldable pub insert_sorted : ℕ → List ℕ → List ℕ
insert_sorted n [] = n ∷ []
insert_sorted n (m ∷ ms) = let rest = insert_sorted n ms in if leb n m then n ∷ m ∷ ms else m ∷ rest

unfoldable pub sorted : List ℕ → List ℕ
unfolding insert_sorted
sorted [] = []
sorted (n ∷ ns) = insert_sorted n (sorted ns)

-- [0] * n
abbrev pub zeros : ℕ → List ℕ
zeros zero = []
zeros (suc n) = 0 ∷ zeros n

-- The list has at least `intervals` elements, so that one stands at the rank.
unfoldable pub quantile : List ℕ → ℕ
unfolding sorted
quantile found =
    min max_size (or_zero (get_elem? (sorted (zeros (intervals - length found) ++ found)) rank))

-- The loop of demand.
unfoldable pub by_kind : Dict (String × ℕ) ℕ → Dict String (List ℕ) → Dict String (List ℕ)
by_kind [] counts = counts
by_kind (((kind, bucket), creates) ∷ rows) counts =
    let counted = put counts kind (or_nil (get counts kind) ++ creates ∷ []) in
    by_kind rows (if any (λ own. kind == own) kinds then counted else counts)

abbrev pub quantiles : Dict String (List ℕ) → Dict String ℕ
quantiles [] = []
quantiles ((kind, found) ∷ counts) = (kind, quantile found) ∷ quantiles counts

unfoldable pub demand : ℕ → List (String × ℕ) → Dict String ℕ
unfolding by_kind list_recent_creates
demand now created = quantiles (by_kind (list_recent_creates now created) [])
