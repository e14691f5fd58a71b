-- ===== src/Limits/Bound.antt =====
-- What a limit lets through over a whole run of requests.
use zoo.Base.{
  ℕ, ◌*◌, ◌≤◌, ◌<◌, String, string_eq, ==_iff, ◌==◌, ◌≡◌, refl, sym, ◌∙◌, subst, true, ◌&&◌, List,
  [], ◌∷◌, ◌++◌, append_assoc, append-nil, arith, ltb, if◌then◌else◌, Each, Each-imp, inl, inr,
  Bool-cases,
}
use native.Mathlib.Nat.{le_trans}
use mathlib.Core.Path.{subst₂}
use zoo.Base.Dict.{get}
use zoo.Limits.{Limit, width_of, check, ticks}
use zoo.Limits.Window.{within, within-append}
use zoo.Limits.Spec.{
  Log, Represents, admits, note_self, note_ne, log_after, is_allowed, check-Represents,
}

-- The times at which `check` lets a request of `key` through, over a run of requests.
pub let_through : Limit → String → List (String × ℕ) → List ℕ
let_through limit key [] = []
let_through limit key ((asked, now) ∷ requests) =
    let (limit', outcome) = check limit asked now in
    let rest = let_through limit' key requests in
    if is_allowed outcome && asked == key then now ∷ rest else rest

-- time.monotonic() does not go back.
abbrev pub Chronological : ℕ → List (String × ℕ) → Type 0
Chronological start [] = Unit
Chronological start ((asked, now) ∷ requests) = (start ≤ now) × Chronological now requests

-- A window that ends later holds no more of what is past.
within_mono :
    (width now later : ℕ) (log : List ℕ)
    → Each (λ b. b ≤ now) log
    → now ≤ later
    → within width later log ≤ within width now log
unfolding within
within_mono width now later [] k le = omega arith
within_mono width now later (a ∷ log) k le = ground (arith, within_mono width now later log k.1 le)

-- No window holds more than `count` of the log of any key.
abbrev pub Bounded : ℕ → ℕ → Log → Type 0
Bounded width count log = (key : String) (at : ℕ) → within width at (log key) ≤ count

within-snoc :
    (width count now at : ℕ) (log : List ℕ)
    → Each (λ b. b ≤ now) log
    → within width now log < count
    → ((t : ℕ) → within width t log ≤ count)
    → within width at (log ++ now ∷ []) ≤ count
unfolding within
within-snoc width count now at log past room bound =
    rw (within-append width at log (now ∷ [])) (elim (Bool-cases (ltb at now)) [
      | inl before ↦ ground (arith, bound at)
      | inr after ↦ ground (arith, within_mono width now at log past)
    ])

room_of :
    (limit : Limit) (log : Log) (asked : String) (now : ℕ)
    → admits limit log asked now ≡ true
    → within (width_of limit) now (log asked) < limit.count
unfolding admits
room_of limit log asked now h = ground arith

pub log_after-Bounded :
    (limit : Limit) (log : Log) (asked : String) (now : ℕ)
    → Each (λ b. b ≤ now) (log asked)
    → Bounded (width_of limit) limit.count log
    → Bounded (width_of limit) limit.count (log_after limit log asked now)
unfolding log_after
log_after-Bounded limit log asked now past bound key at =
    elim (Bool-cases (admits limit log asked now)) [
      | inl let_in ↦ rw let_in (elim (Bool-cases (asked == key)) [
        | inl same ↦
            let e = (==_iff asked key).0 same in
            rw (← e, note_self log asked now)
              (within-snoc (width_of limit) limit.count now at (log asked) past
                (room_of limit log asked now let_in) (bound asked))
        | inr other ↦ rw (note_ne log asked key now other) (bound key at)
      ])
      | inr out ↦ rw out (bound key at)
    ]

log_after-append :
    (limit : Limit) (log : Log) (asked key : String) (now : ℕ) (rest : List ℕ)
    → log_after limit log asked now key ++ rest
      ≡ log key ++ (if admits limit log asked now && asked == key then now ∷ rest else rest)
unfolding log_after
log_after-append limit log asked key now rest = elim (Bool-cases (admits limit log asked now)) [
  | inl let_in ↦ rw let_in (elim (Bool-cases (asked == key)) [
    | inl same ↦
        rw (same, ← ((==_iff asked key).0 same), note_self log asked now)
          (append_assoc (log asked) (now ∷ []) rest)
    | inr other ↦ rw (other, note_ne log asked key now other)
  ])
  | inr out ↦ rw out
]

pub check-keeps :
    (limit : Limit) (key : String) (now : ℕ)
    → ((check limit key now).0.count ≡ limit.count)
      × (width_of (check limit key now).0 ≡ width_of limit)
unfolding check
check-keeps limit key now = ground arith

let_through-Bounded :
    (width count : ℕ) (limit : Limit) (now : ℕ) (log : Log) (key : String)
    (requests : List (String × ℕ)) (at : ℕ)
    → limit.count ≡ count
    → width_of limit ≡ width
    → Represents width now log limit.hits
    → Bounded width count log
    → Chronological now requests
    → within width at (log key ++ let_through limit key requests) ≤ count
unfolding let_through
let_through-Bounded width count limit now log key [] at ec ew r b c = rw append-nil (b key at)
let_through-Bounded width count limit now log key ((asked, later) ∷ requests) at ec ew r b c =
    let r0 = subst (λ w. Represents w now log limit.hits) (sym ew) r in
    let (decided, r') = check-Represents limit now later log asked r0 c.0 in
    let (kc, kw) = check-keeps limit asked later in
    let past = Each-imp (λ b (h : b ≤ now). le_trans h c.0) (log asked) (r.tracks asked).log_past in
    let b0 = subst₂ (λ w c. Bounded w c log) (sym ew) (sym ec) b in
    let b' =
      subst₂ (λ w c. Bounded w c (log_after limit log asked later)) ew ec
        (log_after-Bounded limit log asked later past b0) in
    let ih =
      let_through-Bounded width count (check limit asked later).0 later
        (log_after limit log asked later) key requests at (kc ∙ ec) (kw ∙ ew)
        (subst
          (λ w.
            Represents w later (log_after limit log asked later) (check limit asked later).0.hits)
          ew r')
        b' c.1 in
    rw (decided, ← (log_after-append limit log asked key later _)) ih

pub fresh-Represents : (width : ℕ) → Represents width 0 (λ key. []) []
unfolding get
fresh-Represents width = record {
  distinct = tt;
  tracks = λ key. record { ordered = tt; past = tt; log_past = tt; agrees = λ later h. refl };
}

-- Over any run of requests on a limit that starts empty, whatever other keys are asked between,
-- no window holds more than `count` of the requests that `check` lets through for one key.
pub let_through-le-count :
    (count window : ℕ) (key : String) (requests : List (String × ℕ)) (at : ℕ)
    → Chronological 0 requests
    → within
        (window * ticks)
        at
        (let_through (record { count = count; window = window; hits = [] }) key requests)
      ≤ count
unfolding within
let_through-le-count count window key requests at c =
    let_through-Bounded (window * ticks) count
      (record { count = count; window = window; hits = [] }) 0 (λ other. []) key requests at refl
      refl (fresh-Represents (window * ticks)) (λ other t. omega arith) c
