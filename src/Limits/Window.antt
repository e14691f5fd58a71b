-- ===== src/Limits/Window.antt =====
-- Counting the times of a log that a window holds, and what the loop of `check` leaves of a deque.
use zoo.Base.{
  ℕ, ◌+◌, ◌≤◌, ◌<◌, ◌≡◌, refl, false, ◌&&◌, List, [], ◌∷◌, ◌++◌, arith, ltb, leb, if◌then◌else◌,
  length, Each, inl, inr, Bool-cases,
}
use zoo.Limits.{expire, live}

-- The times of `log` that a window which ends at `now` holds.
unfoldable pub within : ℕ → ℕ → List ℕ → ℕ
within width now [] = 0
within width now (a ∷ log) =
    (if ltb now (a + width) && leb a now then 1 else 0) + within width now log

-- Oldest first.
abbrev pub Ordered : List ℕ → Type 0
Ordered [] = Unit
Ordered (a ∷ log) = Each (λ b. a ≤ b) log × Ordered log

pub within-le : (width now : ℕ) (log : List ℕ) → within width now log ≤ length log
unfolding within
within-le width now [] = omega arith
within-le width now (a ∷ log) = ground (arith, within-le width now log)

pub within-append :
    (width now : ℕ) (xs ys : List ℕ)
    → within width now (xs ++ ys) ≡ within width now xs + within width now ys
unfolding within
within-append width now [] ys = omega arith
within-append width now (a ∷ xs) ys = ground (arith, within-append width now xs ys)

-- With every hit at or before `now`, and the first still inside the window, all are.
pub within-eq-length :
    (width now a : ℕ) (log : List ℕ)
    → Each (λ b. a ≤ b) log
    → Each (λ b. b ≤ now) log
    → now < a + width
    → within width now log ≡ length log
unfolding within
within-eq-length width now a [] h k lt = refl
within-eq-length width now a (b ∷ log) h k lt =
    ground (arith, within-eq-length width now a log h.1 k.1 lt)

module _ (width now : ℕ) where
  -- The loop drops just what the window has left.
  pub within-expire :
      (later : ℕ) (hits : List ℕ)
      → now ≤ later
      → within width later (expire width now hits) ≡ within width later hits
  unfolding within expire
  within-expire later [] h = refl
  within-expire later (a ∷ hits) h = ground (arith, within-expire later hits h)

  pub expire-Each : (P : ℕ → Type 0) (hits : List ℕ) → Each P hits → Each P (expire width now hits)
  unfolding expire
  expire-Each P [] h = tt
  expire-Each P (a ∷ hits) h = elim (Bool-cases (leb (a + width) now)) [
    | inl old ↦ rw old (expire-Each P hits h.1)
    | inr new ↦ rw new h
  ]

  pub expire-Ordered : (hits : List ℕ) → Ordered hits → Ordered (expire width now hits)
  unfolding expire
  expire-Ordered [] h = tt
  expire-Ordered (a ∷ hits) h = elim (Bool-cases (leb (a + width) now)) [
    | inl old ↦ rw old (expire-Ordered hits h.1)
    | inr new ↦ rw new h
  ]

  -- So what is left is counted by its length.
  pub length-expire :
      (hits : List ℕ)
      → Ordered hits
      → Each (λ b. b ≤ now) hits
      → length (expire width now hits) ≡ within width now hits
  unfolding expire within
  length-expire [] o k = refl
  length-expire (a ∷ hits) o k =
      ground (arith, length-expire hits o.1 k.1, within-eq-length width now a hits o.0 k.1)

-- A deque whose last hit has left the window counts nothing from then on.
pub within-live :
    (width now later : ℕ) (hits : List ℕ)
    → Ordered hits
    → Each (λ b. b ≤ now) hits
    → now ≤ later
    → live width now hits ≡ false
    → within width later hits ≡ 0
unfolding live within
within-live width now later [] o k l h = refl
within-live width now later (a ∷ []) o k l h = ground arith
within-live width now later (a ∷ b ∷ hits) o k l h =
    ground (arith, within-live width now later (b ∷ hits) o.1 k.1 l h)
