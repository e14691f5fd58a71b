-- ===== src/Base/Lists.antt =====
-- Lists measured by native numbers, tests over lists, and predicates on every element.
use Prim.Native.Nat.{ℕ, zero, suc, ◌+◌, ◌-◌, ◌≤◌, ◌<◌, min}
use mathlib.Core.Path.{◌≡◌, refl, ap}
use mathlib.Core.Bool.{Bool, true, false, ◌&&◌, ◌||◌}
use mathlib.Core.Option.{Option, none, some}
use mathlib.Core.List.{List, [], ◌∷◌, ◌++◌}
use native.Mathlib.Omega.{arith}
use zoo.Base.Tests.{if◌then◌else◌, Bool-cases, and-eq_true}
use mathlib.Core.Logic.{inl, inr}

module _ {ℓ} {A : Type ℓ} where
  abbrev pub length : List A → ℕ
  length [] = 0
  length (x ∷ xs) = suc (length xs)

  pub nil_of_length : (xs : List A) → length xs ≡ 0 → xs ≡ []
  nil_of_length [] h = refl
  nil_of_length (x ∷ xs) h = absurd (omega (arith, h))

  pub length-append : (xs ys : List A) → length (xs ++ ys) ≡ length xs + length ys
  length-append [] ys = omega arith
  length-append (x ∷ xs) ys = omega (arith, length-append xs ys)

  abbrev pub get_elem? : List A → ℕ → Option A
  get_elem? [] i = none
  get_elem? (x ∷ xs) zero = some x
  get_elem? (x ∷ xs) (suc i) = get_elem? xs i

  abbrev pub take : ℕ → List A → List A
  take zero xs = []
  take (suc n) [] = []
  take (suc n) (x ∷ xs) = x ∷ take n xs

  abbrev pub drop : ℕ → List A → List A
  drop zero xs = xs
  drop (suc n) [] = []
  drop (suc n) (x ∷ xs) = drop n xs

  pub take-append-drop : (n : ℕ) (xs : List A) → take n xs ++ drop n xs ≡ xs
  take-append-drop zero xs = refl
  take-append-drop (suc n) [] = refl
  take-append-drop (suc n) (x ∷ xs) = ap (λ l. x ∷ l) (take-append-drop n xs)

  pub take-append_le : (n : ℕ) (xs ys : List A) → n ≤ length xs → take n (xs ++ ys) ≡ take n xs
  take-append_le zero xs ys h = refl
  take-append_le (suc n) [] ys h = absurd (omega arith)
  take-append_le (suc n) (x ∷ xs) ys h = ap (λ l. x ∷ l) (take-append_le n xs ys (omega arith))

  pub get_elem?-append :
      (i : ℕ) (xs ys : List A) → i < length xs → get_elem? (xs ++ ys) i ≡ get_elem? xs i
  get_elem?-append i [] ys h = absurd (omega arith)
  get_elem?-append zero (x ∷ xs) ys h = refl
  get_elem?-append (suc i) (x ∷ xs) ys h = get_elem?-append i xs ys (omega arith)

  pub length-take : (n : ℕ) (xs : List A) → length (take n xs) ≡ min n (length xs)
  length-take zero xs = omega arith
  length-take (suc n) [] = omega arith
  length-take (suc n) (x ∷ xs) = omega (arith, length-take n xs)

  pub length-drop : (n : ℕ) (xs : List A) → length (drop n xs) ≡ length xs - n
  length-drop zero xs = omega arith
  length-drop (suc n) [] = omega arith
  length-drop (suc n) (x ∷ xs) = omega (arith, length-drop n xs)

  -- The elements that pass a test, as the program's comprehensions select them.
  unfoldable pub keep : (A → Bool) → List A → List A
  keep p [] = []
  keep p (x ∷ xs) = let rest = keep p xs in if p x then x ∷ rest else rest

  pub keep-append : (p : A → Bool) (xs ys : List A) → keep p (xs ++ ys) ≡ keep p xs ++ keep p ys
  unfolding keep
  keep-append p [] ys = refl
  keep-append p (x ∷ xs) ys = ground (arith, keep-append p xs ys)

  pub length-keep : (p : A → Bool) (xs : List A) → length (keep p xs) ≤ length xs
  unfolding keep
  length-keep p [] = omega arith
  length-keep p (x ∷ xs) = ground (arith, length-keep p xs)

  unfoldable pub any : (A → Bool) → List A → Bool
  any p [] = false
  any p (x ∷ xs) = p x || any p xs

  unfoldable pub every : (A → Bool) → List A → Bool
  every p [] = true
  every p (x ∷ xs) = p x && every p xs

  -- A predicate that holds of every element; it computes to tuples.
  abbrev pub Each {κ} : (A → Type κ) → List A → Type κ
  Each P [] = Unit
  Each P (x ∷ xs) = P x × Each P xs

  pub Each-append {κ} :
      (P : A → Type κ) (xs ys : List A) → Each P xs → Each P ys → Each P (xs ++ ys)
  Each-append P [] ys hx hy = hy
  Each-append P (x ∷ xs) ys hx hy = (hx.0, Each-append P xs ys hx.1 hy)

  pub Each-imp {κ μ} :
      {P : A → Type κ} {Q : A → Type μ} (f : (x : A) → P x → Q x) (xs : List A)
      → Each P xs
      → Each Q xs
  Each-imp f [] h = tt
  Each-imp f (x ∷ xs) h = (f x h.0, Each-imp f xs h.1)

  pub Each-split {κ} : (P : A → Type κ) (xs ys : List A) → Each P (xs ++ ys) → Each P xs × Each P ys
  Each-split P [] ys h = (tt, h)
  Each-split P (x ∷ xs) ys h = let (a, b) = Each-split P xs ys h.1 in ((h.0, a), b)

  -- The element in the middle of a list, and the list without it or with another in its place.
  pub Each-middle {κ} : (P : A → Type κ) (xs ys : List A) (x : A) → Each P (xs ++ x ∷ ys) → P x
  Each-middle P xs ys x h = (Each-split P xs (x ∷ ys) h).1.0

  pub Each-without {κ} :
      (P : A → Type κ) (xs ys : List A) (x : A) → Each P (xs ++ x ∷ ys) → Each P (xs ++ ys)
  Each-without P xs ys x h = let (a, b) = Each-split P xs (x ∷ ys) h in Each-append P xs ys a b.1

  pub Each-replace {κ} :
      (P : A → Type κ) (xs ys : List A) (x y : A)
      → Each P (xs ++ x ∷ ys)
      → P y
      → Each P (xs ++ y ∷ ys)
  Each-replace P xs ys x y h new =
      let (a, b) = Each-split P xs (x ∷ ys) h in Each-append P xs (y ∷ ys) a (new, b.1)

  pub keep-Each {κ μ} :
      {P : A → Type κ} {Q : A → Type μ} (p : A → Bool)
      → ((x : A) → p x ≡ true → P x → Q x)
      → (xs : List A) → Each P xs
      → Each Q (keep p xs)
  unfolding keep
  keep-Each p f [] h = tt
  keep-Each p f (x ∷ xs) h = elim (Bool-cases (p x)) [
    | inl kept ↦ rw kept (f x kept h.0, keep-Each p f xs h.1)
    | inr gone ↦ rw gone (keep-Each p f xs h.1)
  ]

  pub every-Each : (p : A → Bool) (xs : List A) → every p xs ≡ true → Each (λ x. p x ≡ true) xs
  unfolding every
  every-Each p [] h = tt
  every-Each p (x ∷ xs) h =
      let both = and-eq_true (p x) (every p xs) h in (both.0, every-Each p xs both.1)
