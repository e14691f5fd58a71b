-- ===== src/Base/Dict.antt =====
-- Python's dict: an association list in insertion order. A write to a key that is there keeps its
-- place, a write to a new key comes last, and a removal keeps the order of the others.
use zoo.Base.Tests.{if◌then◌else◌, Bool-cases}
use zoo.Base.Equality.{Key, ◌==◌}
use zoo.Base.Lists.{length, keep, Each}
use Prim.Native.Nat.{◌+◌, ◌≤◌}
use mathlib.Core.Path.{◌≡◌, refl, sym, subst, subst₂}
use mathlib.Core.Bool.{Bool}
use mathlib.Core.Logic.{inl, inr}
use mathlib.Core.Option.{Option, none, some}
use mathlib.Core.List.{List, [], ◌∷◌}
use native.Mathlib.Omega.{arith}

abbrev pub Dict {ℓ κ} : Type ℓ → Type κ → Type (ℓ ⊔ κ)
Dict K V = List (K × V)

module _ {ℓ κ} {K : Type ℓ} {V : Type κ} ⦃e : Key K⦄ where
  -- d.get(k)
  unfoldable pub get : Dict K V → K → Option V
  get [] k = none
  get ((j, v) ∷ d) k = if j == k then some v else get d k

  -- d[k] = v
  unfoldable pub put : Dict K V → K → V → Dict K V
  put [] k v = (k, v) ∷ []
  put ((j, w) ∷ d) k v = if j == k then (j, v) ∷ d else (j, w) ∷ put d k v

  -- d.pop(k, None), and del d[k] where the key is there
  unfoldable pub erase : Dict K V → K → Dict K V
  erase [] k = []
  erase ((j, v) ∷ d) k = let rest = erase d k in if j == k then rest else (j, v) ∷ rest

  pub get-put :
      (d : Dict K V) (k j : K) (v : V) → get (put d k v) j ≡ (if k == j then some v else get d j)
  unfolding get put
  get-put [] k j v = refl
  get-put ((i, w) ∷ d) k j v =
      ground (arith, e.same_iff k j, e.same_iff i k, e.same_iff i j, get-put d k j v)

  pub get-erase : (d : Dict K V) (k j : K) → get (erase d k) j ≡ (if k == j then none else get d j)
  unfolding get erase
  get-erase [] k j = ground arith
  get-erase ((i, w) ∷ d) k j =
      ground (arith, e.same_iff k j, e.same_iff i k, e.same_iff i j, get-erase d k j)

  pub length-erase : (d : Dict K V) (k : K) → length (erase d k) ≤ length d
  unfolding erase
  length-erase [] k = omega arith
  length-erase ((i, w) ∷ d) k = ground (arith, length-erase d k)

  pub length-put : (d : Dict K V) (k : K) (v : V) → length (put d k v) ≤ length d + 1
  unfolding put
  length-put [] k v = omega arith
  length-put ((i, w) ∷ d) k v = ground (arith, length-put d k v)

module _ {ℓ κ} {K : Type ℓ} {V : Type κ} ⦃e : Key K⦄ where
  -- No key stands twice. This is what makes an association list a dict.
  abbrev pub Distinct : Dict K V → Type κ
  Distinct [] = Unit
  Distinct ((k, v) ∷ d) = (get d k ≡ none) × Distinct d

  pub put-Distinct : (d : Dict K V) (k : K) (v : V) → Distinct d → Distinct (put d k v)
  unfolding get put
  put-Distinct [] k v h = (refl, tt)
  put-Distinct ((i, w) ∷ d) k v h = elim (Bool-cases (i == k)) [
    | inl same ↦ rw same h
    | inr other ↦
        rw other
          (ground (arith, get-put d k i v, e.same_iff k i, e.same_iff i k), put-Distinct d k v h.1)
  ]

  pub erase-Distinct : (d : Dict K V) (k : K) → Distinct d → Distinct (erase d k)
  unfolding get erase
  erase-Distinct [] k h = tt
  erase-Distinct ((i, w) ∷ d) k h = elim (Bool-cases (i == k)) [
    | inl same ↦ rw same (erase-Distinct d k h.1)
    | inr other ↦ rw other (ground (arith, get-erase d k i), erase-Distinct d k h.1)
  ]

  -- {k: v for k, v in d.items() if p(k, v)}
  abbrev pub when : (K × V → Bool) → K → Option V → Option V
  when p k none = none
  when p k (some v) = if p (k, v) then some v else none

  pub get-keep-none :
      (p : K × V → Bool) (d : Dict K V) (k : K) → get d k ≡ none → get (keep p d) k ≡ none
  unfolding get keep
  get-keep-none p [] k h = refl
  get-keep-none p ((i, w) ∷ d) k h = ground (arith, get-keep-none p d k)

  pub get-keep :
      (p : K × V → Bool) (d : Dict K V) (k : K) → Distinct d → get (keep p d) k ≡ when p k (get d k)
  unfolding get keep
  get-keep p [] k h = refl
  get-keep p ((i, w) ∷ d) k h = elim (Bool-cases (i == k)) [
    | inl same ↦
        let e' : i ≡ k = (e.same_iff i k).0 same in
        ground (arith, get-keep-none p d k, e.same_iff i k, h.0)
    | inr other ↦ ground (arith, get-keep p d k h.1)
  ]

  pub keep-Distinct : (p : K × V → Bool) (d : Dict K V) → Distinct d → Distinct (keep p d)
  unfolding get keep
  keep-Distinct p [] h = tt
  keep-Distinct p ((i, w) ∷ d) h = elim (Bool-cases (p (i, w))) [
    | inl kept ↦ rw kept (get-keep-none p d i h.0, keep-Distinct p d h.1)
    | inr gone ↦ rw gone (keep-Distinct p d h.1)
  ]

pub ruleset dict_laws = (get-put, get-erase)

module _ {ℓ κ μ} {K : Type ℓ} {V : Type κ} ⦃e : Key K⦄ (P : K × V → Type μ) where
  pub get-Each : (d : Dict K V) (k : K) (v : V) → Each P d → get d k ≡ some v → P (k, v)
  unfolding get
  get-Each [] k v h found = ground arith
  get-Each ((j, w) ∷ d) k v h found = elim (Bool-cases (j == k)) [
    | inl same ↦
        let e0 : j ≡ k = (e.same_iff j k).0 same in
        let e1 : w ≡ v = ground arith in subst₂ (λ a b. P (a, b)) e0 e1 h.0
    | inr other ↦ let found' : get d k ≡ some v = ground arith in get-Each d k v h.1 found'
  ]

  pub put-Each : (d : Dict K V) (k : K) (v : V) → Each P d → P (k, v) → Each P (put d k v)
  unfolding put
  put-Each [] k v h new = (new, tt)
  put-Each ((j, w) ∷ d) k v h new = elim (Bool-cases (j == k)) [
    | inl same ↦ rw same (subst (λ a. P (a, v)) (sym ((e.same_iff j k).0 same)) new, h.1)
    | inr other ↦ rw other (h.0, put-Each d k v h.1 new)
  ]

  pub erase-Each : (d : Dict K V) (k : K) → Each P d → Each P (erase d k)
  unfolding erase
  erase-Each [] k h = tt
  erase-Each ((j, w) ∷ d) k h = elim (Bool-cases (j == k)) [
    | inl same ↦ rw same (erase-Each d k h.1)
    | inr other ↦ rw other (h.0, erase-Each d k h.1)
  ]
