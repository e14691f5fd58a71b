-- ===== src/Labels/Scope.antt =====
-- What a selector asks of labels (matches), and what `scoped` makes of a request's labels.
use zoo.Base.{
  String, string_eq, ◌==◌, ==_iff, ==_refl, ◌≡◌, refl, ◌≢◌, ◌↔◌, ◌⊎◌, inl, inr, ◌∙◌, true, false,
  Option, none, some, [], ◌∷◌, arith, Bool-cases, Option-cases, and-eq_true, subst, ap,
}
use zoo.Base.Dict.{get, put, get-put, Distinct}
use zoo.Labels.{
  Labels, has_value, holds_all, matches, differs, conflict, merge, forbidden, scoped_to, scoped,
}

-- Each entry of the selector is one of the labels.
abbrev pub Covers : Labels → Labels → Type 0
Covers labels selector =
    (key value : String) → get selector key ≡ some value → get labels key ≡ some value

has_value_iff :
    (found : Option String) (value : String) → (has_value found value ≡ true) ↔ (found ≡ some value)
has_value_iff none value = ground arith
has_value_iff (some other) value = ground (arith, ==_iff other value)

head_get : (key value : String) (selector : Labels) → get ((key, value) ∷ selector) key ≡ some value
unfolding get
head_get key value selector = rw (==_refl key)

tail_get :
    (key value other : String) (selector : Labels)
    → (key == other) ≡ false
    → get ((key, value) ∷ selector) other ≡ get selector other
unfolding get
tail_get key value other selector ne = rw ne

none_differs :
    (key other value : String) (selector : Labels)
    → get selector key ≡ none
    → get selector other ≡ some value
    → (key == other) ≡ false
none_differs key other value selector fresh found = ground (arith, ==_iff key other)

Covers-cons :
    (labels : Labels) (key value : String) (selector : Labels)
    → get labels key ≡ some value
    → Covers labels selector
    → Covers labels ((key, value) ∷ selector)
unfolding get
Covers-cons labels key value selector here rest other v h =
    ground (arith, ==_iff key other, rest other v)

holds_all_iff :
    (labels selector : Labels)
    → Distinct selector
    → (holds_all labels selector ≡ true) ↔ Covers labels selector
unfolding holds_all get
holds_all_iff labels [] d = ground arith
holds_all_iff labels ((key, value) ∷ selector) d =
    let here = has_value_iff (get labels key) value in
    let rest = holds_all_iff labels selector d.1 in
    (
      λ h.
          let (a, b) =
            and-eq_true (has_value (get labels key) value) (holds_all labels selector) h in
          Covers-cons labels key value selector (here.0 a) (rest.0 b),
      λ covers.
          let a = here.1 (covers key value (head_get key value selector)) in
          let b = rest.1 (λ other v found. covers other v (
            tail_get key value other selector (none_differs key other v selector d.0 found)
            ∙ found)) in
          rw (a, b),
    )

-- For a selector in which no key stands twice, labels match it just if each of its entries is one of
-- the labels.
pub matches_iff :
    (labels selector : Labels)
    → Distinct selector
    → (matches labels (some selector) ≡ true) ↔ Covers labels selector
unfolding matches
matches_iff labels selector d = holds_all_iff labels selector d

abbrev pub or_else : Option String → Option String → Option String
or_else none other = other
or_else (some value) other = some value

or_else-put :
    (labels selector : Labels) (key value k : String)
    → get selector key ≡ none
    → or_else (get selector k) (get (put labels key value) k)
      ≡ or_else (get ((key, value) ∷ selector) k) (get labels k)
unfolding get
or_else-put labels selector key value k fresh =
    ground (arith, get-put labels key k value, ==_iff key k)

get-merge :
    (labels selector : Labels) (k : String)
    → Distinct selector
    → get (merge labels selector) k ≡ or_else (get selector k) (get labels k)
unfolding merge get
get-merge labels [] k d = refl
get-merge labels ((key, value) ∷ selector) k d =
    get-merge (put labels key value) selector k d.1 ∙ or_else-put labels selector key value k d.0

-- A key that the selector and the labels give different values.
abbrev pub Clash : Labels → Labels → String → Type 0
Clash labels selector key =
    (asked : String) × (value : String) × (get selector key ≡ some value)
    × (get labels key ≡ some asked)
    × (asked ≢ value)

abbrev Compatible : Labels → Labels → Type 0
Compatible labels selector =
    (key value : String) → get selector key ≡ some value → differs (get labels key) value ≡ false

differs_apart :
    (found : Option String) (value : String)
    → differs found value ≡ true
    → (asked : String) × (found ≡ some asked) × (asked ≢ value)
differs_apart none value h = ground arith
differs_apart (some asked) value h = (asked, refl, λ e. ground (arith, ==_iff asked value))

Clash-cons :
    (labels selector : Labels) (k value key : String)
    → get selector k ≡ none
    → Clash labels selector key
    → Clash labels ((k, value) ∷ selector) key
Clash-cons labels selector k value key fresh (asked, v, found, held, apart) = (
  asked,
  v,
  tail_get k value key selector (none_differs k key v selector fresh found) ∙ found,
  held,
  apart,
)

conflict-some :
    (labels selector : Labels) (key : String)
    → Distinct selector
    → conflict labels selector ≡ some key
    → Clash labels selector key
unfolding conflict
conflict-some labels [] key d h = ground arith
conflict-some labels ((k, value) ∷ selector) key d h =
    elim (Bool-cases (differs (get labels k) value)) [
      | inl apart ↦
          let (asked, held, ne) = differs_apart (get labels k) value apart in
          let e : k ≡ key = ground arith in
          subst (Clash labels ((k, value) ∷ selector)) e
            (asked, value, head_get k value selector, held, ne)
      | inr same ↦
          let h' : conflict labels selector ≡ some key = ground arith in
          Clash-cons labels selector k value key d.0 (conflict-some labels selector key d.1 h')
    ]

conflict-none :
    (labels selector : Labels) → conflict labels selector ≡ none → Compatible labels selector
unfolding conflict get
conflict-none labels [] h key value found = ground arith
conflict-none labels ((k, v) ∷ selector) h key value found =
    ground (arith, ==_iff k key, conflict-none labels selector _ key value)

or_else_same :
    (held asked : Option String)
    → ((value : String) → asked ≡ some value → differs held value ≡ false)
    → or_else asked held ≡ or_else held asked
or_else_same none none h = refl
or_else_same none (some value) h = refl
or_else_same (some other) none h = refl
or_else_same (some other) (some value) h = ground (arith, ==_iff other value, h value refl)

-- What a key with a selector makes of a request's labels.
abbrev pub Granted : Labels → Labels → Labels → Type 0
Granted labels selector result =
    (matches result (some selector) ≡ true)
    × ((key : String) → get result key ≡ or_else (get labels key) (get selector key))

merge-Granted :
    (labels selector : Labels)
    → Distinct selector
    → Compatible labels selector
    → Granted labels selector (merge labels selector)
merge-Granted labels selector d c = (
  (matches_iff (merge labels selector) selector d).1 (λ key value found.
      get-merge labels selector key d ∙ ap (λ o. or_else o (get labels key)) found),
  λ key. get-merge labels selector key d ∙ or_else_same (get labels key) (get selector key) (c key),
)

-- For a selector in which no key stands twice: either scoped refuses with a key to which request and
-- selector give different values, or it returns labels that match the selector and that have at each
-- key the label of the request, or else the selector's.
pub scoped_lem :
    (labels selector : Labels)
    → Distinct selector
    → ((key : String) × (scoped labels (some selector) ≡ forbidden key) × Clash labels selector key)
      ⊎ ((result : Labels) × (scoped labels (some selector) ≡ scoped_to result)
          × Granted labels selector result)
unfolding scoped
scoped_lem labels selector d = elim (Option-cases (conflict labels selector)) [
  | inl free ↦ inr (
    merge labels selector,
    rw free,
    merge-Granted labels selector d (conflict-none labels selector free),
  )
  | inr (key, e) ↦ inl (key, rw e, conflict-some labels selector key d e)
]
