-- ===== src/Labels/Examples.antt =====
-- Labels of two customers, and the theorems at them.
use zoo.Base.{
  String, string_eq, pair_eq, ◌==◌, ◌≡◌, ◌↔◌, ◌⊎◌, refl, true, none, some, [], ◌∷◌, ◌++◌, map,
  if◌then◌else◌,
}
use zoo.Base.Dict.{get, put}
use zoo.Labels.{
  Labels, Store, bad_key, bad_value, validate, matches, scoped, forbidden, scoped_to, newline,
  codes, key_matches, parse_filters, of, first_invalid, is_key_start,
}
use zoo.Labels
use zoo.Labels.Scope.{Covers, matches_iff, Clash, Granted, scoped_lem}
use zoo.Labels.Rows.{Keyed, of-put}
use zoo.Labels.Filters.{item_of, parse_filters-items}
use zoo.Labels.Keys.{Promised, Newline, key_matches_iff}

abbrev of_alice : Labels
of_alice = ("end_user", "alice") ∷ []

abbrev of_support : Labels
of_support = ("team", "support") ∷ []

abbrev both : Labels
both = ("team", "support") ∷ ("end_user", "alice") ∷ []

scoped_run : scoped of_support (some of_alice) ≡ scoped_to both
unfolding scoped Labels.conflict Labels.merge get put
scoped_run = refl

forbidden_run : scoped (("end_user", "bob") ∷ []) (some of_alice) ≡ forbidden "end_user"
unfolding scoped Labels.conflict get
forbidden_run = refl

validate_run : validate both ≡ none
unfolding validate first_invalid
validate_run = refl

refused_run : validate (("team", "*") ∷ []) ≡ some (bad_value "team")
unfolding validate first_invalid
refused_run = refl

newline_run : validate (("team\n", "support") ∷ []) ≡ none
unfolding validate first_invalid
newline_run = refl

upper_run : validate (("Team", "support") ∷ []) ≡ some (bad_key "Team")
unfolding validate first_invalid
upper_run = refl

abbrev held : Store
held = record { sandbox_labels = (("b", "team"), "infra") ∷ []; usage_labels = [] }

matches_iff_example : (matches both (some of_alice) ≡ true) ↔ Covers both of_alice
unfolding get
matches_iff_example = matches_iff both of_alice (refl, tt)

scoped_lem_example :
    ((key : String) × (scoped of_support (some of_alice) ≡ forbidden key)
      × Clash of_support of_alice key)
    ⊎ ((result : Labels) × (scoped of_support (some of_alice) ≡ scoped_to result)
        × Granted of_support of_alice result)
unfolding get
scoped_lem_example = scoped_lem of_support of_alice (refl, tt)

of-put_example :
    Keyed (Labels.put "a" both held)
    × ((id key : String)
        → (get (of id (Labels.put "a" both held)) key
            ≡ (if id == "a" then get both key else get (of id held) key))
          × (get (Labels.put "a" both held).usage_labels (id, key)
              ≡ (if id == "a" then get both key else get held.usage_labels (id, key))))
unfolding get
of-put_example = of-put "a" both held (refl, (refl, tt)) ((refl, tt), tt)

parse_filters-items_example : parse_filters (map item_of both) ≡ some both
unfolding get
parse_filters-items_example =
    parse_filters-items both ((refl, refl, refl), ((refl, refl, refl), tt)) (refl, (refl, tt))

key_matches_iff_example :
    (key_matches (codes "team" ++ newline ∷ []) ≡ true)
    ↔ (Promised (codes "team" ++ newline ∷ []) ⊎ Newline Promised (codes "team" ++ newline ∷ []))
key_matches_iff_example = key_matches_iff (codes "team" ++ newline ∷ [])
