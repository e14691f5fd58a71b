-- ===== src/Labels/Filters.antt =====
-- parse_filters reads back what a client writes as key=value.
use zoo.Base.{
  String, string_eq, ◌==◌, ==_iff, ◌≡◌, refl, ◌∙◌, ap, true, false, Bool, none, some, [], ◌∷◌, ◌++◌,
  arith, nat_beq, not, ◌&&◌, map, Each, and-eq_true, subst, sym, append_assoc, append-nil,
}
use Prim.Native.Char.{code}
use zoo.Base.Dict.{get, put, Distinct}
use zoo.Labels.{Labels, partition, filter_item, add_filters, parse_filters}

-- A text without the separator.
abbrev pub plain : String → Bool
plain String.[] = true
plain (String.◌∷◌ c s) = not (nat_beq (code c) b'=') && plain s

-- f"{key}={value}"
abbrev pub joined : String → String → String
joined String.[] value = String.◌∷◌ "=" value
joined (String.◌∷◌ c key) value = String.◌∷◌ c (joined key value)

abbrev pub item_of : String × String → String
item_of (key, value) = joined key value

partition-joined :
    (key value : String) → plain key ≡ true → partition (joined key value) ≡ some (key, value)
unfolding partition
partition-joined String.[] value h = refl
partition-joined (String.◌∷◌ c s) value h =
    let (other, rest) = and-eq_true (not (nat_beq (code c) b'=')) (plain s) h in
    ground (arith, partition-joined s value rest)

-- What has a form key=value: a plain key and a value, neither empty.
abbrev pub Writable : String × String → Type 0
Writable (key, value) = (plain key ≡ true) × ((key == "") ≡ false) × ((value == "") ≡ false)

filter_item-Writable :
    (key value : String)
    → Writable (key, value)
    → filter_item (partition (joined key value)) ≡ some (key, value)
filter_item-Writable key value (p, k, v) = rw (partition-joined key value p) (ground arith)

put_new :
    (d : Labels) (key value : String) → get d key ≡ none → put d key value ≡ d ++ (key, value) ∷ []
unfolding get put
put_new [] key value fresh = refl
put_new ((k, v) ∷ d) key value fresh = ground (arith, put_new d key value)

absent_apart :
    (d : Labels) (key value k : String) (rest : Labels)
    → get (d ++ (key, value) ∷ rest) k ≡ none
    → (key == k) ≡ false
unfolding get
absent_apart [] key value k rest h = ground arith
absent_apart ((i, v) ∷ d) key value k rest h = ground (arith, absent_apart d key value k rest)

fresh_before :
    (d : Labels) (key value : String) (rest : Labels)
    → Distinct (d ++ (key, value) ∷ rest)
    → get d key ≡ none
unfolding get
fresh_before [] key value rest h = refl
fresh_before ((k, v) ∷ d) key value rest h = ground (
  arith,
  ==_iff k key,
  ==_iff key k,
  absent_apart d key value k rest h.0,
  fresh_before d key value rest h.1,
)

add_filters-items :
    (labels selector : Labels)
    → Each Writable labels
    → Distinct (selector ++ labels)
    → add_filters (map item_of labels) selector ≡ some (selector ++ labels)
unfolding add_filters
add_filters-items [] selector w d = ap some (sym (append-nil selector))
add_filters-items ((key, value) ∷ labels) selector w d =
    let fresh = fresh_before selector key value labels d in
    let e = append_assoc selector ((key, value) ∷ []) labels in
    rw (filter_item-Writable key value w.0, put_new selector key value fresh)
      (add_filters-items labels (selector ++ (key, value) ∷ []) w.1 (subst Distinct (sym e) d)
        ∙ ap some e)

-- A dict with unique keys, whose keys have no `=` and whose keys and values are not empty, is read back
-- as it was from its items written as key=value, in their order.
pub parse_filters-items :
    (labels : Labels)
    → Each Writable labels
    → Distinct labels
    → parse_filters (map item_of labels) ≡ some labels
unfolding parse_filters
parse_filters-items labels w d = add_filters-items labels [] w d
