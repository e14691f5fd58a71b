-- ===== src/Labels.antt =====
-- apps/server/labels.py: labels on sandboxes, the selectors of API keys and the label tables.
--
-- Labels and selectors are dicts of texts. `Store` has the two tables that `put` writes, each under
-- its primary key (sandbox id, key); the order in which `of` lists the rows is that of the table.
-- The regular expression KEY is read over code points: its `$` also stands before a last newline.
pub mod Keys
pub mod Scope
pub mod Filters
pub mod Rows
pub mod Examples
use Prim.Native.Char.{code}
use zoo.Base.{
  ℕ, zero, suc, String, string_eq, pair_eq, nat_beq, ◌==◌, Bool, true, false, not, ◌&&◌, ◌||◌,
  Option, none, some, List, [], ◌∷◌, ltb, leb, if◌then◌else◌, length, every, keep,
}
use zoo.Base.Dict.{Dict, get}
use zoo.Base.Dict

abbrev pub Labels : Type 0
Labels = Dict String String

abbrev pub max_labels : ℕ
max_labels = 20

abbrev pub max_value : ℕ
max_value = 255

-- [a-z0-9]
unfoldable pub is_key_start : ℕ → Bool
is_key_start c = leb b'a' c && leb c b'z' || leb b'0' c && leb c b'9'

-- [a-z0-9_./-]
unfoldable pub is_key_char : ℕ → Bool
unfolding is_key_start
is_key_char c =
    is_key_start c || nat_beq c b'_' || nat_beq c b'.' || nat_beq c b'/' || nat_beq c b'-'

abbrev pub newline : ℕ
newline = 10

-- `$` before a last newline
abbrev pub ends_line : ℕ → List ℕ → Bool
ends_line c [] = nat_beq c newline
ends_line c (d ∷ cs) = false

-- [a-z0-9_./-]{0,n}$
unfoldable pub key_rest : ℕ → List ℕ → Bool
unfolding is_key_char
key_rest n [] = true
key_rest zero (c ∷ cs) = ends_line c cs
key_rest (suc n) (c ∷ cs) = ends_line c cs || is_key_char c && key_rest n cs

-- KEY.match
unfoldable pub key_matches : List ℕ → Bool
unfolding key_rest
key_matches [] = false
key_matches (c ∷ cs) = is_key_start c && key_rest 62 cs

abbrev pub codes : String → List ℕ
codes String.[] = []
codes (String.◌∷◌ c s) = code c ∷ codes s

-- What is wrong with labels, as the messages of the ValueErrors tell.
pub data Invalid : Type 0 where
  too_many : Invalid
  bad_key : String → Invalid
  bad_value : String → Invalid

-- `not value or len(value) > MAX_VALUE or value == ANY`
unfoldable pub value_refused : String → Bool
value_refused value = value == "" || ltb max_value (length (codes value)) || value == "*"

-- The loop of validate: the first label that is refused.
unfoldable pub first_invalid : Labels → Option Invalid
unfolding key_matches value_refused
first_invalid [] = none
first_invalid ((key, value) ∷ labels) =
    let rest = first_invalid labels in
    if not (key_matches (codes key))
    then some (bad_key key)
    else if value_refused value
    then some (bad_value key)
    else rest

-- `none` where the labels are returned.
unfoldable pub validate : Labels → Option Invalid
unfolding first_invalid
validate labels = if ltb max_labels (length labels) then some too_many else first_invalid labels

-- labels.get(key) == value
abbrev pub has_value : Option String → String → Bool
has_value none value = false
has_value (some other) value = other == value

unfoldable pub holds_all : Labels → Labels → Bool
holds_all labels [] = true
holds_all labels ((key, value) ∷ selector) =
    has_value (get labels key) value && holds_all labels selector

unfoldable pub matches : Labels → Option Labels → Bool
unfolding holds_all
matches labels none = true
matches labels (some selector) = holds_all labels selector

-- labels.get(key, value) != value
abbrev pub differs : Option String → String → Bool
differs none value = false
differs (some other) value = not (other == value)

-- The loop of scoped: the first key that the request would change.
unfoldable pub conflict : Labels → Labels → Option String
conflict labels [] = none
conflict labels ((key, value) ∷ selector) =
    let rest = conflict labels selector in if differs (get labels key) value then some key else rest

-- {**labels, **selector}
unfoldable pub merge : Labels → Labels → Labels
merge labels [] = labels
merge labels ((key, value) ∷ selector) = merge (Dict.put labels key value) selector

-- `forbidden key` where the source raises 403 for the key.
pub data Scoped : Type 0 where
  forbidden : String → Scoped
  scoped_to : Labels → Scoped

abbrev pub unless_conflict : Option String → Labels → Scoped
unless_conflict none merged = scoped_to merged
unless_conflict (some key) merged = forbidden key

unfoldable pub scoped : Labels → Option Labels → Scoped
unfolding conflict merge
scoped labels none = scoped_to labels
scoped labels (some selector) = unless_conflict (conflict labels selector) (merge labels selector)

-- item.partition("=") where it finds a separator.
unfoldable pub partition : String → Option (String × String)
partition String.[] = none
partition (String.◌∷◌ c s) =
    let rest = partition s in
    if nat_beq (code c) b'='
    then some (String.[], s)
    else elim rest [ none ↦ none | some (key, value) ↦ some (String.◌∷◌ c key, value) ]

abbrev pub filter_item : Option (String × String) → Option (String × String)
filter_item none = none
filter_item (some (key, value)) = if key == "" || value == "" then none else some (key, value)

abbrev pub add_filter : Labels → Option (String × String) → Option Labels
add_filter selector none = none
add_filter selector (some (key, value)) = some (Dict.put selector key value)

abbrev pub then_filters : (Labels → Option Labels) → Option Labels → Option Labels
then_filters go none = none
then_filters go (some selector) = go selector

-- The loop of parse_filters on the selector so far; `none` where the source raises 422.
unfoldable pub add_filters : List String → Labels → Option Labels
unfolding partition
add_filters [] selector = some selector
add_filters (item ∷ items) selector =
    then_filters (add_filters items) (add_filter selector (filter_item (partition item)))

unfoldable pub parse_filters : List String → Option Labels
unfolding add_filters
parse_filters items = add_filters items []

abbrev pub LabelRows : Type 0
LabelRows = Dict (String × String) String

pub record Store : Type 0 where
  pub sandbox_labels : LabelRows
  pub usage_labels : LabelRows

-- DELETE FROM … WHERE sandbox_id = …
unfoldable pub delete_labels : String → LabelRows → LabelRows
delete_labels sandbox_id [] = []
delete_labels sandbox_id (((id, key), value) ∷ rows) =
    let rest = delete_labels sandbox_id rows in
    if id == sandbox_id then rest else ((id, key), value) ∷ rest

-- INSERT … ON CONFLICT (sandbox_id, key) DO UPDATE, for each label in turn.
unfoldable pub set_labels : String → Labels → LabelRows → LabelRows
set_labels sandbox_id [] rows = rows
set_labels sandbox_id ((key, value) ∷ labels) rows =
    set_labels sandbox_id labels (Dict.put rows (sandbox_id, key) value)

unfoldable pub put : String → Labels → Store → Store
unfolding delete_labels set_labels
put sandbox_id labels store = record {
  sandbox_labels = set_labels sandbox_id labels (delete_labels sandbox_id store.sandbox_labels);
  usage_labels = set_labels sandbox_id labels (delete_labels sandbox_id store.usage_labels);
}

-- {row.key: row.value for row in rows}
unfoldable pub collect : String → LabelRows → Labels → Labels
collect sandbox_id [] labels = labels
collect sandbox_id (((id, key), value) ∷ rows) labels =
    collect sandbox_id rows (if id == sandbox_id then Dict.put labels key value else labels)

unfoldable pub of : String → Store → Labels
unfolding collect
of sandbox_id store = collect sandbox_id store.sandbox_labels []
