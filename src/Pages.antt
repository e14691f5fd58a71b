-- ===== src/Pages.antt =====
-- apps/server/pages.py: cursor pagination, and the `page_` statements of db/generated/query.py that it
-- reads rows with.
--
-- The base64 and datetime libraries are a record of functions, with the laws that the code relies on.
-- A cursor inside the server is the key of a row, a time and an id; `none` is (None, None).
pub mod Cursor
pub mod Collect
pub mod Table
pub mod Walk
pub mod Cover
pub mod Examples
use zoo.Base.{
  ℕ, zero, suc, ◌+◌, ◌-◌, ◌≡◌, String, string_eq, nat_beq, ◌==◌, Bool, true, false, ◌&&◌, Option,
  none, some, List, [], ◌∷◌, ◌++◌, ltb, if◌then◌else◌, length, take, get_elem?,
}
use Prim.Native.Char.{code}

abbrev pub default_limit : ℕ
default_limit = 50

abbrev pub max_limit : ℕ
max_limit = 200

-- partition("|"): the text before the first bar, and the text behind it, both where there is none.
unfoldable pub partition_bar : String → String × String
partition_bar String.[] = (String.[], String.[])
partition_bar (String.◌∷◌ c s) =
    let rest = partition_bar s in
    if nat_beq (code c) b'|' then (String.[], s) else (String.◌∷◌ c rest.0, rest.1)

-- f"{at}|{id}"
abbrev pub barred : String → String → String
barred String.[] id = String.◌∷◌ "|" id
barred (String.◌∷◌ c at) id = String.◌∷◌ c (barred at id)

-- A text without a bar.
abbrev pub bar_free : String → Bool
bar_free String.[] = true
bar_free (String.◌∷◌ c s) = (if nat_beq (code c) b'|' then false else true) && bar_free s

-- base64.urlsafe_b64encode and -decode between texts, datetime.isoformat and fromisoformat; `none`
-- stands for their ValueError.
pub record Codec : Type 1 where
  pub Time : Type 0
  pub encode64 : String → String
  pub decode64 : String → Option String
  pub isoformat : Time → String
  pub fromisoformat : String → Option Time
  pub decode64-encode64 : (text : String) → decode64 (encode64 text) ≡ some text
  pub encode64_empty : (text : String) → (encode64 text == "") ≡ (text == "")
  pub fromisoformat-isoformat : (at : Time) → fromisoformat (isoformat at) ≡ some at
  pub isoformat_bar_free : (at : Time) → bar_free (isoformat at) ≡ true

-- How decode ends: with a key or without one, or with the 422.
pub data Decoded (K : Type 0) : Type 0 where
  start : Decoded K
  before : K → Decoded K
  invalid : Decoded K

module _ (c : Codec) where
  open c use {Time, encode64, decode64, isoformat, fromisoformat}

  unfoldable pub encode : Time → String → String
  encode at id = encode64 (barred (isoformat at) id)

  -- datetime.fromisoformat(at), id
  abbrev pub with_time : Option Time → String → Decoded (Time × String)
  with_time none id = invalid
  with_time (some at) id = before (at, id)

  abbrev pub read_text : Option String → Decoded (Time × String)
  read_text none = invalid
  read_text (some text) =
      let parts = partition_bar text in with_time (fromisoformat parts.0) parts.1

  unfoldable pub decode : Option String → Decoded (Time × String)
  unfolding partition_bar
  decode none = start
  decode (some cursor) = if cursor == "" then start else read_text (decode64 cursor)

module _ {R K : Type 0} where
  abbrev pub key_of : (R → K) → Option R → Option K
  key_of key none = none
  key_of key (some r) = some (key r)

  -- rows[-1]
  abbrev pub last_key : (R → K) → List R → Option K
  last_key key [] = none
  last_key key (r ∷ []) = some (key r)
  last_key key (r ∷ q ∷ rows) = last_key key (q ∷ rows)

  -- The page cut out of more than enough rows: found[: limit], and the key of found[limit - 1].
  abbrev pub full_page : (R → K) → ℕ → List R → List R × Option K
  full_page key limit found = (take limit found, key_of key (get_elem? found (limit - 1)))

-- How the loop over one batch ends: with the page, or with what has been found so far.
pub data Scanned (R K : Type 0) : Type 0 where
  page : List R × Option K → Scanned R K
  more : List R → Scanned R K

module _ {R K : Type 0} (accept : R → Bool) (key : R → K) (limit : ℕ) where
  unfoldable pub scan : List R → List R → Scanned R K
  scan found [] = more found
  scan found (r ∷ rows) =
      let kept = scan (found ++ r ∷ []) rows in
      let left_out = scan found rows in
      if accept r
      then if ltb limit (length (found ++ r ∷ []))
        then page (full_page key limit (found ++ r ∷ []))
        else kept
      else left_out

  module _ (fetch : Option K → ℕ → List R) where
    abbrev pub go_on :
        (Option K → List R → Option (List R × Option K))
        → List R
        → Scanned R K
        → Option (List R × Option K)
    go_on again rows (page result) = some result
    go_on again rows (more found) =
        if ltb (length rows) (suc limit)
        then some (found, none)
        else again (last_key key rows) found

    -- The while loop, on fuel; `none` where the fuel runs out.
    unfoldable pub collect_from : ℕ → Option K → List R → Option (List R × Option K)
    unfolding scan
    collect_from zero cursor found = none
    collect_from (suc fuel) cursor found =
        let rows = fetch cursor (suc limit) in go_on (collect_from fuel) rows (scan found rows)

    -- collect, from the decoded cursor; the cursor of the next page is the key that encode is given
    unfoldable pub collect : ℕ → Option K → Option (List R × Option K)
    unfolding collect_from
    collect fuel cursor = collect_from fuel cursor []
