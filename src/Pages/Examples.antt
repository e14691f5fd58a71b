-- ===== src/Pages/Examples.antt =====
-- Pages of a short table, and the theorems at it.
use zoo.Base.{ℕ, ◌≡◌, refl, Bool, none, some, List, [], ◌∷◌, keep, arith, ltb, not, nat_beq}
use zoo.Pages.{Codec, before, encode, decode, collect, scan}
use zoo.Pages.Cursor.{decode-encode}
use zoo.Pages.Collect.{cut}
use zoo.Pages.Table.{Descending, Strict, rows_before, fetch_page}
use zoo.Pages.Walk.{walk}
use zoo.Pages.Cover.{collect-cut, walk-keep}

-- A codec whose base64 is the text itself, on the times of one text.
abbrev noon : Codec
noon = record {
  Time = Unit {0};
  encode64 = λ text. text;
  decode64 = λ text. some text;
  isoformat = λ at. "12:00";
  fromisoformat = λ text. some tt;
  decode64-encode64 = λ text. refl;
  encode64_empty = λ text. refl;
  fromisoformat-isoformat = λ at. refl;
  isoformat_bar_free = λ at. refl;
}

decode-encode_example : decode noon (some (encode noon tt "s1")) ≡ before (tt, "s1")
decode-encode_example = decode-encode noon tt "s1"

abbrev rows : List ℕ
rows = 9 ∷ 8 ∷ 7 ∷ 5 ∷ 2 ∷ []

abbrev odd : ℕ → Bool
odd n = not (nat_beq n 8)

abbrev same : ℕ → ℕ
same n = n

ltb_strict : Strict ltb same
ltb_strict = (λ k. ground arith, λ i j k p q. ground arith)

rows-Descending : Descending ltb same rows
rows-Descending = (
  ((refl, refl), ((refl, refl), ((refl, refl), ((refl, refl), tt)))),
  (
    ((refl, refl), ((refl, refl), ((refl, refl), tt))),
    (((refl, refl), ((refl, refl), tt)), (((refl, refl), tt), (tt, tt))),
  ),
)

collect_run : collect odd same 2 (fetch_page ltb same rows) 6 none ≡ some (9 ∷ 7 ∷ [], some 7)
unfolding collect scan fetch_page keep
collect_run = refl

collect-cut_example :
    collect odd same 2 (fetch_page ltb same rows) 6 (some 7)
    ≡ some (cut same 2 (keep odd (rows_before ltb same rows (some 7))))
collect-cut_example =
    collect-cut ltb odd same 2 rows 6 (some 7) ltb_strict rows-Descending (omega arith)

walk-keep_example : walk odd same 2 (rows_before ltb same rows) 6 6 none ≡ keep odd rows
walk-keep_example =
    walk-keep ltb odd same 2 rows 6 6 ltb_strict rows-Descending (omega arith) (omega arith)
      (omega arith)
