-- ===== src/Pages/Cursor.antt =====
-- Cursors are read back as the keys that they were written for.
use zoo.Base.{
  String, string_eq, ◌==◌, ==_iff, ◌≡◌, refl, true, false, some, arith, Bool-cases, inl, inr,
}
use Prim.Native.Char.{Char}
use zoo.Pages.{Codec, before, partition_bar, barred, bar_free, encode, decode}

partition_bar-barred :
    (at id : String) → bar_free at ≡ true → partition_bar (barred at id) ≡ (at, id)
unfolding partition_bar
partition_bar-barred String.[] id h = refl
partition_bar-barred (String.◌∷◌ c at) id h = ground (arith, partition_bar-barred at id)

cons_nonempty : (c : Char) (s : String) → (String.◌∷◌ c s == "") ≡ false
cons_nonempty c s = elim (Bool-cases (String.◌∷◌ c s == "")) [
  | inl e ↦ let e' : String.◌∷◌ c s ≡ String.[] = (==_iff (String.◌∷◌ c s) "").0 e in cc
  | inr ne ↦ ne
]

barred_nonempty : (at id : String) → (barred at id == "") ≡ false
barred_nonempty String.[] id = cons_nonempty "|" id
barred_nonempty (String.◌∷◌ c at) id = cons_nonempty c (barred at id)

-- Every key that encode is given comes back from decode.
pub decode-encode :
    (c : Codec) (at : c.Time) (id : String) → decode c (some (encode c at id)) ≡ before (at, id)
unfolding decode encode
decode-encode c at id =
    let text = barred (c.isoformat at) id in
    rw (
      c.encode64_empty text,
      barred_nonempty (c.isoformat at) id,
      c.decode64-encode64 text,
      partition_bar-barred (c.isoformat at) id (c.isoformat_bar_free at),
      c.fromisoformat-isoformat at,
    )
