-- ===== src/Labels/Keys.antt =====
-- The pattern of label keys against the alphabet that its message promises.
use zoo.Base.{
  ℕ, zero, suc, ◌≡◌, ◌↔◌, ◌⊎◌, refl, ap, true, List, [], ◌∷◌, ◌++◌, arith, Bool-cases, inl, inr,
  ◌≤◌, length, every, nat_beq_iff, and-eq_true,
}
use zoo.Labels.{is_key_start, is_key_char, key_rest, key_matches, newline, ends_line}

-- What the message of validate promises: 1-63 of the alphabet, the first a letter or a digit.
abbrev pub Tail : ℕ → List ℕ → Type 0
Tail n cs = (every is_key_char cs ≡ true) × (length cs ≤ n)

abbrev pub Promised : List ℕ → Type 0
Promised [] = ⊥
Promised (c ∷ cs) = (is_key_start c ≡ true) × Tail 62 cs

-- A list of the kind, with a newline behind.
abbrev pub Newline : (List ℕ → Type 0) → List ℕ → Type 0
Newline P cs = (key : List ℕ) × P key × (cs ≡ key ++ newline ∷ [])

key_rest-Tail : (n : ℕ) (cs : List ℕ) → Tail n cs → key_rest n cs ≡ true
unfolding key_rest every
key_rest-Tail n [] h = refl
key_rest-Tail zero (c ∷ cs) h = ground arith
key_rest-Tail (suc n) (c ∷ cs) h = ground (arith, key_rest-Tail n cs)

key_rest-newline : (n : ℕ) (cs : List ℕ) → Tail n cs → key_rest n (cs ++ newline ∷ []) ≡ true
unfolding key_rest every
key_rest-newline zero [] h = refl
key_rest-newline (suc n) [] h = refl
key_rest-newline zero (c ∷ cs) h = ground arith
key_rest-newline (suc n) (c ∷ cs) h = ground (arith, key_rest-newline n cs)

ends_line_only : (c : ℕ) (cs : List ℕ) → ends_line c cs ≡ true → c ∷ cs ≡ newline ∷ []
ends_line_only c [] h = ap (λ d. d ∷ []) ((nat_beq_iff c newline).0 h)
ends_line_only c (d ∷ cs) h = ground arith

Tail-cons : (n c : ℕ) (cs : List ℕ) → is_key_char c ≡ true → Tail n cs → Tail (suc n) (c ∷ cs)
unfolding every
Tail-cons n c cs h t = (rw (h, t.0), omega (arith, t.1))

nothing : (n : ℕ) → Tail n []
unfolding every
nothing n = (refl, omega arith)

rest_of : (n : ℕ) (cs : List ℕ) → key_rest n cs ≡ true → Tail n cs ⊎ Newline (Tail n) cs
unfolding key_rest
rest_of n [] h = inl (nothing n)
rest_of zero (c ∷ cs) h = inr ([], nothing 0, ends_line_only c cs h)
rest_of (suc n) (c ∷ cs) h = elim (Bool-cases (ends_line c cs)) [
  | inl last ↦ inr ([], nothing (suc n), ends_line_only c cs last)
  | inr more ↦
      let h' : (is_key_char c ≡ true) × (key_rest n cs ≡ true) = ground arith in
      elim (rest_of n cs h'.1) [
        | inl t ↦ inl (Tail-cons n c cs h'.0 t)
        | inr (key, t, e) ↦ inr (c ∷ key, Tail-cons n c key h'.0 t, ap (λ l. c ∷ l) e)
      ]
]

-- The pattern takes what the message promises, and the same with a newline behind, and no other text.
pub key_matches_iff : (cs : List ℕ) → (key_matches cs ≡ true) ↔ (Promised cs ⊎ Newline Promised cs)
unfolding key_matches
key_matches_iff [] = (
  λ h. ground arith,
  λ h. elim h [
    | inl p ↦ elim p [ ]
    | inr ([], p, e) ↦ elim p [ ]
    | inr (c ∷ key, p, e) ↦ ground arith
  ],
)
key_matches_iff (c ∷ cs) = (
  λ h.
      let (start, rest) = and-eq_true (is_key_start c) (key_rest 62 cs) h in
      elim (rest_of 62 cs rest) [
        | inl t ↦ inl (start, t)
        | inr (key, t, e) ↦ inr (c ∷ key, (start, t), ap (λ l. c ∷ l) e)
      ],
  λ h. elim h [
    | inl (start, t) ↦ rw (start, key_rest-Tail 62 cs t)
    | inr ([], p, e) ↦ elim p [ ]
    | inr (d ∷ key, (start, t), e) ↦
        let e0 : c ≡ d = cc in
        let e1 : cs ≡ key ++ newline ∷ [] = cc in rw (e0, e1, start, key_rest-newline 62 key t)
  ],
)
