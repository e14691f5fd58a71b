-- ===== src/Errors/Known.antt =====
-- Every answer has a code of the table, and the status that the table gives it.
use zoo.Base.{
  ℕ, String, string_eq, nat_eq, ◌==◌, ==_refl, nat_beq, nat_beq_iff, ◌≡◌, refl, sym, ◌∙◌, ap, subst,
  Bool, true, ◌&&◌, ◌||◌, ◌⊎◌, inl, inr, Option, none, some, [], ltb, arith, Bool-cases,
  Option-cases, if◌then◌else◌, if_true, if_false, eq_of_some, is_some, every, every-Each,
}
use zoo.Base.Dict.{Dict, get, get-put, get-Each}
use zoo.Errors.{
  codes, by_status, contains, not_found_word, known, not_found_code, or_status, may_be_quota,
  quota_or_status, or_else_code, code_for, append_text, Response, body, respond, Raised, zoo_error,
  http_error, invalid, crashed, answer, with_status,
}

-- The code is one of CODES; its status is that of the answer, but for a quota and for a status that has no code.
abbrev pub IsKnown : ℕ → String → Type 0
IsKnown status name =
    (own : ℕ) × (get codes name ≡ some own)
    × ((own ≡ status) ⊎ ((name ≡ "quota_exceeded") ⊎ (get by_status status ≡ none)))

or_status-IsKnown :
    (status : ℕ) (found : Option String)
    → get by_status status ≡ found
    → IsKnown status (or_status found status)
unfolding get
or_status-IsKnown status (some name) e = (
  status,
  get-Each (λ item. get codes item.1 ≡ some item.0) by_status status name
      (
        refl,
        (
          refl,
          (
            refl,
            (
              refl,
              (
                refl,
                (refl, (refl, (refl, (refl, (refl, (refl, (refl, (refl, (refl, (refl, tt)))))))))),
              ),
            ),
          ),
        ),
      )
      e,
  inl refl,
)
or_status-IsKnown status none e = elim (Bool-cases (ltb status 500)) [
  | inl client ↦ subst (IsKnown status) (sym (if_true _ _ client)) (400, refl, inr (inr e))
  | inr server ↦ subst (IsKnown status) (sym (if_false _ _ server)) (500, refl, inr (inr e))
]

quota_or_status-IsKnown :
    (lower : String → String) (status : ℕ) (message : String)
    → IsKnown status (quota_or_status lower status message)
unfolding get
quota_or_status-IsKnown lower status message =
    elim (Bool-cases (contains "quota" (lower message) && may_be_quota status)) [
      | inl quota ↦ subst (IsKnown status) (sym (if_true _ _ quota)) (409, refl, inr (inl refl))
      | inr other ↦
          subst (IsKnown status) (sym (if_false _ _ other))
            (or_status-IsKnown status (get by_status status) refl)
    ]

-- Every code of CODES that ends in _not_found is of status 404.
ends_in : String → String → Bool
ends_in ending String.[] = ending == String.[]
ends_in ending (String.◌∷◌ c text) = ending == String.◌∷◌ c text || ends_in ending text

ends_in-append_text : (word ending : String) → ends_in ending (append_text word ending) ≡ true
unfolding ends_in
ends_in-append_text String.[] String.[] = refl
ends_in-append_text String.[] (String.◌∷◌ d ending) = rw (==_refl (String.◌∷◌ d ending)) refl
ends_in-append_text (String.◌∷◌ c word) ending = ground (arith, ends_in-append_text word ending)

abbrev not_found_fits : String × ℕ → Bool
not_found_fits (name, status) = if ends_in "_not_found" name then nat_beq status 404 else true

not_found_status :
    (word : String) (status : ℕ)
    → get codes (append_text word "_not_found") ≡ some status
    → status ≡ 404
unfolding ends_in every
not_found_status word status e =
    let fits : not_found_fits (append_text word "_not_found", status) ≡ true =
      get-Each (λ item. not_found_fits item ≡ true) codes (append_text word "_not_found") status
        (every-Each not_found_fits codes refl) e in
    (nat_beq_iff status 404).0 (sym (if_true _ _ (ends_in-append_text word "_not_found")) ∙ fits)

known-IsKnown :
    (word name : String) → known (append_text word "_not_found") ≡ some name → IsKnown 404 name
known-IsKnown word name e = elim (Option-cases (get codes (append_text word "_not_found"))) [
  | inl none_such ↦ absurd (
      cc (
        sym (ap (λ o. if is_some o then some (append_text word "_not_found") else none) none_such)
        ∙ e))
  | inr (status, there) ↦
      let same : append_text word "_not_found" ≡ name = eq_of_some (
        sym (ap (λ o. if is_some o then some (append_text word "_not_found") else none) there)
        ∙ e) in
      (status, ap (get codes) (sym same) ∙ there, inl (not_found_status word status there))
]

not_found_code-IsKnown :
    (word : Option String) (name : String) → not_found_code word ≡ some name → IsKnown 404 name
not_found_code-IsKnown none name e = cc
not_found_code-IsKnown (some word) name e = known-IsKnown word name e

-- Whatever the status and the text of an exception.
code_for-IsKnown :
    (is_word : ℕ → Bool) (lower : String → String) (status : ℕ) (message : String)
    → IsKnown status (code_for is_word lower status message)
unfolding code_for
code_for-IsKnown is_word lower status message = elim (Bool-cases (nat_beq status 404)) [
  | inl missing ↦
      let at : status ≡ 404 = (nat_beq_iff status 404).0 missing in
      let found = not_found_code (not_found_word is_word message) in
      subst (λ o. IsKnown status (or_else_code o (quota_or_status lower status message)))
        (sym (if_true found none missing))
        (elim (Option-cases found) [
          | inl other ↦
              subst (λ o. IsKnown status (or_else_code o (quota_or_status lower status message)))
                (sym other) (quota_or_status-IsKnown lower status message)
          | inr (name, named) ↦
              subst (λ o. IsKnown status (or_else_code o (quota_or_status lower status message)))
                (sym named)
                (subst (λ n. IsKnown n name) (sym at)
                  (not_found_code-IsKnown (not_found_word is_word message) name named))
        ])
  | inr other ↦
      subst (λ o. IsKnown status (or_else_code o (quota_or_status lower status message)))
        (sym (if_false _ _ other)) (quota_or_status-IsKnown lower status message)
]

-- What every answer keeps: its code, its documentation and its request id fit.
pub record IsDocumented (docs_url request_id : String) (r : Response) : Type 0 where
  pub known_code : IsKnown r.status r.body.code
  pub docs : r.body.docs_url ≡ append_text docs_url (append_text "#" r.body.code)
  pub id_in_body : r.body.request_id ≡ request_id
  pub id_in_header : get r.headers "X-Request-Id" ≡ some request_id

respond-IsDocumented :
    (docs_url request_id : String) (status : ℕ) (name message : String) (hint : Option String)
    (headers : Dict String String)
    → IsKnown status name
    → IsDocumented docs_url request_id
        (respond docs_url request_id status name message hint headers)
unfolding respond body
respond-IsDocumented docs_url request_id status name message hint headers k = record {
  known_code = k;
  docs = refl;
  id_in_body = refl;
  id_in_header = get-put headers "X-Request-Id" "X-Request-Id" request_id;
}

with_status-IsDocumented :
    (docs_url request_id name message : String) (hint : Option String)
    (headers : Dict String String) (r : Response) (found : Option ℕ)
    → get codes name ≡ found
    → with_status found (λ status. respond docs_url request_id status name message hint headers)
      ≡ some r
    → IsDocumented docs_url request_id r
with_status-IsDocumented docs_url request_id name message hint headers r none e h = cc
with_status-IsDocumented docs_url request_id name message hint headers r (some status) e h =
    subst (IsDocumented docs_url request_id) (eq_of_some h) (
      respond-IsDocumented docs_url request_id status name message hint headers
        (status, e, inl refl))

-- Whatever a route raises, an answer has a code of CODES, with the status that the table gives it unless the code is
-- quota_exceeded or the status has no code of its own; its link leads to the code, and its body and headers carry the request id.
pub answer-IsDocumented :
    (is_word : ℕ → Bool) (lower : String → String) (docs_url request_id : String) (raised : Raised)
    (r : Response)
    → answer is_word lower docs_url request_id raised ≡ some r
    → IsDocumented docs_url request_id r
unfolding answer get
answer-IsDocumented is_word lower docs_url request_id (zoo_error name message hint headers) r h =
    with_status-IsDocumented docs_url request_id name message hint headers r (get codes name) refl h
answer-IsDocumented is_word lower docs_url request_id (http_error status message headers) r h =
    subst (IsDocumented docs_url request_id) (eq_of_some h) (
      respond-IsDocumented docs_url request_id status _ message none headers
        (code_for-IsKnown is_word lower status message))
answer-IsDocumented is_word lower docs_url request_id (invalid problems) r h =
    subst (IsDocumented docs_url request_id) (eq_of_some h) (
      respond-IsDocumented docs_url request_id 422 "validation_failed" _ none []
        (422, refl, inl refl))
answer-IsDocumented is_word lower docs_url request_id crashed r h =
    subst (IsDocumented docs_url request_id) (eq_of_some h) (
      respond-IsDocumented docs_url request_id 500 "internal_error" _ none [] (500, refl, inl refl))
