-- ===== src/Errors/Examples.antt =====
-- Answers to errors of routes.
use zoo.Base.{
  ℕ, String, string_eq, nat_eq, nat_beq, ◌≡◌, refl, Bool, ◌||◌, none, some, [], ◌∷◌, leb, ◌&&◌,
}
use zoo.Base.Dict.{get, put}
use zoo.Errors.{
  code_for, not_found_word, word_rest, contains, Response, respond, body, zoo_error, http_error,
  answer, join_problems,
}
use zoo.Errors.Known.{IsDocumented, answer-IsDocumented}

-- \w, of ASCII
abbrev is_word : ℕ → Bool
is_word c =
    leb b'a' c && leb c b'z'
    || leb b'A' c && leb c b'Z'
    || leb b'0' c && leb c b'9'
    || nat_beq c b'_'

abbrev lower : String → String
lower text = text

sandbox_run : code_for is_word lower 404 "sandbox not found" ≡ "sandbox_not_found"
unfolding code_for not_found_word word_rest contains get
sandbox_run = refl

profile_run : code_for is_word lower 404 "profile not found" ≡ "not_found"
unfolding code_for not_found_word word_rest contains get
profile_run = refl

quota_run : code_for is_word lower 409 "the workspace's quota is 5 CPUs" ≡ "quota_exceeded"
unfolding code_for not_found_word word_rest contains get
quota_run = refl

-- The code of status 409, in an answer of status 403.
forbidden_quota : code_for is_word lower 403 "only admins set a quota" ≡ "quota_exceeded"
unfolding code_for not_found_word word_rest contains get
forbidden_quota = refl

teapot_run : code_for is_word lower 418 "short and stout" ≡ "bad_request"
unfolding code_for not_found_word word_rest contains get
teapot_run = refl

problems_run :
    join_problems (("name", "too long") ∷ ("", "no body") ∷ []) ≡ "name: too long; no body"
unfolding join_problems
problems_run = refl

unknown_run : answer is_word lower "docs" "r1" (zoo_error "teapot" "" none []) ≡ none
unfolding answer get
unknown_run = refl

abbrev answered : Response
answered = record {
  status = 404;
  body = record {
    code = "sandbox_not_found";
    message = "sandbox not found";
    hint = some "`GET /v1/sandboxes` lists this workspace's sandboxes; ids are case-sensitive.";
    docs_url = "docs#sandbox_not_found";
    request_id = "r1";
  };
  headers = ("X-Request-Id", "r1") ∷ [];
}

answer_run :
    answer is_word lower "docs" "r1" (http_error 404 "sandbox not found" []) ≡ some answered
unfolding answer respond body code_for not_found_word word_rest contains get put
answer_run = refl

answer-IsDocumented_example : IsDocumented "docs" "r1" answered
answer-IsDocumented_example =
    answer-IsDocumented is_word lower "docs" "r1" (http_error 404 "sandbox not found" []) answered
      answer_run
