-- ===== src/Request/Checks.antt =====
-- Which requests src/http/request.c lets through.
use wind_breaker.Prelude.{
  ℕ, ◌≡◌, refl, Bool, true, false, List, Option, none, some, Bool-cases, inl, inr,
}
use wind_breaker.Static.{Request, uri_to_file_name}
use wind_breaker.Static.StatusCode.{ok, not_found, method_not_allowed, not_acceptable}
use wind_breaker.Request.{
  is_get, language_ok, encoding_ok, accepts_file, check_file, validate_request_headers,
}

-- The four answers that the checks can have, and what each one means.
pub data Verdict (find : List ℕ → Bool) (r : Request) : ℕ → Type 0 where
  accepted :
      (name : List ℕ)
      → is_get r.method ≡ true
      → language_ok r ≡ true
      → uri_to_file_name r.uri ≡ some name
      → find name ≡ true
      → accepts_file name r.accept ≡ true
      → encoding_ok r ≡ true
      → Verdict find r ok
  wrong_method : is_get r.method ≡ false → Verdict find r method_not_allowed
  wrong_language : is_get r.method ≡ true → language_ok r ≡ false → Verdict find r not_acceptable
  no_name :
      is_get r.method ≡ true
      → language_ok r ≡ true
      → uri_to_file_name r.uri ≡ none
      → Verdict find r not_found
  no_file :
      (name : List ℕ)
      → is_get r.method ≡ true
      → language_ok r ≡ true
      → uri_to_file_name r.uri ≡ some name
      → find name ≡ false
      → Verdict find r not_found
  wrong_type :
      (name : List ℕ)
      → is_get r.method ≡ true
      → language_ok r ≡ true
      → uri_to_file_name r.uri ≡ some name
      → find name ≡ true
      → accepts_file name r.accept ≡ false
      → Verdict find r not_acceptable
  wrong_encoding :
      (name : List ℕ)
      → is_get r.method ≡ true
      → language_ok r ≡ true
      → uri_to_file_name r.uri ≡ some name
      → find name ≡ true
      → accepts_file name r.accept ≡ true
      → encoding_ok r ≡ false
      → Verdict find r not_acceptable

module _ (find : List ℕ → Bool) (r : Request) (g : is_get r.method ≡ true)
    (l : language_ok r ≡ true) where
  check_file-Verdict :
      (name : Option (List ℕ))
      → uri_to_file_name r.uri ≡ name
      → Verdict find r (check_file find r name)
  unfolding check_file
  check_file-Verdict none u = no_name g l u
  check_file-Verdict (some name) u = elim (Bool-cases (find name)) [
    | inr f ↦ rw f (no_file name g l u f)
    | inl f ↦ elim (Bool-cases (accepts_file name r.accept)) [
      | inr a ↦ rw (f, a) (wrong_type name g l u f a)
      | inl a ↦ elim (Bool-cases (encoding_ok r)) [
        | inr e ↦ rw (f, a, e) (wrong_encoding name g l u f a e)
        | inl e ↦ rw (f, a, e) (accepted name g l u f a e)
      ]
    ]
  ]

-- Every request gets a verdict, and the status code is the one of the verdict.
pub validate_request_headers-Verdict :
    (find : List ℕ → Bool) (r : Request) → Verdict find r (validate_request_headers find r)
unfolding validate_request_headers
validate_request_headers-Verdict find r = elim (Bool-cases (is_get r.method)) [
  | inr g ↦ rw g (wrong_method g)
  | inl g ↦ elim (Bool-cases (language_ok r)) [
    | inr l ↦ rw (g, l) (wrong_language g l)
    | inl l ↦ rw (g, l) (check_file-Verdict find r g l (uri_to_file_name r.uri) refl)
  ]
]
