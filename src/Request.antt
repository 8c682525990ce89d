-- ===== src/Request.antt =====
-- src/http/request.c: the parser and the checks of a request. The regular expressions of the C
-- library are the parameter `Library`.
pub mod Parse
pub mod Checks
pub mod Negotiation
use wind_breaker.Prelude.{
  ℕ, ◌+◌, ◌-◌, Bool, true, false, not, ◌&&◌, ◌||◌, List, [], ◌∷◌, Option, none, some, length,
  if◌then◌else◌,
}
use wind_breaker.Prelude.Text.{codes, str_eq, contains_nocase, starts_with_nocase}
use wind_breaker.Static.{
  Method, Request, uri_to_file_name, post, get, put, delete, head, options, patch, connect, trace,
  bad_method,
}
use wind_breaker.Static.StatusCode.{ok, not_found, method_not_allowed, not_acceptable}

-- `method_str_to_enum`.
unfoldable pub method_str_to_enum : List ℕ → Method
unfolding starts_with_nocase
method_str_to_enum raw =
    if starts_with_nocase (codes "POST") raw
    then post
    else if starts_with_nocase (codes "GET") raw
    then get
    else if starts_with_nocase (codes "PUT") raw
    then put
    else if starts_with_nocase (codes "DELETE") raw
    then delete
    else if starts_with_nocase (codes "HEAD") raw
    then head
    else if starts_with_nocase (codes "OPTIONS") raw
    then options
    else if starts_with_nocase (codes "PATCH") raw
    then patch
    else if starts_with_nocase (codes "CONNECT") raw
    then connect
    else if starts_with_nocase (codes "TRACE") raw
    then trace
    else bad_method

abbrev pub is_get : Method → Bool
is_get m = elim m [ get ↦ true | _ ↦ false ]

-- Some of `names` stands in a header value, or there is no value.
pub offers : List (List ℕ) → List ℕ → Bool
unfolding contains_nocase str_eq
offers [] value = str_eq value []
offers (n ∷ names) value = contains_nocase n value || offers names value

-- The checks of the Accept header, by the type of the file.
pub accepts_file : List ℕ → List ℕ → Bool
unfolding offers contains_nocase
accepts_file name accept =
    if contains_nocase (codes ".html") name
    then offers (codes "text/html" ∷ codes "text/*" ∷ codes "*/*" ∷ []) accept
    else if contains_nocase (codes ".png") name
    then offers (codes "*/*" ∷ codes "image/*" ∷ codes "image/png" ∷ []) accept
    else if contains_nocase (codes ".css") name
    then offers (codes "text/css" ∷ codes "text/*" ∷ codes "*/*" ∷ []) accept
    else if contains_nocase (codes ".js") name
    then offers (codes "application/javascript" ∷ codes "application/*" ∷ codes "*/*" ∷ []) accept
    else if contains_nocase (codes ".gif") name
    then offers (codes "image/gif" ∷ codes "image/*" ∷ codes "*/*" ∷ []) accept
    else false

abbrev pub language_ok : Request → Bool
unfolding offers
language_ok r = offers (codes "en-US" ∷ codes "en" ∷ codes "*" ∷ []) r.accept_language

abbrev pub encoding_ok : Request → Bool
unfolding offers
encoding_ok r = offers (codes "gzip" ∷ codes "deflate" ∷ []) r.accept_encoding

-- The checks behind the search for the file name; `find` is `find_static_file`.
pub check_file : (List ℕ → Bool) → Request → Option (List ℕ) → ℕ
unfolding accepts_file offers
check_file find r none = not_found
check_file find r (some name) =
    if not (find name)
    then not_found
    else if not (accepts_file name r.accept)
    then not_acceptable
    else if not (encoding_ok r)
    then not_acceptable
    else ok

unfoldable pub validate_request_headers : (List ℕ → Bool) → Request → ℕ
unfolding check_file offers uri_to_file_name
validate_request_headers find r =
    if not (is_get r.method)
    then method_not_allowed
    else if not (language_ok r)
    then not_acceptable
    else check_file find r (uri_to_file_name r.uri)
