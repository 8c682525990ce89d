-- ===== src/Static.antt =====
-- src/static.h and src/static.c: requests, responses, and the files that a URI may name.
-- A `char` array is its string, the bytes before the closing zero.
pub mod Files
pub mod StatusCode
use wind_breaker.Prelude.{
  ℕ, zero, suc, Bool, true, false, List, [], ◌∷◌, ◌++◌, Option, none, some, ◌&&◌, ltb, ◌==◌,
  if◌then◌else◌, length, replicate,
}
use wind_breaker.Prelude.Int.{ℤ, pos}
use wind_breaker.Prelude.Text.{codes, str_eq, starts_with}
use Files.{served}

pub data Method : Type 0 where
  post get patch put head delete connect options trace bad_method : Method

pub data Connection : Type 0 where
  keep_alive close : Connection

-- `http_response_t`. The code stores only unsigned numbers in `content_length`.
pub record Response : Type 0 where
  pub status_code : ℕ
  pub content_type : List ℕ
  pub content_length : ℕ
  pub content_language : List ℕ
  pub content_encoding : List ℕ
  pub last_modified : List ℕ
  pub date : List ℕ
  pub etag : List ℕ
  pub location : List ℕ

-- `http_request_t`; `uri` has the four tokens.
pub record Request : Type 0 where
  pub uri : List (List ℕ)
  pub method : Method
  pub is_ssl : Bool
  pub version : List ℕ
  pub host : List ℕ
  pub user_agent : List ℕ
  pub accept : List ℕ
  pub accept_language : List ℕ
  pub accept_encoding : List ℕ
  pub if_none_match : List ℕ
  pub connection : Connection
  pub content_type : List ℕ
  pub content_length : ℤ

-- What `memset(request, 0, sizeof(http_request_t))` leaves.
abbrev pub zero_request : Request
zero_request = record {
  uri = replicate 4 [];
  method = post;
  is_ssl = false;
  version = [];
  host = [];
  user_agent = [];
  accept = [];
  accept_language = [];
  accept_encoding = [];
  if_none_match = [];
  connection = keep_alive;
  content_type = [];
  content_length = pos 0;
}

abbrev pub zero_response : Response
zero_response = record {
  status_code = 0;
  content_type = [];
  content_length = 0;
  content_language = [];
  content_encoding = [];
  last_modified = [];
  date = [];
  etag = [];
  location = [];
}

-- `uri[i]`.
abbrev pub token : List (List ℕ) → ℕ → List ℕ
token [] i = []
token (t ∷ ts) zero = t
token (t ∷ ts) (suc i) = token ts i

-- The chain of `strcmp` tests that return the name that they test for.
unfoldable pub find_served : List (List ℕ) → List ℕ → Option (List ℕ)
unfolding str_eq
find_served [] name = none
find_served (s ∷ rest) name = if str_eq name s then some s else find_served rest name

unfoldable pub uri_to_file_name : List (List ℕ) → Option (List ℕ)
unfolding find_served str_eq starts_with
uri_to_file_name uri =
    if str_eq (token uri 0) []
    then some (codes "index.html")
    else if starts_with (codes "favicon") (token uri 0)
    then some (codes "favicon.png")
    else if str_eq (token uri 0) (codes "projects")
        && ltb 0 (length (token uri 1))
        && length (token uri 2) == 0
    then some (codes "project.html")
    else if str_eq (token uri 0) (codes "posts")
        && ltb 0 (length (token uri 1))
        && length (token uri 2) == 0
    then some (codes "post.html")
    else find_served served (token uri 0)
