-- ===== src/Tests/Requests.antt =====
-- The theorems on requests at small requests, with regular expressions that give fixed groups.
use wind_breaker.Prelude.{
  inl, inr, ◌≡◌, refl, true, [], ◌∷◌, none, some, length, ◌==◌, if◌then◌else◌,
}
use wind_breaker.Prelude.Int.{pos, negsuc}
use wind_breaker.Prelude.Text.{codes, contains_nocase}
use wind_breaker.Buffer.{Buffer}
use wind_breaker.Static.{Request, zero_request, get, uri_to_file_name}
use wind_breaker.Static.StatusCode.{ok}
use wind_breaker.Request.{validate_request_headers}
use wind_breaker.Request.Negotiation.{media_type, Acceptable, validate_request_headers_iff}
use wind_breaker.StaticFile.{Files}
use wind_breaker.Request.Parse.{
  Library, parse_headers, parse_control_data, parse_http_request, split, c_string,
}
use wind_breaker.Request.Parse.Fits.{Fits, parse_http_request-control_ignored}
use wind_breaker.Parser.{parse_round}
use wind_breaker.Parser.Served.{Serves, parse_round-Serves}

abbrev files : Files
files = record {
  realpath = λ s. if length s == 7 then some (codes "/s") else some (codes "/s/index.html");
  is_readable = λ s. true;
}

-- A match of "GET / HTTP/1.1".
abbrev pub control : Library
control = record {
  match_regex = λ p t. some ((0, 14) ∷ (0, 3) ∷ (4, 5) ∷ (6, 14) ∷ []);
  strtol = λ t. pos 0;
}

-- A match of "Host: a", and none of a line of one byte.
abbrev header : Library
header = record {
  match_regex = λ p t. if length t == 1 then none else some ((0, 7) ∷ (0, 4) ∷ (6, 7) ∷ []);
  strtol = λ t. pos 0;
}

abbrev pub index_request : Buffer
index_request = record { capacity = 16; count = 15; bytes = codes "GET / HTTP/1.1\n?" }

abbrev bad_request_line : Buffer
bad_request_line = record { capacity = 9; count = 9; bytes = codes "X\nHost: a" }

abbrev got_index : Request
got_index = record zero_request { method = get; version = codes "HTTP/1.1" }

abbrev with_host : Request
with_host = record zero_request { host = codes "a" }

parse_round-Serves_example : Serves files got_index
unfolding parse_round
parse_round-Serves_example =
    parse_round-Serves files control true [] index_request zero_request got_index refl

parse_http_request-control_ignored_example :
    parse_http_request header true [] bad_request_line zero_request
    ≡ parse_headers header (pos 0) ((codes "Host: a") ∷ []) zero_request
unfolding split c_string parse_control_data
parse_http_request-control_ignored_example =
    parse_http_request-control_ignored header [] bad_request_line zero_request zero_request
      (negsuc 0) (codes "X") (codes "Host: a") [] refl refl

-- A client that takes any image asks for one.
abbrev image_request : Request
image_request = record zero_request {
  method = get;
  uri = codes "favicon.ico" ∷ [] ∷ [] ∷ [] ∷ [];
  accept = codes "IMAGE/*";
}

image_request-Acceptable : Acceptable (λ name. true) image_request
unfolding uri_to_file_name media_type contains_nocase
image_request-Acceptable = record {
  by_get = refl;
  name = codes "favicon.png";
  named = refl;
  found = refl;
  media = codes "image/png";
  typed = refl;
  type_admitted = inr (inl refl);
  language_admitted = inr (inr (inr refl));
  encoding_admitted = inr (inr refl);
}

validate_request_headers_iff_example : validate_request_headers (λ name. true) image_request ≡ ok
validate_request_headers_iff_example =
    (validate_request_headers_iff (λ name. true) image_request).1 image_request-Acceptable
