-- ===== src/Parser.antt =====
-- src/handlers/parser.c: one round of the parser with a session that it has taken out.
pub mod Served
use wind_breaker.Prelude.{ℕ, Bool, List, Option, none, some, ◌==◌, if◌then◌else◌}
use wind_breaker.Prelude.Int.{ℤ, pos, negsuc}
use wind_breaker.Buffer.{Buffer}
use wind_breaker.Static.{Request}
use wind_breaker.Static.StatusCode.{internal_server_error, not_acceptable}
use wind_breaker.StaticFile.{Files, find_static_file}
use wind_breaker.Request.{validate_request_headers}
use wind_breaker.Request.Parse.{Library, parse_http_request}

-- The status code for the parser's result; -123 is ALLOCATE_MEMORY_ERROR.
unfoldable pub status_for : Files → ℤ → Request → ℕ
unfolding validate_request_headers find_static_file
status_for fs (negsuc n) r = if n == 122 then internal_server_error else not_acceptable
status_for fs (pos n) r = validate_request_headers (find_static_file fs) r

-- The status code of the response, and the request.
unfoldable pub parse_round :
    Files → Library → Bool → List ℕ → Buffer → Request → Option (ℕ × Request)
unfolding status_for parse_http_request
parse_round fs lib granted behind raw r = elim (parse_http_request lib granted behind raw r) [
  | none ↦ none
  | some (result, s) ↦ some (status_for fs result s, s)
]
