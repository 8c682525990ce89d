-- ===== src/Request/Parse.antt =====
-- src/http/request.c: the parser. `regexec` and `strtol` of the C library are the parameter
-- `Library`. The outcome `none` is a write behind the end of a local array, or a null line. An
-- If-None-Match value that is longer than its array in the request is kept whole, and what it
-- overwrites there is left out.
pub mod Fits
use wind_breaker.Prelude.{
  ℕ, zero, suc, ◌+◌, ◌-◌, Bool, true, false, not, ◌&&◌, ◌||◌, List, [], ◌∷◌, ◌++◌, Option, none,
  some, length, take, drop, set, ltb, leb, ◌==◌, if◌then◌else◌,
}
use wind_breaker.Prelude.Fault.{◌>>=◌}
use wind_breaker.Prelude.Int.{ℤ, pos, negsuc}
use wind_breaker.Prelude.Text.{codes, str_eq, eq_nocase, starts_with_nocase}
use wind_breaker.Static.{Request, keep_alive, close}
use wind_breaker.Buffer.{Buffer}
use wind_breaker.Request.{method_str_to_enum}

-- `match_regex` on top of `regexec`: where the whole pattern and its groups begin and end, if there
-- is a match. `strtol` in base 10.
pub record Library : Type 0 where
  pub match_regex : List ℕ → List ℕ → Option (List (ℕ × ℕ))
  pub strtol : List ℕ → ℤ

abbrev pub control_pattern : List ℕ
control_pattern = codes "^([A-Z]{2,12}) ([^ ]+) (HTTP/[0-9.]{3})$"

abbrev pub header_pattern : List ℕ
header_pattern = codes "^([A-Za-z0-9-]+):\\s(.*)$"

-- The bytes of a group, and their number.
abbrev pub slice : List ℕ → ℕ × ℕ → List ℕ
slice text g = take (g.1 - g.0) (drop g.0 text)

abbrev pub extent : ℕ × ℕ → ℕ
extent g = g.1 - g.0

-- The field of a known header; `value` and the text from the value on. An entity tag is copied into
-- an array of 65 bytes without a test of its length: a longer one is kept whole here, as C reads it
-- back until a later line writes the fields behind the array; what it overwrites there is left out.
pub store_header : Library → List ℕ → List ℕ → List ℕ → Request → Option Request
unfolding eq_nocase starts_with_nocase
store_header lib name value text r =
    if eq_nocase name (codes "Host")
    then some (record r { host = value })
    else if eq_nocase name (codes "User-Agent")
    then some (record r { user_agent = value })
    else if eq_nocase name (codes "Accept")
    then some (record r { accept = value })
    else if eq_nocase name (codes "Accept-Language")
    then some (record r { accept_language = value })
    else if eq_nocase name (codes "Accept-Encoding")
    then some (record r { accept_encoding = value })
    else if eq_nocase name (codes "Connection")
    then (if starts_with_nocase (codes "keep-alive") text
        then some (record r { connection = keep_alive })
        else if starts_with_nocase (codes "close") text
        then some (record r { connection = close })
        else some r)
    else if eq_nocase name (codes "If-None-Match")
    then some (record r { if_none_match = value })
    else if eq_nocase name (codes "Content-Type")
    then some (record r { content_type = value })
    else if eq_nocase name (codes "Content-Length")
    then some (record r { content_length = lib.strtol text })
    else some r

-- The result and the request.
abbrev pub Parsed : Type 0
Parsed = Option (ℤ × Request)

pub succeed : Option Request → Parsed
succeed none = none
succeed (some r) = some (pos 0, r)

-- `parse_header_field` behind the match.
pub header_groups : Library → List ℕ → Request → List (ℕ × ℕ) → Parsed
unfolding store_header succeed
header_groups lib line r (whole ∷ name ∷ value ∷ _) =
    if leb 100 (extent name)
    then some (negsuc 0, r)
    else if leb 256 (extent value)
    then some (negsuc 0, r)
    else succeed (store_header lib (slice line name) (slice line value) (drop value.0 line) r)
header_groups lib line r _ = none

unfoldable pub parse_header_field : Library → List ℕ → Request → Parsed
unfolding header_groups
parse_header_field lib line r = elim (lib.match_regex header_pattern line) [
  | none ↦ some (negsuc 0, r)
  | some groups ↦ header_groups lib line r groups
]

reverse : List ℕ → List ℕ
reverse [] = []
reverse (d ∷ s) = reverse s ++ (d ∷ [])

emit : List ℕ → List (List ℕ) → List (List ℕ)
unfolding reverse
emit [] rest = rest
emit (c ∷ piece) rest = reverse (c ∷ piece) ∷ rest

-- What `strtok_r` returns one after the other: the longest pieces without a delimiter. `piece` is
-- the piece that is read, the other way round.
unfoldable pub split : (ℕ → Bool) → List ℕ → List ℕ → List (List ℕ)
unfolding emit
split is_end piece [] = emit piece []
split is_end piece (c ∷ s) =
    if is_end c then emit piece (split is_end [] s) else split is_end (c ∷ piece) s

-- The loop over the tokens of the URI, from token `i` on and for `n` rounds; `false` if one is too
-- long.
copy_tokens : ℕ → ℕ → List (List ℕ) → List (List ℕ) → Bool × List (List ℕ)
copy_tokens zero i tokens uri = (true, uri)
copy_tokens (suc n) i [] uri = (true, uri)
copy_tokens (suc n) i (t ∷ tokens) uri =
    let rest = copy_tokens n (suc i) tokens (set uri i t) in
    if leb 199 (length t) then (false, uri) else rest

-- `parse_control_data` behind the match. The method is copied into an array of 8 bytes first; the
-- one that counts is read from the line itself.
control_groups : List ℕ → Request → List (ℕ × ℕ) → Parsed
unfolding copy_tokens split method_str_to_enum
control_groups line r (whole ∷ method ∷ uri ∷ version ∷ _) =
    if leb 800 (extent uri)
    then some (negsuc 0, r)
    else if leb 16 (extent version)
    then some (negsuc 0, r)
    else if leb 8 (extent method)
    then none
    else (let copied = copy_tokens 4 0 (split (λ c. c == b'/') [] (slice line uri)) r.uri in
        let named = record r { method = method_str_to_enum (drop method.0 line); uri = copied.1 } in
        if copied.0
        then some (pos 0, record named { version = slice line version })
        else some (negsuc 0, named))
control_groups line r _ = none

unfoldable pub parse_control_data : Library → List ℕ → Request → Parsed
unfolding control_groups
parse_control_data lib line r = elim (lib.match_regex control_pattern line) [
  | none ↦ some (negsuc 0, r)
  | some groups ↦ control_groups line r groups
]

abbrev pub is_ok : ℤ → Bool
is_ok n = elim n [ pos k ↦ k == 0 | negsuc k ↦ false ]

-- The loop over the header lines; `before` is the result of the last line.
unfoldable pub parse_headers : Library → ℤ → List (List ℕ) → Request → Parsed
unfolding parse_header_field
parse_headers lib before [] r = some (before, r)
parse_headers lib before (line ∷ lines) r = do
  found ← parse_header_field lib line r
  let rest = parse_headers lib found.0 lines found.1
  if is_ok found.0 then rest else some found

abbrev pub is_line_end : ℕ → Bool
is_line_end c = c == 13 || c == 10

-- The bytes before the first zero.
unfoldable pub c_string : List ℕ → List ℕ
c_string [] = []
c_string (c ∷ s) = let rest = c_string s in if c == 0 then [] else c ∷ rest

-- The lines of the copy of a request. Nothing ends the copy, so `strtok_r` goes on in what lies
-- `behind` it.
abbrev pub request_lines : List ℕ → Buffer → List (List ℕ)
unfolding split c_string
request_lines behind raw = split is_line_end [] (c_string (take raw.count raw.bytes ++ behind))

pub parse_lines : Library → List (List ℕ) → Request → Parsed
unfolding parse_control_data parse_headers
parse_lines lib [] r = none
parse_lines lib (first ∷ lines) r = do
  control ← parse_control_data lib first r
  parse_headers lib control.0 lines control.1

-- `parse_http_request`; `granted` tells whether `malloc` gives memory.
unfoldable pub parse_http_request : Library → Bool → List ℕ → Buffer → Request → Parsed
unfolding parse_lines split c_string
parse_http_request lib granted behind raw r =
    if not granted then some (negsuc 122, r) else parse_lines lib (request_lines behind raw) r
