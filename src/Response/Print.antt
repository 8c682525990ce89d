-- ===== src/Response/Print.antt =====
-- `to_string` of src/http/response.c: the printing of a response into a buffer.
-- Each piece asks for room and is then printed by `snprintf` at `offset`. `none` is a failed
-- assertion or an access out of range.
pub mod Text
pub mod Whole
use wind_breaker.Prelude.{
  ℕ, zero, suc, ◌+◌, ◌-◌, ◌*◌, ◌/◌, ◌%◌, ◌^◌, Bool, true, false, List, [], ◌∷◌, ◌++◌, Option, none,
  some, length, take, drop, ltb, leb, ◌==◌, ◌&&◌, if◌then◌else◌,
}
use wind_breaker.Prelude.Fault.{◌>>=◌, ◌>>◌, assert}
use wind_breaker.Prelude.Bytes.{overwrite}
use wind_breaker.Prelude.Int.{is_positive}
use wind_breaker.Prelude.Text.{codes}
use wind_breaker.Buffer.{Buffer, Memory, ensure_capacity}
use wind_breaker.Static.{Response}
use wind_breaker.Static.StatusCode

unfoldable pub http_status_code_to_str : ℕ → List ℕ
http_status_code_to_str c =
    if c == StatusCode.ok
    then codes "OK"
    else if c == StatusCode.moved_permanently
    then codes "Moved Permanently"
    else if c == StatusCode.not_modified
    then codes "Not Modified"
    else if c == StatusCode.bad_request
    then codes "Bad Request"
    else if c == StatusCode.not_found
    then codes "Not Found"
    else if c == StatusCode.method_not_allowed
    then codes "Method Not Allowed"
    else if c == StatusCode.not_acceptable
    then codes "Not Acceptable"
    else if c == StatusCode.internal_server_error
    then codes "Internal Server Error"
    else if c == StatusCode.not_implemented
    then codes "Not Implemented"
    else if c == StatusCode.service_unavailable
    then codes "Service Unavailable"
    else codes "Unknown"

-- The conversions `%d` and `%ld` of a number that is not negative; 20 digits are enough for 64 bits.
pub digits : ℕ → ℕ → List ℕ → List ℕ
digits zero n after = after
digits (suc fuel) n after =
    let more = digits fuel (n / 10) ((b'0' + n % 10) ∷ after) in if n == 0 then after else more

unfoldable pub decimal : ℕ → List ℕ
unfolding digits
decimal n = if n == 0 then b'0' ∷ [] else digits 20 n []

abbrev pub crlf : List ℕ
crlf = 13 ∷ 10 ∷ []

-- `snprintf` of `text` at `offset`, with the size of what lies behind it: at most one byte less is
-- printed, and a zero.
unfoldable pub print_at : ℕ → List ℕ → Buffer → Option Buffer
unfolding overwrite
print_at offset text b =
    if ltb b.capacity offset
    then none
    else if b.capacity == offset
    then some b
    else some (record b {
      bytes = overwrite offset (take (b.capacity - offset - 1) text ++ (0 ∷ [])) b.bytes;
    })

-- `ENSURE_CAPACITY(dest, wanted)`, then `snprintf`: the buffer and the new `offset`.
pub print_with : Memory → ℕ → List ℕ → Buffer × ℕ → Option (Buffer × ℕ)
unfolding print_at ensure_capacity
print_with m wanted text (b, offset) = do
  ensured ← ensure_capacity m b wanted
  assert (is_positive ensured.0)
  b' ← print_at offset text ensured.1
  some (b', (offset + length text) % 2 ^ 32)

-- The same with `room` behind `offset`, which is an unsigned sum of 32 bits.
pub line : Memory → ℕ → List ℕ → Buffer × ℕ → Option (Buffer × ℕ)
unfolding print_with
line m room text (b, offset) = print_with m ((offset + room) % 2 ^ 32) text (b, offset)

-- A header field that is printed when it is not empty.
pub field : Memory → ℕ → List ℕ → List ℕ → Buffer × ℕ → Option (Buffer × ℕ)
unfolding line
field m room name value at =
    if ltb 0 (length value) then line m room (name ++ value ++ crlf) at else some at

pub copy_body : ℕ → Buffer → Buffer × ℕ → Option (Buffer × ℕ)
unfolding overwrite
copy_body content_length body (b, offset) =
    if ltb 0 content_length
    then (if leb content_length (length body.bytes)
          && leb (offset + content_length) (length b.bytes)
        then some (
          record b { bytes = overwrite offset (take content_length body.bytes) b.bytes },
          (offset + content_length) % 2 ^ 32,
        )
        else none)
    else some (b, offset)

abbrev pub status_line : ℕ → List ℕ
status_line c = codes "HTTP/1.1 " ++ decimal c ++ codes " " ++ http_status_code_to_str c ++ crlf

-- `to_string`, under the name of what it does: the offset behind the text, and the buffer `dest`.
unfoldable pub print_response : Memory → Response → Buffer → Buffer → Option (ℕ × Buffer)
unfolding line print_with field copy_body http_status_code_to_str decimal
print_response m r body dest = do
  p0 ← line m 128 (status_line r.status_code) (dest, 0)
  p1 ← field m 348 (codes "Content-Type: ") r.content_type p0
  p2 ← line m 128 (codes "Content-Length: " ++ decimal r.content_length ++ crlf) p1
  p3 ← field m 256 (codes "Content-Language: ") r.content_language p2
  p4 ← field m 256 (codes "Date: ") r.date p3
  p5 ← field m 128 (codes "ETag: ") r.etag p4
  p6 ← field m 348 (codes "Location: ") r.location p5
  p7 ← field m 256 (codes "Last-Modified: ") r.last_modified p6
  p8 ← field m 128 (codes "Content-Encoding: ") r.content_encoding p7
  p9 ← print_with m (p8.1 + (r.content_length + 2)) crlf p8
  p ← copy_body r.content_length body p9
  some (p.1, p.0)
