-- ===== src/Response.antt =====
-- src/http/response.c: the header fields of a response, and its text.
-- The text is printed in Response/Print. `sha256_hash_hex`, the compression routines and the clock
-- stand for OpenSSL, zlib and the operating system.
pub mod Print
pub mod Headers
pub mod Revalidate
pub mod Upgrade
use wind_breaker.Prelude.{
  ℕ, ◌+◌, ◌-◌, ◌%◌, ◌^◌, Bool, true, false, List, [], ◌∷◌, ◌++◌, Option, none, some, length, take,
  drop, replicate, leb, ◌==◌, not, ◌||◌, if◌then◌else◌,
}
use wind_breaker.Prelude.Fault.{◌>>=◌, ◌>>◌, assert}
use wind_breaker.Prelude.Int.{ℤ, is_negative, to_u64}
use wind_breaker.Prelude.Text.{codes, str_eq, contains_nocase}
use wind_breaker.Buffer.{Buffer, Memory, copy_buffer}
use wind_breaker.Static.{Response, token, uri_to_file_name}
use wind_breaker.Static.StatusCode.{ok, not_modified, moved_permanently}
use Print.{print_response}

-- What the routines outside this file give: the hexadecimal digest; the result of a compression and
-- the bytes it writes; `strftime` of the time of the last change of a file, `none` when its assertion
-- fails, and of the clock.
pub record Outside : Type 0 where
  pub sha256 : List ℕ → List ℕ
  pub gzip : List ℕ → ℤ × List ℕ
  pub deflate : List ℕ → ℤ × List ℕ
  pub last_modified : List ℕ → Option (List ℕ)
  pub now : List ℕ

-- `snprintf(dest, size, "%s", text)`.
abbrev pub clipped : ℕ → List ℕ → List ℕ
clipped size text = take (size - 1) text

unfoldable pub content_type_of : List ℕ → List ℕ
unfolding contains_nocase
content_type_of name =
    if contains_nocase (codes ".html") name
    then codes "text/html;charset=utf-8"
    else if contains_nocase (codes ".png") name
    then codes "image/png"
    else if contains_nocase (codes ".css") name
    then codes "text/css;charset=utf-8"
    else if contains_nocase (codes ".js") name
    then codes "application/javascript;charset=utf-8"
    else codes "text/plain;charset=utf-8"

-- `strcasestr` of a null file name is an access out of range.
unfoldable pub set_content_type : List (List ℕ) → Response → Option Response
unfolding content_type_of uri_to_file_name
set_content_type uri r =
    if not (r.status_code == ok)
    then some (record r { content_type = codes "text/html;charset=utf-8" })
    else do name ← uri_to_file_name uri; some (record r { content_type = content_type_of name })

unfoldable pub set_location : List ℕ → List (List ℕ) → Response → Response
set_location host uri r =
    if not (r.status_code == moved_permanently)
    then record r { location = [] }
    else record r { location = clipped 256 (codes "https://" ++ host ++ token uri 0) }

unfoldable pub set_last_modified : Outside → List (List ℕ) → Response → Option Response
unfolding uri_to_file_name
set_last_modified o uri r =
    if not (r.status_code == ok) then some (record r { last_modified = [] }) else do
      name ← uri_to_file_name uri
      date ← o.last_modified name
      some (record r { last_modified = date })

unfoldable pub set_date : Outside → Response → Response
set_date o r = record r { date = o.now }

unfoldable pub set_etag : Outside → Buffer → Response → Response
set_etag o tmp r =
    if not (r.status_code == ok) || r.status_code == not_modified
    then record r { etag = [] }
    else record r { etag = o.sha256 (take tmp.count tmp.bytes) }

unfoldable pub set_content_length : ℕ → Response → Response
set_content_length n r = record r { content_length = n }

-- The response, and the buffer that held its body.
unfoldable pub handle_if_none_match : List ℕ → Response × Buffer → Response × Buffer
unfolding str_eq
handle_if_none_match if_none_match (r, tmp) =
    if length if_none_match == 0
    then (r, tmp)
    else if str_eq if_none_match r.etag
    then (
      record r {
        status_code = not_modified;
        content_length = 0;
        content_type = [];
        content_language = [];
        content_encoding = [];
      },
      record tmp { count = 0; bytes = replicate tmp.capacity 0 },
    )
    else (r, tmp)

-- The result of a compression in `unsigned int`, and the buffer that it wrote. `none` is a write
-- behind the end of the buffer.
compressed : ℤ × List ℕ → Buffer → Option (ℕ × Buffer)
compressed (n, out) tmp =
    if leb (length out) tmp.capacity
    then some (
      to_u64 n % 2 ^ 32,
      record tmp { count = to_u64 n % 2 ^ 32; bytes = out ++ drop (length out) tmp.bytes },
    )
    else none

-- A body that is compressed, under its name.
encode_as : List ℕ → Option (ℕ × Buffer) → Response → Option (ℕ × (Response × Buffer))
encode_as name none r = none
encode_as name (some (n, tmp)) r = some (n, (record r { content_encoding = name }, tmp))

abbrev pub header_count : List ℕ → ℕ
header_count accept_encoding =
    (if contains_nocase (codes "gzip") accept_encoding then 1 else 0)
    + (if contains_nocase (codes "deflate") accept_encoding then 2 else 0)

-- `return_value` is unsigned, so its test for a negative number never holds; it is left out. The
-- size that is returned, the response, and the buffer.
unfoldable pub set_compression :
    Outside → List ℕ → Buffer → Response × Buffer → Option (ℕ × (Response × Buffer))
unfolding compressed encode_as contains_nocase
set_compression o accept_encoding body (r, tmp) =
    let input = take body.count body.bytes in
    let count = header_count accept_encoding in
    if count == 1 || count == 3
    then encode_as (codes "gzip") (compressed (o.gzip input) tmp) r
    else if count == 2
    then encode_as (codes "deflate") (compressed (o.deflate input) tmp) r
    else some (r.content_length % 2 ^ 32, (r, record tmp { count = r.content_length % 2 ^ 32 }))

finish : Option (ℕ × (Response × Buffer)) → Option (Response × Buffer)
unfolding set_content_length
finish none = none
finish (some (size, (r, tmp))) = some (set_content_length size r, tmp)

compress_if_modified : Outside → List ℕ → Buffer → Response × Buffer → Option (Response × Buffer)
unfolding set_compression finish
compress_if_modified o accept_encoding body (r, tmp) =
    if not (r.status_code == not_modified)
    then finish (set_compression o accept_encoding body (r, tmp))
    else some (r, tmp)

-- `construct_response`: the number of bytes in the body, the response, the body and `tmp_buffer`.
unfoldable pub construct_response :
    Outside
    → Memory
    → List (List ℕ)
    → List ℕ
    → List ℕ
    → Response
    → Buffer
    → Buffer
    → Option (ℕ × (Response × (Buffer × Buffer)))
unfolding set_content_length set_content_type set_last_modified set_date set_etag
    handle_if_none_match compress_if_modified print_response copy_buffer
construct_response o m uri accept_encoding if_none_match r body tmp = do
  copied ← copy_buffer m tmp body
  assert (not (is_negative copied.0))
  let sized =
      set_content_length (body.count % 2 ^ 32) (record r { content_language = codes "en-US" })
  typed ← set_content_type uri sized
  dated ← set_last_modified o uri typed
  let tagged = set_etag o copied.1 (set_date o dated)
  let matched = handle_if_none_match if_none_match (tagged, copied.1)
  packed ← compress_if_modified o accept_encoding body matched
  printed ← print_response m packed.0 packed.1 body
  some (printed.0, (packed.0, (record printed.1 { count = printed.0 }, packed.1)))

-- `construct_upgrade_to_https_response`. The fields of its response that nothing sets hold what the
-- stack holds, `r`.
unfoldable pub construct_upgrade_to_https_response :
    Outside → Memory → List (List ℕ) → List ℕ → Response → Buffer → Option (ℕ × Buffer)
unfolding set_content_length set_location set_date print_response
construct_upgrade_to_https_response o m uri host r buffer = do
  let moved = record r { status_code = moved_permanently; content_language = codes "en-US" }
  let located = set_content_length 0 (set_location host uri (set_date o moved))
  printed ← print_response m located (record { capacity = 0; count = 0; bytes = [] }) buffer
  some (printed.0, record printed.1 { count = printed.0 })
