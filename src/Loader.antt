-- ===== src/Loader.antt =====
-- src/handlers/loader.c: the body of a response, from a file and from the database.
-- SQLite is outside: what it answers is the parameter `Database`.
pub mod Replace
pub mod Load
pub mod ErrorPage
pub mod Page
use wind_breaker.Prelude.{
  ℕ, zero, suc, ◌+◌, Bool, true, false, not, List, [], ◌∷◌, ◌++◌, Option, none, some, length, take,
  replicate, ltb, ◌==◌, if◌then◌else◌, get_elem?,
}
use wind_breaker.Prelude.Fault.{◌>>=◌, ◌>>◌, assert}
use wind_breaker.Prelude.Int.{ℤ, pos, negsuc, is_positive}
use wind_breaker.Prelude.Text.{codes, str_eq}
use wind_breaker.Prelude.Bytes.{overwrite, terminated}
use wind_breaker.Buffer.{Buffer, Memory, ensure_capacity}
use wind_breaker.Static.{Request, Response, token, uri_to_file_name}
use wind_breaker.Static.StatusCode.{ok, not_found, internal_server_error}
use wind_breaker.StaticFile.Read.{Disk, read_static_file}
use wind_breaker.Response.Print.{decimal, http_status_code_to_str, print_at}
use Load.{Column, Database, Loaded, clear, load}

abbrev pub error_page : ℕ → List ℕ
error_page c =
    codes "<html><body><h1>"
    ++ decimal c
    ++ codes " "
    ++ http_status_code_to_str c
    ++ codes "</h1></body></html>"

-- The number of bytes, and the buffer.
unfoldable pub gen_error_body : Memory → ℕ → Buffer → Option (ℕ × Buffer)
unfolding ensure_capacity print_at decimal http_status_code_to_str
gen_error_body m c b = do
  ensured ← ensure_capacity m b 512
  assert (is_positive ensured.0)
  printed ← print_at 0 (error_page c) ensured.1
  some (length (error_page c), printed)

-- A response, the session's buffer, and the loader's own buffer.
abbrev pub Round : Type 0
Round = Response × (Buffer × Buffer)

-- The error page of a status, which becomes the status of the response.
unfoldable pub fail_with : Memory → ℕ → Response → Buffer × Buffer → Option Round
unfolding gen_error_body
fail_with m c r (b, tmp) = do
  made ← gen_error_body m c b
  some (record r { status_code = c }, (record made.1 { count = made.0 }, tmp))

-- The `switch` over the result of `load`.
answer_load : Memory → Response → ℤ × (Buffer × Buffer) → Option Round
unfolding fail_with
answer_load m r (pos n, page) = some (r, page)
answer_load m r (negsuc zero, page) = fail_with m internal_server_error r page
answer_load m r (negsuc (suc zero), page) = fail_with m not_found r page
answer_load m r (negsuc (suc (suc n)), page) = some (r, page)

-- `uri_to_file_name` gives a name whenever the checks of the request gave 200.
pub load_file : Disk → Memory → Database → Request → Response → Buffer × Buffer → Option Round
unfolding uri_to_file_name read_static_file load answer_load
load_file disk m db q r (b, tmp) = do
  name ← uri_to_file_name q.uri
  read ← read_static_file disk m name b
  loaded ← load disk m db name (token q.uri 1) (read, tmp)
  answer_load m r loaded

-- The loader's own buffer is cleared for the next round.
pub tidy : Round → Round
unfolding clear
tidy (r, (b, tmp)) = (r, (b, record (clear tmp.count tmp) { count = 0 }))

-- What one round of the loader does to a session that it has taken out.
unfoldable pub load_round :
    Disk → Memory → Database → Request → Response → Buffer × Buffer → Option Round
unfolding clear tidy
load_round disk m db q r (b, tmp) = do
  let page : Buffer × Buffer = (clear b.count b, tmp)
  round ←
      if r.status_code == ok then load_file disk m db q r page else fail_with m r.status_code r page
  some (tidy round)
