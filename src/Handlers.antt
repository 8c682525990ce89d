-- ===== src/Handlers.antt =====
-- src/handlers/: the rounds of the four workers, each from taking a session out of the table to giving
-- it back. `handle_a` of parser.c is the parser, `handle_b` of loader.c the loader, `handle_c` of
-- builder.c the builder and `handle_d` of sender.c the sender. What a round does to the objects of its
-- session is in Parser, Loader, Builder and Sender. A round here runs with no other thread between its
-- calls; System has the rounds of all threads in any order.
pub mod Protocol
pub mod Written
pub mod Staged
pub mod Rounds
pub mod Passing
pub mod Cycle
pub mod Stop
use wind_breaker.Prelude.{
  true, false, not, ◌&&◌, ◌||◌, [], ◌∷◌, ℕ, Bool, List, Option, some, if◌then◌else◌,
}
use wind_breaker.Prelude.Fault.{◌>>=◌, ◌>>◌, assert}
use wind_breaker.Prelude.Int.{ℤ}
use wind_breaker.Buffer.{Buffer, Memory, init_buffer, deinit_buffer, default_size}
use wind_breaker.Static.{Request, Response}
use wind_breaker.StaticFile.{Files}
use wind_breaker.StaticFile.Read.{Disk}
use wind_breaker.Request.Parse.{Library}
use wind_breaker.Response.{Outside}
use wind_breaker.Loader.Load.{Database}
use wind_breaker.Parser.{parse_round}
use wind_breaker.Loader.{load_round}
use wind_breaker.Builder.{build_round}
use wind_breaker.Sender.{Attempt, after_send}
use wind_breaker.Socket.Calls.{send_ssl, send_bio}
use wind_breaker.Session.Word.{WorkStatus, request_read, parsed, data_fetched, ready_to_send}
use wind_breaker.Session.Table.{Slot, Sessions, Oracle, Cond}
use wind_breaker.Session.Push.{push_request}
use wind_breaker.Session.Pop.{Popped, got, stopped, waits, pop_request}
use wind_breaker.System.{fill}

pub data Worker : Type 0 where
  parser loader builder sender : Worker

-- What the bodies of the workers meet outside: the arguments of `parse_round`, `load_round` and
-- `build_round`, and for the sender what `SSL_write` or `BIO_write` returns and what
-- `SSL_get_error` and `BIO_should_retry` then say.
pub record World : Type 0 where
  pub files : Files
  pub library : Library
  pub granted : Bool
  pub behind : List ℕ
  pub disk : Disk
  pub memory : Memory
  pub database : Database
  pub outside : Outside
  pub stack : Response
  pub returned : ℤ
  pub ssl_error : ℕ
  pub should_retry : Bool

-- The objects that the pointers of `struct session_full_return` lead to.
pub record Objects : Type 0 where
  pub request : Request
  pub response : Response
  pub buffer : Buffer

abbrev pub objects : Slot → Objects
objects s = record { request = s.request; response = s.response; buffer = s.buffer }

-- The status that the worker pushes, the objects that it leaves, and its own buffer.
abbrev pub Done : Type 0
Done = WorkStatus × (Objects × Buffer)

unfoldable pub parse_session : World → Buffer → Objects → Option Done
parse_session wd own x = do
  r ← parse_round wd.files wd.library wd.granted wd.behind x.buffer x.request
  some (
    parsed,
    (record x { request = r.1; response = record x.response { status_code = r.0 } }, own),
  )

unfoldable pub load_session : World → Buffer → Objects → Option Done
load_session wd own x = do
  r ← load_round wd.disk wd.memory wd.database x.request x.response (x.buffer, own)
  some (data_fetched, (record x { response = r.0; buffer = r.1.0 }, r.1.1))

unfoldable pub build_session : World → Buffer → Objects → Option Done
build_session wd own x = do
  r ← build_round wd.outside wd.memory wd.stack x.request x.response x.buffer own
  some (ready_to_send, (record x { response = r.0; buffer = r.1.0 }, r.1.1))

unfoldable pub send_session : World → Buffer → Objects → Option Done
send_session wd own x = do
  n ← if x.request.is_ssl then send_ssl wd.returned x.buffer else send_bio wd.returned x.buffer
  let attempt : Attempt = record {
    is_ssl = x.request.is_ssl;
    send_return = n;
    ssl_error = wd.ssl_error;
    should_retry = wd.should_retry;
  }
  let r = after_send attempt x.request.connection x.buffer
  some (r.0, (record x { buffer = r.1 }, own))

-- The stage that a worker takes sessions from.
unfoldable pub source : Worker → WorkStatus
source parser = request_read
source loader = parsed
source builder = data_fetched
source sender = ready_to_send

-- What a worker does to the objects of its session.
unfoldable pub body : World → Worker → Buffer → Objects → Option Done
unfolding parse_session load_session build_session send_session
body wd parser own x = parse_session wd own x
body wd loader own x = load_session wd own x
body wd builder own x = build_session wd own x
body wd sender own x = send_session wd own x

-- How a round ends: a session was given back with a status; there was none because the server
-- stops, and the loop goes on to its test; or the worker sleeps in `pthread_cond_wait`.
pub data Turn : Type 0 where
  served : ℕ → WorkStatus → Turn
  idle : Turn
  asleep : Cond → Turn

-- What a worker writes through the pointers of its session.
unfoldable pub write_objects : ℕ → ℕ → Objects → Sessions → Sessions
write_objects cell thread x t = record t {
  slots = fill cell thread x.buffer x.request x.response t.slots;
}

-- The session from `thread_id = pthread_self()` to `push_request`.
unfoldable pub serve :
    World → Worker → Oracle → ℕ → Buffer → ℕ → Slot → Sessions → Option (Turn × (Buffer × Sessions))
unfolding body write_objects
serve wd k o thread own i s t = do
  done ← body wd k own (objects s)
  t' ←
      push_request o done.0 s.related_fd
        (write_objects s.cell 0 done.1.0 (write_objects s.cell thread (objects s) t))
  some (served i done.0, (done.1.1, t'))

abbrev pub after_pop :
    World → Worker → Oracle → ℕ → Buffer → Popped × Sessions → Option (Turn × (Buffer × Sessions))
after_pop wd k o thread own (got i s, t) = serve wd k o thread own i s t
after_pop wd k o thread own (stopped, t) = some (idle, (own, t))
after_pop wd k o thread own (waits c, t) = some (asleep c, (own, t))

-- One pass of a worker's loop: `stop` is what the process says while `pop_request` runs. The builder
-- clears its own buffer before it takes a session out, and here when it has one.
unfoldable pub round :
    World → Worker → Bool → Oracle → ℕ → Buffer → Sessions → Option (Turn × (Buffer × Sessions))
unfolding source serve
round wd k stop o thread own t = do p ← pop_request (source k) stop t; after_pop wd k o thread own p

-- What a worker meets in one pass of its loop: whether `stop()` holds at the head of the loop and
-- while `pop_request` runs, and what the other threads have made of the table at the end.
pub record Pass : Type 0 where
  pub world : World
  pub stopping : Bool
  pub stop : Bool
  pub oracle : Oracle
  pub others : Sessions → Sessions

abbrev pub is_asleep : Turn → Bool
is_asleep (asleep c) = true
is_asleep _ = false

-- The loop of a worker over a list of passes: whether it was left, the worker's own buffer, and the
-- table. A worker that sleeps is inside `pop_request`, and does not come to the head of the loop.
unfoldable pub worker_loop :
    Worker → ℕ → Bool → List Pass → Buffer → Sessions → Option (Bool × (Buffer × Sessions))
unfolding round
worker_loop k thread sleeping [] own t = some (false, (own, t))
worker_loop k thread sleeping (p ∷ ps) own t =
    if not sleeping && p.stopping then some (true, (own, t)) else do
      r ← round p.world k p.stop p.oracle thread own t
      worker_loop k thread (is_asleep r.0) ps r.1.0 (p.others r.1.1)

abbrev no_buffer : Buffer
no_buffer = record { capacity = 0; count = 0; bytes = [] }

-- The parser and the sender have no buffer of their own.
unfoldable pub handle_a : ℕ → List Pass → Sessions → Option (Bool × (Buffer × Sessions))
unfolding worker_loop
handle_a thread ps t = worker_loop parser thread false ps no_buffer t

unfoldable pub handle_d : ℕ → List Pass → Sessions → Option (Bool × (Buffer × Sessions))
unfolding worker_loop
handle_d thread ps t = worker_loop sender thread false ps no_buffer t

-- `deinit_buffer` at the end of a handler, when its loop was left.
abbrev release : Bool × (Buffer × Sessions) → Bool × (Buffer × Sessions)
release (true, (own, t)) = (true, (deinit_buffer own, t))
release (false, r) = (false, r)

-- `opens` and `closes` are what the calls of SQLite give for the connection.
unfoldable pub handle_b :
    Memory → Bool → Bool → ℕ → List Pass → Sessions → Option (Bool × (Buffer × Sessions))
unfolding init_buffer worker_loop
handle_b m opens closes thread ps t = do
  own ← init_buffer m default_size
  assert opens
  r ← worker_loop loader thread false ps own t
  assert (not r.0 || closes)
  some (release r)

unfoldable pub handle_c : Memory → ℕ → List Pass → Sessions → Option (Bool × (Buffer × Sessions))
unfolding init_buffer worker_loop
handle_c m thread ps t = do
  own ← init_buffer m 0
  r ← worker_loop builder thread false ps own t
  some (release r)
