-- ===== src/Listener.antt =====
-- src/listener.c: one thread polls the sockets, takes new connections in, reads what clients send, and
-- drops the sockets that are lost. The kernel and OpenSSL are parameters: what they answer during one
-- visit of a descriptor is `Env`. `none` is a failed assertion or an access outside an array.
pub mod Races
pub mod Keeps
pub mod Rounds
pub mod Reads
pub mod Port
pub mod Loop
use Prim.Native.Nat.{bit_and}
use wind_breaker.Prelude.{
  ℕ, zero, suc, ◌+◌, ◌-◌, ◌%◌, Bool, true, false, not, ◌&&◌, ◌||◌, List, [], ◌∷◌, Option, none,
  some, ltb, ◌==◌, if◌then◌else◌, get_elem?,
}
use wind_breaker.Prelude.Fault.{◌>>=◌, ◌>>◌, assert}
use wind_breaker.Prelude.Int.{ℤ, pos, negsuc, is_positive, is_negative}
use wind_breaker.Buffer.{Buffer, Memory}
use wind_breaker.MarkedFds.{is_marked}
use wind_breaker.PollArray.{
  PollFd, PollArray, Removed, pollin, pollout, add_poll_fd, remove_poll_fd,
}
use wind_breaker.Session.Word.{
  WorkStatus, initial, initial_ssl, request_read, ready_to_send, rejected,
}
use wind_breaker.Session.Table.{Slot, Sessions, Oracle, store}
use wind_breaker.Session.Push.{push_request}
use wind_breaker.Session.Pop.{pop_request_by_fd}
use wind_breaker.Socket.{Bio, Ssl, recv_bio, recv_ssl}

pub data PollErrorClass : Type 0 where
  reset remove_fd continue : PollErrorClass

-- The codes of `errno` are those of Linux.
unfoldable pub classify_poll_error : ℕ → PollErrorClass
classify_poll_error code =
    if code == 14
    then reset
    else if code == 4
    then continue
    else if code == 22
    then reset
    else remove_fd

-- `getsockopt` fails, or gives the pending error of the socket.
unfoldable pub check_for_socket_error : Option ℕ → ℤ
check_for_socket_error none = negsuc 0
check_for_socket_error (some err) = pos err

abbrev pub is_lost : Option ℕ → Bool
unfolding check_for_socket_error
is_lost answer = is_negative (check_for_socket_error answer)

abbrev pub pollerr : ℕ
pollerr = 8

abbrev pub pollhup : ℕ
pollhup = 16

abbrev pub pollnval : ℕ
pollnval = 32

abbrev pub pollrdhup : ℕ
pollrdhup = 8192

abbrev pub has_event : ℕ → ℕ → Bool
has_event mask revents = not (bit_and revents mask == 0)

-- The answers during one visit: of the two calls of `getsockopt`, `errno`, the descriptor that
-- `accept` gives, the calls of `read`, and whether OpenSSL asks to try again.
pub record Env : Type 0 where
  pub option_first : Option ℕ
  pub option_second : Option ℕ
  pub errno : ℕ
  pub accepted : ℤ
  pub memory : Memory
  pub fuel : ℕ
  pub bio : Bio
  pub ssl : Ssl
  pub retry : Bool
  pub oracle : Oracle

pub record Server : Type 0 where
  pub sessions : Sessions
  pub polls : PollArray

-- The configuration: the listening sockets.
pub record Listening : Type 0 where
  pub plain : ℕ
  pub tls : ℕ
  pub has_ssl : Bool

-- What follows the reading: data was read, more is awaited, or the connection is lost, which is -1.
abbrev pub read_result : Bool → Bool → Option WorkStatus
read_result has_read retry =
    if has_read then some request_read else if retry then some initial else none

receive : Env → Slot → Option (Option WorkStatus × Buffer)
unfolding recv_ssl recv_bio
receive e s =
    if s.request.is_ssl
    then (do
      r ← recv_ssl e.memory e.ssl s.buffer
      some (read_result (is_positive r.0) e.retry, r.1))
    else (do
      r ← recv_bio e.fuel e.memory e.bio s.buffer
      some (read_result (ltb 0 r.0) e.retry, r.1))

push_result : Env → ℕ → Option WorkStatus → Sessions → Option (Bool × Sessions)
push_result e fd none t = some (false, t)
push_result e fd (some w) t = do t' ← push_request e.oracle w fd t; some (true, t')

-- `handle_request_async`: `false` is -1. What is read stands in the buffer of the session.
pub handle_request_async : Env → ℕ → Sessions → Option (Bool × Sessions)
unfolding receive push_result
handle_request_async e fd t = do
  popped ← pop_request_by_fd fd t
  elim popped.0 [
    | none ↦ some (false, popped.1)
    | some (i, s) ↦ (do
      _ ← s.bio_fd
      r ← receive e s
      push_result e fd r.0 (store i (record s { buffer = r.1 }) popped.1))
  ]

-- The index of the loop, and the server.
pub remove_at : ℕ → Server → Option (ℕ × Server)
remove_at i s = do
  r ← remove_poll_fd i s.polls s.sessions.marks
  some (r.index, record { sessions = record s.sessions { marks = r.marks }; polls = r.array })

pub reject_at : Env → ℕ → ℕ → Server → Option (ℕ × Server)
unfolding remove_at
reject_at e fd i s = do
  t ← push_request e.oracle rejected fd s.sessions
  remove_at i (record s { sessions = t })

-- A new connection on a listening socket. `accept_socket` asserts that `accept` does not fail.
pub accept_at : Listening → Env → ℕ → ℕ → Server → Option (ℕ × Server)
accept_at l e fd i s = elim e.accepted [
  | negsuc n ↦ none
  | pos client ↦ (do
    t ← push_request e.oracle (if fd == l.plain then initial else initial_ssl) client s.sessions
    added ← add_poll_fd l.has_ssl client s.polls
    some (i, record { sessions = t; polls = added.1 }))
]

pub read_at : Env → ℕ → ℕ → Server → Option (ℕ × Server)
unfolding handle_request_async reject_at
read_at e fd i s = do
  r ← handle_request_async e fd s.sessions
  if r.0
      then some (i, record s { sessions = r.1 })
      else reject_at e fd i (record s { sessions = r.1 })

-- The events of a socket without an error: writing, then reading.
pub serve_at : Listening → Env → PollFd → ℕ → Server → Option (ℕ × Server)
unfolding accept_at read_at
serve_at l e p i s =
    if has_event pollout p.revents
    then (do
      t ← push_request e.oracle ready_to_send p.fd s.sessions
      some (i, record s { sessions = t }))
    else if not (has_event pollin p.revents)
    then some (i, s)
    else if p.fd == l.plain || p.fd == l.tls
    then accept_at l e p.fd i s
    else read_at e p.fd i s

pub hung_up_at : Listening → Env → PollFd → ℕ → Server → Option (ℕ × Server)
unfolding reject_at serve_at
hung_up_at l e p i s =
    if has_event (pollnval + pollhup + pollrdhup) p.revents && is_lost e.option_second
    then reject_at e p.fd i s
    else serve_at l e p i s

-- `POLLERR`: the class of `errno` decides.
pub error_at : Listening → Env → PollFd → ℕ → Server → Option (ℕ × Server)
unfolding hung_up_at reject_at classify_poll_error
error_at l e p i s =
    if has_event pollerr p.revents
    then elim (classify_poll_error e.errno) [
      | reset ↦ none
      | remove_fd ↦ reject_at e p.fd i s
      | continue ↦ hung_up_at l e p i s
    ]
    else hung_up_at l e p i s

-- The body of the loop over the descriptors, at index `i`.
unfoldable pub visit_fd : Listening → Env → ℕ → Server → Option (ℕ × Server)
unfolding remove_at reject_at error_at
visit_fd l e i s = do
  p ← get_elem? s.polls.fds i
  marked ← is_marked p.fd s.sessions.marks
  if marked
      then remove_at i s
      else if is_lost e.option_first
      then reject_at e p.fd i s
      else error_at l e p i s

-- The loop over the descriptors, from index `i`, with the answers for each visit; `count` is read anew
-- in each round.
pub scan : Listening → List Env → ℕ → Server → Option Server
scan l [] i s = some s
scan l (e ∷ es) i s = elim (ltb i s.polls.count) [
  | false ↦ some s
  | true ↦ elim (visit_fd l e i s) [ none ↦ none | some (i', s') ↦ scan l es (suc i') s' ]
]

-- What the kernel writes into the array.
pub set_revents : List ℕ → List PollFd → List PollFd
set_revents [] ps = ps
set_revents (r ∷ rs) [] = []
set_revents (r ∷ rs) (p ∷ ps) = record p { revents = r } ∷ set_revents rs ps

-- What `ppoll` returns, `errno`, and the events.
pub record Polled : Type 0 where
  pub returned : ℤ
  pub errno : ℕ
  pub events : List ℕ

-- `event_count` is a `char`.
abbrev pub to_char : ℤ → ℤ
to_char (pos n) = let w = n % 256 in if ltb w 128 then pos w else negsuc (255 - w)
to_char (negsuc n) = let w = n % 256 in if ltb w 128 then negsuc w else pos (255 - w)

-- One round of the loop of `_listen`.
unfoldable pub listen_round : Listening → Polled → List Env → Server → Option Server
unfolding scan set_revents classify_poll_error
listen_round l polled es s = do
  assert (ltb 0 s.polls.count)
  let seen = record s { polls = record s.polls { fds = set_revents polled.events s.polls.fds } }
  if is_negative (to_char polled.returned)
      then elim (classify_poll_error polled.errno) [
        | reset ↦ none
        | remove_fd ↦ some seen
        | continue ↦ some seen
      ]
      else scan l es 0 seen
