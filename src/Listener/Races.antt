-- ===== src/Listener/Races.antt =====
-- Data that arrives while the request before it is on its way through the workers.
use wind_breaker.Prelude.{
  ℕ, ◌<◌, ◌≡◌, refl, ◌∙◌, ap, true, false, none, some, get_elem?, ◌==◌, ◌||◌,
}
use wind_breaker.Prelude.Fault.{◌>>=◌, >>=_of_some}
use wind_breaker.MarkedFds.{is_marked}
use wind_breaker.PollArray.{PollFd, pollin}
use wind_breaker.Session.Word.{processing, rejected, has}
use wind_breaker.Session.Table.{Slot, Sessions}
use wind_breaker.Session.Table.Invariant.{IsValid}
use wind_breaker.Session.Push.{push_request, on_match}
use wind_breaker.Session.Push.Lookup.{push_request-eq-on_match}
use wind_breaker.Session.Pop.{pop_request_by_fd, is_busy}
use wind_breaker.Session.Pop.Exclusive.{by_fd_busy}
use wind_breaker.Listener.{
  Env, Server, Listening, is_lost, handle_request_async, reject_at, read_at, visit_fd,
}

-- A rejection of a session that nobody holds.
on_match-unheld :
    (fd j : ℕ) (r : Slot) (t : Sessions)
    → has processing r.status ≡ false
    → on_match rejected fd j r t ≡ none
unfolding on_match
on_match-unheld fd j r t p = rw p refl

-- The descriptor of a connection that can be read, and nothing else.
module _ (l : Listening) (e : Env) (i : ℕ) (p : PollFd) (s : Server)
    (at : get_elem? s.polls.fds i ≡ some p)
    (unmarked : is_marked p.fd s.sessions.marks ≡ some false)
    (alive : is_lost e.option_first ≡ false) (readable : p.revents ≡ pollin)
    (client : (p.fd == l.plain || p.fd == l.tls) ≡ false) where
  visits_read : visit_fd l e i s ≡ read_at e p.fd i s
  unfolding visit_fd
  visits_read = >>=_of_some _ at (>>=_of_some _ unmarked (rw (alive, readable, client) refl))

read-busy :
    (e : Env) (fd i : ℕ) (s : Server)
    → pop_request_by_fd fd s.sessions ≡ some (none, s.sessions)
    → push_request e.oracle rejected fd s.sessions ≡ none
    → read_at e fd i s ≡ none
unfolding read_at reject_at handle_request_async
read-busy e fd i s nothing stops =
    >>=_of_some _ (>>=_of_some _ nothing refl) (rw (stops, ◌>>=◌) refl)

-- In a valid table, when a client of a connection without an error sends data while its session is
-- queued for a stage, held by no worker and its sending not failed, the listener's visit of the
-- descriptor stops the process: it finds no session to read into and rejects one that is not held.
pub visit_fd_aborts :
    (l : Listening) (e : Env) (i j : ℕ) (p : PollFd) (r : Slot) (s : Server)
    → get_elem? s.polls.fds i ≡ some p
    → is_marked p.fd s.sessions.marks ≡ some false
    → is_lost e.option_first ≡ false
    → p.revents ≡ pollin
    → (p.fd == l.plain || p.fd == l.tls) ≡ false
    → IsValid s.sessions
    → 0 < p.fd
    → p.fd < 16384
    → j < s.sessions.count
    → get_elem? s.sessions.slots j ≡ some r
    → r.related_fd ≡ p.fd
    → is_busy r.status ≡ true
    → has processing r.status ≡ false
    → visit_fd l e i s ≡ none
visit_fd_aborts l e i j p r s at unmarked alive readable client v low high live g same busy unheld =
    visits_read l e i p s at unmarked alive readable client
    ∙ read-busy e p.fd i s
        (by_fd_busy p.fd j r s.sessions low high live g same busy
          (λ m h f. v.distinct m j p.fd h live f (rw g (ap some same))))
        (push_request-eq-on_match e.oracle rejected j p.fd r s.sessions v low high live g same
          ∙ on_match-unheld p.fd j r s.sessions unheld)
