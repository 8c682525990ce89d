-- ===== src/Listener/Keeps.antt =====
-- A visit of a descriptor in src/listener.c and the invariants of the tables.

use wind_breaker.Prelude.{
  ℕ, ◌+◌, ◌≤◌, ◌≡◌, refl, ◌∙◌, Bool, false, List, Option, none, some, arith, get_elem?, ◌==◌, ◌||◌,
  not, ◌&&◌, if◌then◌else◌,
}
use wind_breaker.Prelude.Fault.{
  ◌>>=◌, Ensures, Ensures-then, Ensures-bind, Ensures-if, Ensures-of_all,
}
use wind_breaker.Prelude.Int.{ℤ, pos, negsuc}
use wind_breaker.MarkedFds.{is_marked}
use wind_breaker.PollArray.{PollFd, PollArray, pollin, pollout, add_poll_fd, remove_poll_fd}
use wind_breaker.PollArray.Invariant
use wind_breaker.PollArray.Add.{least_size}
use wind_breaker.PollArray.Outcome.{Continues, add_poll_fd-Continues, remove_poll_fd-Continues}
use wind_breaker.Session.Word.{WorkStatus, initial, initial_ssl, ready_to_send, rejected}
use wind_breaker.Session.Table.{Slot, Sessions, store}
use wind_breaker.Session.Table.Invariant.{IsValid, store-IsValid}
use wind_breaker.Session.Push.{push_request}
use wind_breaker.Session.Push.Keeps.{push_request-IsValid}
use wind_breaker.Session.Pop.{pop_request_by_fd}
use wind_breaker.Session.Pop.Keeps.{Handed, pop_request_by_fd-ensures}
use wind_breaker.Listener.{
  Env, Server, Listening, PollErrorClass, reset, remove_fd, continue, is_lost, has_event, pollerr,
  pollhup, pollnval, pollrdhup, classify_poll_error, receive, push_result, handle_request_async,
  remove_at, reject_at, accept_at, read_at, serve_at, hung_up_at, error_at, visit_fd,
}

-- The session table and the poll array are valid, the array has room for the listening sockets and a
-- connection, and the plain listening socket stands at index 0.
pub record Sound (l : Listening) (s : Server) : Type 0 where
  pub table : IsValid s.sessions
  pub polls : Invariant.IsValid s.polls
  pub roomy : least_size l.has_ssl ≤ s.polls.max_count
  pub listening : (p : PollFd) × (get_elem? s.polls.fds 0 ≡ some p) × (p.fd ≡ l.plain)

abbrev pub Visited : Listening → ℕ × Server → Type 0
Visited l r = Sound l r.1

pub with_sessions :
    (l : Listening) (s : Server) (t : Sessions)
    → Sound l s
    → IsValid t
    → Sound l (record s { sessions = t })
with_sessions l s t v h = record {
  table = h;
  polls = v.polls;
  roomy = v.roomy;
  listening = v.listening;
}

pub with_polls :
    (l : Listening) (s : Server) (t : Sessions) (a : PollArray)
    → Sound l s
    → IsValid t
    → Continues s.polls a
    → Sound l (record { sessions = t; polls = a })
with_polls l s t a v h c = record {
  table = h;
  polls = c.valid;
  roomy = omega (arith, v.roomy, c.same_size);
  listening = (v.listening.0, c.same_head ∙ v.listening.1, v.listening.2);
}

pub marks-IsValid : (t : Sessions) (m : List ℕ) → IsValid t → IsValid (record t { marks = m })
marks-IsValid t m v = record {
  sized = v.sized;
  within = v.within;
  round = v.round;
  distinct = v.distinct;
}

pushed :
    (l : Listening) (e : Env) (w : WorkStatus) (fd : ℕ) (s : Server)
    → Sound l s
    → Ensures IsValid (push_request e.oracle w fd s.sessions)
pushed l e w fd s v =
    Ensures-of_all IsValid _ (λ t h. push_request-IsValid e.oracle w fd s.sessions t v.table h)

removed : (l : Listening) (i : ℕ) (s : Server) → Sound l s → Ensures (Visited l) (remove_at i s)
unfolding remove_at
removed l i s v = Ensures-then (Visited l) (remove_poll_fd i s.polls s.sessions.marks) _ (λ r h.
    with_polls l s (record s.sessions { marks = r.marks }) r.array v
      (marks-IsValid s.sessions r.marks v.table)
      (remove_poll_fd-Continues i s.polls s.sessions.marks r v.polls h))

rejects :
    (l : Listening) (e : Env) (fd i : ℕ) (s : Server)
    → Sound l s
    → Ensures (Visited l) (reject_at e fd i s)
unfolding reject_at
rejects l e fd i s v =
    Ensures-bind IsValid (Visited l) _ _ (pushed l e rejected fd s v)
      (λ t h. removed l i (record s { sessions = t }) (with_sessions l s t v h))

accepts :
    (l : Listening) (e : Env) (fd i : ℕ) (s : Server) (answer : ℤ)
    → Sound l s
    → Ensures (Visited l) (accept_at l (record e { accepted = answer }) fd i s)
unfolding accept_at
accepts l e fd i s (negsuc n) v = tt
accepts l e fd i s (pos client) v =
    Ensures-bind IsValid (Visited l) _ _
      (pushed l e (if fd == l.plain then initial else initial_ssl) client s v)
      (λ t h. Ensures-then (Visited l) (add_poll_fd l.has_ssl client s.polls) _ (λ added done.
        with_polls l s t added.1 v h
          (add_poll_fd-Continues l.has_ssl client s.polls v.polls v.roomy added done)))

-- The table is valid after a session was read, whatever was read.
handled :
    (e : Env) (fd : ℕ) (t : Sessions)
    → IsValid t
    → Ensures (λ (r : Bool × Sessions). IsValid r.1) (handle_request_async e fd t)
unfolding handle_request_async
handled e fd t v =
    Ensures-bind Handed (λ (r : Bool × Sessions). IsValid r.1) (pop_request_by_fd fd t) _
      (pop_request_by_fd-ensures fd t v) (after e fd)
  where
    result :
        (e : Env) (fd : ℕ) (w : Option WorkStatus) (t : Sessions)
        → IsValid t
        → Ensures (λ (r : Bool × Sessions). IsValid r.1) (push_result e fd w t)
    result e fd none t v = v
    result e fd (some w) t v =
        Ensures-then (λ (r : Bool × Sessions). IsValid r.1) (push_request e.oracle w fd t) _
          (λ t' h. push_request-IsValid e.oracle w fd t t' v h)

    after :
        (e : Env) (fd : ℕ) (popped : Option (ℕ × Slot) × Sessions)
        → Handed popped
        → Ensures
            (λ (r : Bool × Sessions). IsValid r.1)
            (elim popped.0 [
              | none ↦ some (false, popped.1)
              | some (i, s) ↦ (do
                _ ← s.bio_fd
                r ← receive e s
                push_result e fd r.0 (store i (record s { buffer = r.1 }) popped.1))
            ])
    after e fd (none, t) h = h
    after e fd (some (i, s), t) h =
        Ensures-then (λ (r : Bool × Sessions). IsValid r.1) s.bio_fd _
          (λ _ _.
            Ensures-then (λ (r : Bool × Sessions). IsValid r.1) (receive e s) _
              (λ r _.
                result e fd r.0 (store i (record s { buffer = r.1 }) t)
                  (store-IsValid i s (record s { buffer = r.1 }) t h.0 h.1 refl)))

reads :
    (l : Listening) (e : Env) (fd i : ℕ) (s : Server)
    → Sound l s
    → Ensures (Visited l) (read_at e fd i s)
unfolding read_at
reads l e fd i s v =
    Ensures-bind (λ (r : Bool × Sessions). IsValid r.1) (Visited l)
      (handle_request_async e fd s.sessions) _ (handled e fd s.sessions v.table)
      (λ r h.
        Ensures-if (Visited l) r.0 (some (i, record s { sessions = r.1 })) _
          (with_sessions l s r.1 v h)
          (rejects l e fd i (record s { sessions = r.1 }) (with_sessions l s r.1 v h)))

serves :
    (l : Listening) (e : Env) (p : PollFd) (i : ℕ) (s : Server)
    → Sound l s
    → Ensures (Visited l) (serve_at l e p i s)
unfolding serve_at
serves l e p i s v =
    Ensures-if (Visited l) (has_event pollout p.revents) _ _
      (Ensures-bind IsValid (Visited l) _ _ (pushed l e ready_to_send p.fd s v)
        (λ t h. with_sessions l s t v h))
      (Ensures-if (Visited l) (not (has_event pollin p.revents)) (some (i, s)) _ v (
        Ensures-if (Visited l) (p.fd == l.plain || p.fd == l.tls) _ _
          (accepts l e p.fd i s e.accepted v) (reads l e p.fd i s v)))

hangs_up :
    (l : Listening) (e : Env) (p : PollFd) (i : ℕ) (s : Server)
    → Sound l s
    → Ensures (Visited l) (hung_up_at l e p i s)
unfolding hung_up_at
hangs_up l e p i s v =
    Ensures-if (Visited l)
      (has_event (pollnval + pollhup + pollrdhup) p.revents && is_lost e.option_second) _ _
      (rejects l e p.fd i s v) (serves l e p i s v)

errs :
    (l : Listening) (e : Env) (p : PollFd) (i : ℕ) (s : Server)
    → Sound l s
    → Ensures (Visited l) (error_at l e p i s)
unfolding error_at
errs l e p i s v =
    Ensures-if (Visited l) (has_event pollerr p.revents) _ _
      (by_class (classify_poll_error e.errno)) (hangs_up l e p i s v)
  where
    by_class :
        (c : PollErrorClass)
        → Ensures (Visited l) (elim c [
          | reset ↦ none
          | remove_fd ↦ reject_at e p.fd i s
          | continue ↦ hung_up_at l e p i s
        ])
    by_class reset = tt
    by_class remove_fd = rejects l e p.fd i s v
    by_class continue = hangs_up l e p i s v

pub visit_fd-Sound :
    (l : Listening) (e : Env) (i : ℕ) (s : Server)
    → Sound l s
    → Ensures (Visited l) (visit_fd l e i s)
unfolding visit_fd
visit_fd-Sound l e i s v = Ensures-then (Visited l) (get_elem? s.polls.fds i) _ (λ p _.
    Ensures-then (Visited l) (is_marked p.fd s.sessions.marks) _ (λ marked _.
      Ensures-if (Visited l) marked _ _ (removed l i s v) (
        Ensures-if (Visited l) (is_lost e.option_first) _ _ (rejects l e p.fd i s v)
          (errs l e p i s v))))
