-- ===== src/System.antt =====
-- The whole server: the listener's thread and the workers of src/handlers/, which share the session
-- table, as a relation between the states before and after a step. Every call of src/data_structures/
-- runs under its mutex, so it is one step; what a worker writes into the objects of a session is
-- another; and the threads may take their steps in any order. A round of the listener that no worker
-- disturbs is the step `listens`; for any other, the calls that it makes are steps of their own.
-- `main` of src/main.c makes the start.
pub mod Reachable
pub mod Listens
use wind_breaker.Prelude.{
  ℕ, ◌≡◌, Bool, true, false, List, [], ◌∷◌, Option, some, ◌==◌, if◌then◌else◌,
}
use wind_breaker.Prelude.Fault.{◌>>=◌}
use wind_breaker.Buffer.{Buffer}
use wind_breaker.MarkedFds.{init_marked_fds}
use wind_breaker.Static.{Request, Response}
use wind_breaker.PollArray.{
  PollArray, Removed, init_poll_array, init_poll_array_ssl, add_poll_fd, remove_poll_fd,
}
use wind_breaker.Session.Word.{WorkStatus}
use wind_breaker.Session.Table.{Slot, Sessions, Oracle, init_session_cache, broadcast_session}
use wind_breaker.Session.Push.{push_request}
use wind_breaker.Session.Pop.{Popped, pop_request, pop_request_by_fd}
use wind_breaker.Properties.{Config}
use wind_breaker.Listener.{Env, Listening, Polled, Server, set_revents, listen_round}

abbrev pub listening : Config → ℕ → ℕ → Listening
listening c plain tls = record { plain = plain; tls = tls; has_ssl = c.enable_https }

-- The server as it stands before the threads start, with the listening sockets that were opened.
unfoldable pub start : Config → ℕ → ℕ → Option Server
start c plain tls = do
  polls ←
      if c.enable_https
      then init_poll_array_ssl c.session_max_size plain tls
      else init_poll_array c.session_max_size plain
  some (record {
    sessions =
        init_session_cache c.session_max_size c.enable_https (init_marked_fds c.session_max_size);
    polls = polls;
  })

-- A worker reaches the objects of its session by their addresses, not by an index of the table.
unfoldable pub fill : ℕ → ℕ → Buffer → Request → Response → List Slot → List Slot
fill cell thread b q r [] = []
fill cell thread b q r (s ∷ xs) =
    (if s.cell == cell
      then record s { thread_id = thread; buffer = b; request = q; response = r }
      else s)
    ∷ fill cell thread b q r xs

pub data Step (l : Listening) : Server → Server → Type 0 where
  listens :
      {s s' : Server} (polled : Polled) (es : List Env)
      → listen_round l polled es s ≡ some s'
      → Step l s s'
  takes :
      {s : Server} {t : Sessions} (w : WorkStatus) (stop : Bool) (p : Popped)
      → pop_request w stop s.sessions ≡ some (p, t)
      → Step l s (record s { sessions = t })
  takes_by_fd :
      {s : Server} {t : Sessions} (fd : ℕ) (r : Option (ℕ × Slot))
      → pop_request_by_fd fd s.sessions ≡ some (r, t)
      → Step l s (record s { sessions = t })
  works :
      (s : Server) (cell thread : ℕ) (b : Buffer) (q : Request) (r : Response)
      → Step l s (record s {
        sessions = record s.sessions { slots = fill cell thread b q r s.sessions.slots };
      })
  gives :
      {s : Server} {t : Sessions} (o : Oracle) (w : WorkStatus) (fd : ℕ)
      → push_request o w fd s.sessions ≡ some t
      → Step l s (record s { sessions = t })
  wakes :
      (s : Server) (events : List ℕ)
      → Step l s (record s { polls = record s.polls { fds = set_revents events s.polls.fds } })
  adds :
      {s : Server} (fd : ℕ) (r : ℕ × PollArray)
      → add_poll_fd l.has_ssl fd s.polls ≡ some r
      → Step l s (record s { polls = r.1 })
  removes :
      {s : Server} (i : ℕ) (r : Removed)
      → remove_poll_fd i s.polls s.sessions.marks ≡ some r
      → Step l s (record { sessions = record s.sessions { marks = r.marks }; polls = r.array })
  stops : (s : Server) → Step l s (record s { sessions = broadcast_session s.sessions })

-- What the server may become, by any interleaving of the steps.
pub data Reach (l : Listening) (s : Server) : Server → Type 0 where
  here : Reach l s s
  next : {t u : Server} → Reach l s t → Step l t u → Reach l s u
