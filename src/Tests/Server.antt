-- ===== src/Tests/Server.antt =====
-- The theorems on src/listener.c, src/socket.c and the whole server at small inputs.
use wind_breaker.Prelude.{
  ℕ, zero, suc, ◌≤◌, ◌<◌, ◌≡◌, refl, true, false, Bool, [], ◌∷◌, ◌++◌, List, none, some, arith,
  length, take, take_all, replicate, length-replicate,
}
use wind_breaker.Prelude.Int.{pos}
use wind_breaker.Prelude.Text.{codes}
use wind_breaker.Buffer.{Buffer, Memory}
use wind_breaker.Buffer.Capacity.{IsValid}
use wind_breaker.Response.Print.Text.{Starts}
use wind_breaker.MarkedFds.{is_marked, init_marked_fds}
use wind_breaker.PollArray.{PollFd, watching, unused, init_poll_array}
use wind_breaker.Session.Word.{request_read, parsed, has}
use wind_breaker.Session.Table.{Slot, Sessions, parsed_cond, request_read_cond, init_session_cache}
use wind_breaker.Session.Push.{push_request}
use wind_breaker.Session.Push.Handover.{to_loader, push_request_wakes}
use wind_breaker.Session.Pop.{got, waits, peek_next, pop_request, is_busy}
use wind_breaker.Session.Word.{is_next}
use wind_breaker.Socket.{Bio, recv_bio, recv_rounds}
use wind_breaker.Socket.Receive.{gathered, Delivers}
use wind_breaker.Socket.Overrun.{recv_bio_overrun}
use wind_breaker.Tests.Table.{oracle, held, waiting, table, table-IsValid}
use wind_breaker.Prelude.{set}
use wind_breaker.Listener.{
  handle_request_async, check_for_socket_error, Env, Listening, Server, visit_fd, listen_round,
}
use wind_breaker.Session.Word.{cleared}
use wind_breaker.Session.Table.{store}
use wind_breaker.Session.Table.Invariant.{store-IsValid}
use wind_breaker.Listener.Reads.{handle_request_async_reads}
use wind_breaker.Listener.Races.{visit_fd_aborts}
use wind_breaker.Listener.Keeps.{Sound}
use wind_breaker.Properties.{Config, Outside, defaults, init_properties}
use wind_breaker.System.{listening, start, Reach, here, next, listens, takes}
use wind_breaker.System.Reachable.{start-Reach-Sound}

abbrev memory : Memory
memory = record { grants = λ n. true; junk = λ n. 0 }

abbrev page : Buffer
page = record { capacity = 1024; count = 0; bytes = replicate 1024 0 }

page-IsValid : IsValid page
page-IsValid = record { sized = length-replicate {A = ℕ} 1024 0; used = omega arith }

-- One read with three bytes.
abbrev arrives : ℕ → List ℕ
arrives zero = codes "GET"
arrives (suc k) = []

abbrev quiet_bio : Bio
quiet_bio = record { reads = λ k room. take room (arrives k); failed = λ k room. true }

quiet_bio-Delivers : Delivers quiet_bio arrives
quiet_bio-Delivers k room h = take_all room (arrives k) h

arrives_first : (j : ℕ) → j < 1 → 0 < length (arrives j)
arrives_first zero h = omega arith
arrives_first (suc j) h = absurd (omega arith)

abbrev flood : Bio
flood = record { reads = λ k room. replicate room 65; failed = λ k room. true }

recv_bio_overrun_example :
    (failed : Bool) × (e : Buffer) × (recv_rounds 4 0 memory flood page ≡ some (failed, e))
    × (e.count ≡ 4096)
    × (length e.bytes ≡ 4096)
    × (recv_bio 4 memory flood page ≡ none)
recv_bio_overrun_example =
    recv_bio_overrun 4 memory flood page (omega arith) (λ j. refl)
      (λ k room. length-replicate {A = ℕ} room 65) page-IsValid refl refl

push_request_wakes_example :
    (t' t'' : Sessions) × (k : ℕ) × (s' : Slot) × (pop_request parsed false table
      ≡ some (waits parsed_cond, table))
    × (push_request oracle parsed held.related_fd table ≡ some t')
    × (t'.signals ≡ parsed_cond ∷ table.signals)
    × (pop_request parsed false t' ≡ some (got k s', t''))
    × (0 ≤ k)
unfolding peek_next is_next has
push_request_wakes_example =
    push_request_wakes to_loader oracle false 0 held table table refl table-IsValid (omega arith)
      (omega arith) (omega arith) refl refl (refl, refl, refl)

-- The client of the session that waits has sent more.
abbrev readable : PollFd
readable = record { fd = 6; events = 1; revents = 1 }

abbrev pub server : Server
server = record {
  sessions = table;
  polls = record {
    fds = watching 3 ∷ readable ∷ unused ∷ [];
    max_count = 3;
    count = 2;
    last_in_index = 1;
  };
}

abbrev pub sockets : Listening
sockets = record { plain = 3; tls = 4; has_ssl = false }

abbrev answers : Env
answers = record {
  option_first = some 0;
  option_second = some 0;
  errno = 0;
  accepted = pos 9;
  memory = memory;
  fuel = 2;
  bio = quiet_bio;
  ssl = record { pending = 0; returned = λ n. n; bytes = λ n. [] };
  retry = true;
  oracle = oracle;
}

visit_fd_aborts_example : visit_fd sockets answers 1 server ≡ none
unfolding is_marked is_busy has check_for_socket_error
visit_fd_aborts_example =
    visit_fd_aborts sockets answers 1 1 readable waiting server refl refl refl refl refl
      table-IsValid (omega arith) (omega arith) (omega arith) refl refl refl refl

-- A connection whose session waits for its client.
abbrev idle : Slot
idle = record waiting { status = cleared; buffer = page }

abbrev idle_table : Sessions
unfolding store
idle_table = store 1 idle table

handle_request_async_reads_example :
    (t' : Sessions) × (s' : Slot) × (handle_request_async answers 6 idle_table ≡ some (true, t'))
    × (t'.slots ≡ set idle_table.slots 1 s')
    × Starts (([] ++ gathered 1 0 arrives) ++ (0 ∷ [])) s'.buffer
    × (s'.related_fd ≡ 6)
    × (s'.status ≡ record idle.status { is_read = true; is_processing = false })
    × (t'.signals ≡ request_read_cond ∷ idle_table.signals)
unfolding store is_busy
handle_request_async_reads_example =
    handle_request_async_reads answers 1 1 6 arrives [] idle idle_table
      (store-IsValid 1 waiting idle table table-IsValid refl refl) (omega arith) (omega arith)
      (omega arith) refl refl refl refl refl (omega arith) (λ j. refl) quiet_bio-Delivers
      arrives_first refl
      (record {
        valid = page-IsValid;
        bounded = omega arith;
        rest = replicate 1024 0;
        split = refl;
      })
      refl (omega arith) (omega arith)

-- A configuration of four sessions, the start, a worker that goes to wait, and a round of the
-- listener without an event.
abbrev four_sessions : Outside
four_sessions = record {
  atoi = λ s. pos 4;
  exists = λ s. true;
  lines = λ s. some ((codes "session_max_size=4" ++ (10 ∷ [])) ∷ []);
}

abbrev config : Config
config = record defaults { session_max_size = 4 }

abbrev fresh : Server
unfolding init_session_cache init_marked_fds
fresh = record {
  sessions = init_session_cache 4 false (init_marked_fds 4);
  polls = record {
    fds = watching 3 ∷ unused ∷ unused ∷ unused ∷ [];
    max_count = 4;
    count = 1;
    last_in_index = 1;
  };
}

fresh-Reach : Reach (listening config 3 4) fresh fresh
unfolding pop_request init_session_cache init_marked_fds listen_round is_marked
    check_for_socket_error visit_fd peek_next
fresh-Reach =
    next (next here (takes request_read false (waits request_read_cond) refl))
      (listens (record { returned = pos 0; errno = 0; events = [] }) (answers ∷ []) refl)

start-Reach-Sound_example : Sound (listening config 3 4) fresh
unfolding start init_session_cache init_marked_fds init_poll_array init_properties
start-Reach-Sound_example =
    start-Reach-Sound four_sessions [] config 3 4 fresh fresh refl (omega arith) refl fresh-Reach
