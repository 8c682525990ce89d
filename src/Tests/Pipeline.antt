-- ===== src/Tests/Pipeline.antt =====
-- The theorems on the rounds of the workers: a request for a file that cannot be read, through all four.
use wind_breaker.Prelude.{◌∷◌, ◌≡◌, refl, true, false, [], none, some, Option, arith}
use wind_breaker.Prelude.Int.{pos}
use wind_breaker.Prelude.Text.{codes}
use wind_breaker.Buffer.{Buffer}
use wind_breaker.Static.{zero_response}
use wind_breaker.StaticFile.{Files}
use wind_breaker.Response.{Outside}
use wind_breaker.Session.Word.{request_read, parsed, data_fetched, ready_to_send, sent}
use wind_breaker.Session.Table.{Slot, Sessions, store}
use wind_breaker.Session.Table.Invariant.{IsValid, store-IsValid}
use wind_breaker.Parser.{parse_round}
use wind_breaker.Loader.{fail_with, load_round}
use wind_breaker.Builder.{build_round}
use wind_breaker.Sender.{after_send}
use wind_breaker.Socket.Calls.{send_bio}
use wind_breaker.Session.Pop.{pop_request_by_fd}
use wind_breaker.Session.Push.Handover
use wind_breaker.Handlers.Protocol.{Follows}
use wind_breaker.Handlers.Staged.{AllStaged}
use wind_breaker.Handlers.Rounds.{round-AllStaged}
use wind_breaker.Prelude.Fault.{◌>>=◌}
use wind_breaker.Handlers.Stop.{worker_loop_leaves}
use wind_breaker.Handlers.{Pass, worker_loop}
use wind_breaker.Handlers.Passing.{Ready, round_passes}
use wind_breaker.Handlers.Cycle.{workers_cycle}
use wind_breaker.Handlers.{
  source, World, Objects, Done, source, round, served, body, parser, loader, builder, sender,
  objects,
}
use wind_breaker.Tests.Table.{table, table-IsValid, waiting, oracle}
use wind_breaker.Tests.Requests.{control, index_request}
use wind_breaker.Tests.Loader.{memory, empty_disk, empty_database}

abbrev unreadable : Files
unreadable = record { realpath = λ s. none; is_readable = λ s. false }

abbrev plain : Outside
plain = record {
  sha256 = λ s. codes "d";
  gzip = λ s. (pos 0, []);
  deflate = λ s. (pos 0, []);
  last_modified = λ s. none;
  now = codes "n";
}

abbrev world : World
world = record {
  files = unreadable;
  library = control;
  granted = true;
  behind = [];
  disk = empty_disk;
  memory = memory;
  database = empty_database;
  outside = plain;
  stack = zero_response;
  returned = pos 167;
  ssl_error = 0;
  should_retry = false;
}

abbrev blank : Buffer
blank = record { capacity = 0; count = 0; bytes = [] }

abbrev requested : Slot
requested = record waiting { buffer = index_request }

abbrev outcome : Option Done → Objects × Buffer
outcome none = (objects requested, blank)
outcome (some d) = d.1

got : Objects × Buffer
unfolding body
got = outcome (body world parser blank (objects requested))

got_parsed : body world parser blank (objects requested) ≡ some (parsed, got)
unfolding got body parse_round
got_parsed = refl

loaded : Objects × Buffer
unfolding body got
loaded = outcome (body world loader blank got.0)

loaded_fetched : body world loader blank got.0 ≡ some (data_fetched, loaded)
unfolding got loaded body parse_round load_round fail_with
loaded_fetched = refl

built : Objects × Buffer
unfolding body loaded
built = outcome (body world builder blank loaded.0)

built_ready : body world builder blank loaded.0 ≡ some (ready_to_send, built)
unfolding got loaded built body parse_round load_round fail_with build_round
built_ready = refl

left : Objects × Buffer
unfolding body built
left = outcome (body world sender blank built.0)

left_sent : body world sender blank built.0 ≡ some (sent, left)
unfolding got loaded built left body parse_round load_round fail_with build_round send_bio
    after_send
left_sent = refl

queue : Sessions
unfolding store
queue = store 1 requested table

waits : Ready request_read 1 6 (objects requested) queue
unfolding queue store
waits = record {
  valid = store-IsValid 1 waiting requested table table-IsValid refl refl;
  slot = requested;
  at = refl;
  live = omega arith;
  awaited = refl;
  has_fd = refl;
  holds = refl;
  quiet = λ a j st h l e. absurd (omega arith);
}

workers_cycle_example :
    (t₁ t₂ t₃ t₄ t₅ : Sessions) × (s : Slot) × (round world parser false oracle 7 blank queue
      ≡ some (served 1 parsed, (got.1, t₁)))
    × (round world loader false oracle 7 blank t₁ ≡ some (served 1 data_fetched, (loaded.1, t₂)))
    × (round world builder false oracle 7 blank t₂ ≡ some (served 1 ready_to_send, (built.1, t₃)))
    × (round world sender false oracle 7 blank t₃ ≡ some (served 1 sent, (left.1, t₄)))
    × IsValid t₄
    × (pop_request_by_fd 6 t₄ ≡ some (some (1, s), t₅))
workers_cycle_example =
    workers_cycle world false oracle 7 blank got.1 blank loaded.1 blank built.1 blank left.1 1 6
      (objects requested) got.0 loaded.0 built.0 left.0 queue waits (omega arith) (omega arith)
      got_parsed loaded_fetched built_ready left_sent

-- The parser's round alone.
parsed_round :
    (t' : Sessions) × (round world parser false oracle 7 blank queue
      ≡ some (served 1 parsed, (got.1, t')))
    × Ready parsed 1 6 got.0 t'
unfolding source
parsed_round =
    round_passes Handover.to_loader world parser false oracle 7 blank got.1 1 6 (objects requested)
      got.0 queue waits (omega arith) (omega arith) got_parsed

queue-AllStaged : AllStaged queue
unfolding queue store
queue-AllStaged = (
  record { reads = λ e. cc; parses = λ e. cc; fetches = λ e. cc },
  (
    record { reads = λ e. cc; parses = λ e. cc; fetches = λ e. cc },
    (record { reads = λ e. cc; parses = λ e. cc; fetches = λ e. cc }, tt),
  ),
)

round-AllStaged_example : Follows parser parsed × IsValid parsed_round.0 × AllStaged parsed_round.0
round-AllStaged_example =
    round-AllStaged world parser false oracle 7 blank got.1 (served 1 parsed) queue parsed_round.0
      waits.valid queue-AllStaged parsed_round.1

-- The server stops while the parser runs its first round.
abbrev last : Pass
last = record { world = world; stopping = false; stop = true; oracle = oracle; others = λ t. t }

abbrev over : Pass
over = record last { stopping = true }

worker_loop_leaves_example :
    worker_loop parser 7 false (last ∷ over ∷ []) blank queue
    ≡ (round world parser true oracle 7 blank queue >>= λ r. some (true, (r.1.0, r.1.1)))
worker_loop_leaves_example =
    worker_loop_leaves parser 7 false last over [] blank queue refl refl refl
