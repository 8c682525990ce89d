-- ===== src/Tests/Log.antt =====
-- The theorems on src/utils/logger.c at a small log.
use wind_breaker.Prelude.{
  ℕ, ◌-◌, ◌*◌, ◌≡◌, refl, true, false, List, [], ◌∷◌, ◌++◌, none, some, arith,
}
use wind_breaker.Prelude.Text.{codes}
use wind_breaker.Response.Print.{decimal}
use wind_breaker.Logger.Level
use wind_breaker.Logger.Destination
use wind_breaker.Logger.{
  Logger, Disk, null, memory, reserve, log_buffer_size, zeros, zero_bytes, relative_file_path,
  log_message, logo,
}
use wind_breaker.Logger.Text.{Context, heading, origin, padded, log_level_to_string}
use wind_breaker.Logger.Line.{line, pieces, ending, joined}
use wind_breaker.Logger.Keeps.{
  visible, visible-zero_bytes, visible-drop, length-zero_bytes, IsReady, Works,
}
use wind_breaker.Logger.Records.{log_message_stops}
use wind_breaker.Logger.Series.{Entry, IsFit, lines, AllFit}
use wind_breaker.Logger.Start.{announcement, run, run-writes}

abbrev disk : Disk
disk = record {
  opens = true;
  stats = true;
  grows = true;
  maps = λ size. true;
  seeks = true;
  tells = true;
  fresh = [];
}

disk-Works : Works disk
disk-Works = record { grows = refl; seeks = refl; tells = refl; maps = λ windows. refl }

abbrev context : Context
context = record {
  time = codes "20260101 00:00:00";
  thread = 7;
  session = some 3;
  errno = 0;
  strerror = [];
  ssl_error = none;
  symbols = none;
}

abbrev source : List ℕ
source = codes "src/src/utils/logger.c"

-- The logger before `init_logger`.
abbrev unset : Logger
unset = record {
  log_level = Level.trace;
  log_destination = Destination.console_only;
  opened = false;
  log_buffer_offset = 0;
  log_buffer = null;
  saved = [];
  console = [];
}

announcement_warn-IsFit : IsFit (announcement context source Level.warn Destination.file_only)
unfolding relative_file_path line pieces heading origin ending padded log_level_to_string decimal
announcement_warn-IsFit = record {
  path = codes "src/utils/logger.c";
  named = refl;
  text = omega arith;
  short = omega arith;
}

abbrev greeting : Entry
greeting = record {
  level = Level.warn;
  context = context;
  file = codes "src/src/main.c";
  message = codes "Hi";
}

greeting_fits : IsFit greeting
unfolding relative_file_path line pieces heading origin ending padded log_level_to_string decimal
greeting_fits = record {
  path = codes "src/main.c";
  named = refl;
  text = omega arith;
  short = omega arith;
}

both_fit : AllFit (greeting ∷ [])
both_fit = (greeting_fits, tt)

-- The announcement is below the level WARN; `Hi` is not.
run-writes_example :
    (m : Logger) × (run disk context source Level.warn Destination.file_only [] unset
        (greeting ∷ [])
      ≡ some m)
    × (visible m.saved
        ≡ ((visible [] ++ joined logo) ++ []) ++ lines Level.warn (greeting ∷ []) both_fit)
unfolding line pieces heading origin ending padded log_level_to_string decimal both_fit
    greeting_fits
run-writes_example =
    run-writes disk disk-Works context source [] Level.warn Destination.file_only 0 unset refl refl
      refl refl refl announcement_warn-IsFit (greeting ∷ []) both_fit (omega arith)

-- A window that the message `Hi` fills, in a file of 2 GiB less two windows.
full_log : Logger
full_log = record {
  log_level = Level.trace;
  log_destination = Destination.file_only;
  opened = true;
  log_buffer_offset = log_buffer_size - reserve;
  log_buffer = memory zeros;
  saved = zero_bytes (510 * log_buffer_size);
  console = [];
}

full_log-IsReady : IsReady full_log
unfolding full_log
full_log-IsReady = record {
  bytes = zeros;
  held = refl;
  sized = length-zero_bytes log_buffer_size;
  below = omega arith;
  windows = 510;
  aligned = length-zero_bytes (510 * log_buffer_size);
  blank = λ _. visible-drop (log_buffer_size - reserve) zeros (visible-zero_bytes log_buffer_size);
}

log_message_stops_example :
    log_message disk Level.warn context (codes "src/main.c") (codes "Hi") full_log ≡ none
unfolding line pieces heading origin ending padded log_level_to_string decimal full_log
    relative_file_path
log_message_stops_example =
    log_message_stops disk disk-Works Level.warn context (codes "src/main.c") (codes "Hi")
      (codes "main.c") full_log full_log-IsReady refl (omega arith) (omega arith) refl (omega arith)
      (omega (arith, length-zero_bytes (510 * log_buffer_size)))
      (omega (arith, length-zero_bytes (510 * log_buffer_size)))
