-- ===== src/Logger/Level.antt =====
-- LOG_LEVEL of src/utils/logger.h.
use wind_breaker.Prelude.{ℕ}

abbrev pub trace : ℕ
trace = 0

abbrev pub debug : ℕ
debug = 1

abbrev pub info : ℕ
info = 2

abbrev pub warn : ℕ
warn = 3

abbrev pub error : ℕ
error = 4
