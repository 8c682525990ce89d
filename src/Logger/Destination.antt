-- ===== src/Logger/Destination.antt =====
-- LOG_DESTINATION of src/utils/logger.h.
use wind_breaker.Prelude.{ℕ}

abbrev pub console_only : ℕ
console_only = 0

abbrev pub file_only : ℕ
file_only = 1

abbrev pub console_file : ℕ
console_file = 2
