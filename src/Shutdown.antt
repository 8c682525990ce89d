-- ===== src/Shutdown.antt =====
-- src/shutdown/stop.c: the flag that ends the loops of all threads.
use wind_breaker.Prelude.{Bool, true, List, ℕ, if◌then◌else◌}
use wind_breaker.Prelude.Text.{codes, contains}

-- `_stop_server`: `file` is the source file that calls it, and the flag is `server_stop`.
unfoldable pub stop_server : List ℕ → Bool → Bool
unfolding contains
stop_server file server_stop = if contains (codes "main.c") file then true else server_stop
