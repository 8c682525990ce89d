-- ===== src/MarkedFds.antt =====
-- src/data_structures/marked_fds.c: a counter for each file descriptor that must be closed.
-- The counters are `int`; `none` is an access outside the array.
pub mod Laws
use wind_breaker.Prelude.{
  ℕ, ◌+◌, ◌*◌, ◌%◌, ◌^◌, Bool, ◌&&◌, List, [], Option, some, ltb, get_elem?, set, replicate,
}
use wind_breaker.Prelude.Fault.{◌>>=◌}

abbrev pub Marks : Type 0
Marks = List ℕ

-- `init_marked_fds`, with the configured number of sessions.
unfoldable pub init_marked_fds : ℕ → Marks
init_marked_fds session_max_size = replicate (session_max_size * 2) 0

-- `marks` is NULL afterwards: the array has no elements.
unfoldable pub destroy_marked_fds : Marks → Marks
destroy_marked_fds marks = []

unfoldable pub mark : ℕ → Marks → Option Marks
mark fd marks = do n ← get_elem? marks fd; some (set marks fd ((n + 1) % 2 ^ 32))

unfoldable pub unmark : ℕ → Marks → Option Marks
unmark fd marks = do n ← get_elem? marks fd; some (set marks fd 0)

-- The comparison is signed.
unfoldable pub is_marked : ℕ → Marks → Option Bool
is_marked fd marks = do n ← get_elem? marks fd; some (ltb 0 n && ltb n (2 ^ 31))
