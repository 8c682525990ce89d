-- ===== src/PollArray.antt =====
-- src/data_structures/poll_array.c: the descriptors that the listener polls, the listening sockets
-- first. `none` is a failed assertion or an access outside the array; `calloc` does not fail, and
-- the array is not yet there when it is initialised. `ssl` is `get_enabled_ssl() == 1`.
pub mod Invariant
pub mod Initial
pub mod Add
pub mod Remove
pub mod Outcome
use Prim.Native.Nat.{bit_and}
use wind_breaker.Prelude.{
  ℕ, zero, suc, ◌+◌, ◌-◌, ◌%◌, Bool, true, false, not, ◌&&◌, ◌||◌, List, [], ◌∷◌, Option, none,
  some, ltb, leb, ◌==◌, if◌then◌else◌, length, get_elem?, set, replicate,
}
use wind_breaker.Prelude.Fault.{◌>>=◌, ◌>>◌, assert}
use wind_breaker.MarkedFds.{Marks, unmark}

-- `struct pollfd`.
pub record PollFd : Type 0 where
  pub fd : ℕ
  pub events : ℕ
  pub revents : ℕ

abbrev pub pollin : ℕ
pollin = 1

abbrev pub pollout : ℕ
pollout = 4

abbrev pub unused : PollFd
unused = record { fd = 0; events = 0; revents = 0 }

abbrev pub watching : ℕ → PollFd
watching fd = record { fd = fd; events = pollin; revents = 0 }

pub record PollArray : Type 0 where
  pub fds : List PollFd
  pub max_count : ℕ
  pub count : ℕ
  pub last_in_index : ℕ

-- A descriptor or a size that the assertions let through.
abbrev pub in_range : ℕ → Bool
in_range n = ltb 0 n && ltb n 16384

pub put : ℕ → PollFd → List PollFd → Option (List PollFd)
put i p fds = do _ ← get_elem? fds i; some (set fds i p)

unfoldable pub init_poll_array : ℕ → ℕ → Option PollArray
unfolding put
init_poll_array max_count listen_fd = do
  assert (in_range listen_fd)
  assert (in_range max_count)
  fds ← put 0 (watching listen_fd) (replicate max_count unused)
  some (record { fds = fds; max_count = max_count; count = 1; last_in_index = 1 })

unfoldable pub init_poll_array_ssl : ℕ → ℕ → ℕ → Option PollArray
unfolding put
init_poll_array_ssl max_count listen_fd listen_fd_ssl = do
  assert (in_range listen_fd)
  assert (in_range listen_fd_ssl)
  assert (not (listen_fd == listen_fd_ssl))
  assert (in_range max_count)
  first ← put 0 (watching listen_fd) (replicate max_count unused)
  fds ← put 1 (watching listen_fd_ssl) first
  some (record { fds = fds; max_count = max_count; count = 2; last_in_index = 2 })

-- One round of the loop of `peek_next` over a full array. `temp` is a pointer to `fds[i]`, which the
-- first assignment has changed, so the second one writes `fds[last]` to itself.
copy_last : ℕ → ℕ → Option PollFd → List PollFd → List PollFd
copy_last i last none fds = fds
copy_last i last (some q) fds = set (set fds i q) last q

sweep_at : ℕ → ℕ → Option PollFd → List PollFd → List PollFd
unfolding copy_last
sweep_at i last none fds = fds
sweep_at i last (some p) fds =
    if bit_and p.fd (pollin + pollout) == 0 then copy_last i last (get_elem? fds last) fds else fds

-- `n` rounds from index `i`.
pub sweep : ℕ → ℕ → ℕ → List PollFd → List PollFd
unfolding sweep_at
sweep zero i last fds = fds
sweep (suc n) i last fds = sweep n (suc i) last (sweep_at i last (get_elem? fds i) fds)

peek_next : PollArray → ℕ × PollArray
unfolding sweep
peek_next a = if ltb a.count a.max_count then (a.count, a) else (
  a.last_in_index,
  record a { fds = sweep (a.max_count - a.last_in_index) a.last_in_index a.last_in_index a.fds },
)

-- `last_in_index` behind the index that was written.
abbrev pub advance : Bool → ℕ → ℕ → ℕ
advance ssl max_count last =
    let next = (last + 1) % max_count in if next == 0 || (ssl && next == 1) then next + 1 else next

-- The index that was written, and the array.
unfoldable pub add_poll_fd : Bool → ℕ → PollArray → Option (ℕ × PollArray)
unfolding put peek_next
add_poll_fd ssl fd a = do
  assert (in_range fd)
  let peeked = peek_next a
  assert (ltb peeked.0 a.max_count)
  let next = if peeked.0 == 0 then peeked.0 + 1 else peeked.0
  fds ← put next (watching fd) peeked.1.fds
  let more = ltb a.count a.max_count
  let count = if more then a.count + 1 else a.count
  let last = if more then a.last_in_index else advance ssl a.max_count a.last_in_index
  assert (leb count a.max_count)
  assert (ltb 1 count)
  assert (ltb last a.max_count)
  assert (ltb 0 last)
  some (next, record { fds = fds; max_count = a.max_count; count = count; last_in_index = last })

-- The loop that moves the later descriptors up by one, and what it leaves at its end.
close_gap : ℕ → List PollFd → List PollFd
close_gap n [] = []
close_gap zero (p ∷ ps) = unused ∷ ps
close_gap (suc n) (p ∷ []) = p ∷ []
close_gap (suc n) (p ∷ q ∷ ps) = q ∷ close_gap n (q ∷ ps)

drop_fd : ℕ → ℕ → List PollFd → List PollFd
unfolding close_gap
drop_fd i n [] = []
drop_fd zero n (p ∷ ps) = close_gap n (p ∷ ps)
drop_fd (suc i) n (p ∷ ps) = p ∷ drop_fd i n ps

-- What `remove_poll_fd_by_index_sync` leaves: the index for the caller's loop, the array, the
-- marks, and the descriptor that was closed.
pub record Removed : Type 0 where
  pub index : ℕ
  pub array : PollArray
  pub marks : Marks
  pub closed : ℕ

unfoldable pub remove_poll_fd : ℕ → PollArray → Marks → Option Removed
unfolding drop_fd unmark
remove_poll_fd i a marks = do
  assert (ltb 0 i)
  assert (ltb i a.max_count)
  assert (ltb i a.count)
  p ← get_elem? a.fds i
  marks' ← unmark p.fd marks
  let last = if ltb i a.last_in_index then a.last_in_index - 1 else a.last_in_index
  assert (ltb 0 (a.count - 1))
  assert (ltb 0 last)
  some (record {
    index = i - 1;
    array = record {
      fds = drop_fd i (a.count - 1 - i) a.fds;
      max_count = a.max_count;
      count = a.count - 1;
      last_in_index = last;
    };
    marks = marks';
    closed = p.fd;
  })

-- `fds` is NULL afterwards.
unfoldable pub destroy_poll_array : PollArray → PollArray
destroy_poll_array p = record p { fds = [] }
