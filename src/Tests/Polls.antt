-- ===== src/Tests/Polls.antt =====
-- The theorems on src/data_structures/poll_array.c at a full array with both listening sockets.
use mathlib.Core.Option.{some_inj}
use wind_breaker.Prelude.{
  ℕ, zero, suc, ◌+◌, ◌-◌, ◌≤◌, ◌<◌, ◌≡◌, refl, sym, ap, true, [], ◌∷◌, some, arith, get_elem?,
}
use wind_breaker.MarkedFds.{Marks, unmark}
use wind_breaker.PollArray.{
  PollFd, PollArray, Removed, pollin, watching, add_poll_fd, remove_poll_fd,
}
use wind_breaker.PollArray.Invariant.{IsValid}
use wind_breaker.PollArray.Add.{add_poll_fd-IsValid, tls_listener_lost}
use wind_breaker.PollArray.Remove.{remove_poll_fd-IsValid}

abbrev polls : PollArray
polls = record {
  fds = watching 3 ∷ watching 4 ∷ watching 8 ∷ [];
  max_count = 3;
  count = 3;
  last_in_index = 2;
}

polls_watch : (j : ℕ) (p : PollFd) → j < 3 → get_elem? polls.fds j ≡ some p → p.events ≡ pollin
polls_watch zero p h e = sym (ap PollFd.events (some_inj.0 e))
polls_watch (suc zero) p h e = sym (ap PollFd.events (some_inj.0 e))
polls_watch (suc (suc zero)) p h e = sym (ap PollFd.events (some_inj.0 e))
polls_watch (suc (suc (suc j))) p h e = absurd (omega arith)

polls-IsValid : IsValid polls
polls-IsValid = record {
  sized = refl;
  some_used = omega arith;
  within = omega arith;
  last_within = omega arith;
  last_behind = omega arith;
  watches = polls_watch;
}

abbrev no_marks : Marks
no_marks = 0 ∷ 0 ∷ 0 ∷ 0 ∷ 0 ∷ 0 ∷ 0 ∷ 0 ∷ 0 ∷ []

add_poll_fd-IsValid_example :
    (i : ℕ) × (a' : PollArray) × (add_poll_fd true 9 polls ≡ some (i, a'))
    × IsValid a'
    × (get_elem? a'.fds i ≡ some (watching 9))
    × (0 < i)
    × ((j : ℕ) → j < i → get_elem? a'.fds j ≡ get_elem? polls.fds j)
add_poll_fd-IsValid_example = add_poll_fd-IsValid true 9 polls refl polls-IsValid (omega arith)

tls_listener_lost_example :
    (a' : PollArray) × (b : PollArray) × (add_poll_fd true 9 polls ≡ some (polls.last_in_index, a'))
    × (get_elem? a'.fds 1 ≡ get_elem? polls.fds 1)
    × (add_poll_fd true 10 a' ≡ some (1, b))
    × (get_elem? b.fds 1 ≡ some (watching 10))
tls_listener_lost_example =
    tls_listener_lost 9 10 polls refl refl polls-IsValid (omega arith) refl refl

remove_poll_fd-IsValid_example :
    (r : Removed) × (remove_poll_fd 2 polls no_marks ≡ some r)
    × (r.closed ≡ 8)
    × (r.marks ≡ no_marks)
    × (r.index + 1 ≡ 2)
    × IsValid r.array
    × (r.array.count + 1 ≡ polls.count)
    × ((k : ℕ) → k < 2 → get_elem? r.array.fds k ≡ get_elem? polls.fds k)
    × ((k : ℕ)
        → 2 ≤ k
        → k < polls.count - 1
        → get_elem? r.array.fds k ≡ get_elem? polls.fds (suc k))
unfolding unmark
remove_poll_fd-IsValid_example =
    remove_poll_fd-IsValid 2 (watching 8) polls no_marks no_marks polls-IsValid (omega arith)
      (omega arith) refl refl
