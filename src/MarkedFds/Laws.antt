-- ===== src/MarkedFds/Laws.antt =====
-- Marking and unmarking in src/data_structures/marked_fds.c.
use wind_breaker.Prelude.{
  ℕ, ◌+◌, ◌%◌, ◌^◌, ◌<◌, ◌≡◌, ◌≢◌, true, false, none, refl, some, arith, length, get_elem?,
  get_elem?-lt, get_elem?-set_self, length-set, set, sym, get_elem?-set_ne,
}
use wind_breaker.Prelude.Fault.{◌>>=◌}
use wind_breaker.MarkedFds.{Marks, destroy_marked_fds, mark, unmark, is_marked}

-- For a descriptor within the array whose counter has not reached INT_MAX - 1, `mark` succeeds and
-- the descriptor is then marked; `unmark` succeeds after it and takes the mark away; and no other
-- descriptor is seen differently after either.
pub is_marked-mark :
    (fd other : ℕ) (marks : Marks) {n : ℕ}
    → get_elem? marks fd ≡ some n
    → n + 1 < 2 ^ 31
    → other ≢ fd
    → (m u : Marks) × (mark fd marks ≡ some m)
      × (unmark fd m ≡ some u)
      × (is_marked fd m ≡ some true)
      × (is_marked fd u ≡ some false)
      × (is_marked other m ≡ is_marked other marks)
      × (is_marked other u ≡ is_marked other marks)
unfolding mark unmark is_marked
is_marked-mark fd other marks {n} e small d = (
  set marks fd ((n + 1) % 2 ^ 32),
  set (set marks fd ((n + 1) % 2 ^ 32)) fd 0,
  rw (e, ◌>>=◌),
  rw (at_fd marks ((n + 1) % 2 ^ 32) inside, ◌>>=◌),
  rw (at_fd marks ((n + 1) % 2 ^ 32) inside, ◌>>=◌) (ground arith),
  rw (at_fd (set marks fd ((n + 1) % 2 ^ 32)) 0 still, ◌>>=◌),
  rw (elsewhere marks ((n + 1) % 2 ^ 32)),
  rw (elsewhere (set marks fd ((n + 1) % 2 ^ 32)) 0, elsewhere marks ((n + 1) % 2 ^ 32)),
)
  where
    inside : fd < length marks
    inside = get_elem?-lt marks fd e

    still : fd < length (set marks fd ((n + 1) % 2 ^ 32))
    still = rw (length-set marks fd ((n + 1) % 2 ^ 32)) inside

    at_fd : (m : Marks) (v : ℕ) → fd < length m → get_elem? (set m fd v) fd ≡ some v
    at_fd m v h = get_elem?-set_self m fd v h

    elsewhere : (m : Marks) (v : ℕ) → get_elem? (set m fd v) other ≡ get_elem? m other
    elsewhere m v = get_elem?-set_ne m fd other v (λ h. d (sym h))

-- After the marks are destroyed every access is one outside of the array.
pub mark-destroy_marked_fds :
    (fd : ℕ) (marks : Marks)
    → (mark fd (destroy_marked_fds marks) ≡ none)
      × (unmark fd (destroy_marked_fds marks) ≡ none)
      × (is_marked fd (destroy_marked_fds marks) ≡ none)
unfolding mark unmark is_marked destroy_marked_fds
mark-destroy_marked_fds fd marks = (refl, refl, refl)
