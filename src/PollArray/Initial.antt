-- ===== src/PollArray/Initial.antt =====
-- The poll array at the start of the server.
use mathlib.Core.Option.{some_inj}
use wind_breaker.Prelude.{
  ℕ, zero, suc, ◌<◌, ◌≡◌, refl, sym, ap, true, false, List, ◌∷◌, some, arith, get_elem?, replicate,
  length-replicate, ◌==◌,
}
use wind_breaker.PollArray.{
  PollFd, PollArray, in_range, unused, watching, init_poll_array, init_poll_array_ssl,
}
use wind_breaker.PollArray.Invariant.{IsValid, Watching}

watches_first : (fd : ℕ) (rest : List PollFd) → Watching 1 (watching fd ∷ rest)
watches_first fd rest zero p l g = sym (ap PollFd.events (some_inj.0 g))
watches_first fd rest (suc j) p l g = absurd (omega arith)

watches_two : (fd fd' : ℕ) (rest : List PollFd) → Watching 2 (watching fd ∷ watching fd' ∷ rest)
watches_two fd fd' rest zero p l g = sym (ap PollFd.events (some_inj.0 g))
watches_two fd fd' rest (suc zero) p l g = sym (ap PollFd.events (some_inj.0 g))
watches_two fd fd' rest (suc (suc j)) p l g = absurd (omega arith)

-- With room for two descriptors or more, `init_poll_array` does not fail: the array is valid, and the
-- listening socket is watched at index 0.
pub init_poll_array-IsValid :
    (max_count fd : ℕ)
    → in_range fd ≡ true
    → in_range max_count ≡ true
    → 1 < max_count
    → (a : PollArray) × (init_poll_array max_count fd ≡ some a)
      × IsValid a
      × (a.max_count ≡ max_count)
      × (get_elem? a.fds 0 ≡ some (watching fd))
unfolding init_poll_array
init_poll_array-IsValid zero fd ok ok' room = absurd (omega arith)
init_poll_array-IsValid (suc n) fd ok ok' room = (
  record {
    fds = watching fd ∷ replicate n unused;
    max_count = suc n;
    count = 1;
    last_in_index = 1;
  },
  rw (ok, ok') refl,
  record {
    sized = ap suc (length-replicate n unused);
    some_used = omega arith;
    within = omega arith;
    last_within = room;
    last_behind = omega arith;
    watches = watches_first fd (replicate n unused);
  },
  refl,
  refl,
)

-- With room for three descriptors or more, `init_poll_array_ssl` does not fail for two different
-- listening sockets: the array is valid, and they are watched at the indices 0 and 1.
pub init_poll_array_ssl-IsValid :
    (max_count fd fd' : ℕ)
    → in_range fd ≡ true
    → in_range fd' ≡ true
    → (fd == fd') ≡ false
    → in_range max_count ≡ true
    → 2 < max_count
    → (a : PollArray) × (init_poll_array_ssl max_count fd fd' ≡ some a)
      × IsValid a
      × (a.max_count ≡ max_count)
      × (get_elem? a.fds 0 ≡ some (watching fd))
      × (get_elem? a.fds 1 ≡ some (watching fd'))
unfolding init_poll_array_ssl
init_poll_array_ssl-IsValid zero fd fd' ok ok' ne size room = absurd (omega arith)
init_poll_array_ssl-IsValid (suc zero) fd fd' ok ok' ne size room = absurd (omega arith)
init_poll_array_ssl-IsValid (suc (suc n)) fd fd' ok ok' ne size room = (
  record {
    fds = watching fd ∷ watching fd' ∷ replicate n unused;
    max_count = suc (suc n);
    count = 2;
    last_in_index = 2;
  },
  rw (ok, ok', ne, size) refl,
  record {
    sized = ap (λ k. suc (suc k)) (length-replicate n unused);
    some_used = omega arith;
    within = omega arith;
    last_within = room;
    last_behind = omega arith;
    watches = watches_two fd fd' (replicate n unused);
  },
  refl,
  refl,
  refl,
)
