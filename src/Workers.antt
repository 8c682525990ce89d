-- ===== src/Workers.antt =====
-- src/worker.c: the threads of the four handlers. A thread is named by its handler and by the index of
-- the array that pthread_create was given for it; `none` in the array is an entry that no thread has
-- been stored in. What pthread_create and pthread_join answer are parameters. The result `none` is a failed assertion or an access outside of the array.
pub mod Threads
use wind_breaker.Prelude.{
  ℕ, zero, suc, ◌+◌, ◌-◌, ◌*◌, Bool, true, false, not, List, [], ◌∷◌, ◌++◌, Option, none, some,
  length, get_elem?, set, replicate, ltb, ◌==◌, if◌then◌else◌,
}
use wind_breaker.Prelude.Fault.{◌>>=◌, ◌>>◌, assert}
use wind_breaker.Prelude.Int.{ℤ, pos, negsuc}

-- The handler, and the index.
abbrev pub Thread : Type 0
Thread = ℕ × ℕ

abbrev pub handlers_size : ℕ
handlers_size = 4

-- `index != prev_index`.
unfoldable pub differs : ℕ → ℤ → Bool
differs index (negsuc n) = true
differs index (pos n) = not (index == n)

-- `workers[index]` is written by `pthread_create`.
unfoldable pub create_at : (ℕ → Bool) → ℕ → ℕ → List (Option Thread) → Option (List (Option Thread))
create_at creates handler index workers =
    if ltb index (length workers)
    then assert (creates index) >> some (set workers index (some (handler, index)))
    else none

-- The inner loop of `init_workers`, with `rounds` left and at `j`, and the outer one, at `i`.
unfoldable pub create_threads :
    (ℕ → Bool)
    → ℕ
    → ℕ
    → ℕ
    → (rounds : ℕ) → List (Option Thread) × ℤ
    → Option (List (Option Thread) × ℤ)
unfolding differs create_at
create_threads creates size i j zero s = some s
create_threads creates size i j (suc rounds) (workers, prev) = do
  let index = i * size + j
  assert (differs index prev)
  workers' ← create_at creates i index workers
  create_threads creates size i (j + 1) rounds (workers', pos index)

unfoldable pub create_all :
    (ℕ → Bool) → ℕ → ℕ → (rounds : ℕ) → List (Option Thread) × ℤ → Option (List (Option Thread) × ℤ)
create_all creates size i zero s = some s
create_all creates size i (suc rounds) s =
    create_threads creates size i 0 size s >>= create_all creates size (i + 1) rounds

-- `init_workers`; the first argument of the state is `workers`, `none` for NULL.
unfoldable pub init_workers :
    (ℕ → Bool) → ℕ → Option (List (Option Thread)) → Option (List (Option Thread))
init_workers creates size workers = do
  assert (ltb 0 size)
  assert (elim workers [ none ↦ true | some w ↦ false ])
  made ← create_all creates size 0 handlers_size (replicate (size * handlers_size) none, negsuc 0)
  some made.0

-- The thread at an index, if one is stored there and `pthread_join` succeeds.
unfoldable pub join_found : Bool → Option (Option Thread) → Option Thread
join_found done none = none
join_found done (some none) = none
join_found done (some (some thread)) = assert done >> some thread

unfoldable pub join_at : (ℕ → Bool) → ℕ → List (Option Thread) → Option Thread
unfolding join_found
join_at joins index workers = join_found (joins index) (get_elem? workers index)

-- The loops of `close_workers`, with the threads that they have joined.
unfoldable pub join_threads :
    (ℕ → Bool)
    → ℕ
    → ℕ
    → List (Option Thread)
    → ℕ
    → (rounds : ℕ) → List Thread × ℤ
    → Option (List Thread × ℤ)
unfolding differs join_at
join_threads joins size i workers j zero s = some s
join_threads joins size i workers j (suc rounds) (joined, prev) = do
  let index = i * size + j
  assert (differs index prev)
  thread ← join_at joins index workers
  join_threads joins size i workers (j + 1) rounds (joined ++ (thread ∷ []), pos index)

unfoldable pub join_all :
    (ℕ → Bool)
    → ℕ
    → List (Option Thread)
    → ℕ
    → (rounds : ℕ) → List Thread × ℤ
    → Option (List Thread × ℤ)
join_all joins size workers i zero s = some s
join_all joins size workers i (suc rounds) s =
    join_threads joins size i workers 0 size s >>= join_all joins size workers (i + 1) rounds

-- `close_workers` behind `broadcast_session`: the threads that it has waited for.
unfoldable pub close_workers : (ℕ → Bool) → ℕ → Option (List (Option Thread)) → Option (List Thread)
close_workers joins size none = none
close_workers joins size (some workers) = do
  joined ← join_all joins size workers 0 handlers_size ([], negsuc 0)
  some joined.0
