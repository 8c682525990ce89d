-- ===== src/Session/Pop.antt =====
-- `pop_request` and `pop_request_by_fd` of src/data_structures/session.c, which run under the mutex.
pub mod Scan
pub mod Exclusive
pub mod Keeps
pub mod Shutdown
pub mod Taken
use wind_breaker.Prelude.{
  ℕ, zero, suc, Bool, not, ◌&&◌, ◌||◌, List, [], ◌∷◌, Option, none, some, ltb, ◌==◌, if◌then◌else◌,
  get_elem?,
}
use wind_breaker.Prelude.Fault.{◌>>=◌, ◌>>◌, assert}
use wind_breaker.Session.Word.{
  Status, WorkStatus, request_read, parsed, data_fetched, ready_to_send, send_failed, processing,
  raise, has, is_next,
}
use wind_breaker.Session.Table.{
  Slot, Sessions, Cond, request_read_cond, parsed_cond, data_fetched_cond, response_generated_cond,
  store,
}

-- `peek_next`: the loop goes on after a hit, so the last one counts. `none` is -1.
peek_from : ℕ → WorkStatus → ℕ → Option ℕ → List Slot → Option ℕ
unfolding is_next
peek_from zero w i index xs = index
peek_from (suc n) w i index [] = index
peek_from (suc n) w i index (s ∷ xs) =
    peek_from n w (suc i) (if is_next w s.status then some i else index) xs

unfoldable pub peek_next : WorkStatus → Sessions → Option ℕ
unfolding peek_from
peek_next w t = peek_from t.count w 0 none t.slots

-- How a pass of `pop_request` through its loop ends: with a slot, with no slot because the server
-- stops, or in `pthread_cond_wait`, after which it runs again.
pub data Popped : Type 0 where
  got : ℕ → Slot → Popped
  stopped : Popped
  waits : Cond → Popped

wait_for : WorkStatus → Option Popped
wait_for request_read = some (waits request_read_cond)
wait_for parsed = some (waits parsed_cond)
wait_for data_fetched = some (waits data_fetched_cond)
wait_for ready_to_send = some (waits response_generated_cond)
wait_for _ = none

-- The slot is handed out as it stands in the table.
pub take_slot : ℕ → Sessions → Option (Slot × Sessions)
unfolding store raise
take_slot i t = do
  s ← get_elem? t.slots i
  let s' = record s { status = raise processing s.status }
  some (s', store i s' t)

unfoldable pub pop_request : WorkStatus → Bool → Sessions → Option (Popped × Sessions)
unfolding peek_next wait_for take_slot
pop_request w stop t = elim (peek_next w t) [
  | some i ↦ (do r ← take_slot i t; some (got i r.0, r.1))
  | none ↦ (if stop then some (stopped, t) else (do p ← wait_for w; some (p, t)))
]

fd_scan : ℕ → ℕ → ℕ → List Slot → Option ℕ
fd_scan zero fd i xs = none
fd_scan (suc n) fd i [] = none
fd_scan (suc n) fd i (s ∷ xs) = if s.related_fd == fd then some i else fd_scan n fd (suc i) xs

-- `process`: the session is in the hands of the workers.
unfoldable pub is_busy : Status → Bool
unfolding has
is_busy s =
    not (has send_failed s)
    && (has request_read s
        || has parsed s
        || has data_fetched s
        || has processing s
        || has ready_to_send s)

unfoldable pub pop_request_by_fd : ℕ → Sessions → Option (Option (ℕ × Slot) × Sessions)
unfolding fd_scan is_busy take_slot
pop_request_by_fd fd t = do
  assert (ltb 0 fd && ltb fd 16384)
  elim (fd_scan t.count fd 0 t.slots) [
    | none ↦ some (none, t)
    | some i ↦ (do
      s ← get_elem? t.slots i
      if is_busy s.status
          then some (none, t)
          else (do r ← take_slot i t; some (some (i, r.0), r.1)))
  ]
