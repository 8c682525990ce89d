-- ===== src/Session/Push.antt =====
-- `push_request` of src/data_structures/session.c, which runs under the mutex.
pub mod Lookup
pub mod Entry
pub mod Keeps
pub mod Transitions
pub mod Handover
use wind_breaker.Prelude.{
  ℕ, zero, suc, ◌+◌, Bool, true, false, ◌&&◌, ◌∷◌, Option, none, some, ltb, ◌==◌, if◌then◌else◌,
  get_elem?,
}
use wind_breaker.Prelude.Fault.{◌>>=◌, ◌>>◌, assert}
use wind_breaker.Prelude.Int.{ℤ, pos, negsuc}
use wind_breaker.MarkedFds.{mark}
use wind_breaker.Session.Word.{
  WorkStatus, initial, request_read, parsed, data_fetched, ready_to_send, send_failed, sent,
  processing, rejected, initial_ssl, raise, lower, has,
}
use wind_breaker.Session.Table.{
  Slot, Sessions, Oracle, Cond, request_read_cond, parsed_cond, data_fetched_cond,
  response_generated_cond, store, reset_request, add_to_session, del_from_session,
  init_session_connection,
}

unfoldable pub signal : Cond → Sessions → Sessions
signal c t = record t { signals = c ∷ t.signals }

-- The `switch` of `push_request`, at slot `i`, whose status has been changed to that of `s`.
unfoldable pub switch : WorkStatus → ℕ → ℕ → Slot → Sessions → Option Sessions
unfolding store signal raise lower reset_request del_from_session mark
switch initial_ssl fd i s t = some (store i (record s { status = raise initial s.status }) t)
switch initial fd i s t = some t
switch request_read fd i s t = some (signal request_read_cond t)
switch parsed fd i s t = some (signal parsed_cond t)
switch data_fetched fd i s t = some (signal data_fetched_cond t)
switch ready_to_send fd i s t = some (signal response_generated_cond t)
switch send_failed fd i s t = some (store i (record s { status = lower ready_to_send s.status }) t)
switch sent fd i s t = some (
    store i
      (reset_request (record s {
        status =
            lower request_read (lower parsed (lower data_fetched (lower ready_to_send s.status)));
      }))
      t)
switch processing fd i s t = some t
switch rejected fd i s t = do
  let t' = del_from_session i t
  marks ← mark fd t'.marks
  some (record t' { marks = marks })

-- The body of the loop of `push_request` at a slot of the descriptor.
unfoldable pub on_match : WorkStatus → ℕ → ℕ → Slot → Sessions → Option Sessions
unfolding switch
on_match w fd i s t = do
  assert (has processing s.status)
  let s' = record s { status = raise w (lower processing s.status) }
  switch w fd i s' (store i s' t)

visit : WorkStatus → ℕ → ℕ → Bool → Sessions → Option (Bool × Sessions)
unfolding on_match
visit w fd i found t = do
  s ← get_elem? t.slots i
  if s.related_fd == fd then (do t' ← on_match w fd i s t; some (true, t')) else some (found, t)

-- The loop of `push_request` from index `i`; `count` is read anew in each round.
push_rounds : ℕ → WorkStatus → ℕ → ℕ → Bool → Sessions → Option (Bool × Sessions)
push_rounds zero w fd i found t = some (found, t)
push_rounds (suc n) w fd i found t = elim (ltb i t.count) [
  | false ↦ some (found, t)
  | true ↦ elim (visit w fd i found t) [
    | none ↦ none
    | some (found', t') ↦ push_rounds n w fd (i + 1) found' t'
  ]
]

-- The `switch` over what `init_session_connection` returns: 1, -1, or anything else.
after_handshake : ℤ → ℕ → ℕ → Slot → Sessions → Option Sessions
unfolding store del_from_session mark
after_handshake (pos n) fd index s t =
    if n == 1
    then some (store index (record s { request = record s.request { is_ssl = true } }) t)
    else none
after_handshake (negsuc n) fd index s t =
    if n == 0
    then (do
      let t' = del_from_session index t
      marks ← mark fd t'.marks
      some (record t' { marks = marks }))
    else none

-- A TLS session begins with the handshake.
begin_ssl : Oracle → ℕ → ℕ × Sessions → Option Sessions
unfolding init_session_connection after_handshake
begin_ssl o fd (index, t) = do
  assert t.has_ssl
  s ← get_elem? t.slots index
  after_handshake (init_session_connection o) fd index s t

-- After the loop: a new connection gets a slot.
unfoldable pub enter : Oracle → WorkStatus → ℕ → Bool × Sessions → Option Sessions
unfolding begin_ssl add_to_session
enter o initial fd (false, t) = do r ← add_to_session o fd t; some r.1
enter o initial_ssl fd (false, t) = do r ← add_to_session o fd t; begin_ssl o fd r
enter o _ fd (_, t) = some t

unfoldable pub push_request : Oracle → WorkStatus → ℕ → Sessions → Option Sessions
unfolding push_rounds visit
push_request o w fd t = do
  assert (ltb 0 fd && ltb fd 16384)
  r ← push_rounds t.count w fd 0 false t
  enter o w fd r
