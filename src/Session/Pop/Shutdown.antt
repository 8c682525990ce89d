-- ===== src/Session/Pop/Shutdown.antt =====
-- The end of the workers: the flag of src/shutdown/stop.c and `broadcast_session`.
use wind_breaker.Prelude.{
  ℕ, ◌<◌, ◌≡◌, ◌≢◌, refl, Bool, true, false, List, [], ◌∷◌, ◌++◌, none, some, length, arith, inl,
  inr, Option-cases,
}
use wind_breaker.Prelude.Text.{codes, contains}
use wind_breaker.Shutdown.{stop_server}
use wind_breaker.Session.Word.{WorkStatus}
use wind_breaker.Session.Table.{
  Sessions, Cond, broadcast_session, store, request_read_cond, parsed_cond, data_fetched_cond,
  response_generated_cond,
}
use wind_breaker.Session.Pop.{Popped, waits, stopped, got, peek_next, pop_request}
use wind_breaker.Session.Pop.Scan.{peek_next_sound}
use wind_breaker.Session.Pop.Exclusive.{held, pop_request-eq-got}

-- The condition is among the four that were broadcast last.
abbrev pub Woken : Cond → Sessions → Type 0
Woken c t =
    (later : List Cond) × (earlier : List Cond) × (t.signals ≡ later ++ (c ∷ earlier))
    × (length later < 4)

broadcast_session-Woken : (c : Cond) (t : Sessions) → Woken c (broadcast_session t)
unfolding broadcast_session
broadcast_session-Woken response_generated_cond t = ([], _, refl, omega arith)
broadcast_session-Woken data_fetched_cond t = (response_generated_cond ∷ [], _, refl, omega arith)
broadcast_session-Woken parsed_cond t =
    (response_generated_cond ∷ data_fetched_cond ∷ [], _, refl, omega arith)
broadcast_session-Woken request_read_cond t =
    (response_generated_cond ∷ data_fetched_cond ∷ parsed_cond ∷ [], _, refl, omega arith)

-- A pass of `pop_request` that does not end in a wait.
abbrev pub Returns : WorkStatus → Bool → Sessions → Type 0
Returns w stop t =
    (p : Popped) × (t' : Sessions) × (pop_request w stop t ≡ some (p, t'))
    × ((c : Cond) → p ≢ waits c)

pop_request_stopped :
    (w : WorkStatus) (t : Sessions)
    → peek_next w t ≡ none
    → pop_request w true t ≡ some (stopped, t)
unfolding pop_request
pop_request_stopped w t e = rw (e, pop_request) refl

pop_request-Returns : (w : WorkStatus) (t : Sessions) → Returns w true t
pop_request-Returns w t = elim (Option-cases (peek_next w t)) [
  | inl idle ↦ (stopped, t, pop_request_stopped w t idle, λ c e. cc)
  | inr (i, found) ↦
      let (s, g, awaited, live) = peek_next_sound w t i found in
      (got i (held s), store i (held s) t, pop_request-eq-got w true i s t found g, λ c e. cc)
]

-- When main.c sets the stop flag and `broadcast_session` is called after that, whatever condition a
-- worker waits for is broadcast, and the next pass of a worker of any stage through `pop_request` ends
-- with a session or with nothing, and not in another wait.
pub broadcast_session_ends_waits :
    (file : List ℕ) (w : WorkStatus) (c : Cond) (t : Sessions)
    → contains (codes "main.c") file ≡ true
    → Woken c (broadcast_session t) × Returns w (stop_server file false) (broadcast_session t)
unfolding stop_server
broadcast_session_ends_waits file w c t named =
    (broadcast_session-Woken c t, rw named (pop_request-Returns w (broadcast_session t)))
