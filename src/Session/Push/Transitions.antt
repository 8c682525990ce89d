-- ===== src/Session/Push/Transitions.antt =====
-- What pushing does to the status of a session, and the way of a session through the stages.
use wind_breaker.Prelude.{
  ℕ, ◌≡◌, ◌≢◌, refl, ap, ◌++◌, true, false, some, set, List, [], ◌∷◌, zero, suc,
}
use wind_breaker.Session.Word.{
  Status, WorkStatus, initial, request_read, parsed, data_fetched, ready_to_send, send_failed, sent,
  processing, rejected, initial_ssl, has,
}
use wind_breaker.Buffer.{Buffer}
use wind_breaker.Static.{Request, zero_request}
use wind_breaker.Session.Table.{
  Cond, Slot, Sessions, store, reset_request, request_read_cond, parsed_cond, data_fetched_cond,
  response_generated_cond,
}
use wind_breaker.Session.Push.{on_match, signal}
use wind_breaker.Session.Push.Lookup.{pushed}

-- The status that a push of `w` is to leave of a held session, flag by flag.
abbrev pub next_status : WorkStatus → Status → Status
next_status initial s = record s { is_processing = false; is_initial = true }
next_status initial_ssl s = record s { is_processing = false; is_initial = true }
next_status request_read s = record s { is_processing = false; is_read = true }
next_status parsed s = record s { is_processing = false; is_parsed = true }
next_status data_fetched s = record s { is_processing = false; is_fetched = true }
next_status ready_to_send s = record s { is_processing = false; is_ready = true }
next_status send_failed s = record s { is_processing = false; is_failed = true; is_ready = false }
next_status sent s = record s {
  is_processing = false;
  is_sent = true;
  is_read = false;
  is_parsed = false;
  is_fetched = false;
  is_ready = false;
}
next_status processing s = record s { is_processing = true }
next_status rejected s = record s { is_processing = false }

pub set-set {ℓ} : {A : Type ℓ} (xs : List A) (i : ℕ) (v u : A) → set (set xs i v) i u ≡ set xs i u
set-set [] i v u = refl
set-set (x ∷ xs) zero v u = refl
set-set (x ∷ xs) (suc i) v u = ap (◌∷◌ x) (set-set xs i v u)

-- What a push of `w` is to leave of the objects: SENT gives the storage of the buffer back and clears
-- the request but for its protocol.
abbrev pub left_buffer : WorkStatus → Buffer → Buffer
left_buffer sent b = record { capacity = 0; count = 0; bytes = [] }
left_buffer _ b = b

abbrev pub left_request : WorkStatus → Request → Request
left_request sent q = record zero_request { is_ssl = q.is_ssl }
left_request _ q = q

-- The condition that a push of `w` broadcasts.
abbrev pub told : WorkStatus → List Cond
told request_read = request_read_cond ∷ []
told parsed = parsed_cond ∷ []
told data_fetched = data_fetched_cond ∷ []
told ready_to_send = response_generated_cond ∷ []
told _ = []

abbrev pub left_slot : WorkStatus → Slot → Slot
left_slot w s = record s {
  status = next_status w s.status;
  buffer = left_buffer w s.buffer;
  request = left_request w s.request;
}

-- A push other than a rejection for a held session never stops the process in its round, and the whole
-- table behind it is this: the slot of the session has the status of `next_status` and, but for SENT,
-- all else as before; SENT also gives the storage of its buffer back and clears its request but for the
-- protocol; a push for one of the four stages broadcasts the condition of that stage, and no other push
-- broadcasts anything; and all other slots, the counts and the marks are as before.
pub on_match-status :
    (w : WorkStatus) (i fd : ℕ) (s : Slot) (t : Sessions)
    → w ≢ rejected
    → has processing s.status ≡ true
    → on_match w fd i s t
      ≡ some (record t { slots = set t.slots i (left_slot w s); signals = told w ++ t.signals })
unfolding on_match store signal reset_request
on_match-status initial i fd s t ne p = rw p refl
on_match-status request_read i fd s t ne p = rw p refl
on_match-status parsed i fd s t ne p = rw p refl
on_match-status data_fetched i fd s t ne p = rw p refl
on_match-status ready_to_send i fd s t ne p = rw p refl
on_match-status processing i fd s t ne p = rw p refl
on_match-status initial_ssl i fd s t ne p = rw p (
    ap (λ xs. some (record t { slots = xs }))
      (set-set t.slots i (pushed initial_ssl s) (left_slot initial_ssl s)))
on_match-status send_failed i fd s t ne p = rw p (
    ap (λ xs. some (record t { slots = xs }))
      (set-set t.slots i (pushed send_failed s) (left_slot send_failed s)))
on_match-status sent i fd s t ne p = rw p (
    ap (λ xs. some (record t { slots = xs }))
      (set-set t.slots i (pushed sent s) (left_slot sent s)))
on_match-status rejected i fd s t ne p = absurd (ne refl)
