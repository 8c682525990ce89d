-- ===== src/Session/Pop/Taken.antt =====
-- What a pass of `pop_request` has done to the table.
use wind_breaker.Prelude.{ℕ, ◌<◌, ◌≡◌, refl, Bool, true, some, get_elem?, Option-cases, inl, inr}
use wind_breaker.Prelude.Fault.{◌>>=◌, Ensures, Ensures-if}
use wind_breaker.Session.Word.{WorkStatus, request_read, parsed, data_fetched, ready_to_send}
use wind_breaker.Session.Word.Laws.{awaits}
use wind_breaker.Session.Table.{Slot, Sessions, store}
use wind_breaker.Session.Pop.{Popped, got, stopped, waits, pop_request, peek_next, wait_for}
use wind_breaker.Session.Pop.Scan.{peek_next_sound}
use wind_breaker.Session.Pop.Exclusive.{held, pop_request-eq-got}

-- The slot that a session was taken from, as it stood in the table.
pub record Took (w : WorkStatus) (t : Sessions) (i : ℕ) (s' : Slot) (t' : Sessions) : Type 0 where
  pub slot : Slot
  pub at : get_elem? t.slots i ≡ some slot
  pub live : i < t.count
  pub awaited : awaits w slot.status ≡ true
  pub out : s' ≡ held slot
  pub left : t' ≡ store i (held slot) t

abbrev pub TookAny : WorkStatus → Sessions → Popped × Sessions → Type 0
TookAny w t (got i s', t') = Took w t i s' t'
TookAny w t (stopped, t') = t' ≡ t
TookAny w t (waits c, t') = t' ≡ t

wait_for-TookAny :
    (w w' : WorkStatus) (t : Sessions) → Ensures (TookAny w t) (wait_for w' >>= λ p. some (p, t))
unfolding wait_for
wait_for-TookAny w request_read t = refl
wait_for-TookAny w parsed t = refl
wait_for-TookAny w data_fetched t = refl
wait_for-TookAny w ready_to_send t = refl
wait_for-TookAny w _ t = tt

pub pop_request-TookAny :
    (w : WorkStatus) (stop : Bool) (t : Sessions) → Ensures (TookAny w t) (pop_request w stop t)
unfolding pop_request
pop_request-TookAny w stop t = elim (Option-cases (peek_next w t)) [
  | inl e ↦
      rw (e, pop_request)
        (Ensures-if (TookAny w t) stop (some (stopped, t)) _ refl (wait_for-TookAny w w t))
  | inr (i, e) ↦
      let (s, g, a, l) = peek_next_sound w t i e in
      rw (pop_request-eq-got w stop i s t e g)
        (record { slot = s; at = g; live = l; awaited = a; out = refl; left = refl })
]
