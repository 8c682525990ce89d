-- ===== src/Handlers/Stop.antt =====
-- How the loops of src/handlers/ end.
use wind_breaker.Prelude.{
  ℕ, ◌≡◌, refl, Bool, true, false, not, ◌&&◌, ◌∷◌, List, some, Option-cases, inl, inr,
}
use wind_breaker.Prelude.Fault.{◌>>=◌, Ensures, Ensures-bind, Ensures-then, >>=_congr_on}
use wind_breaker.Buffer.{Buffer}
use wind_breaker.Session.Word.{WorkStatus}
use wind_breaker.Session.Table.{Slot, Sessions, Oracle}
use wind_breaker.Session.Push.{push_request}
use wind_breaker.Session.Pop.{Popped, got, stopped, waits, pop_request, peek_next, take_slot}
use wind_breaker.Handlers.{
  Worker, World, Turn, Pass, source, body, objects, serve, after_pop, round, is_asleep, worker_loop,
}

abbrev IsAwake : Turn × (Buffer × Sessions) → Type 0
IsAwake r = is_asleep r.0 ≡ false

abbrev NoWait : Popped × Sessions → Type 0
NoWait (waits c, t) = ⊥
NoWait _ = Unit

pop_request-NoWait : (w : WorkStatus) (t : Sessions) → Ensures NoWait (pop_request w true t)
unfolding pop_request
pop_request-NoWait w t = elim (Option-cases (peek_next w t)) [
  | inl e ↦ rw (e, pop_request) tt
  | inr (i, e) ↦ rw (e, pop_request) (Ensures-then NoWait (take_slot i t) _ (λ r _. tt))
]

serve-IsAwake :
    (wd : World) (k : Worker) (o : Oracle) (thread : ℕ) (own : Buffer) (i : ℕ) (s : Slot)
    (t : Sessions)
    → Ensures IsAwake (serve wd k o thread own i s t)
unfolding serve
serve-IsAwake wd k o thread own i s t =
    Ensures-then IsAwake (body wd k own (objects s)) _
      (λ done _. Ensures-then IsAwake (push_request o done.0 s.related_fd _) _ (λ u _. refl))

after_pop-IsAwake :
    (wd : World) (k : Worker) (o : Oracle) (thread : ℕ) (own : Buffer) (p : Popped × Sessions)
    → NoWait p
    → Ensures IsAwake (after_pop wd k o thread own p)
after_pop-IsAwake wd k o thread own (got i s, t) h = serve-IsAwake wd k o thread own i s t
after_pop-IsAwake wd k o thread own (stopped, t) h = refl
after_pop-IsAwake wd k o thread own (waits c, t) h = absurd h

round-IsAwake :
    (wd : World) (k : Worker) (o : Oracle) (thread : ℕ) (own : Buffer) (t : Sessions)
    → Ensures IsAwake (round wd k true o thread own t)
unfolding round
round-IsAwake wd k o thread own t =
    Ensures-bind NoWait IsAwake (pop_request (source k) true t) _ (pop_request-NoWait (source k) t)
      (after_pop-IsAwake wd k o thread own)

-- Once the server stops, a worker's loop makes one more pass at most: with a worker that sleeps or
-- has passed the test at its head, and `stop()` true from then on, the loop does exactly what this
-- one round does to the worker's buffer and the table, then leaves at its head whatever would follow;
-- it never sleeps again. Only where the round itself stops the process does the loop not return.
pub worker_loop_leaves :
    (k : Worker) (thread : ℕ) (sleeping : Bool) (p q : Pass) (ps : List Pass) (own : Buffer)
    (t : Sessions)
    → (not sleeping && p.stopping) ≡ false
    → p.stop ≡ true
    → q.stopping ≡ true
    → worker_loop k thread sleeping (p ∷ q ∷ ps) own t
      ≡ (round p.world k true p.oracle thread own t >>= λ r. some (true, (r.1.0, p.others r.1.1)))
unfolding worker_loop
worker_loop_leaves k thread sleeping p q ps own t inside stops next = rw inside (
    rw stops (
      >>=_congr_on IsAwake (round p.world k true p.oracle thread own t) _ _
        (round-IsAwake p.world k p.oracle thread own t)
        (λ r awake. rw (awake, worker_loop) (rw next))))
