-- ===== src/Handlers/Written.antt =====
-- The table between the last write of a worker and its push.
use wind_breaker.Prelude.{ℕ, zero, suc, ◌<◌, ◌≡◌, refl, List, [], ◌∷◌, some, get_elem?, ==_iff}
use mathlib.Core.Option.{some_inj}
use wind_breaker.Session.Word.{WorkStatus}
use wind_breaker.Session.Table.{Slot, Sessions, Oracle}
use wind_breaker.Session.Table.Invariant.{IsValid}
use wind_breaker.Session.Push.{push_request, on_match}
use wind_breaker.Session.Push.Lookup.{push_request-eq-on_match}
use wind_breaker.System.{fill}
use wind_breaker.System.Reachable.{fill-IsValid}
use wind_breaker.Handlers.{Objects, objects, write_objects}

abbrev pub with_objects : ℕ → Objects → Slot → Slot
with_objects thread x s = record s {
  thread_id = thread;
  buffer = x.buffer;
  request = x.request;
  response = x.response;
}

get-fill :
    (thread : ℕ) (x : Objects) (xs : List Slot) (i : ℕ) (s : Slot)
    → get_elem? xs i ≡ some s
    → get_elem? (fill s.cell thread x.buffer x.request x.response xs) i
      ≡ some (with_objects thread x s)
unfolding fill
get-fill thread x [] i s g = cc
get-fill thread x (r ∷ xs) zero s g =
    let same : r ≡ s = some_inj.0 g in rw same (rw ((==_iff s.cell s.cell).1 refl))
get-fill thread x (r ∷ xs) (suc i) s g = get-fill thread x xs i s g

-- What the worker leaves of a session that it found as `s`.
abbrev pub written : ℕ → Objects → Slot → Sessions → Sessions
written thread x s t = write_objects s.cell 0 x (write_objects s.cell thread (objects s) t)

pub get-written :
    (thread : ℕ) (x : Objects) (i : ℕ) (s : Slot) (t : Sessions)
    → get_elem? t.slots i ≡ some s
    → get_elem? (written thread x s t).slots i ≡ some (with_objects 0 x s)
unfolding write_objects
get-written thread x i s t g =
    get-fill 0 x _ i (with_objects thread (objects s) s) (get-fill thread (objects s) t.slots i s g)

pub written-IsValid :
    (thread : ℕ) (x : Objects) (s : Slot) (t : Sessions)
    → IsValid t
    → IsValid (written thread x s t)
unfolding write_objects
written-IsValid thread x s t v =
    fill-IsValid s.cell 0 x.buffer x.request x.response (write_objects s.cell thread (objects s) t)
      (fill-IsValid s.cell thread s.buffer s.request s.response t v)

-- The push acts on the slot that the session was taken from.
pub push-written :
    (o : Oracle) (w : WorkStatus) (thread : ℕ) (x : Objects) (i : ℕ) (s : Slot) (t : Sessions)
    → IsValid t
    → 0 < s.related_fd
    → s.related_fd < 16384
    → i < t.count
    → get_elem? t.slots i ≡ some s
    → push_request o w s.related_fd (written thread x s t)
      ≡ on_match w s.related_fd i (with_objects 0 x s) (written thread x s t)
unfolding write_objects
push-written o w thread x i s t v low high live g =
    push_request-eq-on_match o w i s.related_fd (with_objects 0 x s) (written thread x s t)
      (written-IsValid thread x s t v) low high live (get-written thread x i s t g) refl
