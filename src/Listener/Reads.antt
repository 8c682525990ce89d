-- ===== src/Listener/Reads.antt =====
-- From the socket to the parser: what the listener does with a request that arrives.

use wind_breaker.Prelude.{
  ℕ, ◌+◌, ◌<◌, ◌≡◌, refl, ◌∙◌, ap, true, false, List, [], ◌∷◌, ◌++◌, some, arith, length, get_elem?,
  set, lt→ltb, get_elem?-set_self, get_elem?-lt,
}
use wind_breaker.Prelude.Fault.{>>=_of_some}
use wind_breaker.Buffer.{Buffer}
use wind_breaker.Response.Print.Text.{Starts}
use wind_breaker.Session.Word.{request_read, raise, lower, has}
use wind_breaker.Session.Table.{Slot, Sessions, store, request_read_cond}
use wind_breaker.Session.Table.Invariant.{IsValid, store-IsValid}
use wind_breaker.Session.Push.{signal}
use wind_breaker.Session.Push.Transitions.{set-set}
use wind_breaker.Session.Push.Lookup.{pushed, push_request-eq-on_match}
use wind_breaker.Session.Push.Handover.{to_parser, on_match-Awaited}
use wind_breaker.Session.Pop.{is_busy}
use wind_breaker.Session.Pop.Exclusive.{held, by_fd_idle}
use wind_breaker.Socket.{recv_bio}
use wind_breaker.Socket.Receive.{gathered, Delivers, recv_bio_lem}
use wind_breaker.Listener.{Env, receive, push_result, handle_request_async}

-- What was received, in the slot that the listener holds.
abbrev filled : Slot → Buffer → Slot
filled s b = record (held s) { buffer = b }

receive_plain :
    (e : Env) (s : Slot) (n : ℕ) (b : Buffer)
    → s.request.is_ssl ≡ false
    → recv_bio e.fuel e.memory e.bio s.buffer ≡ some (n + 1, b)
    → receive e s ≡ some (some request_read, b)
unfolding receive
receive_plain e s n b plain got =
    rw plain (>>=_of_some _ got (rw (lt→ltb 0 (n + 1) (omega arith)) refl))

-- When memory is granted and data arrives on a plain connection of a valid table whose session is in
-- nobody's hands and waits for nothing but the client, and `n` calls of `BIO_read` store it before one
-- stores nothing, with fewer than 1024 bytes together with what the session's buffer holds, and at
-- least one, then `handle_request_async` does not fail and takes the session back to the table: its
-- buffer holds what was there, all that arrived and a closing zero, it is marked as read and held by
-- nobody, the workers that wait for a request are woken, and no other slot has changed.
pub handle_request_async_reads :
    (e : Env) (n i fd : ℕ) (arrives : ℕ → List ℕ) (before : List ℕ) (s : Slot) (t : Sessions)
    → IsValid t
    → 0 < fd
    → fd < 16384
    → i < t.count
    → get_elem? t.slots i ≡ some s
    → s.related_fd ≡ fd
    → is_busy s.status ≡ false
    → s.bio_fd ≡ some fd
    → s.request.is_ssl ≡ false
    → n < e.fuel
    → ((j : ℕ) → e.memory.grants j ≡ true)
    → Delivers e.bio arrives
    → ((j : ℕ) → j < n → 0 < length (arrives j))
    → arrives n ≡ []
    → Starts before s.buffer
    → s.buffer.count ≡ length before
    → 0 < length before + length (gathered n 0 arrives)
    → length before + length (gathered n 0 arrives) < 1024
    → (t' : Sessions) × (s' : Slot) × (handle_request_async e fd t ≡ some (true, t'))
      × (t'.slots ≡ set t.slots i s')
      × Starts ((before ++ gathered n 0 arrives) ++ (0 ∷ [])) s'.buffer
      × (s'.related_fd ≡ fd)
      × (s'.status ≡ record s.status { is_read = true; is_processing = false })
      × (t'.signals ≡ request_read_cond ∷ t.signals)
unfolding handle_request_async push_result store signal raise lower has
handle_request_async_reads e n i fd arrives before s t v low high live g same idle bio plain fueled
      granted delivers busy quiet starts counted some_bytes short =
    let (b, got, total, w) =
      recv_bio_lem n e.fuel arrives e.memory e.bio before s.buffer fueled granted delivers busy
        quiet starts counted some_bytes short in
    let r = filled s b in
    let taken = store i (held s) t in
    let t1 = store i r taken in
    let at : get_elem? taken.slots i ≡ some (held s) =
      get_elem?-set_self t.slots i (held s) (get_elem?-lt t.slots i g) in
    let at1 : get_elem? t1.slots i ≡ some r =
      get_elem?-set_self taken.slots i r (get_elem?-lt taken.slots i at) in
    let v1 : IsValid t1 =
      store-IsValid i (held s) r taken (store-IsValid i s (held s) t v g refl) at refl in
    (
      signal request_read_cond (store i (pushed request_read r) t1),
      pushed request_read r,
      >>=_of_some _
          (by_fd_idle fd i s t low high live g same idle
            (λ m h f. v.distinct m i fd h live f (rw g (ap some same))))
          (>>=_of_some _ bio (
            >>=_of_some _
              (receive_plain e (held s) (length before + length (gathered n 0 arrives)) b plain got)
              (>>=_of_some _
                (push_request-eq-on_match e.oracle request_read i fd r t1 v1 low high live at1 same
                  ∙ on_match-Awaited to_parser fd i r t1 refl)
                refl))),
      set-set (set t.slots i (held s)) i r (pushed request_read r)
          ∙ set-set t.slots i (held s) (pushed request_read r),
      w,
      same,
      refl,
      refl,
    )
