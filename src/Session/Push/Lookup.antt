-- ===== src/Session/Push/Lookup.antt =====
-- The loop of `push_request` in src/data_structures/session.c, in a valid table.
use mathlib.Core.Logic.{◌≢◌}
use mathlib.Core.Option.{some_inj}
use wind_breaker.Prelude.{
  ℕ, zero, suc, ◌+◌, ◌≤◌, ◌<◌, ◌≡◌, refl, sym, ◌∙◌, ap, true, false, Bool, Option, none, some,
  arith, length, get_elem?, get_elem?-set_self, get_elem?-lt, get_elem?_of_lt, dec_lt, ℕ_discrete,
  lt→ltb, le→ltb, ne→==, ==_iff, subst,
}
use wind_breaker.Prelude.Fault.{◌>>=◌, >>=-eq-some, assert, assert-eq-some}
use wind_breaker.MarkedFds.{Marks, mark}
use wind_breaker.Session.Word.{
  WorkStatus, initial, request_read, parsed, data_fetched, ready_to_send, send_failed, sent,
  processing, rejected, initial_ssl, has, raise, lower,
}
use wind_breaker.Session.Table.{Slot, Sessions, Oracle, Cond, store, del_from_session}
use wind_breaker.Session.Table.Invariant.{
  IsValid, Unused, fd_at, distinct-ne, store-IsValid, del_from_session-IsValid,
}
use wind_breaker.Session.Push.{push_request, push_rounds, visit, on_match, switch, signal, enter}

-- What acting on slot `i` leaves: a valid table with no slot of the descriptor from `i` on but
-- slot `i` itself.
record After (i fd : ℕ) (t' : Sessions) : Type 0 where
  valid : IsValid t'
  beyond : (j : ℕ) → suc i ≤ j → j < t'.count → fd_at t'.slots j ≢ some fd

kept-After :
    (i fd : ℕ) (s : Slot) (t : Sessions)
    → IsValid t
    → i < t.count
    → get_elem? t.slots i ≡ some s
    → s.related_fd ≡ fd
    → After i fd t
kept-After i fd s t v l g e = record {
  valid = v;
  beyond = λ j h c. distinct-ne i j fd t v (omega arith) l c (rw g (ap some e));
}

signal-IsValid : (c : Cond) (t : Sessions) → IsValid t → IsValid (signal c t)
unfolding signal
signal-IsValid c t v = record {
  sized = v.sized;
  within = v.within;
  round = v.round;
  distinct = v.distinct;
}

pub marks-IsValid : (m : Marks) (t : Sessions) → IsValid t → IsValid (record t { marks = m })
marks-IsValid m t v = record {
  sized = v.sized;
  within = v.within;
  round = v.round;
  distinct = v.distinct;
}

-- Storing at a live slot, with the descriptor kept.
store-After :
    (i fd : ℕ) (s s' : Slot) (t : Sessions)
    → IsValid t
    → i < t.count
    → get_elem? t.slots i ≡ some s
    → s.related_fd ≡ fd
    → s'.related_fd ≡ fd
    → After i fd (store i s' t)
unfolding store
store-After i fd s s' t v l g e e' =
    kept-After i fd s' (store i s' t) (store-IsValid i s s' t v g (e' ∙ sym e)) l
      (get_elem?-set_self t.slots i s' (get_elem?-lt t.slots i g)) e'

del-After :
    (i fd : ℕ) (s : Slot) (t : Sessions) (m : Marks)
    → IsValid t
    → i < t.count
    → get_elem? t.slots i ≡ some s
    → s.related_fd ≡ fd
    → After i fd (record (del_from_session i t) { marks = m })
del-After i fd s t m v l g e =
    let (v', unused) = del_from_session-IsValid i s t v l g in
    record {
      valid = marks-IsValid m (del_from_session i t) v';
      beyond = λ j h c f. unused j c (f ∙ ap some (sym e));
    }

switch-After :
    (w : WorkStatus) (i fd : ℕ) (s : Slot) (t t' : Sessions)
    → IsValid t
    → i < t.count
    → get_elem? t.slots i ≡ some s
    → s.related_fd ≡ fd
    → switch w fd i s t ≡ some t'
    → After i fd t'
unfolding switch
switch-After initial_ssl i fd s t t' v l g e h =
    subst (After i fd) (some_inj.0 h) (store-After i fd s _ t v l g e e)
switch-After initial i fd s t t' v l g e h =
    subst (After i fd) (some_inj.0 h) (kept-After i fd s t v l g e)
switch-After request_read i fd s t t' v l g e h =
    subst (After i fd) (some_inj.0 h) (kept-After i fd s (signal _ t) (signal-IsValid _ t v) l g e)
switch-After parsed i fd s t t' v l g e h =
    subst (After i fd) (some_inj.0 h) (kept-After i fd s (signal _ t) (signal-IsValid _ t v) l g e)
switch-After data_fetched i fd s t t' v l g e h =
    subst (After i fd) (some_inj.0 h) (kept-After i fd s (signal _ t) (signal-IsValid _ t v) l g e)
switch-After ready_to_send i fd s t t' v l g e h =
    subst (After i fd) (some_inj.0 h) (kept-After i fd s (signal _ t) (signal-IsValid _ t v) l g e)
switch-After send_failed i fd s t t' v l g e h =
    subst (After i fd) (some_inj.0 h) (store-After i fd s _ t v l g e e)
switch-After sent i fd s t t' v l g e h =
    subst (After i fd) (some_inj.0 h) (store-After i fd s _ t v l g e e)
switch-After processing i fd s t t' v l g e h =
    subst (After i fd) (some_inj.0 h) (kept-After i fd s t v l g e)
switch-After rejected i fd s t t' v l g e h =
    let (m, e', h') = >>=-eq-some (mark fd (del_from_session i t).marks) _ h in
    subst (After i fd) (some_inj.0 h') (del-After i fd s t m v l g e)

-- The slot as `on_match` hands it to the `switch`.
abbrev pub pushed : WorkStatus → Slot → Slot
pushed w s = record s { status = raise w (lower processing s.status) }

pub on_match-eq-switch :
    (w : WorkStatus) (i fd : ℕ) (s : Slot) (t : Sessions)
    → has processing s.status ≡ true
    → on_match w fd i s t ≡ switch w fd i (pushed w s) (store i (pushed w s) t)
unfolding on_match
on_match-eq-switch w i fd s t p = rw p

pub on_match-guard :
    (w : WorkStatus) (i fd : ℕ) (s : Slot) (t : Sessions) {t' : Sessions}
    → on_match w fd i s t ≡ some t'
    → has processing s.status ≡ true
unfolding on_match
on_match-guard w i fd s t h =
    assert-eq-some _ (>>=-eq-some (assert (has processing s.status)) _ h).1

on_match-After :
    (w : WorkStatus) (i fd : ℕ) (s : Slot) (t t' : Sessions)
    → IsValid t
    → i < t.count
    → get_elem? t.slots i ≡ some s
    → s.related_fd ≡ fd
    → on_match w fd i s t ≡ some t'
    → After i fd t'
unfolding store
on_match-After w i fd s t t' v l g e h =
    switch-After w i fd (pushed w s) (store i (pushed w s) t) t'
      (store-IsValid i s (pushed w s) t v g refl) l
      (get_elem?-set_self t.slots i (pushed w s) (get_elem?-lt t.slots i g)) e
      (sym (on_match-eq-switch w i fd s t (on_match-guard w i fd s t h)) ∙ h)

visit_miss :
    (w : WorkStatus) (i fd : ℕ) (found : Bool) (t : Sessions)
    → i < length t.slots
    → fd_at t.slots i ≢ some fd
    → visit w fd i found t ≡ some (found, t)
unfolding visit
visit_miss w i fd found t l ne =
    let (s, g) = get_elem?_of_lt t.slots i l in
    rw (g, visit) (rw (ne→== s.related_fd fd (λ e. ne (rw g (ap some e)))))

visit_hit :
    (w : WorkStatus) (i fd : ℕ) (found : Bool) (s : Slot) (t : Sessions)
    → get_elem? t.slots i ≡ some s
    → s.related_fd ≡ fd
    → visit w fd i found t ≡ (on_match w fd i s t >>= λ t'. some (true, t'))
unfolding visit
visit_hit w i fd found s t g e = rw (g, visit) (rw ((==_iff s.related_fd fd).1 e))

rounds_miss :
    (n : ℕ) (w : WorkStatus) (i fd : ℕ) (found : Bool) (t : Sessions)
    → t.count ≤ length t.slots
    → ((j : ℕ) → i ≤ j → j < t.count → fd_at t.slots j ≢ some fd)
    → push_rounds n w fd i found t ≡ some (found, t)
unfolding push_rounds
rounds_miss zero w i fd found t l none_left = refl
rounds_miss (suc n) w i fd found t l none_left = elim (dec_lt i t.count) [
  | no past ↦ rw (le→ltb t.count i (omega arith), push_rounds)
  | yes live ↦
      rw (lt→ltb i t.count live, push_rounds)
        (rw (visit_miss w i fd found t (omega arith) (none_left i (omega arith) live))
          (rounds_miss n w (i + 1) fd found t l (λ j h. none_left j (omega arith))))
]

rounds_hit :
    (n : ℕ) (w : WorkStatus) (i k fd : ℕ) (s : Slot) (t : Sessions)
    → IsValid t
    → k ≤ i
    → i < t.count
    → i < k + n
    → get_elem? t.slots i ≡ some s
    → s.related_fd ≡ fd
    → push_rounds n w fd k false t ≡ (on_match w fd i s t >>= λ t'. some (true, t'))
unfolding push_rounds
rounds_hit zero w i k fd s t v ki l r g e = absurd (omega arith)
rounds_hit (suc n) w i k fd s t v ki l r g e = elim (ℕ_discrete k i) [
  | no before ↦
      rw (lt→ltb k t.count (omega (arith, before)), push_rounds)
        (rw
          (visit_miss w k fd false t (omega (arith, v.sized, v.within)) (λ f.
            distinct-ne i k fd t v (λ q. before (sym q)) l (omega arith) (rw g (ap some e)) f))
          (rounds_hit n w i (k + 1) fd s t v (omega (arith, before)) l (omega arith) g e))
  | yes here ↦ rw here (
      rw (lt→ltb i t.count l, push_rounds)
        (rw (visit_hit w i fd false s t g e) (after_hit (on_match w fd i s t) refl)))
]
  where
    after_hit :
        (m : Option Sessions)
        → on_match w fd i s t ≡ m
        → elim (◌>>=◌ {B = Bool × Sessions} m (λ t'. some (true, t')))
            as (λ _. Option (Bool × Sessions)) [
              | none ↦ none
              | some (found', t') ↦ push_rounds n w fd (i + 1) found' t'
            ]
          ≡ (m >>= λ t'. some (true, t'))
    after_hit none q = refl
    after_hit (some t') q =
        let a = on_match-After w i fd s t t' v l g e q in
        rounds_miss n w (i + 1) fd true t' (omega (arith, a.valid.sized, a.valid.within))
          (λ j h c. a.beyond j (omega arith) c)

-- The table between two calls: the descriptor of a new connection has a slot at most once.
enter_found :
    (o : Oracle) (w : WorkStatus) (fd : ℕ) (t : Sessions) → enter o w fd (true, t) ≡ some t
unfolding enter
enter_found o initial fd t = refl
enter_found o _ fd t = refl

-- In a valid table, for a descriptor between 1 and 16383 that slot `i` has, `push_request` does
-- exactly what one round of its loop does at slot `i`: it goes on or stops the process as that
-- round does, and touches no other slot of the descriptor.
pub push_request-eq-on_match :
    (o : Oracle) (w : WorkStatus) (i fd : ℕ) (s : Slot) (t : Sessions)
    → IsValid t
    → 0 < fd
    → fd < 16384
    → i < t.count
    → get_elem? t.slots i ≡ some s
    → s.related_fd ≡ fd
    → push_request o w fd t ≡ on_match w fd i s t
unfolding push_request
push_request-eq-on_match o w i fd s t v low high l g e =
    rw (lt→ltb 0 fd low, lt→ltb fd 16384 high)
      (rw (rounds_hit t.count w i 0 fd s t v (omega arith) l (omega arith) g e)
        (finish (on_match w fd i s t)))
  where
    finish :
        (m : Option Sessions)
        → (◌>>=◌ {B = Bool × Sessions} m (λ t'. some (true, t')) >>= λ r. enter o w fd r) ≡ m
    finish none = refl
    finish (some t') = enter_found o w fd t'

-- For a descriptor that no live slot has, `push_request` goes straight to the entry of a new
-- connection.
pub push_request-eq-enter :
    (o : Oracle) (w : WorkStatus) (fd : ℕ) (t : Sessions)
    → IsValid t
    → 0 < fd
    → fd < 16384
    → Unused fd t
    → push_request o w fd t ≡ enter o w fd (false, t)
unfolding push_request
push_request-eq-enter o w fd t v low high unused =
    rw (lt→ltb 0 fd low, lt→ltb fd 16384 high)
      (rw (
        rounds_miss t.count w 0 fd false t (omega (arith, v.sized, v.within))
          (λ j _ c. unused j c)))

-- Acting on a live slot keeps the table valid.
pub on_match-IsValid :
    (w : WorkStatus) (i fd : ℕ) (s : Slot) (t t' : Sessions)
    → IsValid t
    → i < t.count
    → get_elem? t.slots i ≡ some s
    → s.related_fd ≡ fd
    → on_match w fd i s t ≡ some t'
    → IsValid t'
on_match-IsValid w i fd s t t' v l g e h = (on_match-After w i fd s t t' v l g e h).valid
