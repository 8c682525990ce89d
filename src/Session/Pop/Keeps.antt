-- ===== src/Session/Pop/Keeps.antt =====
-- The session table of src/data_structures/session.c behind the two pops.
use wind_breaker.Prelude.{
  ℕ, ◌≡◌, refl, Bool, none, some, get_elem?, get_elem?-set_self, get_elem?-lt, Option, Option-cases,
  inl, inr, ltb, ◌&&◌,
}
use wind_breaker.Prelude.Fault.{assert, Ensures, Ensures-bind, Ensures-then, Ensures-if}
use wind_breaker.Session.Word.{WorkStatus}
use wind_breaker.Session.Table.{Slot, Sessions, store}
use wind_breaker.Session.Table.Invariant.{IsValid, store-IsValid}
use wind_breaker.Session.Pop.{
  stopped, pop_request, pop_request_by_fd, peek_next, wait_for, take_slot, fd_scan, is_busy,
}
use wind_breaker.Session.Pop.Exclusive.{held}

take_slot-ensures :
    (i : ℕ) (t : Sessions)
    → IsValid t
    → Ensures (λ r. IsValid r.1 × (get_elem? r.1.slots i ≡ some r.0)) (take_slot i t)
unfolding take_slot store
take_slot-ensures i t v = Ensures-then _ (get_elem? t.slots i) _ (λ s g. (
  store-IsValid i s (held s) t v g refl,
  get_elem?-set_self t.slots i (held s) (get_elem?-lt t.slots i g),
))

-- The table is valid after `pop_request`.
pub pop_request-ensures :
    (w : WorkStatus) (stop : Bool) (t : Sessions)
    → IsValid t
    → Ensures (λ r. IsValid r.1) (pop_request w stop t)
unfolding pop_request
pop_request-ensures w stop t v = elim (Option-cases (peek_next w t)) [
  | inl e ↦
      rw (e, pop_request)
        (Ensures-if (λ r. IsValid r.1) stop (some (stopped, t)) _ v
          (Ensures-then (λ r. IsValid r.1) (wait_for w) _ (λ p _. v)))
  | inr (i, e) ↦
      rw (e, pop_request)
        (Ensures-bind _ (λ r. IsValid r.1) (take_slot i t) _ (take_slot-ensures i t v) (λ r h. h.0))
]

-- The table is valid after `pop_request_by_fd`, and what it hands out stands in the table.
abbrev pub Handed : Option (ℕ × Slot) × Sessions → Type 0
Handed (none, t) = IsValid t
Handed (some (i, s), t) = IsValid t × (get_elem? t.slots i ≡ some s)

pub pop_request_by_fd-ensures :
    (fd : ℕ) (t : Sessions) → IsValid t → Ensures Handed (pop_request_by_fd fd t)
unfolding pop_request_by_fd
pop_request_by_fd-ensures fd t v = Ensures-then Handed (assert (ltb 0 fd && ltb fd 16384)) _ (λ _ _.
    elim (Option-cases (fd_scan t.count fd 0 t.slots)) [
      | inl e ↦ rw e v
      | inr (i, e) ↦ rw e (
          Ensures-then Handed (get_elem? t.slots i) _ (λ s _.
            Ensures-if Handed (is_busy s.status) (some (none, t)) _ v
              (Ensures-bind _ Handed (take_slot i t) _ (take_slot-ensures i t v) (λ r h. h))))
    ])
