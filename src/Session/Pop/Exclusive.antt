-- ===== src/Session/Pop/Exclusive.antt =====
-- The slot that `pop_request` of src/data_structures/session.c hands out, right behind the pop.
use mathlib.Core.Bool.{false≢true}
use mathlib.Core.Option.{some_inj}
use native.Mathlib.Nat.{zero-add}
use wind_breaker.Prelude.{
  ℕ, zero, suc, ◌+◌, ◌<◌, ◌≡◌, ◌≢◌, refl, sym, ◌∙◌, ap, subst, true, false, Bool, List, [], ◌∷◌,
  none, some, arith, get_elem?, set, get_elem?-set_self, get_elem?-lt, ==_iff, ne→==, lt→ltb,
}
use wind_breaker.Session.Word.{WorkStatus, raise, processing}
use wind_breaker.Session.Word.Laws.{awaits}
use wind_breaker.Session.Table.{Slot, Sessions, store}
use wind_breaker.Session.Table.Invariant.{IsValid, fd_at, store-IsValid}
use wind_breaker.Session.Pop.{
  got, pop_request, pop_request_by_fd, peek_next, take_slot, is_busy, fd_scan,
}
use wind_breaker.Session.Pop.Scan.{peek_next_sound}

-- What a worker or the listener gets of slot `i`, and what stays in the table.
abbrev pub held : Slot → Slot
held s = record s { status = raise processing s.status }

pub take_slot-eq-some :
    (i : ℕ) (s : Slot) (t : Sessions)
    → get_elem? t.slots i ≡ some s
    → take_slot i t ≡ some (held s, store i (held s) t)
unfolding take_slot
take_slot-eq-some i s t g = rw g

pub pop_request-eq-got :
    (w : WorkStatus) (stop : Bool) (i : ℕ) (s : Slot) (t : Sessions)
    → peek_next w t ≡ some i
    → get_elem? t.slots i ≡ some s
    → pop_request w stop t ≡ some (got i (held s), store i (held s) t)
unfolding pop_request
pop_request-eq-got w stop i s t e g = rw (e, pop_request) (rw (take_slot-eq-some i s t g))

fd_scan_hit :
    (n fd k j : ℕ) (s : Slot) (xs : List Slot)
    → j < n
    → get_elem? xs j ≡ some s
    → s.related_fd ≡ fd
    → ((m : ℕ) → m < j → fd_at xs m ≢ some fd)
    → fd_scan n fd k xs ≡ some (k + j)
unfolding fd_scan
fd_scan_hit zero fd k j s xs l g e first = absurd (omega arith)
fd_scan_hit (suc n) fd k j s [] l g e first = cc
fd_scan_hit (suc n) fd k zero s (x ∷ xs) l g e first =
    let same : x ≡ s = cc in
    rw ((==_iff x.related_fd fd).1 (ap (λ (r : Slot). r.related_fd) same ∙ e))
      (ap some (omega arith))
fd_scan_hit (suc n) fd k (suc j) s (x ∷ xs) l g e first =
    rw (ne→== x.related_fd fd (λ q. first 0 (omega arith) (ap some q))) (
      fd_scan_hit n fd (suc k) j s xs (omega arith) g e (λ m h. first (suc m) (omega arith))
      ∙ ap some (omega arith))

pub by_fd_busy :
    (fd i : ℕ) (s : Slot) (t : Sessions)
    → 0 < fd
    → fd < 16384
    → i < t.count
    → get_elem? t.slots i ≡ some s
    → s.related_fd ≡ fd
    → is_busy s.status ≡ true
    → ((m : ℕ) → m < i → fd_at t.slots m ≢ some fd)
    → pop_request_by_fd fd t ≡ some (none, t)
unfolding pop_request_by_fd
by_fd_busy fd i s t low high l g e busy first =
    rw (lt→ltb 0 fd low, lt→ltb fd 16384 high)
      (rw (fd_scan_hit t.count fd 0 i s t.slots l g e first) (rw (zero-add i) (rw g (rw busy))))

pub by_fd_idle :
    (fd i : ℕ) (s : Slot) (t : Sessions)
    → 0 < fd
    → fd < 16384
    → i < t.count
    → get_elem? t.slots i ≡ some s
    → s.related_fd ≡ fd
    → is_busy s.status ≡ false
    → ((m : ℕ) → m < i → fd_at t.slots m ≢ some fd)
    → pop_request_by_fd fd t ≡ some (some (i, held s), store i (held s) t)
unfolding pop_request_by_fd
by_fd_idle fd i s t low high l g e idle first =
    rw (lt→ltb 0 fd low, lt→ltb fd 16384 high)
      (rw (fd_scan_hit t.count fd 0 i s t.slots l g e first)
        (rw (zero-add i) (rw g (rw idle refl))))

held_not_awaited : (w : WorkStatus) (s : Slot) → awaits w (held s).status ≡ false
unfolding raise
held_not_awaited w s = refl

awaited_busy :
    (w : WorkStatus) (s : Slot) → awaits w s.status ≡ true → is_busy (held s).status ≡ true
unfolding raise is_busy
awaited_busy w s a = ground arith

-- In a valid table, when `peek_next` finds slot `i` for some stage, `pop_request` returns that slot
-- with PROCESSING raised and leaves a valid table. In this table, directly behind the pop, nobody else
-- reaches the slot: whatever the stage, `peek_next` does not return it, and `pop_request_by_fd`
-- returns nothing for its descriptor.
pub pop_request_exclusive :
    (w w' : WorkStatus) (stop : Bool) (i : ℕ) (s : Slot) (t : Sessions)
    → IsValid t
    → peek_next w t ≡ some i
    → get_elem? t.slots i ≡ some s
    → 0 < s.related_fd
    → s.related_fd < 16384
    → (s' : Slot) × (t' : Sessions) × (pop_request w stop t ≡ some (got i s', t'))
      × (get_elem? t'.slots i ≡ some s')
      × (s'.related_fd ≡ s.related_fd)
      × (s'.status.is_processing ≡ true)
      × IsValid t'
      × (peek_next w' t' ≢ some i)
      × (pop_request_by_fd s.related_fd t' ≡ some (none, t'))
unfolding store raise
pop_request_exclusive w w' stop i s t v e g low high =
    let (r, g₁, a, l) = peek_next_sound w t i e in
    let same : r ≡ s = some_inj.0 (sym g₁ ∙ g) in
    let at : get_elem? (set t.slots i (held s)) i ≡ some (held s) =
      get_elem?-set_self t.slots i (held s) (get_elem?-lt t.slots i g) in
    let v' = store-IsValid i s (held s) t v g refl in
    (
      held s,
      store i (held s) t,
      pop_request-eq-got w stop i s t e g,
      at,
      refl,
      refl,
      v',
      λ h.
          let (r', g', a', l') = peek_next_sound w' (store i (held s) t) i h in
          let same' : r' ≡ held s = some_inj.0 (sym g' ∙ at) in
          false≢true
            (sym (held_not_awaited w' s) ∙ ap (λ (x : Slot). awaits w' x.status) (sym same') ∙ a'),
      by_fd (subst (λ x. awaits w x.status ≡ true) same a) l at v',
    )
  where
    by_fd :
        awaits w s.status ≡ true
        → i < t.count
        → get_elem? (set t.slots i (held s)) i ≡ some (held s)
        → IsValid (store i (held s) t)
        → pop_request_by_fd s.related_fd (store i (held s) t) ≡ some (none, store i (held s) t)
    by_fd a l at v' =
        by_fd_busy s.related_fd i (held s) (store i (held s) t) low high l at refl
          (awaited_busy w s a) (λ m h q. v'.distinct m i s.related_fd h l q (rw at))
