-- ===== src/Session/Pop/Scan.antt =====
-- `peek_next` against a definition from the end of the list.

use wind_breaker.Prelude.{
  ℕ, zero, suc, ◌+◌, ◌≤◌, ◌<◌, ◌≡◌, refl, sym, ◌∙◌, ap, true, List, [], ◌∷◌, Option, none, some,
  arith, get_elem?, Option-cases, inl, inr, if◌then◌else◌,
}
use wind_breaker.Session.Word.{WorkStatus, is_next}
use wind_breaker.Session.Word.Laws.{awaits, is_next-awaits}
use wind_breaker.Session.Table.{Slot, Sessions}
use wind_breaker.Session.Pop.{peek_from, peek_next}

-- The last of the first `n` slots that is looked for.
last_next : ℕ → WorkStatus → List Slot → Option ℕ
last_next zero w xs = none
last_next (suc n) w [] = none
last_next (suc n) w (s ∷ xs) = elim (last_next n w xs) [
  | some k ↦ some (suc k)
  | none ↦ if is_next w s.status then some 0 else none
]

abbrev offset : ℕ → Option ℕ → Option ℕ → Option ℕ
offset i acc none = acc
offset i acc (some k) = some (i + k)

peek_from-eq-last_next :
    (n : ℕ) (w : WorkStatus) (i : ℕ) (acc : Option ℕ) (xs : List Slot)
    → peek_from n w i acc xs ≡ offset i acc (last_next n w xs)
unfolding peek_from last_next
peek_from-eq-last_next zero w i acc xs = refl
peek_from-eq-last_next (suc n) w i acc [] = refl
peek_from-eq-last_next (suc n) w i acc (s ∷ xs) =
    ground
      (arith, peek_from-eq-last_next n w (suc i) (if is_next w s.status then some i else acc) xs)

last_next_sound :
    (n : ℕ) (w : WorkStatus) (xs : List Slot) (k : ℕ)
    → last_next n w xs ≡ some k
    → (s : Slot) × (get_elem? xs k ≡ some s) × (is_next w s.status ≡ true) × (k < n)
unfolding last_next
last_next_sound zero w xs k h = cc
last_next_sound (suc n) w [] k h = cc
last_next_sound (suc n) w (s ∷ xs) k h = elim (Option-cases (last_next n w xs)) [
  | inl e ↦ let first : k ≡ 0 = ground (arith, e) in (s, rw first, ground (arith, e), omega arith)
  | inr (j, e) ↦
      let later : k ≡ suc j = ground (arith, e) in
      let (s', g, h', l) = last_next_sound n w xs j e in (s', rw later g, h', omega arith)
]

last_next_complete :
    (n : ℕ) (w : WorkStatus) (xs : List Slot) (j : ℕ) (s : Slot)
    → j < n
    → get_elem? xs j ≡ some s
    → is_next w s.status ≡ true
    → (k : ℕ) × (last_next n w xs ≡ some k) × (j ≤ k)
unfolding last_next
last_next_complete zero w xs j s l g h = absurd (omega arith)
last_next_complete (suc n) w [] j s l g h = cc
last_next_complete (suc n) w (x ∷ xs) zero s l g h = elim (Option-cases (last_next n w xs)) [
  | inl e ↦ let same : x ≡ s = cc in (0, rw (e, last_next) (rw same (rw h)), omega arith)
  | inr (k, e) ↦ (suc k, rw (e, last_next), omega arith)
]
last_next_complete (suc n) w (x ∷ xs) (suc j) s l g h =
    let (k, e, le) = last_next_complete n w xs j s (omega arith) g h in
    (suc k, rw (e, last_next), omega arith)

-- What `peek_next` returns is a live slot that awaits the stage.
pub peek_next_sound :
    (w : WorkStatus) (t : Sessions) (i : ℕ)
    → peek_next w t ≡ some i
    → (s : Slot) × (get_elem? t.slots i ≡ some s) × (awaits w s.status ≡ true) × (i < t.count)
unfolding peek_next
peek_next_sound w t i h =
    let (s, g, n, l) = last_next_sound t.count w t.slots i found in
    (s, g, sym (is_next-awaits w s.status) ∙ n, l)
  where
    found : last_next t.count w t.slots ≡ some i
    found = ground (arith, peek_from-eq-last_next t.count w 0 none t.slots)

-- As soon as some live slot awaits the stage, `peek_next` returns a slot; it is a live slot that
-- awaits the stage, and no slot behind it does: the one that was returned is never before the slot
-- that was given.
pub peek_next_lem :
    (w : WorkStatus) (t : Sessions) (j : ℕ) (s : Slot)
    → j < t.count
    → get_elem? t.slots j ≡ some s
    → awaits w s.status ≡ true
    → (i : ℕ) × (s' : Slot) × (peek_next w t ≡ some i)
      × (j ≤ i)
      × (i < t.count)
      × (get_elem? t.slots i ≡ some s')
      × (awaits w s'.status ≡ true)
unfolding peek_next
peek_next_lem w t j s l g h =
    let (i, e, le) = last_next_complete t.count w t.slots j s l g (is_next-awaits w s.status ∙ h) in
    let (s', g', n, l') = last_next_sound t.count w t.slots i e in
    (
      i,
      s',
      peek_from-eq-last_next t.count w 0 none t.slots ∙ rw e (ap some (omega arith)),
      le,
      l',
      g',
      sym (is_next-awaits w s'.status) ∙ n,
    )
