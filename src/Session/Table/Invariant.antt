-- ===== src/Session/Table/Invariant.antt =====
-- The invariant of the session table, and the taking and giving back of a slot.
use wind_breaker.Prelude.{
  ℕ, suc, ◌+◌, ◌-◌, ◌≤◌, ◌<◌, ◌≡◌, ◌≢◌, sym, ◌∙◌, ap, List, Option, none, some, arith, ltb, length,
  get_elem?, set, length-set, get_elem?-set_self, get_elem?-set_ne, get_elem?-lt, dec_lt,
  ℕ_discrete, lt→ltb, le→ltb, ne→==, ==_iff, if◌then◌else◌, ◌==◌,
}
use wind_breaker.Session.Table.Rotate.{
  length-del_at, get-del_at_before, get-del_at_moved, get-del_at_last, get-del_at_after,
}
use wind_breaker.Session.Table.{Slot, Sessions, reset_session, store, del_from_session}

-- The descriptor of slot `i`.
abbrev pub fd_of : Option Slot → Option ℕ
fd_of none = none
fd_of (some s) = some s.related_fd

abbrev pub fd_at : List Slot → ℕ → Option ℕ
fd_at xs i = fd_of (get_elem? xs i)

-- No live slot has the descriptor.
abbrev pub Unused : ℕ → Sessions → Type 0
Unused fd t = (j : ℕ) → j < t.count → fd_at t.slots j ≢ some fd

-- The live slots are within the arrays, and no two of them have one descriptor.
pub record IsValid (t : Sessions) : Type 0 where
  pub sized : length t.slots ≡ t.max_size
  pub within : t.count ≤ t.max_size
  pub round : t.last_index < t.max_size
  pub distinct :
      (j k fd : ℕ) → j < k → k < t.count → fd_at t.slots j ≡ some fd → fd_at t.slots k ≢ some fd

-- At a live slot `del_from_session` takes it out of the live slots and moves the later ones up by
-- one; the slot itself is cleared and becomes the first free one; the free slots stay.
pub get-del_from_session :
    (i j : ℕ) (s : Slot) (t : Sessions)
    → IsValid t
    → i < t.count
    → get_elem? t.slots i ≡ some s
    → get_elem? (del_from_session i t).slots j ≡ (
        if ltb j i
        then get_elem? t.slots j
        else if ltb j (t.count - 1)
        then get_elem? t.slots (suc j)
        else if j == t.count - 1
        then some (reset_session s)
        else get_elem? t.slots j)
unfolding del_from_session
get-del_from_session i j s t v l g = elim (dec_lt j i) [
  | yes before ↦ rw (lt→ltb j i before) (get-del_at_before i n t.slots j before)
  | no p ↦ rw (le→ltb i j (omega arith)) (elim (dec_lt j (t.count - 1)) [
    | yes moved ↦
        rw (lt→ltb j (t.count - 1) moved)
          (get-del_at_moved i n t.slots j (omega arith) (omega arith) room)
    | no q ↦ rw (le→ltb (t.count - 1) j (omega arith)) (elim (ℕ_discrete j (t.count - 1)) [
      | yes e ↦
          rw ((==_iff j (t.count - 1)).1 e)
            (get-del_at_last i n j t.slots s (omega arith) (omega (arith, room)) g)
      | no ne ↦ rw (ne→== j (t.count - 1) ne) (get-del_at_after i n t.slots j (omega arith) room)
    ])
  ])
]
  where
    n : ℕ
    n = t.count - 1 - i

    room : i + (t.count - 1 - i) < length t.slots
    room = omega (arith, v.sized, v.within)

-- The slot from which slot `j` comes when slot `i` is deleted.
abbrev source : ℕ → ℕ → ℕ
source i j = if ltb j i then j else suc j

source_mono : (i j k : ℕ) → j < k → source i j < source i k
source_mono i j k h = ground arith

source-ne : (i j : ℕ) → source i j ≢ i
source-ne i j = ground arith

source-lt : (i j n : ℕ) → j < n - 1 → source i j < n
source-lt i j n h = ground arith

fd_at-del :
    (i j : ℕ) (s : Slot) (t : Sessions)
    → IsValid t
    → i < t.count
    → j < t.count - 1
    → get_elem? t.slots i ≡ some s
    → fd_at (del_from_session i t).slots j ≡ fd_at t.slots (source i j)
fd_at-del i j s t v l h g = elim (dec_lt j i) [
  | yes before ↦ rw (get-del_from_session i j s t v l g, lt→ltb j i before)
  | no p ↦
      rw (get-del_from_session i j s t v l g, le→ltb i j (omega arith), lt→ltb j (t.count - 1) h)
]

-- Two live slots with one descriptor are one slot.
pub distinct-ne :
    (j k fd : ℕ) (t : Sessions)
    → IsValid t
    → j ≢ k
    → j < t.count
    → k < t.count
    → fd_at t.slots j ≡ some fd
    → fd_at t.slots k ≢ some fd
distinct-ne j k fd t v ne hj hk e e' = elim (dec_lt j k) [
  | yes lt ↦ v.distinct j k fd lt hk e e'
  | no nlt ↦ v.distinct k j fd (omega (arith, ne)) hj e' e
]

-- Deleting a live slot keeps the table valid, and its descriptor is in no live slot afterwards.
pub del_from_session-IsValid :
    (i : ℕ) (s : Slot) (t : Sessions)
    → IsValid t
    → i < t.count
    → get_elem? t.slots i ≡ some s
    → IsValid (del_from_session i t) × Unused s.related_fd (del_from_session i t)
unfolding del_from_session
del_from_session-IsValid i s t v l g = (
  record {
    sized = length-del_at i (t.count - 1 - i) t.slots ∙ v.sized;
    within = omega (arith, v.within);
    round = ground (arith, v.round);
    distinct = λ j k fd jk kc e e'.
        v.distinct (source i j) (source i k) fd (source_mono i j k jk) (source-lt i k t.count kc)
          (sym (fd_at-del i j s t v l (omega arith) g) ∙ e) (sym (fd_at-del i k s t v l kc g) ∙ e');
  },
  λ j h e.
      distinct-ne (source i j) i s.related_fd t v (source-ne i j) (source-lt i j t.count h) l
        (sym (fd_at-del i j s t v l h g) ∙ e) (rw g),
)

-- Writing a slot whose descriptor stays keeps the table valid.
pub fd_at-set :
    (i j : ℕ) (s s' : Slot) (xs : List Slot)
    → get_elem? xs i ≡ some s
    → s'.related_fd ≡ s.related_fd
    → fd_at (set xs i s') j ≡ fd_at xs j
fd_at-set i j s s' xs g e = elim (ℕ_discrete i j) [
  | yes ij ↦ rw (← ij, get_elem?-set_self xs i s' (get_elem?-lt xs i g), g) (ap some e)
  | no ne ↦ rw (get_elem?-set_ne xs i j s' ne)
]

pub store-IsValid :
    (i : ℕ) (s s' : Slot) (t : Sessions)
    → IsValid t
    → get_elem? t.slots i ≡ some s
    → s'.related_fd ≡ s.related_fd
    → IsValid (store i s' t)
unfolding store
store-IsValid i s s' t v g e = record {
  sized = length-set t.slots i s' ∙ v.sized;
  within = v.within;
  round = v.round;
  distinct = λ j k fd jk kc p q.
      v.distinct j k fd jk kc (sym (fd_at-set i j s s' t.slots g e) ∙ p)
        (sym (fd_at-set i k s s' t.slots g e) ∙ q);
}
