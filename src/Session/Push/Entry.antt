-- ===== src/Session/Push/Entry.antt =====
-- A new connection takes a slot: which one, and what that does to the session that had it.
use mathlib.Core.Option.{some_inj}
use wind_breaker.Prelude.{
  false, ℕ, ◌+◌, ◌%◌, ◌<◌, ◌≡◌, ◌≢◌, refl, sym, ◌∙◌, ap, subst, none, some, arith, ltb, length,
  get_elem?, set, length-set, get_elem?-set_self, get_elem?-set_ne, get_elem?_of_lt, ℕ_discrete,
  lt→ltb, le→ltb, ltb→lt, ltb→le, Bool-cases, inl, inr, if◌then◌else◌,
}
use wind_breaker.Session.Word.{WorkStatus, initial, has, mask}
use wind_breaker.Session.Table.{Slot, Sessions, Oracle, store, reset_session, add_to_session}
use wind_breaker.Session.Table.Invariant.{IsValid, Unused, fd_at, fd_of}
use wind_breaker.Session.Push.{push_request, on_match, enter}
use wind_breaker.Session.Push.Lookup.{push_request-eq-on_match, push_request-eq-enter}

-- The slot that the next connection gets: a free one, or else the one at `session_last_index`.
abbrev pub next_index : Sessions → ℕ
next_index t = if ltb t.count t.max_size then t.count else t.last_index

-- That slot for the new connection.
abbrev pub taken : Oracle → ℕ → Slot → Slot
taken o fd s = record (reset_session s) {
  id = o.rand;
  related_fd = fd;
  status = mask initial (reset_session s).status;
  bio_fd = some fd;
}

abbrev pub added : Oracle → ℕ → Slot → Sessions → Sessions
added o fd s t =
    if ltb t.count t.max_size
    then record (store (next_index t) (taken o fd s) t) { count = t.count + 1 }
    else record (store (next_index t) (taken o fd s) t) {
      last_index = (t.last_index + 1) % t.max_size;
    }

next_index-lt : (t : Sessions) → IsValid t → next_index t < t.max_size
next_index-lt t v = ground (arith, v.within, v.round)

pub add_to_session-eq-some :
    (o : Oracle) (fd : ℕ) (t : Sessions)
    → IsValid t
    → (s : Slot) × (get_elem? t.slots (next_index t) ≡ some s)
      × (add_to_session o fd t ≡ some (next_index t, added o fd s t))
unfolding add_to_session
add_to_session-eq-some o fd t v =
    let low = next_index-lt t v in
    let (s, g) = get_elem?_of_lt t.slots (next_index t) (omega (arith, v.sized)) in
    (s, g, rw (lt→ltb (next_index t) t.max_size low) (rw g))

-- A slot for a new descriptor leaves the descriptors distinct.
replaced_distinct :
    (i c fd : ℕ) (s : Slot) (t : Sessions)
    → IsValid t
    → Unused fd t
    → i < length t.slots
    → s.related_fd ≡ fd
    → ((j : ℕ) → j < c → j ≢ i → j < t.count)
    → (j k f : ℕ) → j < k
    → k < c
    → fd_at (set t.slots i s) j ≡ some f
    → fd_at (set t.slots i s) k ≢ some f
replaced_distinct i c fd s t v unused l e live j k f jk kc p q = elim (ℕ_discrete j i) [
  | yes ji ↦
      unused k (live k kc (omega arith)) (sym (other k (omega arith)) ∙ q ∙ ap some (here j ji p))
  | no jn ↦ elim (ℕ_discrete k i) [
    | yes ki ↦ unused j (live j (omega arith) jn) (sym (other j jn) ∙ p ∙ ap some (here k ki q))
    | no kn ↦ v.distinct j k f jk (live k kc kn) (sym (other j jn) ∙ p) (sym (other k kn) ∙ q)
  ]
]
  where
    other : (m : ℕ) → m ≢ i → fd_at (set t.slots i s) m ≡ fd_at t.slots m
    other m ne = rw (get_elem?-set_ne t.slots i m s (λ h. ne (sym h)))

    here : (m : ℕ) → m ≡ i → fd_at (set t.slots i s) m ≡ some f → f ≡ fd
    here m mi h =
        some_inj.0 (
          sym (subst (λ x. fd_at (set t.slots i s) x ≡ some f) mi h)
          ∙ ap fd_of (get_elem?-set_self t.slots i s l))
        ∙ e

-- The taken slot is live, and the table stays valid.
pub added-IsValid :
    (o : Oracle) (fd : ℕ) (s : Slot) (t : Sessions)
    → IsValid t
    → Unused fd t
    → get_elem? t.slots (next_index t) ≡ some s
    → IsValid (added o fd s t)
      × (next_index t < (added o fd s t).count)
      × (get_elem? (added o fd s t).slots (next_index t) ≡ some (taken o fd s))
unfolding store
added-IsValid o fd s t v unused g = elim (Bool-cases (ltb t.count t.max_size)) [
  | inl free ↦ rw free (
    record {
      sized = length-set t.slots t.count (taken o fd s) ∙ v.sized;
      within = omega (arith, ltb→lt t.count t.max_size free);
      round = v.round;
      distinct =
          replaced_distinct t.count (t.count + 1) fd (taken o fd s) t v unused
            (omega (arith, v.sized, ltb→lt t.count t.max_size free)) refl (λ j h ne. omega arith);
    },
    omega arith,
    get_elem?-set_self t.slots t.count (taken o fd s)
        (omega (arith, v.sized, ltb→lt t.count t.max_size free)),
  )
  | inr full ↦ rw full (
    record {
      sized = length-set t.slots t.last_index (taken o fd s) ∙ v.sized;
      within = v.within;
      round = omega (arith, v.round);
      distinct =
          replaced_distinct t.last_index t.count fd (taken o fd s) t v unused
            (omega (arith, v.sized, v.round)) refl (λ j h ne. h);
    },
    omega (arith, v.round, ltb→le t.count t.max_size full),
    get_elem?-set_self t.slots t.last_index (taken o fd s) (omega (arith, v.sized, v.round)),
  )
]

-- A slot that was just taken is not held, so pushing for it stops the process.
taken-on_match :
    (o : Oracle) (w : WorkStatus) (i fd k : ℕ) (s : Slot) (t : Sessions)
    → on_match w fd i (taken o k s) t ≡ none
unfolding on_match has mask reset_session
taken-on_match o w i fd k s t = refl

full-next_index : (t : Sessions) → t.count ≡ t.max_size → next_index t ≡ t.last_index
full-next_index t e = rw (le→ltb t.max_size t.count (omega arith))

-- When the table is valid and full, a new connection takes the slot at `session_last_index`,
-- whatever its status, also that of a session that a worker holds. The slot keeps its cell, now has the
-- new descriptor, and is no longer marked as held; and whatever is then pushed for the new descriptor
-- before the new connection is popped, the assertion in `push_request` stops the process.
pub full_table_aborts :
    (o o' : Oracle) (w : WorkStatus) (fd : ℕ) (s : Slot) (t : Sessions)
    → IsValid t
    → Unused fd t
    → 0 < fd
    → fd < 16384
    → t.count ≡ t.max_size
    → get_elem? t.slots t.last_index ≡ some s
    → (t' : Sessions) × (s' : Slot) × (push_request o initial fd t ≡ some t')
      × (get_elem? t'.slots t.last_index ≡ some s')
      × (s'.cell ≡ s.cell)
      × (s'.related_fd ≡ fd)
      × (s'.status.is_processing ≡ false)
      × (push_request o' w fd t' ≡ none)
unfolding enter reset_session mask has
full_table_aborts o o' w fd s t v unused low high full g =
    let (s₁, g₁, e) = add_to_session-eq-some o fd t v in
    let (v', live, at) = added-IsValid o fd s₁ t v unused g₁ in
    let last = full-next_index t full in
    (
      added o fd s₁ t,
      taken o fd s₁,
      push_request-eq-enter o initial fd t v low high unused ∙ rw e,
      subst (λ i. get_elem? (added o fd s₁ t).slots i ≡ some (taken o fd s₁)) last at,
      ap (λ (r : Slot). r.cell) (some_inj.0 (sym g₁ ∙ ap (get_elem? t.slots) last ∙ g)),
      refl,
      refl,
      push_request-eq-on_match o' w (next_index t) fd (taken o fd s₁) (added o fd s₁ t) v' low high
            live at refl
          ∙ taken-on_match o w (next_index t) fd fd s₁ (added o fd s₁ t),
    )
