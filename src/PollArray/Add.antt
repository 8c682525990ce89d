-- ===== src/PollArray/Add.antt =====
-- Adding a descriptor to the poll array.
use native.Mathlib.Nat.{mod_self}
use wind_breaker.Prelude.{
  ℕ, ◌+◌, ◌-◌, ◌≤◌, ◌<◌, ◌≡◌, refl, ◌∙◌, ap, subst, true, false, Bool, List, some, arith, get_elem?,
  set, length-set, get_elem?-set_self, get_elem?-set_ne, get_elem?_of_lt, dec_lt, lt→ltb, le→ltb,
  le→leb, ne→==,
}
use wind_breaker.PollArray.{
  PollFd, PollArray, in_range, watching, advance, peek_next, sweep, add_poll_fd,
}
use wind_breaker.PollArray.Invariant.{IsValid, Watching-set, sweep-Swept}

-- The array needs room behind the listening sockets.
abbrev pub least_size : Bool → ℕ
least_size true = 3
least_size false = 2

advance_bounds :
    (ssl : Bool) (max last : ℕ)
    → least_size ssl ≤ max
    → last < max
    → (advance ssl max last < max) × (0 < advance ssl max last)
advance_bounds true max last m l = ground arith
advance_bounds false max last m l = ground arith

least-gt : (ssl : Bool) → 1 < least_size ssl
least-gt true = omega arith
least-gt false = omega arith

peek_next-free : (a : PollArray) → a.count < a.max_count → peek_next a ≡ (a.count, a)
unfolding peek_next
peek_next-free a h = rw (lt→ltb a.count a.max_count h)

-- The entries of a full array after the sweep of `peek_next`.
abbrev pub swept : PollArray → List PollFd
swept a = sweep (a.max_count - a.last_in_index) a.last_in_index a.last_in_index a.fds

peek_next-full :
    (a : PollArray)
    → a.max_count ≤ a.count
    → peek_next a ≡ (a.last_in_index, record a { fds = swept a })
unfolding peek_next
peek_next-full a h = rw (le→ltb a.max_count a.count h)

-- The body of `add_poll_fd_sync` behind `peek_next`, when none of its assertions fails.
module _ (ssl : Bool) (fd : ℕ) (a : PollArray) (ok : in_range fd ≡ true) where
  add_free :
      IsValid a
      → a.count < a.max_count
      → add_poll_fd ssl fd a
        ≡ some (a.count, record a { fds = set a.fds a.count (watching fd); count = a.count + 1 })
  unfolding add_poll_fd
  add_free v h =
      let (p, g) = get_elem?_of_lt a.fds a.count (omega (arith, v.sized)) in
      rw (ok, peek_next-free a h)
        (rw (lt→ltb a.count a.max_count h, ne→== a.count 0 (omega (arith, v.some_used)))
          (rw g (
            rw (
              le→leb (a.count + 1) a.max_count (omega arith),
              lt→ltb 1 (a.count + 1) (omega (arith, v.some_used)),
              lt→ltb a.last_in_index a.max_count v.last_within,
              lt→ltb 0 a.last_in_index v.last_behind,
            ))))

  add_full :
      IsValid a
      → least_size ssl ≤ a.max_count
      → a.count ≡ a.max_count
      → add_poll_fd ssl fd a
        ≡ some (
          a.last_in_index,
          record a {
            fds = set (swept a) a.last_in_index (watching fd);
            last_in_index = advance ssl a.max_count a.last_in_index;
          },
        )
  unfolding add_poll_fd
  add_full v m h =
      let sw =
        sweep-Swept (a.max_count - a.last_in_index) a.last_in_index a.last_in_index a.fds
          (omega arith) in
      let (p, g) =
        get_elem?_of_lt (swept a) a.last_in_index
          (omega (arith, v.sized, v.last_within, sw.same_length)) in
      let (low, high) = advance_bounds ssl a.max_count a.last_in_index m v.last_within in
      rw (ok, peek_next-full a (omega arith))
        (rw
          (
            lt→ltb a.last_in_index a.max_count v.last_within,
            ne→== a.last_in_index 0 (omega (arith, v.last_behind)),
          )
          (rw g (
            rw (le→ltb a.max_count a.count (omega arith)) (
              rw (
                le→leb a.count a.max_count (omega arith),
                lt→ltb 1 a.count (omega (arith, least-gt ssl)),
                lt→ltb (advance ssl a.max_count a.last_in_index) a.max_count low,
                lt→ltb 0 (advance ssl a.max_count a.last_in_index) high,
              )))))

-- The array after a descriptor was added to a full one.
abbrev added_full : Bool → ℕ → PollArray → PollArray
added_full ssl fd a = record a {
  fds = set (swept a) a.last_in_index (watching fd);
  last_in_index = advance ssl a.max_count a.last_in_index;
}

added_full-IsValid :
    (ssl : Bool) (fd : ℕ) (a : PollArray)
    → IsValid a
    → least_size ssl ≤ a.max_count
    → a.count ≡ a.max_count
    → IsValid (added_full ssl fd a)
      × (get_elem? (added_full ssl fd a).fds a.last_in_index ≡ some (watching fd))
      × ((j : ℕ) → j < a.last_in_index → get_elem? (added_full ssl fd a).fds j ≡ get_elem? a.fds j)
added_full-IsValid ssl fd a v m full =
    let sw =
      sweep-Swept (a.max_count - a.last_in_index) a.last_in_index a.last_in_index a.fds
        (omega arith) in
    let (low, high) = advance_bounds ssl a.max_count a.last_in_index m v.last_within in
    (
      record {
        sized = length-set (swept a) a.last_in_index (watching fd) ∙ sw.same_length ∙ v.sized;
        some_used = v.some_used;
        within = v.within;
        last_within = low;
        last_behind = high;
        watches = Watching-set a.count a.last_in_index (watching fd) (swept a) refl (λ j q l ne g.
            sw.watching (λ k r k_lt. v.watches k r (omega (arith, v.sized))) j q
              (omega (arith, v.sized)) g);
      },
      get_elem?-set_self (swept a) a.last_in_index (watching fd)
          (omega (arith, v.sized, v.last_within, sw.same_length)),
      λ j h.
          get_elem?-set_ne (swept a) a.last_in_index j (watching fd) (λ e. omega arith)
          ∙ sw.same_before j h,
    )

-- `add_poll_fd_sync` on a valid array with room behind the listening sockets, and a descriptor in
-- range: no assertion fails, the new array is valid, and the descriptor is watched for POLLIN at the
-- index that is returned. A free array keeps all its entries before that index; a full one, all
-- before `last_in_index`.
pub add_poll_fd-IsValid :
    (ssl : Bool) (fd : ℕ) (a : PollArray)
    → in_range fd ≡ true
    → IsValid a
    → least_size ssl ≤ a.max_count
    → (i : ℕ) × (a' : PollArray) × (add_poll_fd ssl fd a ≡ some (i, a'))
      × IsValid a'
      × (get_elem? a'.fds i ≡ some (watching fd))
      × (0 < i)
      × ((j : ℕ) → j < i → get_elem? a'.fds j ≡ get_elem? a.fds j)
add_poll_fd-IsValid ssl fd a ok v m = elim (dec_lt a.count a.max_count) [
  | yes free ↦ (
    a.count,
    record a { fds = set a.fds a.count (watching fd); count = a.count + 1 },
    add_free ssl fd a ok v free,
    record {
      sized = length-set a.fds a.count (watching fd) ∙ v.sized;
      some_used = omega (arith, v.some_used);
      within = omega arith;
      last_within = v.last_within;
      last_behind = v.last_behind;
      watches =
          Watching-set (a.count + 1) a.count (watching fd) a.fds refl
            (λ j q l ne g. v.watches j q (omega (arith, ne)) g);
    },
    get_elem?-set_self a.fds a.count (watching fd) (omega (arith, v.sized)),
    v.some_used,
    λ j h. get_elem?-set_ne a.fds a.count j (watching fd) (λ e. omega arith),
  )
  | no used ↦
      let full : a.count ≡ a.max_count = omega (arith, v.within) in
      let (v', at, before) = added_full-IsValid ssl fd a v m full in
      (
        a.last_in_index,
        added_full ssl fd a,
        add_full ssl fd a ok v m full,
        v',
        at,
        v.last_behind,
        before,
      )
]

-- The bug at the wrap: with TLS, when the array is full and the last entry was written, the next
-- index is 1, the one of the listening TLS socket; the descriptor that is added after that replaces
-- that socket.
pub tls_listener_lost :
    (fd fd' : ℕ) (a : PollArray)
    → in_range fd ≡ true
    → in_range fd' ≡ true
    → IsValid a
    → 3 ≤ a.max_count
    → a.count ≡ a.max_count
    → a.last_in_index + 1 ≡ a.max_count
    → (a' : PollArray) × (b : PollArray) × (add_poll_fd true fd a ≡ some (a.last_in_index, a'))
      × (get_elem? a'.fds 1 ≡ get_elem? a.fds 1)
      × (add_poll_fd true fd' a' ≡ some (1, b))
      × (get_elem? b.fds 1 ≡ some (watching fd'))
tls_listener_lost fd fd' a ok ok' v m full wrap =
    let (v', at, before) = added_full-IsValid true fd a v m full in
    let (v'', at', before') = added_full-IsValid true fd' (added_full true fd a) v' m full in
    let one = advance_wraps a.max_count a.last_in_index m wrap in
    (
      added_full true fd a,
      added_full true fd' (added_full true fd a),
      add_full true fd a ok v m full,
      before 1 (omega arith),
      add_full true fd' (added_full true fd a) ok' v' m full
          ∙ ap (λ n. some (n, added_full true fd' (added_full true fd a))) one,
      subst
          (λ n. get_elem? (added_full true fd' (added_full true fd a)).fds n ≡ some (watching fd'))
          one at',
    )
  where
    advance_wraps : (max last : ℕ) → 3 ≤ max → last + 1 ≡ max → advance true max last ≡ 1
    advance_wraps max last m h = rw h (rw (mod_self max) refl)
