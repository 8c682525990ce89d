-- ===== src/PollArray/Remove.antt =====
-- Removing a descriptor from the poll array.

use wind_breaker.Prelude.{
  ℕ, zero, suc, ◌+◌, ◌-◌, ◌≤◌, ◌<◌, ◌≡◌, refl, sym, ◌∙◌, ap, List, [], ◌∷◌, some, arith, length,
  get_elem?, ltb, dec_lt, lt→ltb, if◌then◌else◌,
}
use wind_breaker.MarkedFds.{Marks, unmark}
use wind_breaker.PollArray.{PollFd, PollArray, Removed, drop_fd, close_gap, remove_poll_fd}
use wind_breaker.PollArray.Invariant.{IsValid}

length-close_gap : (n : ℕ) (ps : List PollFd) → length (close_gap n ps) ≡ length ps
unfolding close_gap
length-close_gap n [] = refl
length-close_gap zero (p ∷ ps) = refl
length-close_gap (suc n) (p ∷ []) = refl
length-close_gap (suc n) (p ∷ q ∷ ps) = ap suc (length-close_gap n (q ∷ ps))

get-close_gap :
    (n : ℕ) (ps : List PollFd) (j : ℕ)
    → n < length ps
    → j < n
    → get_elem? (close_gap n ps) j ≡ get_elem? ps (suc j)
unfolding close_gap
get-close_gap n [] j h l = absurd (omega arith)
get-close_gap zero (p ∷ ps) j h l = absurd (omega arith)
get-close_gap (suc n) (p ∷ []) j h l = absurd (omega arith)
get-close_gap (suc n) (p ∷ q ∷ ps) zero h l = refl
get-close_gap (suc n) (p ∷ q ∷ ps) (suc j) h l =
    get-close_gap n (q ∷ ps) j (omega arith) (omega arith)

length-drop_fd : (i n : ℕ) (ps : List PollFd) → length (drop_fd i n ps) ≡ length ps
unfolding drop_fd
length-drop_fd i n [] = refl
length-drop_fd zero n (p ∷ ps) = length-close_gap n (p ∷ ps)
length-drop_fd (suc i) n (p ∷ ps) = ap suc (length-drop_fd i n ps)

get-drop_fd_before :
    (i n : ℕ) (ps : List PollFd) (j : ℕ) → j < i → get_elem? (drop_fd i n ps) j ≡ get_elem? ps j
unfolding drop_fd
get-drop_fd_before i n [] j l = refl
get-drop_fd_before zero n (p ∷ ps) j l = absurd (omega arith)
get-drop_fd_before (suc i) n (p ∷ ps) zero l = refl
get-drop_fd_before (suc i) n (p ∷ ps) (suc j) l = get-drop_fd_before i n ps j (omega arith)

get-drop_fd_moved :
    (i n : ℕ) (ps : List PollFd) (j : ℕ)
    → i + n < length ps
    → i ≤ j
    → j < i + n
    → get_elem? (drop_fd i n ps) j ≡ get_elem? ps (suc j)
unfolding drop_fd
get-drop_fd_moved i n [] j h m l = absurd (omega arith)
get-drop_fd_moved zero n (p ∷ ps) j h m l = get-close_gap n (p ∷ ps) j (omega arith) (omega arith)
get-drop_fd_moved (suc i) n (p ∷ ps) zero h m l = absurd (omega arith)
get-drop_fd_moved (suc i) n (p ∷ ps) (suc j) h m l =
    get-drop_fd_moved i n ps j (omega arith) (omega arith) (omega arith)

-- The array that `remove_poll_fd_by_index_sync` leaves.
abbrev dropped : ℕ → PollArray → PollArray
dropped i a = record {
  fds = drop_fd i (a.count - 1 - i) a.fds;
  max_count = a.max_count;
  count = a.count - 1;
  last_in_index = if ltb i a.last_in_index then a.last_in_index - 1 else a.last_in_index;
}

dropped_before :
    (i : ℕ) (a : PollArray) (k : ℕ) → k < i → get_elem? (dropped i a).fds k ≡ get_elem? a.fds k
dropped_before i a = get-drop_fd_before i (a.count - 1 - i) a.fds

dropped_moved :
    (i : ℕ) (a : PollArray)
    → IsValid a
    → i < a.count
    → (k : ℕ) → i ≤ k
    → k < a.count - 1
    → get_elem? (dropped i a).fds k ≡ get_elem? a.fds (suc k)
dropped_moved i a v high k m l =
    get-drop_fd_moved i (a.count - 1 - i) a.fds k (omega (arith, v.sized, v.within)) m (omega arith)

dropped-IsValid : (i : ℕ) (a : PollArray) → IsValid a → 0 < i → i < a.count → IsValid (dropped i a)
dropped-IsValid i a v low high =
    let (within, behind) =
      last_bounds a.last_in_index a.max_count i v.last_within v.last_behind low in
    record {
      sized = length-drop_fd i (a.count - 1 - i) a.fds ∙ v.sized;
      some_used = omega arith;
      within = omega (arith, v.within);
      last_within = within;
      last_behind = behind;
      watches = λ k q l g. elim (dec_lt k i) [
        | yes before ↦ v.watches k q (omega arith) (sym (dropped_before i a k before) ∙ g)
        | no after ↦
            v.watches (suc k) q (omega arith) (sym (dropped_moved i a v high k (omega arith) l) ∙ g)
      ];
    }
  where
    last_bounds :
        (last max i : ℕ)
        → last < max
        → 0 < last
        → 0 < i
        → ((if ltb i last then last - 1 else last) < max)
          × (0 < (if ltb i last then last - 1 else last))
    last_bounds last max i l b h = ground arith

-- `remove_poll_fd_by_index_sync` at an entry behind the first, in a valid array and with a descriptor
-- that has a mark counter: no assertion fails. The descriptor of that entry is closed and its mark
-- removed, the caller's index goes back by one, and the array stays valid with one entry less: the
-- entries before it stay, the later ones move up by one.
pub remove_poll_fd-IsValid :
    (i : ℕ) (p : PollFd) (a : PollArray) (marks marks' : Marks)
    → IsValid a
    → 0 < i
    → i < a.count
    → get_elem? a.fds i ≡ some p
    → unmark p.fd marks ≡ some marks'
    → (r : Removed) × (remove_poll_fd i a marks ≡ some r)
      × (r.closed ≡ p.fd)
      × (r.marks ≡ marks')
      × (r.index + 1 ≡ i)
      × IsValid r.array
      × (r.array.count + 1 ≡ a.count)
      × ((k : ℕ) → k < i → get_elem? r.array.fds k ≡ get_elem? a.fds k)
      × ((k : ℕ) → i ≤ k → k < a.count - 1 → get_elem? r.array.fds k ≡ get_elem? a.fds (suc k))
unfolding remove_poll_fd
remove_poll_fd-IsValid i p a marks marks' v low high g u =
    let v' = dropped-IsValid i a v low high in
    (
      record { index = i - 1; array = dropped i a; marks = marks'; closed = p.fd },
      rw (lt→ltb 0 i low, lt→ltb i a.max_count (omega (arith, v.within)), lt→ltb i a.count high)
          (rw g (
            rw u (
              rw
                (
                  lt→ltb 0 (a.count - 1) (omega arith),
                  lt→ltb 0 (dropped i a).last_in_index v'.last_behind,
                )
                refl))),
      refl,
      refl,
      omega arith,
      v',
      omega arith,
      dropped_before i a,
      dropped_moved i a v high,
    )
