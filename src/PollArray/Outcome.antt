-- ===== src/PollArray/Outcome.antt =====
-- What is left of the poll array whenever adding or removing a descriptor does not stop the process.
use mathlib.Core.Option.{some_inj}
use wind_breaker.Prelude.{
  ℕ, ◌+◌, ◌-◌, ◌≤◌, ◌<◌, ◌≡◌, refl, sym, ◌∙◌, ap, subst, Bool, true, some, get_elem?, ltb, leb,
  ltb→lt, ◌==◌, if◌then◌else◌,
}
use wind_breaker.Prelude.Fault.{assert, assert-eq-some, Ensures, Ensures-then, of_Ensures}
use wind_breaker.MarkedFds.{Marks, unmark}
use wind_breaker.PollArray.{
  advance, PollFd, PollArray, Removed, in_range, add_poll_fd, remove_poll_fd, put, peek_next,
  watching,
}
use wind_breaker.PollArray.Invariant.{IsValid}
use wind_breaker.PollArray.Add.{least_size, add_poll_fd-IsValid}
use wind_breaker.PollArray.Remove.{remove_poll_fd-IsValid}

-- A valid array of the same size, with the same descriptor at its head.
pub record Continues (a a' : PollArray) : Type 0 where
  pub valid : IsValid a'
  pub same_size : a'.max_count ≡ a.max_count
  pub same_head : get_elem? a'.fds 0 ≡ get_elem? a.fds 0

abbrev Sized : ℕ → PollArray → ℕ × PollArray → Type 0
Sized fd a r = (in_range fd ≡ true) × (r.1.max_count ≡ a.max_count)

added_size : (ssl : Bool) (fd : ℕ) (a : PollArray) → Ensures (Sized fd a) (add_poll_fd ssl fd a)
unfolding add_poll_fd
added_size ssl fd a =
    let more = ltb a.count a.max_count in
    let next = if (peek_next a).0 == 0 then (peek_next a).0 + 1 else (peek_next a).0 in
    let count = if more then a.count + 1 else a.count in
    let last = if more then a.last_in_index else advance ssl a.max_count a.last_in_index in
    Ensures-then (Sized fd a) (assert (in_range fd)) _ (λ _ ok.
      Ensures-then (Sized fd a) (assert (ltb (peek_next a).0 a.max_count)) _ (λ _ _.
        Ensures-then (Sized fd a) (put next (watching fd) (peek_next a).1.fds) _ (λ _ _.
          Ensures-then (Sized fd a) (assert (leb count a.max_count)) _ (λ _ _.
            Ensures-then (Sized fd a) (assert (ltb 1 count)) _ (λ _ _.
              Ensures-then (Sized fd a) (assert (ltb last a.max_count)) _ (λ _ _.
                Ensures-then (Sized fd a) (assert (ltb 0 last)) _
                  (λ _ _. (assert-eq-some (in_range fd) ok, refl))))))))

pub add_poll_fd-Continues :
    (ssl : Bool) (fd : ℕ) (a : PollArray)
    → IsValid a
    → least_size ssl ≤ a.max_count
    → (r : ℕ × PollArray) → add_poll_fd ssl fd a ≡ some r
    → Continues a r.1
add_poll_fd-Continues ssl fd a v room r h =
    let (ok, size) = of_Ensures _ (add_poll_fd ssl fd a) (added_size ssl fd a) h in
    let (i, a', e, v', at, behind, before) = add_poll_fd-IsValid ssl fd a ok v room in
    let same : a' ≡ r.1 = ap (λ p. p.1) (some_inj.0 (sym e ∙ h)) in
    record {
      valid = subst IsValid same v';
      same_size = size;
      same_head = ap (λ (x : PollArray). get_elem? x.fds 0) (sym same) ∙ before 0 behind;
    }

-- The descriptor at the index, and the marks without it.
abbrev Cut : ℕ → PollArray → Marks → Removed → Type 0
Cut i a marks r =
    (p : PollFd) × (marks' : Marks) × (0 < i)
    × (i < a.count)
    × (get_elem? a.fds i ≡ some p)
    × (unmark p.fd marks ≡ some marks')
    × (r.array.max_count ≡ a.max_count)

removed_parts :
    (i : ℕ) (a : PollArray) (marks : Marks) → Ensures (Cut i a marks) (remove_poll_fd i a marks)
unfolding remove_poll_fd
removed_parts i a marks = Ensures-then (Cut i a marks) (assert (ltb 0 i)) _ (λ _ low.
    Ensures-then (Cut i a marks) (assert (ltb i a.max_count)) _ (λ _ _.
      Ensures-then (Cut i a marks) (assert (ltb i a.count)) _ (λ _ live.
        Ensures-then (Cut i a marks) (get_elem? a.fds i) _ (λ p g.
          Ensures-then (Cut i a marks) (unmark p.fd marks) _ (λ marks' u.
            Ensures-then (Cut i a marks) (assert (ltb 0 (a.count - 1))) _ (λ _ _.
              Ensures-then (Cut i a marks)
                (assert
                  (ltb 0 (if ltb i a.last_in_index then a.last_in_index - 1 else a.last_in_index)))
                _
                (λ _ _. (
                  p,
                  marks',
                  ltb→lt 0 i (assert-eq-some (ltb 0 i) low),
                  ltb→lt i a.count (assert-eq-some (ltb i a.count) live),
                  g,
                  u,
                  refl,
                ))))))))

pub remove_poll_fd-Continues :
    (i : ℕ) (a : PollArray) (marks : Marks) (r : Removed)
    → IsValid a
    → remove_poll_fd i a marks ≡ some r
    → Continues a r.array
remove_poll_fd-Continues i a marks r v h =
    let (p, marks', low, live, g, u, size) =
      of_Ensures (Cut i a marks) (remove_poll_fd i a marks) (removed_parts i a marks) h in
    let (r', e, closed, same_marks, index, v', fewer, before, moved) =
      remove_poll_fd-IsValid i p a marks marks' v low live g u in
    let same : r' ≡ r = some_inj.0 (sym e ∙ h) in
    record {
      valid = subst (λ (x : Removed). IsValid x.array) same v';
      same_size = size;
      same_head = ap (λ (x : Removed). get_elem? x.array.fds 0) (sym same) ∙ before 0 low;
    }
