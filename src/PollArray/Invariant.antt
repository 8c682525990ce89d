-- ===== src/PollArray/Invariant.antt =====
-- The invariant of the poll array, and the sweep of `peek_next`.
use Prim.Native.Nat.{bit_and}
use wind_breaker.Prelude.{
  ℕ, zero, suc, ◌+◌, ◌≤◌, ◌<◌, ◌≡◌, ◌≢◌, refl, sym, ◌∙◌, ap, subst, List, Option, none, some, arith,
  length, get_elem?, set, length-set, get_elem?-set_self, get_elem?-set_ne, get_elem?-lt,
  Bool-cases, inl, inr, ℕ_discrete, ◌==◌,
}
use mathlib.Core.Option.{some_inj}
use wind_breaker.PollArray.{PollFd, PollArray, pollin, pollout, sweep, sweep_at, copy_last}

-- The first `n` entries ask for POLLIN and for nothing else.
abbrev pub Watching : ℕ → List PollFd → Type 0
Watching n fds = (j : ℕ) (p : PollFd) → j < n → get_elem? fds j ≡ some p → p.events ≡ pollin

pub record IsValid (a : PollArray) : Type 0 where
  pub sized : length a.fds ≡ a.max_count
  pub some_used : 0 < a.count
  pub within : a.count ≤ a.max_count
  pub last_within : a.last_in_index < a.max_count
  pub last_behind : 0 < a.last_in_index
  pub watches : Watching a.count a.fds

pub Watching-set :
    (n i : ℕ) (p : PollFd) (fds : List PollFd)
    → p.events ≡ pollin
    → ((j : ℕ) (q : PollFd) → j < n → j ≢ i → get_elem? fds j ≡ some q → q.events ≡ pollin)
    → Watching n (set fds i p)
Watching-set n i p fds e w j q l g = elim (ℕ_discrete j i) [
  | no ne ↦ w j q l ne (sym (get_elem?-set_ne fds i j p (λ h. ne (sym h))) ∙ g)
  | yes ji ↦
      let at = subst (λ x. get_elem? (set fds i p) x ≡ some q) ji g in
      let low : i < length fds =
        omega (arith, get_elem?-lt (set fds i p) i at, length-set fds i p) in
      let same : p ≡ q = some_inj.0 (sym (get_elem?-set_self fds i p low) ∙ at) in
      ap (λ (x : PollFd). x.events) (sym same) ∙ e
]

-- What one round of the sweep, and then the whole of it, may do to the array.
pub record Swept (last : ℕ) (fds fds' : List PollFd) : Type 0 where
  pub same_length : length fds' ≡ length fds
  pub same_before : (j : ℕ) → j < last → get_elem? fds' j ≡ get_elem? fds j
  pub watching : Watching (length fds) fds → Watching (length fds) fds'

Swept-refl : (last : ℕ) (fds : List PollFd) → Swept last fds fds
Swept-refl last fds = record { same_length = refl; same_before = λ j h. refl; watching = λ w. w }

copy_last-Swept :
    (i last : ℕ) (fds : List PollFd)
    → last ≤ i
    → (q : Option PollFd) → get_elem? fds last ≡ q
    → Swept last fds (copy_last i last q fds)
unfolding copy_last
copy_last-Swept i last fds l none g = Swept-refl last fds
copy_last-Swept i last fds l (some q) g = record {
  same_length = length-set (set fds i q) last q ∙ length-set fds i q;
  same_before = λ j h.
      get_elem?-set_ne (set fds i q) last j q (λ e. omega arith)
      ∙ get_elem?-set_ne fds i j q (λ e. omega arith);
  watching = λ w.
      let e = w last q (get_elem?-lt fds last g) g in
      Watching-set (length fds) last q (set fds i q) e
        (λ j r h ne. Watching-set (length fds) i q fds e (λ k r k_lt k_ne. w k r k_lt) j r h);
}

sweep_at-Swept :
    (i last : ℕ) (fds : List PollFd)
    → last ≤ i
    → (p : Option PollFd) → Swept last fds (sweep_at i last p fds)
unfolding sweep_at
sweep_at-Swept i last fds l none = Swept-refl last fds
sweep_at-Swept i last fds l (some p) = elim (Bool-cases (bit_and p.fd (pollin + pollout) == 0)) [
  | inl e ↦ rw e (copy_last-Swept i last fds l (get_elem? fds last) refl)
  | inr e ↦ rw e (Swept-refl last fds)
]

pub sweep-Swept :
    (n i last : ℕ) (fds : List PollFd) → last ≤ i → Swept last fds (sweep n i last fds)
unfolding sweep
sweep-Swept zero i last fds l = Swept-refl last fds
sweep-Swept (suc n) i last fds l =
    let a = sweep_at-Swept i last fds l (get_elem? fds i) in
    let b = sweep-Swept n (suc i) last (sweep_at i last (get_elem? fds i) fds) (omega arith) in
    record {
      same_length = b.same_length ∙ a.same_length;
      same_before = λ j h. b.same_before j h ∙ a.same_before j h;
      watching = λ w.
          subst (λ m. Watching m (sweep n (suc i) last (sweep_at i last (get_elem? fds i) fds)))
            a.same_length
            (b.watching (
              subst (λ m. Watching m (sweep_at i last (get_elem? fds i) fds)) (sym a.same_length)
                (a.watching w)));
    }
