-- ===== src/Workers/Threads.antt =====
-- The loops of `init_workers` and `close_workers` in src/worker.c.
use wind_breaker.Prelude.{
  ℕ, zero, suc, ◌+◌, ◌*◌, ◌<◌, ◌≡◌, refl, sym, ap, ◌∙◌, Bool, true, List, [], ◌∷◌, ◌++◌, map,
  Option, none, some, length, get_elem?, set, replicate, arith, length-append, lt→ltb,
}
use mathlib.Core.List.{append-nil, append_assoc, map-append}
use native.Mathlib.Nat.{zero-add, suc-add, add-zero}
use wind_breaker.Prelude.Fault.{assert, >>=_of_some}
use wind_breaker.Prelude.Int.{ℤ, pos, negsuc}
use wind_breaker.Workers.{
  Thread, handlers_size, differs, create_at, create_threads, create_all, init_workers, join_found,
  join_at, join_threads, join_all, close_workers,
}

-- Threads of handler `i`, with the numbers from `n` on.
pub team : ℕ → ℕ → (rounds : ℕ) → List Thread
team i n zero = []
team i n (suc rounds) = (i, n) ∷ team i (suc n) rounds

length-team : (i n rounds : ℕ) → length (map some (team i n rounds)) ≡ rounds
unfolding team
length-team i n zero = refl
length-team i n (suc rounds) = ap suc (length-team i (suc n) rounds)

length-team_bare : (i n rounds : ℕ) → length (team i n rounds) ≡ rounds
unfolding team
length-team_bare i n zero = refl
length-team_bare i n (suc rounds) = ap suc (length-team_bare i (suc n) rounds)

-- The handlers from `i` on, each for `size` threads, numbered through.
pub teams : ℕ → ℕ → (rounds : ℕ) → List Thread
unfolding team
teams size i zero = []
teams size i (suc rounds) = team i (i * size) size ++ teams size (i + 1) rounds

-- The index before `n`, or -1.
abbrev before : ℕ → ℤ
before zero = negsuc 0
before (suc n) = pos n

differs-before : (n : ℕ) → differs n (before n) ≡ true
unfolding differs
differs-before zero = refl
differs-before (suc n) = ground arith

module _ {ℓ} {A : Type ℓ} where
  set-append : (s : List A) (a b : A) (t : List A) → set (s ++ (a ∷ t)) (length s) b ≡ s ++ (b ∷ t)
  set-append [] a b t = refl
  set-append (c ∷ s) a b t = ap (◌∷◌ c) (set-append s a b t)

  get-append : (s : List A) (a : A) (t : List A) → get_elem? (s ++ (a ∷ t)) (length s) ≡ some a
  get-append [] a t = refl
  get-append (c ∷ s) a t = get-append s a t

create_at_lem :
    (creates : ℕ → Bool) (handler : ℕ) (s t : List (Option Thread)) (o : Option Thread) (index : ℕ)
    → creates index ≡ true
    → length s ≡ index
    → create_at creates handler index (s ++ (o ∷ t)) ≡ some (s ++ (some (handler, index) ∷ t))
unfolding create_at
create_at_lem creates handler s t o index works e =
    rw (lt→ltb index (length (s ++ (o ∷ t))) (omega (arith, length-append s (o ∷ t))), works)
      (ap some (
        ap (λ (n : ℕ). set (s ++ (o ∷ t)) n (some (handler, index))) (sym e)
        ∙ set-append s o (some (handler, index)) t))

module _ {ℓ} {A : Type ℓ} where
  next_before :
      (s : List A) (x : A) (n : ℕ) → length s ≡ n → pos n ≡ before (length (s ++ (x ∷ [])))
  next_before s x n e =
      let f : suc n ≡ length (s ++ (x ∷ [])) = omega (arith, length-append s (x ∷ [])) in
      ap before f

  last_before :
      (s : List A) (x : A) (rounds : ℕ)
      → before (length (s ++ (x ∷ [])) + rounds) ≡ before (length s + suc rounds)
  last_before s x rounds =
      let f : length (s ++ (x ∷ [])) + rounds ≡ length s + suc rounds =
        omega (arith, length-append s (x ∷ [])) in
      ap before f

-- The array before the loops.
empty_teams : ℕ → (rounds : ℕ) → List (Option Thread)
empty_teams size zero = []
empty_teams size (suc rounds) = replicate size none ++ empty_teams size rounds

module _ (size : ℕ) where
  longer :
      (s : List (Option Thread)) (i : ℕ)
      → length (s ++ map some (team i (i * size) size)) ≡ length s + size
  longer s i =
      omega
        (arith, length-append s (map some (team i (i * size) size)), length-team i (i * size) size)

  joined :
      (s : List (Option Thread)) (own rest : List Thread) (t : List (Option Thread))
      → (s ++ map some own) ++ (map some rest ++ t) ≡ s ++ (map some (own ++ rest) ++ t)
  joined s own rest t =
      append_assoc s (map some own) (map some rest ++ t)
      ∙ ap (λ x. s ++ x)
          (sym (append_assoc (map some own) (map some rest) t)
            ∙ ap (λ x. x ++ t) (sym (map-append some own rest)))

  more_teams :
      (s : List (Option Thread)) (i rounds : ℕ)
      → length (s ++ map some (team i (i * size) size)) + length (teams size (i + 1) rounds)
        ≡ length s + length (teams size i (suc rounds))
  unfolding teams
  more_teams s i rounds = omega (
    arith,
    longer s i,
    length-append (team i (i * size) size) (teams size (i + 1) rounds),
    length-team_bare i (i * size) size,
  )

  next_team :
      (s : List (Option Thread)) (i : ℕ)
      → length s ≡ i * size
      → length (s ++ map some (team i (i * size) size)) ≡ (i + 1) * size
  next_team s i e = omega (arith, longer s i, e)

module _ (creates : ℕ → Bool) (works : (n : ℕ) → creates n ≡ true) (size : ℕ) where
  next_index : (i j : ℕ) → i * size + (j + 1) ≡ suc (i * size + j)
  next_index i j = omega arith

  create_threads_lem :
      (i j : ℕ) (rounds : ℕ) (s t : List (Option Thread))
      → length s ≡ i * size + j
      → create_threads creates size i j rounds
          (s ++ (replicate rounds none ++ t), before (length s))
        ≡ some (s ++ (map some (team i (i * size + j) rounds) ++ t), before (length s + rounds))
  unfolding create_threads team
  create_threads_lem i j zero s t e = rw (add-zero (length s)) refl
  create_threads_lem i j (suc rounds) s t e =
      >>=_of_some _
        (ap assert
          (ap (λ (n : ℕ). differs n (before (length s))) (sym e) ∙ differs-before (length s)))
        (>>=_of_some _
          (create_at_lem creates i s (replicate rounds none ++ t) none (i * size + j)
            (works (i * size + j)) e)
          (ap (create_threads creates size i (j + 1) rounds) (λ k. (
            sym (append_assoc s (some (i, i * size + j) ∷ []) (replicate rounds none ++ t)) k,
            next_before s (some (i, i * size + j)) (i * size + j) e k,
          ))
            ∙ create_threads_lem i (j + 1) rounds (s ++ (some (i, i * size + j) ∷ [])) t
                (omega (arith, length-append s (some (i, i * size + j) ∷ [])))
            ∙ ap some (λ k. (
              append_assoc s (some (i, i * size + j) ∷ [])
                  (map some (team i (next_index i j k) rounds) ++ t) k,
              last_before s (some (i, i * size + j)) rounds k,
            ))))

  first : (i : ℕ) → i * size + 0 ≡ i * size
  first i = omega arith

  create_all_lem :
      (i rounds : ℕ) (s t : List (Option Thread))
      → length s ≡ i * size
      → create_all creates size i rounds (s ++ (empty_teams size rounds ++ t), before (length s))
        ≡ some (
          s ++ (map some (teams size i rounds) ++ t),
          before (length s + length (teams size i rounds)),
        )
  unfolding create_all teams empty_teams
  create_all_lem i zero s t e = rw (add-zero (length s)) refl
  create_all_lem i (suc rounds) s t e =
      >>=_of_some (create_all creates size (i + 1) rounds)
        (ap (λ x. create_threads creates size i 0 size (s ++ x, before (length s)))
            (append_assoc (replicate size none) (empty_teams size rounds) t)
          ∙ create_threads_lem i 0 size s (empty_teams size rounds ++ t) (omega arith)
          ∙ ap
              (λ (n : ℕ). some (
                s ++ (map some (team i n size) ++ (empty_teams size rounds ++ t)),
                before (length s + size),
              ))
              (first i))
        (ap (create_all creates size (i + 1) rounds) (λ k. (
          sym (append_assoc s (map some (team i (i * size) size)) (empty_teams size rounds ++ t)) k,
          before (sym (longer size s i) k),
        ))
          ∙ create_all_lem (i + 1) rounds (s ++ map some (team i (i * size) size)) t
              (next_team size s i e)
          ∙ ap some (λ k. (
            joined size s (team i (i * size) size) (teams size (i + 1) rounds) t k,
            before (more_teams size s i rounds k),
          )))

replicate-add {ℓ} :
    {A : Type ℓ} (m n : ℕ) (a : A) → replicate (m + n) a ≡ replicate m a ++ replicate n a
replicate-add zero n a = ap (λ (k : ℕ). replicate k a) (zero-add n)
replicate-add (suc m) n a =
    ap (λ (k : ℕ). replicate k a) (suc-add m n) ∙ ap (◌∷◌ a) (replicate-add m n a)

empty_teams_lem : (size rounds : ℕ) → replicate (size * rounds) none ≡ empty_teams size rounds
unfolding empty_teams
empty_teams_lem size zero =
    ap (λ (k : ℕ). replicate k none) (let e : size * 0 ≡ 0 = omega arith in e)
empty_teams_lem size (suc rounds) =
    ap (λ (k : ℕ). replicate k none)
      (let e : size * suc rounds ≡ size + size * rounds = omega arith in e)
    ∙ replicate-add size (size * rounds) none
    ∙ ap (λ x. replicate size none ++ x) (empty_teams_lem size rounds)

module _ (joins : ℕ → Bool) (works : (n : ℕ) → joins n ≡ true) (size : ℕ) where
  join_at_lem :
      (i : Thread) (index : ℕ) (s t : List (Option Thread))
      → length s ≡ index
      → join_at joins index (s ++ (some i ∷ t)) ≡ some i
  unfolding join_at
  join_at_lem i index s t e =
      ap (join_found (joins index))
        (ap (get_elem? (s ++ (some i ∷ t))) (sym e) ∙ get-append s (some i) t)
      ∙ ap (λ b. join_found b (some (some i))) (works index)

  join_threads_lem :
      (i j n rounds : ℕ) (workers s t : List (Option Thread)) (waited : List Thread)
      → n ≡ i * size + j
      → length s ≡ n
      → workers ≡ s ++ (map some (team i n rounds) ++ t)
      → join_threads joins size i workers j rounds (waited, before (length s))
        ≡ some (waited ++ team i n rounds, before (length s + rounds))
  unfolding join_threads team
  join_threads_lem i j n zero workers s t waited at e split =
      rw (add-zero (length s), append-nil waited) refl
  join_threads_lem i j n (suc rounds) workers s t waited at e split =
      let x : Thread = (i, n) in
      >>=_of_some _
        (ap assert (
          ap (λ (m : ℕ). differs m (before (length s))) (sym (e ∙ at)) ∙ differs-before (length s)))
        (>>=_of_some _
          (ap (join_at joins (i * size + j)) split
            ∙ join_at_lem x (i * size + j) s (map some (team i (suc n) rounds) ++ t) (e ∙ at))
          (ap (λ (p : ℤ). join_threads joins size i workers (j + 1) rounds (waited ++ (x ∷ []), p))
              (next_before s (some x) (i * size + j) (e ∙ at))
            ∙ join_threads_lem i (j + 1) (suc n) rounds workers (s ++ (some x ∷ [])) t
                (waited ++ (x ∷ [])) (omega (arith, at))
                (omega (arith, e, length-append s (some x ∷ [])))
                (split ∙ sym (append_assoc s (some x ∷ []) (map some (team i (suc n) rounds) ++ t)))
            ∙ ap some (λ k. (
              append_assoc waited (x ∷ []) (team i (suc n) rounds) k,
              last_before s (some x) rounds k,
            ))))

  join_all_lem :
      (i rounds : ℕ) (workers s t : List (Option Thread)) (waited : List Thread)
      → length s ≡ i * size
      → workers ≡ s ++ (map some (teams size i rounds) ++ t)
      → join_all joins size workers i rounds (waited, before (length s))
        ≡ some (waited ++ teams size i rounds, before (length s + length (teams size i rounds)))
  unfolding join_all teams
  join_all_lem i zero workers s t waited e split = rw (add-zero (length s), append-nil waited) refl
  join_all_lem i (suc rounds) workers s t waited e split =
      >>=_of_some (join_all joins size workers (i + 1) rounds)
        (join_threads_lem i 0 (i * size) size workers s (map some (teams size (i + 1) rounds) ++ t)
          waited (omega arith) e (whole ∙ append_assoc s (map some (team i (i * size) size)) _))
        (ap
            (λ (n : ℕ).
              join_all joins size workers (i + 1) rounds
                (waited ++ team i (i * size) size, before n))
            (sym (longer size s i))
          ∙ join_all_lem (i + 1) rounds workers (s ++ map some (team i (i * size) size)) t
              (waited ++ team i (i * size) size) (next_team size s i e) whole
          ∙ ap some (λ k. (
            append_assoc waited (team i (i * size) size) (teams size (i + 1) rounds) k,
            before (more_teams size s i rounds k),
          )))
    where
      whole :
          workers
          ≡ (s ++ map some (team i (i * size) size)) ++ (map some (teams size (i + 1) rounds) ++ t)
      whole = split ∙ sym (joined size s (team i (i * size) size) (teams size (i + 1) rounds) t)

-- With `size` threads for each handler, `init_workers` starts `size` threads of each of the four
-- handlers, so that entry number n of the array holds the thread that was started as number n, and
-- `close_workers` waits for each of these threads once, in the order of their numbers, if there is at
-- least one thread for each handler and the calls of pthread succeed.
pub close_workers-init_workers :
    (creates joins : ℕ → Bool) (size : ℕ)
    → ((n : ℕ) → creates n ≡ true)
    → ((n : ℕ) → joins n ≡ true)
    → 0 < size
    → (init_workers creates size none ≡ some (map some (teams size 0 handlers_size)))
      × (close_workers joins size (some (map some (teams size 0 handlers_size)))
          ≡ some (teams size 0 handlers_size))
unfolding init_workers close_workers
close_workers-init_workers creates joins size works waits some_threads = (
  rw (lt→ltb 0 size some_threads) (
      >>=_of_some _
        (ap (λ x. create_all creates size 0 handlers_size (x, negsuc 0))
            (empty_teams_lem size handlers_size ∙ sym (append-nil (empty_teams size handlers_size)))
          ∙ create_all_lem creates works size 0 handlers_size [] [] (omega arith))
        (ap some (append-nil (map some (teams size 0 handlers_size))))),
  >>=_of_some _
      (join_all_lem joins waits size 0 handlers_size (map some (teams size 0 handlers_size)) [] []
        [] (omega arith) (sym (append-nil (map some (teams size 0 handlers_size)))))
      refl,
)
