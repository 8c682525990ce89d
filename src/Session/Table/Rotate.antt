-- ===== src/Session/Table/Rotate.antt =====
-- Where the loop of `del_from_session` leaves each slot.
use wind_breaker.Prelude.{
  ℕ, zero, suc, ◌+◌, ◌≤◌, ◌<◌, ◌≡◌, refl, ◌∙◌, ap, List, [], ◌∷◌, some, arith, length, get_elem?,
  All,
}
use wind_breaker.Session.Table.{Slot, bubble, del_at, reset_session}

length-bubble : (n : ℕ) (s : Slot) (xs : List Slot) → length (bubble n s xs) ≡ suc (length xs)
unfolding bubble
length-bubble zero s xs = refl
length-bubble (suc n) s [] = refl
length-bubble (suc n) s (x ∷ xs) = ap suc (length-bubble n s xs)

pub length-del_at : (i n : ℕ) (xs : List Slot) → length (del_at i n xs) ≡ length xs
unfolding del_at
length-del_at i n [] = refl
length-del_at zero n (s ∷ xs) = length-bubble n (reset_session s) xs
length-del_at (suc i) n (s ∷ xs) = ap suc (length-del_at i n xs)

get-bubble_lt :
    (n : ℕ) (s : Slot) (xs : List Slot) (j : ℕ)
    → j < n
    → n ≤ length xs
    → get_elem? (bubble n s xs) j ≡ get_elem? xs j
unfolding bubble
get-bubble_lt zero s xs j h l = absurd (omega arith)
get-bubble_lt (suc n) s [] j h l = absurd (omega arith)
get-bubble_lt (suc n) s (x ∷ xs) zero h l = refl
get-bubble_lt (suc n) s (x ∷ xs) (suc j) h l = get-bubble_lt n s xs j (omega arith) (omega arith)

get-bubble_self :
    (n : ℕ) (s : Slot) (xs : List Slot) → n ≤ length xs → get_elem? (bubble n s xs) n ≡ some s
unfolding bubble
get-bubble_self zero s xs l = refl
get-bubble_self (suc n) s [] l = absurd (omega arith)
get-bubble_self (suc n) s (x ∷ xs) l = get-bubble_self n s xs (omega arith)

get-bubble_gt :
    (n : ℕ) (s : Slot) (xs : List Slot) (j : ℕ)
    → n < suc j
    → n ≤ length xs
    → get_elem? (bubble n s xs) (suc j) ≡ get_elem? xs j
unfolding bubble
get-bubble_gt zero s xs j h l = refl
get-bubble_gt (suc n) s [] j h l = absurd (omega arith)
get-bubble_gt (suc n) s (x ∷ xs) zero h l = absurd (omega arith)
get-bubble_gt (suc n) s (x ∷ xs) (suc j) h l = get-bubble_gt n s xs j (omega arith) (omega arith)

pub get-del_at_before :
    (i n : ℕ) (xs : List Slot) (j : ℕ) → j < i → get_elem? (del_at i n xs) j ≡ get_elem? xs j
unfolding del_at
get-del_at_before i n [] j h = refl
get-del_at_before zero n (s ∷ xs) j h = absurd (omega arith)
get-del_at_before (suc i) n (s ∷ xs) zero h = refl
get-del_at_before (suc i) n (s ∷ xs) (suc j) h = get-del_at_before i n xs j (omega arith)

pub get-del_at_moved :
    (i n : ℕ) (xs : List Slot) (j : ℕ)
    → i ≤ j
    → j < i + n
    → i + n < length xs
    → get_elem? (del_at i n xs) j ≡ get_elem? xs (suc j)
unfolding del_at
get-del_at_moved i n [] j h k l = absurd (omega arith)
get-del_at_moved zero n (s ∷ xs) j h k l =
    get-bubble_lt n (reset_session s) xs j (omega arith) (omega arith)
get-del_at_moved (suc i) n (s ∷ xs) zero h k l = absurd (omega arith)
get-del_at_moved (suc i) n (s ∷ xs) (suc j) h k l =
    get-del_at_moved i n xs j (omega arith) (omega arith) (omega arith)

pub get-del_at_last :
    (i n k : ℕ) (xs : List Slot) (s : Slot)
    → k ≡ i + n
    → k < length xs
    → get_elem? xs i ≡ some s
    → get_elem? (del_at i n xs) k ≡ some (reset_session s)
unfolding del_at
get-del_at_last i n k [] s e l g = absurd (omega arith)
get-del_at_last zero n k (x ∷ xs) s e l g =
    let e' : k ≡ n = omega arith in
    let same : x ≡ s = cc in
    rw e'
      (get-bubble_self n (reset_session x) xs (omega arith) ∙ ap (λ y. some (reset_session y)) same)
get-del_at_last (suc i) n zero (x ∷ xs) s e l g = absurd (omega arith)
get-del_at_last (suc i) n (suc k) (x ∷ xs) s e l g =
    get-del_at_last i n k xs s (omega arith) (omega arith) g

pub get-del_at_after :
    (i n : ℕ) (xs : List Slot) (j : ℕ)
    → i + n < j
    → i + n < length xs
    → get_elem? (del_at i n xs) j ≡ get_elem? xs j
unfolding del_at
get-del_at_after i n [] j h l = refl
get-del_at_after zero n (s ∷ xs) zero h l = absurd (omega arith)
get-del_at_after zero n (s ∷ xs) (suc j) h l =
    get-bubble_gt n (reset_session s) xs j (omega arith) (omega arith)
get-del_at_after (suc i) n (s ∷ xs) zero h l = absurd (omega arith)
get-del_at_after (suc i) n (s ∷ xs) (suc j) h l =
    get-del_at_after i n xs j (omega arith) (omega arith)

-- What every slot and the cleared slot have, every slot has afterwards.
module _ {κ} (P : Slot → Type κ) (cleared : (s : Slot) → P (reset_session s)) where
  bubble-All : (n : ℕ) (s : Slot) (xs : List Slot) → P s → All P xs → All P (bubble n s xs)
  unfolding bubble
  bubble-All zero s xs k h = (k, h)
  bubble-All (suc n) s [] k h = (k, tt)
  bubble-All (suc n) s (x ∷ xs) k h = (h.0, bubble-All n s xs k h.1)

  pub del_at-All : (i n : ℕ) (xs : List Slot) → All P xs → All P (del_at i n xs)
  unfolding del_at
  del_at-All i n [] h = tt
  del_at-All zero n (s ∷ xs) h = bubble-All n (reset_session s) xs (cleared s) h.1
  del_at-All (suc i) n (s ∷ xs) h = (h.0, del_at-All i n xs h.1)
