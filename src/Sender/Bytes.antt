-- ===== src/Sender/Bytes.antt =====
-- Sequences of partial sends of src/handlers/sender.c.
use wind_breaker.Prelude.{
  ℕ, zero, suc, ◌+◌, ◌-◌, ◌≤◌, ◌<◌, ◌≡◌, refl, sym, ◌∙◌, ap, subst, Bool, true, false, List, [],
  ◌∷◌, ◌++◌, length, take, drop, length-append, length-take, length-drop, lt→ltb, le→ltb,
  if◌then◌else◌, arith,
}
use mathlib.Core.List.{append_assoc}
use wind_breaker.Prelude.Int.{pos}
use wind_breaker.Buffer.{Buffer}
use wind_breaker.Buffer.Capacity.{IsValid}
use wind_breaker.Static.{Connection, close, keep_alive}
use wind_breaker.Session.Word.{WorkStatus, ready_to_send, rejected, sent}
use wind_breaker.Sender.{Attempt, is_close, keep_rest, after_send}

-- A send that took `n` bytes, over TLS or not.
abbrev pub took : Bool → ℕ → Attempt
took is_ssl n = record { is_ssl = is_ssl; send_return = pos n; ssl_error = 0; should_retry = false }

-- The bytes of the buffer that are in use.
abbrev pub used : Buffer → List ℕ
used b = take b.count b.bytes

-- Rounds that send `ns` bytes one after the other: what the peer has received, and the buffer.
pub sends : Bool → Connection → List ℕ → Buffer → List ℕ × Buffer
unfolding after_send
sends is_ssl c [] b = ([], b)
sends is_ssl c (n ∷ ns) b =
    let later = sends is_ssl c ns (after_send (took is_ssl n) c b).1 in
    (take n (used b) ++ later.0, later.1)

-- Each round takes at least a byte, and leaves at least one.
abbrev pub IsPartial : List ℕ → ℕ → Type 0
IsPartial [] count = Unit
IsPartial (n ∷ ns) count = (0 < n) × (n < count) × IsPartial ns (count - n)

partial_send :
    (is_ssl : Bool) (c : Connection) (n : ℕ) (b : Buffer)
    → 0 < n
    → n < b.count
    → after_send (took is_ssl n) c b ≡ (ready_to_send, keep_rest n b)
unfolding after_send
partial_send true c n b low high = rw (lt→ltb 0 n low, lt→ltb n b.count high) refl
partial_send false c n b low high = rw (lt→ltb 0 n low, lt→ltb n b.count high) refl

take-nil : (k : ℕ) → take {A = ℕ} k [] ≡ []
take-nil zero = refl
take-nil (suc k) = refl

take_in_two :
    (n k c : ℕ) (xs : List ℕ) → c ≡ n + k → take n (take c xs) ++ take k (drop n xs) ≡ take c xs
take_in_two zero k c xs e = ap (λ d. take d xs) (omega (arith, e))
take_in_two (suc n) k zero xs e = absurd (omega (arith, e))
take_in_two (suc n) k (suc c) [] e = take-nil k
take_in_two (suc n) k (suc c) (x ∷ xs) e = ap (◌∷◌ x) (take_in_two n k c xs (omega (arith, e)))

take-take_front : (k : ℕ) (xs ys : List ℕ) → k ≤ length xs → take k (take k xs ++ ys) ≡ take k xs
take-take_front zero xs ys h = refl
take-take_front (suc k) [] ys h = absurd (omega arith)
take-take_front (suc k) (x ∷ xs) ys h = ap (◌∷◌ x) (take-take_front k xs ys (omega arith))

module _ (n : ℕ) (b : Buffer) (v : IsValid b) (h : n ≤ b.count) where
  used-keep_rest : take n (used b) ++ used (keep_rest n b) ≡ used b
  unfolding keep_rest
  used-keep_rest =
      ap (λ t. take n (used b) ++ t)
        (take-take_front (b.count - n) (drop n b.bytes) (drop (b.count - n) b.bytes)
          (omega (arith, length-drop n b.bytes, v.sized, v.used)))
      ∙ take_in_two n (b.count - n) b.count b.bytes (omega arith)

  keep_rest-IsValid : IsValid (keep_rest n b)
  unfolding keep_rest
  keep_rest-IsValid = record {
    sized = omega (
      arith,
      length-append (take (b.count - n) (drop n b.bytes)) (drop (b.count - n) b.bytes),
      length-take (b.count - n) (drop n b.bytes),
      length-drop n b.bytes,
      length-drop (b.count - n) b.bytes,
      v.sized,
      v.used,
    );
    used = omega (arith, v.used);
  }

keep_rest-count : (n : ℕ) (b : Buffer) → (keep_rest n b).count ≡ b.count - n
unfolding keep_rest
keep_rest-count n b = refl

full_send :
    (is_ssl : Bool) (c : Connection) (n : ℕ) (b : Buffer)
    → 0 < n
    → b.count ≤ n
    → (after_send (took is_ssl n) c b).0 ≡ (if is_close c then rejected else sent)
unfolding after_send
full_send true keep_alive n b low high = rw (lt→ltb 0 n low, le→ltb b.count n high) refl
full_send false keep_alive n b low high = rw (lt→ltb 0 n low, le→ltb b.count n high) refl
full_send true close n b low high = rw (lt→ltb 0 n low, le→ltb b.count n high) refl
full_send false close n b low high = rw (lt→ltb 0 n low, le→ltb b.count n high) refl

sends_step :
    (is_ssl : Bool) (c : Connection) (n : ℕ) (ns : List ℕ) (b : Buffer)
    → 0 < n
    → n < b.count
    → sends is_ssl c (n ∷ ns) b ≡ (
      take n (used b) ++ (sends is_ssl c ns (keep_rest n b)).0,
      (sends is_ssl c ns (keep_rest n b)).1,
    )
unfolding sends
sends_step is_ssl c n ns b low high =
    ap
      (λ (a : WorkStatus × Buffer).
        let later = sends is_ssl c ns a.1 in (take n (used b) ++ later.0, later.1))
      (partial_send is_ssl c n b low high)

-- What the peer has and what the buffer holds, after partial sends of `b`.
abbrev Complete : Bool → Connection → Buffer → List ℕ × Buffer → Type 0
Complete is_ssl c b q =
    (q.0 ++ used q.1 ≡ used b)
    × IsValid q.1
    × ((rest : ℕ)
        → 0 < rest
        → rest ≡ q.1.count
        → (after_send (took is_ssl rest) c q.1).0 ≡ (if is_close c then rejected else sent))

-- Any sequence of partial sends of a valid buffer, over TLS or not: what the peer received and what
-- the buffer still holds make up the bytes that were to be sent, and the buffer is valid. When all of
-- the rest is sent after that, the session is answered, or closed if the client asked for it.
pub sends-used :
    (is_ssl : Bool) (c : Connection) (ns : List ℕ) (b : Buffer)
    → IsValid b
    → IsPartial ns b.count
    → ((sends is_ssl c ns b).0 ++ used (sends is_ssl c ns b).1 ≡ used b)
      × IsValid (sends is_ssl c ns b).1
      × ((rest : ℕ)
          → 0 < rest
          → rest ≡ (sends is_ssl c ns b).1.count
          → (after_send (took is_ssl rest) c (sends is_ssl c ns b).1).0
            ≡ (if is_close c then rejected else sent))
unfolding sends
sends-used is_ssl c [] b v p =
    (refl, v, λ rest low e. full_send is_ssl c rest b low (omega (arith, e)))
sends-used is_ssl c (n ∷ ns) b v (low, high, more) =
    let (total, valid, last) =
      sends-used is_ssl c ns (keep_rest n b) (keep_rest-IsValid n b v (omega arith))
        (subst (IsPartial ns) (sym (keep_rest-count n b)) more) in
    let step = sends_step is_ssl c n ns b low high in
    subst (Complete is_ssl c b) (sym step) (
      append_assoc (take n (used b)) (sends is_ssl c ns (keep_rest n b)).0
            (used (sends is_ssl c ns (keep_rest n b)).1)
          ∙ ap (λ t. take n (used b) ++ t) total
          ∙ used-keep_rest n b v (omega arith),
      valid,
      last,
    )
