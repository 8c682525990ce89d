-- ===== src/Socket/Receive.antt =====
-- What `recv_bio` leaves of a request that is shorter than the first allocation.
use mathlib.Core.List.{append_assoc, append-nil}
use wind_breaker.Prelude.{
  ℕ, zero, suc, ◌+◌, ◌-◌, ◌*◌, ◌%◌, ◌≤◌, ◌<◌, ◌≡◌, refl, sym, ◌∙◌, ap, subst, true, false, Bool,
  List, [], ◌∷◌, ◌++◌, some, arith, length, drop, ltb, length-append, lt→ltb, le→leb, inl, inr, ◌⊎◌,
  ◌==◌, ◌||◌, ne→==,
}
use wind_breaker.Prelude.Fault.{>>=_of_some}
use wind_breaker.Prelude.Bytes.{overwrite, overwrite_behind, same_length}
use wind_breaker.Prelude.Int.{pos}
use wind_breaker.Buffer.{Buffer, Memory, default_size, ensure_capacity}
use wind_breaker.Buffer.Capacity.{IsValid, Ensured, ensure_capacity_lem}
use wind_breaker.Response.Print.Text.{Starts, Starts-Ensured}
use wind_breaker.Socket.{Bio, stored, recv_rounds, close_text, recv_bio}

-- What arrives with `n` calls, from call `k` on.
abbrev pub gathered : ℕ → ℕ → (ℕ → List ℕ) → List ℕ
gathered zero k arrives = []
gathered (suc n) k arrives = arrives k ++ gathered n (suc k) arrives

-- A call of `BIO_read` that has room for what has arrived stores all of it.
abbrev pub Delivers : Bio → (ℕ → List ℕ) → Type 0
Delivers bio arrives = (k room : ℕ) → length (arrives k) ≤ room → bio.reads k room ≡ arrives k

-- Bytes written behind the text of a buffer with room for them.
behind :
    (s got : List ℕ) (b : Buffer)
    → Starts s b
    → length s + length got ≤ b.capacity
    → Starts
        (s ++ got)
        (record b { count = length s + length got; bytes = overwrite (length s) got b.bytes })
behind s got b v room =
    let total : length b.bytes ≡ length (s ++ v.rest) = ap length v.split in
    let e : overwrite (length s) got b.bytes ≡ s ++ (got ++ drop (length got) v.rest) =
      ap (overwrite (length s) got) v.split ∙ overwrite_behind s got v.rest in
    record {
      valid = record {
        sized =
            ap length e
            ∙ same_length s got v.rest (omega (arith, total, v.valid.sized))
            ∙ sym total
            ∙ v.valid.sized;
        used = room;
      };
      bounded = v.bounded;
      rest = drop (length got) v.rest;
      split = e ∙ sym (append_assoc s got (drop (length got) v.rest));
    }

pub stored_lem :
    (s got : List ℕ) (b : Buffer)
    → Starts s b
    → b.count ≡ length s
    → length s + length got ≤ b.capacity
    → stored got b
      ≡ some (record b { count = length s + length got; bytes = overwrite (length s) got b.bytes })
unfolding stored
stored_lem s got b v counted room =
    rw (counted, le→leb (length s + length got) (length b.bytes) (omega (arith, v.valid.sized)))
      refl

-- Room for at least one allocation, however often the counter of the rounds has wrapped.
room_lem :
    (k : ℕ) (s : List ℕ) (m : Memory) (b : Buffer)
    → ((j : ℕ) → m.grants j ≡ true)
    → Starts s b
    → (k ≡ 0) ⊎ (1024 ≤ b.capacity)
    → (e : Buffer) × (ensure_capacity m b (suc k % 256 * default_size) ≡ some (pos e.capacity, e))
      × Starts s e
      × (e.count ≡ b.count)
      × (1024 ≤ e.capacity)
room_lem k s m b granted v roomy =
    let (e, done, q) =
      ensure_capacity_lem m b (suc k % 256 * default_size) v.valid v.bounded (omega arith)
        granted in
    (e, done, Starts-Ensured s b e (suc k % 256 * default_size) v q, q.same_count, grown e q roomy)
  where
    grown :
        (e : Buffer)
        → Ensured (suc k % 256 * default_size) b e
        → (k ≡ 0) ⊎ (1024 ≤ b.capacity)
        → 1024 ≤ e.capacity
    grown e q (inl z) = omega (arith, q.enough)
    grown e q (inr r) =
        omega
          (arith, v.valid.sized, q.valid.sized, ap length q.kept.1, length-append b.bytes q.kept.0)

nonempty : (s : List ℕ) → 0 < length s → (c : ℕ) × (rest : List ℕ) × (s ≡ c ∷ rest)
nonempty [] h = absurd (omega arith)
nonempty (c ∷ s) h = (c, s, refl)

-- A round of the loop that stores nothing, and one that stores what has arrived.
pub last_round :
    (fuel k : ℕ) (m : Memory) (bio : Bio) (b e : Buffer)
    → ensure_capacity m b (suc k % 256 * default_size) ≡ some (pos e.capacity, e)
    → 1024 ≤ e.capacity
    → bio.reads k (e.capacity - e.count) ≡ []
    → recv_rounds (suc fuel) k m bio b ≡ some (bio.failed k (e.capacity - e.count), e)
unfolding recv_rounds
last_round fuel k m bio b e done room quiet =
    >>=_of_some _ done (rw (lt→ltb 0 e.capacity (omega arith), quiet) refl)

pub round :
    (fuel k : ℕ) (m : Memory) (bio : Bio) (b e b' : Buffer) (got : List ℕ)
    → ensure_capacity m b (suc k % 256 * default_size) ≡ some (pos e.capacity, e)
    → 1024 ≤ e.capacity
    → bio.reads k (e.capacity - e.count) ≡ got
    → 0 < length got
    → stored got e ≡ some b'
    → recv_rounds (suc fuel) k m bio b ≡ recv_rounds fuel (suc k) m bio b'
unfolding recv_rounds
round fuel k m bio b e b' got done room reads some_bytes kept =
    let (c, rest, shape) = nonempty got some_bytes in
    >>=_of_some _ done (
      rw (lt→ltb 0 e.capacity (omega arith), reads ∙ shape)
        (>>=_of_some _ (ap (λ t. stored t e) (sym shape) ∙ kept) refl))

-- The loop takes in all that arrives, as long as that stays below the first allocation.
rounds_lem :
    (n fuel k : ℕ) (arrives : ℕ → List ℕ) (m : Memory) (bio : Bio) (s : List ℕ) (b : Buffer)
    → n < fuel
    → ((j : ℕ) → m.grants j ≡ true)
    → Delivers bio arrives
    → ((j : ℕ) → j < n → 0 < length (arrives (k + j)))
    → arrives (k + n) ≡ []
    → Starts s b
    → b.count ≡ length s
    → (k ≡ 0) ⊎ (1024 ≤ b.capacity)
    → length s + length (gathered n k arrives) < 1024
    → (failed : Bool) × (b' : Buffer) × (recv_rounds fuel k m bio b ≡ some (failed, b'))
      × Starts (s ++ gathered n k arrives) b'
      × (b'.count ≡ length (s ++ gathered n k arrives))
      × (1024 ≤ b'.capacity)
rounds_lem n zero k arrives m bio s b fueled granted delivers busy quiet v counted roomy short =
    absurd (omega arith)
rounds_lem zero (suc fuel) k arrives m bio s b fueled granted delivers busy quiet v counted roomy
      short =
    let (e, done, w, same, room) = room_lem k s m b granted v roomy in
    let none_left : arrives k ≡ [] = ap arrives (omega arith) ∙ quiet in
    (
      bio.failed k (e.capacity - e.count),
      e,
      last_round fuel k m bio b e done room
          (delivers k (e.capacity - e.count) (rw none_left (omega arith)) ∙ none_left),
      subst (λ t. Starts t e) (sym (append-nil s)) w,
      same ∙ counted ∙ ap length (sym (append-nil s)),
      room,
    )
rounds_lem (suc n) (suc fuel) k arrives m bio s b fueled granted delivers busy quiet v counted roomy
      short =
    let (e, done, w, same, room) = room_lem k s m b granted v roomy in
    let here : 0 < length (arrives k) =
      subst (λ j. 0 < length (arrives j)) (omega arith) (busy 0 (omega arith)) in
    let long = length-append (arrives k) (gathered n (suc k) arrives) in
    let fits : length s + length (arrives k) ≤ e.capacity = omega (arith) in
    let (failed, b', ends, w', same', room') =
      rounds_lem n fuel (suc k) arrives m bio (s ++ arrives k)
        (record e {
          count = length s + length (arrives k);
          bytes = overwrite (length s) (arrives k) e.bytes;
        })
        (omega arith) granted delivers
        (λ j h. subst (λ i. 0 < length (arrives i)) (omega arith) (busy (suc j) (omega arith)))
        (ap arrives (omega arith) ∙ quiet) (behind s (arrives k) e w fits)
        (sym (length-append s (arrives k))) (inr room)
        (omega (arith, length-append s (arrives k))) in
    (
      failed,
      b',
      round fuel k m bio b e
            (record e {
              count = length s + length (arrives k);
              bytes = overwrite (length s) (arrives k) e.bytes;
            })
            (arrives k) done room (delivers k (e.capacity - e.count) (omega (arith, same, counted)))
            here (stored_lem s (arrives k) e w (same ∙ counted) fits)
          ∙ ends,
      subst (λ t. Starts t b') (append_assoc s (arrives k) (gathered n (suc k) arrives)) w',
      same' ∙ ap length (append_assoc s (arrives k) (gathered n (suc k) arrives)),
      room',
    )

close_text_lem :
    (failed : Bool) (n : ℕ) (e : Buffer)
    → e.count ≡ n
    → 0 < n
    → n < length e.bytes
    → close_text (failed, e)
      ≡ some (n + 1, record e { count = n + 1; bytes = overwrite n (0 ∷ []) e.bytes })
unfolding close_text
close_text_lem false n e same some_bytes room = rw (same, lt→ltb n (length e.bytes) room) refl
close_text_lem true n e same some_bytes room =
    rw (same, ne→== n 0 (omega arith), lt→ltb n (length e.bytes) room) refl

pub has_storage : (b : Buffer) → IsValid b → (length b.bytes == 0 || ltb 0 b.capacity) ≡ true
has_storage b v = ground (arith, v.sized)

-- When memory is granted, a well-formed buffer of less than 2 ^ 31 bytes holds `s`, and `n` calls of
-- `BIO_read` store what has arrived before one stores nothing, `recv_bio` ends within `n + 1` rounds
-- without a failed assertion or an access out of range, provided that `s` and what arrives have
-- together at least one byte and fewer than 1024: the buffer then holds `s`, all that arrived and a
-- closing zero, and the count that is returned covers them.
pub recv_bio_lem :
    (n fuel : ℕ) (arrives : ℕ → List ℕ) (m : Memory) (bio : Bio) (s : List ℕ) (b : Buffer)
    → n < fuel
    → ((j : ℕ) → m.grants j ≡ true)
    → Delivers bio arrives
    → ((j : ℕ) → j < n → 0 < length (arrives j))
    → arrives n ≡ []
    → Starts s b
    → b.count ≡ length s
    → 0 < length s + length (gathered n 0 arrives)
    → length s + length (gathered n 0 arrives) < 1024
    → (b' : Buffer) × (recv_bio fuel m bio b
        ≡ some (length s + length (gathered n 0 arrives) + 1, b'))
      × (b'.count ≡ length s + length (gathered n 0 arrives) + 1)
      × Starts ((s ++ gathered n 0 arrives) ++ (0 ∷ [])) b'
unfolding recv_bio close_text
recv_bio_lem n fuel arrives m bio s b fueled granted delivers busy quiet v counted some_bytes
      short =
    let all = s ++ gathered n 0 arrives in
    let long = length-append s (gathered n 0 arrives) in
    let (failed, e, ends, w, same, room) =
      rounds_lem n fuel 0 arrives m bio s b fueled granted delivers
        (λ j h. subst (λ i. 0 < length (arrives i)) (omega arith) (busy j h))
        (ap arrives (omega arith) ∙ quiet) v counted (inl refl) short in
    (
      record e { count = length all + 1; bytes = overwrite (length all) (0 ∷ []) e.bytes },
      rw (has_storage b v.valid) (
          >>=_of_some _ ends (
            close_text_lem failed (length all) e same (omega arith) (omega (arith, w.valid.sized))
            ∙ ap
                (λ k. some (
                  k + 1,
                  record e {
                    count = length all + 1;
                    bytes = overwrite (length all) (0 ∷ []) e.bytes;
                  },
                ))
                long)),
      omega arith,
      behind-closed all e w (omega arith),
    )
  where
    behind-closed :
        (all : List ℕ) (e : Buffer)
        → Starts all e
        → length all < e.capacity
        → Starts
            (all ++ (0 ∷ []))
            (record e { count = length all + 1; bytes = overwrite (length all) (0 ∷ []) e.bytes })
    behind-closed all e w h = behind all (0 ∷ []) e w (omega arith)
