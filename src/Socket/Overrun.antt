-- ===== src/Socket/Overrun.antt =====
-- `recv_bio` of src/socket.c when more has arrived than its buffer takes.
use mathlib.Core.Option.{some_inj}
use wind_breaker.Prelude.{
  ℕ, zero, suc, ◌+◌, ◌-◌, ◌*◌, ◌%◌, ◌≤◌, ◌<◌, ◌≡◌, refl, sym, ◌∙◌, ap, true, Bool, List, [], ◌∷◌,
  ◌++◌, none, some, arith, length, ltb, le→leb, ltb→le, Bool-cases, inl, inr,
}
use wind_breaker.Prelude.Fault.{>>=_of_some}
use wind_breaker.Prelude.Bytes.{overwrite, length-overwrite}
use wind_breaker.Prelude.Int.{ℤ, pos, to_int}
use wind_breaker.Buffer.{Buffer, Memory, default_size, grow, grow_fuel, fresh, ensure_capacity}
use wind_breaker.Buffer.Capacity.{IsValid, ensure_capacity_lem}
use wind_breaker.Socket.{Bio, stored, recv_rounds, close_text, recv_bio}
use wind_breaker.Socket.Receive.{last_round, round, has_storage}

-- As much waits at each call as the buffer has room for.
abbrev pub Floods : Bio → Type 0
Floods bio = (k room : ℕ) → length (bio.reads k room) ≡ room

-- A well-formed buffer of `n` bytes, of which `c` are in use.
record Filled (n c : ℕ) (b : Buffer) : Type 0 where
  valid : IsValid b
  size : b.capacity ≡ n
  used : b.count ≡ c

-- The new capacity is what `grow` says.
ensured_size :
    (m : Memory) (b e : Buffer) (wanted n : ℕ) (r : ℤ)
    → grow grow_fuel b.capacity wanted ≡ some n
    → b.capacity ≤ n
    → ((j : ℕ) → m.grants j ≡ true)
    → ensure_capacity m b wanted ≡ some (r, e)
    → e.capacity ≡ n
unfolding ensure_capacity
ensured_size m b e wanted n r grows more granted done = elim (Bool-cases (ltb b.capacity n)) [
  | inl larger ↦
      let grown : Buffer = record {
        capacity = n;
        count = b.count;
        bytes = b.bytes ++ fresh m.junk b.capacity (n - b.capacity);
      } in
      let now : ensure_capacity m b wanted ≡ some (to_int n, grown) =
        rw (grows, ensure_capacity) (rw (larger, granted n) refl) in
      ap (λ p. p.1.capacity) (some_inj.0 (sym done ∙ now))
  | inr same ↦
      let now : ensure_capacity m b wanted ≡ some (to_int b.capacity, b) =
        rw (grows, ensure_capacity) (rw same refl) in
      ap (λ p. p.1.capacity) (some_inj.0 (sym done ∙ now)) ∙ omega (arith, ltb→le b.capacity n same)
]

ensured :
    (k n n' c : ℕ) (m : Memory) (b : Buffer)
    → ((j : ℕ) → m.grants j ≡ true)
    → Filled n c b
    → grow grow_fuel n (suc k % 256 * default_size) ≡ some n'
    → n ≤ n'
    → n' ≤ 4096
    → (e : Buffer) × (ensure_capacity m b (suc k % 256 * default_size) ≡ some (pos e.capacity, e))
      × Filled n' c e
ensured k n n' c m b granted v grows more small =
    let (e, done, q) =
      ensure_capacity_lem m b (suc k % 256 * default_size) v.valid (omega (arith, v.size))
        (omega arith) granted in
    (
      e,
      done,
      record {
        valid = q.valid;
        size =
            ensured_size m b e (suc k % 256 * default_size) n' (pos e.capacity)
              (ap (λ t. grow grow_fuel t (suc k % 256 * default_size)) v.size ∙ grows)
              (omega (arith, v.size)) granted done;
        used = q.same_count ∙ v.used;
      },
    )

stored_fits :
    (e : Buffer) (got : List ℕ)
    → e.count + length got ≤ length e.bytes
    → stored got e
      ≡ some (record e { count = e.count + length got; bytes = overwrite e.count got e.bytes })
unfolding stored
stored_fits e got h = rw (le→leb (e.count + length got) (length e.bytes) h) refl

full_round :
    (k n n' c fuel : ℕ) (m : Memory) (bio : Bio) (b : Buffer)
    → ((j : ℕ) → m.grants j ≡ true)
    → Floods bio
    → Filled n c b
    → grow grow_fuel n (suc k % 256 * default_size) ≡ some n'
    → n ≤ n'
    → n' ≤ 4096
    → 1024 ≤ n'
    → c < n'
    → (b' : Buffer) × (recv_rounds (suc fuel) k m bio b ≡ recv_rounds fuel (suc k) m bio b')
      × Filled n' n' b'
full_round k n n' c fuel m bio b granted floods v grows more small large room =
    let (e, done, w) = ensured k n n' c m b granted v grows more small in
    let got = bio.reads k (e.capacity - e.count) in
    let long : length got ≡ n' - c =
      floods k (e.capacity - e.count) ∙ omega (arith, w.size, w.used) in
    (
      record e { count = e.count + length got; bytes = overwrite e.count got e.bytes },
      round fuel k m bio b e
          (record e { count = e.count + length got; bytes = overwrite e.count got e.bytes }) got
          done (omega (arith, w.size)) refl (omega arith)
          (stored_fits e got (omega (arith, w.used, w.valid.sized, w.size))),
      record {
        valid = record {
          sized =
              length-overwrite e.count got e.bytes (omega (arith, w.used, w.valid.sized, w.size))
              ∙ w.valid.sized;
          used = omega (arith, w.used, w.size);
        };
        size = w.size;
        used = omega (arith, w.used);
      },
    )

length_none : (s : List ℕ) → length s ≡ 0 → s ≡ []
length_none [] h = refl
length_none (c ∷ s) h = absurd (omega arith)

close_text_full : (failed : Bool) (e : Buffer) → Filled 4096 4096 e → close_text (failed, e) ≡ none
unfolding close_text
close_text_full failed e w = ground (arith, w.used, w.size, w.valid.sized)

grow_first : grow grow_fuel 1024 (suc 0 % 256 * default_size) ≡ some 1024
unfolding grow
grow_first = refl

grow_second : grow grow_fuel 1024 (suc 1 % 256 * default_size) ≡ some 2048
unfolding grow
grow_second = refl

grow_third : grow grow_fuel 2048 (suc 2 % 256 * default_size) ≡ some 4096
unfolding grow
grow_third = refl

grow_fourth : grow grow_fuel 4096 (suc 3 % 256 * default_size) ≡ some 4096
unfolding grow
grow_fourth = refl

-- When memory is granted and a client has sent so much that each call of `BIO_read` fills the room
-- it is given, the loop of `recv_bio` on a well-formed, empty buffer of 1024 bytes ends, with four rounds
-- at most, all of its 4096 bytes in use, and `recv_bio` then writes the closing zero outside of it.
pub recv_bio_overrun :
    (fuel : ℕ) (m : Memory) (bio : Bio) (b : Buffer)
    → 4 ≤ fuel
    → ((j : ℕ) → m.grants j ≡ true)
    → Floods bio
    → IsValid b
    → b.capacity ≡ 1024
    → b.count ≡ 0
    → (failed : Bool) × (e : Buffer) × (recv_rounds fuel 0 m bio b ≡ some (failed, e))
      × (e.count ≡ 4096)
      × (length e.bytes ≡ 4096)
      × (recv_bio fuel m bio b ≡ none)
unfolding recv_bio
recv_bio_overrun zero m bio b fueled granted floods v size empty = absurd (omega arith)
recv_bio_overrun (suc zero) m bio b fueled granted floods v size empty = absurd (omega arith)
recv_bio_overrun (suc (suc zero)) m bio b fueled granted floods v size empty = absurd (omega arith)
recv_bio_overrun (suc (suc (suc zero))) m bio b fueled granted floods v size empty =
    absurd (omega arith)
recv_bio_overrun (suc (suc (suc (suc fuel)))) m bio b fueled granted floods v size empty =
    let (b1, first, v1) =
      full_round 0 1024 1024 0 (suc (suc (suc fuel))) m bio b granted floods
        (record { valid = v; size = size; used = empty }) grow_first (omega arith) (omega arith)
        (omega arith) (omega arith) in
    let (b2, second, v2) =
      full_round 1 1024 2048 1024 (suc (suc fuel)) m bio b1 granted floods v1 grow_second
        (omega arith) (omega arith) (omega arith) (omega arith) in
    let (b3, third, v3) =
      full_round 2 2048 4096 2048 (suc fuel) m bio b2 granted floods v2 grow_third (omega arith)
        (omega arith) (omega arith) (omega arith) in
    let (e, done, w) =
      ensured 3 4096 4096 4096 m b3 granted v3 grow_fourth (omega arith) (omega arith) in
    let ends =
      first
      ∙ second
      ∙ third
      ∙ last_round fuel 3 m bio b3 e done (omega (arith, w.size)) (
          length_none (bio.reads 3 (e.capacity - e.count))
            (floods 3 (e.capacity - e.count) ∙ omega (arith, w.size, w.used))) in
    (
      bio.failed 3 (e.capacity - e.count),
      e,
      ends,
      w.used,
      w.valid.sized ∙ w.size,
      rw (has_storage b v)
          (>>=_of_some _ ends (close_text_full (bio.failed 3 (e.capacity - e.count)) e w)),
    )
