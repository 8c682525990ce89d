-- ===== src/Buffer/Capacity.antt =====
-- The growth of a buffer in src/data_structures/buffer.c.
use native.Mathlib.Nat.{pow-suc, mod-eq_of_lt}
use mathlib.Core.List.{append-nil}
use wind_breaker.Prelude.{
  ℕ, zero, suc, ◌-◌, ◌*◌, ◌^◌, ◌≤◌, ◌<◌, ◌≡◌, refl, true, false, some, arith, ltb, Bool-cases, inl,
  inr, List, [], ◌∷◌, ◌++◌, length, take, drop, length-append, length-take, length-drop, ltb→le,
  lt→ltb, ◌⊎◌, ap, dec_lt, ◌∙◌, sym,
}
use wind_breaker.Prelude.Int.{pos, to_int}
use wind_breaker.Buffer.{
  Buffer, Memory, default_size, grow, grow_fuel, fresh, resize, ensure_capacity, copy_buffer,
}

-- A buffer as `init_buffer` makes it: `bytes` has `capacity` bytes, of which `count` are in use.
pub record IsValid (b : Buffer) : Type 0 where
  pub sized : length b.bytes ≡ b.capacity
  pub used : b.count ≤ b.capacity

grow_enough :
    (fuel capacity wanted : ℕ) → wanted ≤ capacity → grow (suc fuel) capacity wanted ≡ some capacity
unfolding grow
grow_enough fuel capacity wanted h = ground arith

grow_small :
    (fuel capacity wanted : ℕ)
    → capacity < wanted
    → capacity < default_size
    → grow (suc fuel) capacity wanted ≡ grow fuel default_size wanted
unfolding grow
grow_small fuel capacity wanted h d = rw (lt→ltb _ _ h, lt→ltb _ _ d)

grow_twice :
    (fuel capacity wanted : ℕ)
    → capacity < wanted
    → default_size ≤ capacity
    → capacity < 2 ^ 63
    → grow (suc fuel) capacity wanted ≡ grow fuel (capacity * 2) wanted
unfolding grow
grow_twice fuel capacity wanted h d l =
    rw (lt→ltb _ _ h, not_small) (ap (λ c. grow fuel c wanted) (omega arith))
  where
    not_small : ltb capacity default_size ≡ false
    not_small = ground arith

-- What growing from `capacity` for `wanted` bytes may end at.
abbrev pub Grown : ℕ → ℕ → ℕ → Type 0
Grown capacity wanted n =
    (wanted ≤ n) × (capacity ≤ n) × ((n ≡ capacity) ⊎ (n ≤ default_size) ⊎ (n < 2 * wanted))

-- Doubling, from a capacity that is not below the default.
grow_doubling :
    (fuel capacity wanted : ℕ)
    → default_size ≤ capacity
    → wanted ≤ 2 ^ 63
    → wanted ≤ capacity * 2 ^ fuel
    → (n : ℕ) × (grow (suc fuel) capacity wanted ≡ some n) × Grown capacity wanted n
grow_doubling zero capacity wanted d l h =
    (capacity, grow_enough 0 capacity wanted (omega arith), omega arith)
grow_doubling (suc fuel) capacity wanted d l h = elim (dec_lt capacity wanted) [
  | no enough ↦ (capacity, grow_enough (suc fuel) capacity wanted (omega arith), omega arith)
  | yes more ↦
      let (n, e, g) =
        grow_doubling fuel (capacity * 2) wanted (omega arith) l
          (omega (arith, ap (λ t. capacity * t) (pow-suc 2 fuel))) in
      (n, grow_twice (suc fuel) capacity wanted more d (omega arith) ∙ e, omega arith)
]

-- From any capacity, 64 rounds are enough for every request of up to 2 ^ 63 bytes. The capacity at the
-- end is at least what was wanted and at least the old one; it is the old one, or at most 1024, or less
-- than twice what was wanted.
pub grow_total :
    (capacity wanted : ℕ)
    → wanted ≤ 2 ^ 63
    → (n : ℕ) × (grow grow_fuel capacity wanted ≡ some n) × Grown capacity wanted n
grow_total capacity wanted l = elim (dec_lt capacity wanted) [
  | no enough ↦ (capacity, grow_enough 63 capacity wanted (omega arith), omega arith)
  | yes more ↦ elim (dec_lt capacity default_size) [
    | yes small ↦
        let (n, e, g) = grow_doubling 62 default_size wanted (omega arith) l (omega arith) in
        (n, grow_small 63 capacity wanted more small ∙ e, omega arith)
    | no large ↦ grow_doubling 63 capacity wanted (omega arith) l (grind arith)
  ]
]

length-fresh : (junk : ℕ → ℕ) (at n : ℕ) → length (fresh junk at n) ≡ n
length-fresh junk at zero = refl
length-fresh junk at (suc n) = ap suc (length-fresh junk (suc at) n)

to_int_small : (n : ℕ) → n < 2 ^ 31 → to_int n ≡ pos n
to_int_small n h = rw (mod-eq_of_lt {n = n} {m = 2 ^ 32} (omega arith), lt→ltb n (2 ^ 31) h)

-- What `ensure_capacity_` leaves of a valid buffer.
pub record Ensured (wanted : ℕ) (b b' : Buffer) : Type 0 where
  pub valid : IsValid b'
  pub enough : wanted ≤ b'.capacity
  pub same_count : b'.count ≡ b.count
  pub bounded : b'.capacity < 2 ^ 31
  pub kept : (t : List ℕ) × (b'.bytes ≡ b.bytes ++ t)

resize_lem :
    (m : Memory) (b : Buffer) (wanted n : ℕ)
    → IsValid b
    → b.capacity < 2 ^ 31
    → wanted ≤ 2 ^ 30
    → ((k : ℕ) → m.grants k ≡ true)
    → Grown b.capacity wanted n
    → (b' : Buffer) × (resize m b n ≡ (pos b'.capacity, b')) × Ensured wanted b b'
unfolding resize
resize_lem m b wanted n v small limit granted g = elim (Bool-cases (ltb b.capacity n)) [
  | inl e ↦ (
    record {
      capacity = n;
      count = b.count;
      bytes = b.bytes ++ fresh m.junk b.capacity (n - b.capacity);
    },
    rw (e, granted n, to_int_small n (omega arith)),
    record {
      valid = record {
        sized = omega (
          arith,
          v.sized,
          length-append b.bytes (fresh m.junk b.capacity (n - b.capacity)),
          length-fresh m.junk b.capacity (n - b.capacity),
        );
        used = omega (arith, v.used);
      };
      enough = omega arith;
      same_count = refl;
      bounded = omega arith;
      kept = (fresh m.junk b.capacity (n - b.capacity), refl);
    },
  )
  | inr e ↦ (
    b,
    rw (e, to_int_small b.capacity small),
    record {
      valid = v;
      enough = omega (arith, ltb→le b.capacity n e);
      same_count = refl;
      bounded = small;
      kept = ([], sym (append-nil b.bytes));
    },
  )
]

-- On a valid buffer of less than 2 ^ 31 bytes, when memory is granted, `ensure_capacity_` ends for
-- every request up to 2 ^ 30 bytes and returns the positive new capacity. The buffer is then valid,
-- holds at least `wanted` bytes of storage, and keeps its count and all its old bytes in front.
pub ensure_capacity_lem :
    (m : Memory) (b : Buffer) (wanted : ℕ)
    → IsValid b
    → b.capacity < 2 ^ 31
    → wanted ≤ 2 ^ 30
    → ((k : ℕ) → m.grants k ≡ true)
    → (b' : Buffer) × (ensure_capacity m b wanted ≡ some (pos b'.capacity, b'))
      × Ensured wanted b b'
unfolding ensure_capacity
ensure_capacity_lem m b wanted v small limit granted =
    let (n, e, g) = grow_total b.capacity wanted (omega arith) in
    let (b', e', q) = resize_lem m b wanted n v small limit granted g in
    (b', rw (e, ensure_capacity) (ap some e'), q)

-- Under the same conditions `copy_buffer` returns the number of bytes of the source, and leaves a
-- valid destination whose bytes in use are those of the source.
pub copy_buffer_lem :
    (m : Memory) (dest src : Buffer)
    → IsValid dest
    → IsValid src
    → dest.capacity < 2 ^ 31
    → src.count ≤ 2 ^ 30
    → ((k : ℕ) → m.grants k ≡ true)
    → (d : Buffer) × (copy_buffer m dest src ≡ some (pos src.count, d))
      × IsValid d
      × (d.count ≡ src.count)
      × (take d.count d.bytes ≡ take src.count src.bytes)
unfolding copy_buffer
copy_buffer_lem m dest src v w small limit granted =
    let (b', e, q) = ensure_capacity_lem m dest src.count v small limit granted in
    (
      record {
        capacity = b'.capacity;
        count = src.count;
        bytes = take src.count src.bytes ++ drop src.count b'.bytes;
      },
      rw (e, copy_buffer) (rw (to_int_small src.count (omega arith))),
      record {
        sized = omega (
          arith,
          length-append (take src.count src.bytes) (drop src.count b'.bytes),
          length-take src.count src.bytes,
          length-drop src.count b'.bytes,
          q.valid.sized,
          q.enough,
          w.sized,
          w.used,
        );
        used = q.enough;
      },
      refl,
      take_front src.count (take src.count src.bytes) (drop src.count b'.bytes)
          (omega (arith, length-take src.count src.bytes, w.sized, w.used)),
    )
  where
    take_front : (n : ℕ) (xs ys : List ℕ) → length xs ≡ n → take n (xs ++ ys) ≡ xs
    take_front zero [] ys e = refl
    take_front zero (x ∷ xs) ys e = absurd (omega arith)
    take_front (suc n) [] ys e = absurd (omega arith)
    take_front (suc n) (x ∷ xs) ys e = ap (◌∷◌ x) (take_front n xs ys (omega arith))
