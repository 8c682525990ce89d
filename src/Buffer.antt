-- ===== src/Buffer.antt =====
-- src/data_structures/buffer.c: a growing array of bytes.
-- `malloc` and `realloc` are the parameter `Memory`: which requests they grant, and what they find
-- in fresh bytes. A null `data` is the empty list.
pub mod Capacity
use wind_breaker.Prelude.{
  ℕ, zero, suc, ◌+◌, ◌-◌, ◌*◌, ◌%◌, ◌^◌, Bool, true, false, List, [], ◌∷◌, ◌++◌, Option, none, some,
  ltb, if◌then◌else◌, length, take, drop, replicate,
}
use wind_breaker.Prelude.Int.{ℤ, negsuc, to_int, is_negative}

pub record Buffer : Type 0 where
  pub capacity : ℕ
  pub count : ℕ
  pub bytes : List ℕ

pub record Memory : Type 0 where
  pub grants : ℕ → Bool
  pub junk : ℕ → ℕ

abbrev pub default_size : ℕ
default_size = 1024

-- `init_buffer`; the memory comes from `calloc`.
unfoldable pub init_buffer : Memory → ℕ → Option Buffer
init_buffer m initial =
    let capacity : ℕ = if ltb initial default_size then default_size else initial in
    if m.grants capacity
    then some (record { capacity = capacity; count = 0; bytes = replicate capacity 0 })
    else none

-- `deinit_buffer` gives the storage back.
abbrev pub deinit_buffer : Buffer → Buffer
deinit_buffer b = record { capacity = 0; count = 0; bytes = [] }

-- The loop of `ensure_capacity_`, on fuel.
unfoldable pub grow : ℕ → ℕ → ℕ → Option ℕ
grow zero capacity wanted = none
grow (suc fuel) capacity wanted =
    let rest =
      grow fuel (if ltb capacity default_size then default_size else capacity * 2 % 2 ^ 64)
        wanted in
    if ltb capacity wanted then rest else some capacity

-- `realloc`: the old bytes stay, and the new ones hold anything.
abbrev pub fresh : (ℕ → ℕ) → ℕ → ℕ → List ℕ
fresh junk at zero = []
fresh junk at (suc n) = junk at ∷ fresh junk (suc at) n

abbrev pub grow_fuel : ℕ
grow_fuel = 64

resize : Memory → Buffer → ℕ → ℤ × Buffer
resize m b capacity =
    if ltb b.capacity capacity
    then (if m.grants capacity
        then (
          to_int capacity,
          record {
            capacity = capacity;
            count = b.count;
            bytes = b.bytes ++ fresh m.junk b.capacity (capacity - b.capacity);
          },
        )
        else (negsuc 0, record { capacity = capacity; count = b.count; bytes = [] }))
    else (to_int b.capacity, b)

-- `ensure_capacity_`: the value it returns, and the buffer it leaves. `none` if the loop does not
-- come to an end.
unfoldable pub ensure_capacity : Memory → Buffer → ℕ → Option (ℤ × Buffer)
unfolding grow resize
ensure_capacity m b wanted = elim (grow grow_fuel b.capacity wanted) [
  | none ↦ none
  | some capacity ↦ some (resize m b capacity)
]

copied : Buffer → ℤ × Buffer → ℤ × Buffer
copied src (r, d) = if is_negative r then (negsuc 0, d) else (
  to_int src.count,
  record {
    capacity = d.capacity;
    count = src.count;
    bytes = take src.count src.bytes ++ drop src.count d.bytes;
  },
)

-- `copy_buffer`.
unfoldable pub copy_buffer : Memory → Buffer → Buffer → Option (ℤ × Buffer)
unfolding copied
copy_buffer m dest src = elim (ensure_capacity m dest src.count) [
  | none ↦ none
  | some r ↦ some (copied src r)
]
