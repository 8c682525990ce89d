-- ===== src/Response/Print/Text.antt =====
-- The text that `to_string` of src/http/response.c prints piece by piece.
use mathlib.Core.List.{append_assoc}
use native.Mathlib.Nat.{mod-eq_of_lt}
use wind_breaker.Prelude.{
  ℕ, ◌+◌, ◌-◌, ◌^◌, ◌≤◌, ◌<◌, ◌≡◌, refl, sym, ◌∙◌, ap, true, List, [], ◌∷◌, ◌++◌, some, arith,
  length, take, drop, take_all, length-append, ◌⊎◌, lt→ltb, le→ltb, ne→==,
}
use wind_breaker.Buffer.{Buffer, Memory}
use wind_breaker.Buffer.Capacity.{IsValid, Ensured, ensure_capacity_lem}
use wind_breaker.Prelude.Bytes.{overwrite_behind, same_length}
use wind_breaker.Response.Print.{print_at, line, print_with}

-- The buffer is well formed and its first bytes are `s`.
pub record Starts (s : List ℕ) (b : Buffer) : Type 0 where
  pub valid : IsValid b
  pub bounded : b.capacity < 2 ^ 31
  pub rest : List ℕ
  pub split : b.bytes ≡ s ++ rest

-- `snprintf` behind `s` with room for the text and its zero.
pub print_at_lem :
    (s text : List ℕ) (b : Buffer)
    → Starts s b
    → length s + length text < b.capacity
    → (b' : Buffer) × (print_at (length s) text b ≡ some b')
      × Starts (s ++ text) b'
      × (b'.capacity ≡ b.capacity)
unfolding print_at
print_at_lem s text b v h =
    let whole : take (b.capacity - length s - 1) text ≡ text = take_all _ text (omega arith) in
    let total : length b.bytes ≡ length (s ++ v.rest) = ap length v.split in
    (
      record b { bytes = s ++ (text ++ (0 ∷ []) ++ drop (length (text ++ (0 ∷ []))) v.rest) },
      rw
          (
            le→ltb (length s) b.capacity (omega arith),
            ne→== b.capacity (length s) (omega arith),
            whole,
            v.split,
            overwrite_behind s (text ++ (0 ∷ [])) v.rest,
          )
          refl,
      record {
        valid = record {
          sized =
              same_length s (text ++ (0 ∷ [])) v.rest (
                omega (
                  arith,
                  length-append text (0 ∷ []),
                  length-append s v.rest,
                  total,
                  v.valid.sized,
                ))
              ∙ sym total
              ∙ v.valid.sized;
          used = v.valid.used;
        };
        bounded = v.bounded;
        rest = (0 ∷ []) ++ drop (length (text ++ (0 ∷ []))) v.rest;
        split =
            ap (λ t. s ++ t) (append_assoc text (0 ∷ []) (drop (length (text ++ (0 ∷ []))) v.rest))
            ∙ sym (append_assoc s text ((0 ∷ []) ++ drop (length (text ++ (0 ∷ []))) v.rest));
      },
      refl,
    )

pub Starts-Ensured :
    (s : List ℕ) (b b' : Buffer) (wanted : ℕ) → Starts s b → Ensured wanted b b' → Starts s b'
Starts-Ensured s b b' wanted v q = record {
  valid = q.valid;
  bounded = q.bounded;
  rest = v.rest ++ q.kept.0;
  split = q.kept.1 ∙ ap (λ t. t ++ q.kept.0) v.split ∙ append_assoc s v.rest q.kept.0;
}

-- One piece of the text: room is asked for, and the text follows what is there.
pub print_with_lem :
    (m : Memory) (s text : List ℕ) (b : Buffer) (room : ℕ)
    → Starts s b
    → length s + room ≤ 2 ^ 30
    → length text ≤ room
    → length s + length text < b.capacity ⊎ length text < room
    → ((k : ℕ) → m.grants k ≡ true)
    → (b' : Buffer) × (print_with m (length s + room) text (b, length s)
        ≡ some (b', length (s ++ text)))
      × Starts (s ++ text) b'
      × (b.capacity ≤ b'.capacity)
      × (length s + room ≤ b'.capacity)
unfolding print_with
print_with_lem m s text b room v limit fits more granted =
    let (e, done, q) = ensure_capacity_lem m b (length s + room) v.valid v.bounded limit granted in
    let grown : b.capacity ≤ e.capacity =
      omega
        (arith, v.valid.sized, q.valid.sized, ap length q.kept.1, length-append b.bytes q.kept.0) in
    let (b', printed, w, same) =
      print_at_lem s text e (Starts-Ensured s b e (length s + room) v q)
        (omega (arith, q.enough, more, fits)) in
    (
      b',
      rw done (
          rw (lt→ltb 0 e.capacity (omega (arith, q.enough, more))) (
            rw printed (
              rw
                (
                  mod-eq_of_lt {n = length s + length text} {m = 2 ^ 32} (omega arith),
                  length-append s text,
                )
                refl))),
      w,
      omega arith,
      omega (arith, q.enough),
    )

-- The same for a sum that fits 32 bits.
pub line-eq-print_with :
    (m : Memory) (s text : List ℕ) (b : Buffer) (room : ℕ)
    → length s + room ≤ 2 ^ 30
    → line m room text (b, length s) ≡ print_with m (length s + room) text (b, length s)
unfolding line
line-eq-print_with m s text b room limit =
    ap (λ k. print_with m k text (b, length s))
      (mod-eq_of_lt {n = length s + room} {m = 2 ^ 32} (omega arith))
