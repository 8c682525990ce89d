-- ===== src/Loader/Replace/Splice.antt =====
-- `splice` of the model of src/handlers/loader.c: one replacement, byte by byte.
use mathlib.Core.List.{append_assoc}
use wind_breaker.Prelude.{
  ℕ, ◌+◌, ◌-◌, ◌^◌, ◌<◌, ◌≡◌, refl, sym, ◌∙◌, ap, subst, List, [], ◌∷◌, ◌++◌, some, arith, length,
  take, drop, length-append, length-take, lt→ltb, le→leb,
}
use wind_breaker.Prelude.Bytes.{
  overwrite, overwrite_behind, overwrite-append, overwrite_inside, length-overwrite, drop_two,
  drop_front, take_front,
}
use wind_breaker.Buffer.{Buffer}
use wind_breaker.Buffer.Capacity.{IsValid}
use wind_breaker.Loader.Replace.{splice}

-- The buffer holds the string `s` and its zero, and counts its bytes.
pub record Holds (s : List ℕ) (b : Buffer) : Type 0 where
  pub valid : IsValid b
  pub bounded : b.capacity < 2 ^ 31
  pub counted : b.count ≡ length s
  pub rest : List ℕ
  pub split : b.bytes ≡ s ++ (0 ∷ rest)

-- Replacing what stands before `after`, in the order of the code: `after` is copied to its new place,
-- the replacement before it, and a zero behind it.
moved_bytes :
    (replacement after bytes : List ℕ)
    → length replacement + length after < length bytes
    → (rest : List ℕ) × (overwrite
          (length replacement + length after)
          (0 ∷ [])
          (overwrite 0 replacement (overwrite (length replacement) after bytes))
        ≡ replacement ++ (after ++ (0 ∷ rest)))
unfolding overwrite
moved_bytes replacement after bytes room =
    let first : length (take (length replacement) bytes) ≡ length replacement =
      omega (arith, length-take (length replacement) bytes) in
    let behind = drop (length after) (drop (length replacement) bytes) in
    (
      drop 1 behind,
      ap (λ t. overwrite (length replacement + length after) (0 ∷ []) (overwrite 0 replacement t))
            (overwrite_inside (length replacement) after bytes (omega arith))
          ∙ ap (λ t. overwrite (length replacement + length after) (0 ∷ []) t)
              (front_replaced (take (length replacement) bytes) (after ++ behind) first)
          ∙ overwrite-append replacement (length after) (0 ∷ []) (after ++ behind)
          ∙ ap (λ t. replacement ++ t) (overwrite_behind after (0 ∷ []) behind),
    )
  where
    front_replaced :
        (old more : List ℕ)
        → length old ≡ length replacement
        → overwrite 0 replacement (old ++ more) ≡ replacement ++ more
    front_replaced old more e =
        ap (λ t. replacement ++ t)
          (subst (λ n. drop n (old ++ more) ≡ more) e (drop_front old more))

-- The same behind the part before the hit.
spliced_bytes :
    (before replacement after bytes : List ℕ)
    → length replacement + length after < length bytes
    → (rest : List ℕ) × (overwrite (length before + length replacement + length after) (0 ∷ []) (
          overwrite
            (length before)
            replacement
            (overwrite (length before + length replacement) after (before ++ bytes)))
        ≡ before ++ (replacement ++ (after ++ (0 ∷ rest))))
spliced_bytes before replacement after bytes room =
    let (rest, e) = moved_bytes replacement after bytes room in
    let shift : length before + length replacement + length after
        ≡ length before + (length replacement + length after) =
      omega arith in
    let still : length before ≡ length before + 0 = omega arith in
    (
      rest,
      ap
            (λ t.
              overwrite (length before + length replacement + length after) (0 ∷ [])
                (overwrite (length before) replacement t))
            (overwrite-append before (length replacement) after bytes)
          ∙ ap
              (λ n.
                overwrite (length before + length replacement + length after) (0 ∷ [])
                  (overwrite n replacement (before ++ overwrite (length replacement) after bytes)))
              still
          ∙ ap (λ t. overwrite (length before + length replacement + length after) (0 ∷ []) t)
              (overwrite-append before 0 replacement (overwrite (length replacement) after bytes))
          ∙ ap
              (λ n.
                overwrite n (0 ∷ [])
                  (before ++ overwrite 0 replacement (overwrite (length replacement) after bytes)))
              shift
          ∙ overwrite-append before (length replacement + length after) (0 ∷ [])
              (overwrite 0 replacement (overwrite (length replacement) after bytes))
          ∙ ap (λ t. before ++ t) e,
    )

pub length_three : (s t u : List ℕ) → length (s ++ (t ++ u)) ≡ length s + length t + length u
length_three s t u = omega (arith, length-append s (t ++ u), length-append t u)

module _ (before needle after replacement : List ℕ) (b : Buffer)
    (v : Holds (before ++ (needle ++ after)) b)
    (room : length before + length replacement + length after < b.capacity) where
  holds_split : b.bytes ≡ before ++ (needle ++ (after ++ (0 ∷ v.rest)))
  holds_split =
      v.split
      ∙ append_assoc before (needle ++ after) (0 ∷ v.rest)
      ∙ ap (λ t. before ++ t) (append_assoc needle after (0 ∷ v.rest))

  -- What is moved is the part behind the hit.
  moved-after :
      take
        (b.count - (length before + length needle))
        (drop (length before + length needle) b.bytes)
      ≡ after
  moved-after =
      ap
        (λ t.
          take (b.count - (length before + length needle)) (drop (length before + length needle) t))
        holds_split
      ∙ ap (λ t. take (b.count - (length before + length needle)) t)
          (drop_two before needle (after ++ (0 ∷ v.rest)))
      ∙ ap (λ n. take n (after ++ (0 ∷ v.rest)))
          (omega (arith, v.counted, length_three before needle after))
      ∙ take_front after (0 ∷ v.rest)

  -- The bytes that the code makes, and how many they are.
  abbrev made : List ℕ
  made = overwrite (length before + length replacement + length after) (0 ∷ []) (
      overwrite (length before) replacement
        (overwrite (length before + length replacement) after b.bytes))

  length-made : length made ≡ b.capacity
  length-made =
      let first = overwrite (length before + length replacement) after b.bytes in
      let first_length : length first ≡ length b.bytes =
        length-overwrite (length before + length replacement) after b.bytes
          (omega (arith, v.valid.sized)) in
      let second = overwrite (length before) replacement first in
      let second_length : length second ≡ length first =
        length-overwrite (length before) replacement first
          (omega (arith, first_length, v.valid.sized)) in
      length-overwrite (length before + length replacement + length after) (0 ∷ []) second
        (omega (arith, first_length, second_length, v.valid.sized))
      ∙ second_length
      ∙ first_length
      ∙ v.valid.sized

  made_text : (rest : List ℕ) × (made ≡ before ++ (replacement ++ (after ++ (0 ∷ rest))))
  made_text =
      let whole : length (before ++ (needle ++ (after ++ (0 ∷ v.rest)))) ≡ b.capacity =
        sym (ap length holds_split) ∙ v.valid.sized in
      let (rest, e) =
        spliced_bytes before replacement after (needle ++ (after ++ (0 ∷ v.rest)))
          (omega (arith, length-append before (needle ++ (after ++ (0 ∷ v.rest))))) in
      (
        rest,
        ap
              (λ t. overwrite (length before + length replacement + length after) (0 ∷ []) (
                overwrite (length before) replacement
                  (overwrite (length before + length replacement) after t)))
              holds_split
            ∙ e,
      )

  pub splice_lem :
      (b' : Buffer) × (splice (length before) (length needle) replacement b ≡ some b')
      × Holds (before ++ (replacement ++ after)) b'
  unfolding splice
  splice_lem =
      let long = length_three before needle after in
      let moved : b.count - (length before + length needle) ≡ length after =
        omega (arith, v.counted) in
      (
        record b { count = length before + length replacement + length after; bytes = made },
        rw
            (
              le→leb (length before + length needle) b.count (omega (arith, v.counted)),
              le→leb b.count (length b.bytes) (omega (arith, v.valid.used, v.valid.sized)),
              moved-after,
              moved,
              lt→ltb (length before + length replacement + length after) (length b.bytes)
                  (omega (arith, v.valid.sized)),
            )
            refl,
        record {
          valid = record { sized = length-made; used = omega arith };
          bounded = v.bounded;
          counted = sym (length_three before replacement after);
          rest = made_text.0;
          split =
              made_text.1
              ∙ ap (λ t. before ++ t) (sym (append_assoc replacement after (0 ∷ made_text.0)))
              ∙ sym (append_assoc before (replacement ++ after) (0 ∷ made_text.0));
        },
      )
