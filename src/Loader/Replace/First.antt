-- ===== src/Loader/Replace/First.antt =====
-- `str_replace` of src/handlers/loader.c where the placeholder stands once.
use mathlib.Core.List.{append_assoc}
use mathlib.Core.Option.{some_inj}
use wind_breaker.Prelude.{
  ℕ, zero, suc, ◌+◌, ◌-◌, ◌^◌, ◌≤◌, ◌<◌, ◌≡◌, refl, sym, ◌∙◌, ap, subst, true, false, List, [], ◌∷◌,
  ◌++◌, none, some, arith, length, take, drop, leb, length-append, lt→ltb, Bool-cases, Option-cases,
  inl, inr,
}
use wind_breaker.Prelude.Fault.{>>=_of_some}
use wind_breaker.Prelude.Text.{starts_with}
use wind_breaker.Prelude.Text.Laws.{starts_with-append}
use wind_breaker.Prelude.Bytes.{IsText, terminated_text, drop_two, terminated, find, take_front}
use wind_breaker.Buffer.{Buffer, Memory}
use wind_breaker.Buffer.Capacity.{ensure_capacity_lem}
use wind_breaker.Loader.Replace.{make_room, splice, replace_rounds, str_replace}
use wind_breaker.Loader.Replace.Splice.{Holds, length_three, splice_lem}

-- The string with the first copy of `needle` replaced.
pub replace_first : List ℕ → List ℕ → List ℕ → List ℕ
replace_first needle replacement s = elim (find needle s) [
  | none ↦ s
  | some k ↦ take k s ++ (replacement ++ drop (k + length needle) s)
]

-- Room for the replacement.
make_room_lem :
    (m : Memory) (s : List ℕ) (n k : ℕ) (b : Buffer)
    → ((j : ℕ) → m.grants j ≡ true)
    → Holds s b
    → n ≤ length s
    → length s + k < 2 ^ 30
    → (b' : Buffer) × (make_room m n k b ≡ some b') × Holds s b' × (length s - n + k < b'.capacity)
unfolding make_room
make_room_lem m s n k b granted v small limit = elim (Bool-cases (leb n k)) [
  | inl grows ↦
      let (e, done, q) =
        ensure_capacity_lem m b (b.count + (k - n) + 1) v.valid v.bounded (omega (arith, v.counted))
          granted in
      (
        e,
        rw (grows, done) (rw (lt→ltb 0 e.capacity (omega (arith, q.enough))) refl),
        record {
          valid = q.valid;
          bounded = q.bounded;
          counted = q.same_count ∙ v.counted;
          rest = v.rest ++ q.kept.0;
          split = q.kept.1 ∙ ap (λ t. t ++ q.kept.0) v.split ∙ append_assoc s (0 ∷ v.rest) q.kept.0;
        },
        ground (arith, q.enough, v.counted, grows),
      )
  | inr fits ↦ (
    b,
    rw fits refl,
    v,
    ground (arith, fits, ap length v.split, length-append s (0 ∷ v.rest), v.valid.sized),
  )
]

right_part-IsText : (s t : List ℕ) → IsText (s ++ t) → IsText t
right_part-IsText [] t h = h
right_part-IsText (c ∷ s) t (h, hs) = right_part-IsText s t hs

drop-nil : (n : ℕ) → drop {A = ℕ} n [] ≡ []
drop-nil zero = refl
drop-nil (suc n) = refl

-- A string in which `find` finds the needle, in parts.
find-split :
    (needle s : List ℕ) (k : ℕ)
    → find needle s ≡ some k
    → (before : List ℕ) × (after : List ℕ) × (s ≡ before ++ (needle ++ after)) × (length before ≡ k)
unfolding find
find-split needle [] k h = elim (Bool-cases (starts_with needle [])) [
  | inl e ↦ (
    [],
    [],
    starts_with-append needle [] e ∙ ap (λ t. needle ++ t) (drop-nil (length needle)),
    some_inj.0 (rw (e, find) at h),
  )
  | inr e ↦ absurd (cc (rw (e, find) at h))
]
find-split needle (c ∷ s) k h = elim (Bool-cases (starts_with needle (c ∷ s))) [
  | inl e ↦ (
    [],
    drop (length needle) (c ∷ s),
    starts_with-append needle (c ∷ s) e,
    some_inj.0 (rw (e, find) at h),
  )
  | inr e ↦ elim (Option-cases (find needle s)) [
    | inl f ↦ absurd (cc (rw (e, f, find) at h))
    | inr (j, f) ↦
        let (before, after, split, long) = find-split needle s j f in
        (c ∷ before, after, ap (◌∷◌ c) split, ap suc long ∙ some_inj.0 (rw (e, f, find) at h))
  ]
]

module _ (m : Memory) (needle replacement before after : List ℕ) (b : Buffer)
    (granted : (j : ℕ) → m.grants j ≡ true) (v : Holds (before ++ (needle ++ after)) b)
    (t : IsText (before ++ (needle ++ after)))
    (found : find needle (before ++ (needle ++ after)) ≡ some (length before))
    (single : find needle after ≡ none)
    (limit : length (before ++ (needle ++ after)) + length replacement < 2 ^ 30) where
  -- The round behind the replacement finds nothing.
  last_round :
      (n : ℕ) (b' : Buffer)
      → Holds (before ++ (replacement ++ after)) b'
      → replace_rounds
          (suc n)
          false
          (0 + (0 + length before) + length replacement)
          m
          needle
          replacement
          b'
        ≡ some b'
  unfolding replace_rounds
  last_round n b' w =
      let at : drop (0 + (0 + length before) + length replacement) b'.bytes
          ≡ after ++ (0 ∷ w.rest) =
        ap (λ k. drop k b'.bytes) (omega arith)
        ∙ ap (λ u. drop (length before + length replacement) u)
            (w.split
              ∙ append_assoc before (replacement ++ after) (0 ∷ w.rest)
              ∙ ap (λ u. before ++ u) (append_assoc replacement after (0 ∷ w.rest)))
        ∙ drop_two before replacement (after ++ (0 ∷ w.rest)) in
      >>=_of_some _
        (ap terminated at
          ∙ terminated_text after w.rest
              (right_part-IsText needle after (right_part-IsText before (needle ++ after) t)))
        (rw single refl)

  replaced :
      (b' : Buffer) × (str_replace m needle replacement b ≡ some b')
      × Holds (before ++ (replacement ++ after)) b'
  unfolding str_replace replace_rounds
  replaced =
      let whole = before ++ (needle ++ after) in
      let long = length_three before needle after in
      let (roomy, made, held, room) =
        make_room_lem m whole (length needle) (length replacement) b granted v (omega arith)
          limit in
      let (b', spliced, w) = splice_lem before needle after replacement roomy held (omega arith) in
      (
        b',
        >>=_of_some _ (ap terminated v.split ∙ terminated_text whole v.rest t) (
            rw found (
              >>=_of_some _ made (
                >>=_of_some _
                  (ap (λ k. splice k (length needle) replacement roomy) (omega arith) ∙ spliced)
                  (last_round 8 b' w)))),
        w,
      )

replace_first-split :
    (needle replacement before after : List ℕ)
    → find needle (before ++ (needle ++ after)) ≡ some (length before)
    → replace_first needle replacement (before ++ (needle ++ after))
      ≡ before ++ (replacement ++ after)
unfolding replace_first
replace_first-split needle replacement before after found =
    rw (found, replace_first)
      (ap
          (λ u.
            u
            ++ (replacement ++ drop (length before + length needle) (before ++ (needle ++ after))))
          (take_front before (needle ++ after))
        ∙ ap (λ u. before ++ (replacement ++ u)) (drop_two before needle after))

-- When memory is granted, and a buffer of less than 2 ^ 31 bytes holds a string with exactly one copy
-- of the placeholder that the search can find, `str_replace` ends without a failed assertion or an
-- access out of range, and the buffer then holds the string with the copy replaced, whole.
pub str_replace_lem :
    (m : Memory) (needle replacement s : List ℕ) (k : ℕ) (b : Buffer)
    → ((j : ℕ) → m.grants j ≡ true)
    → Holds s b
    → IsText s
    → find needle s ≡ some k
    → find needle (drop (k + length needle) s) ≡ none
    → length s + length replacement < 2 ^ 30
    → (b' : Buffer) × (str_replace m needle replacement b ≡ some b')
      × Holds (replace_first needle replacement s) b'
str_replace_lem m needle replacement s k b granted v t found single limit =
    let (before, after, split, long) = find-split needle s k found in
    let found' : find needle (before ++ (needle ++ after)) ≡ some (length before) =
      subst (λ u. find needle u ≡ some (length before)) split (found ∙ ap some (sym long)) in
    let rest : drop (k + length needle) s ≡ after =
      ap (λ n. drop (n + length needle) s) (sym long)
      ∙ ap (λ u. drop (length before + length needle) u) split
      ∙ drop_two before needle after in
    let (b', e, w) =
      replaced m needle replacement before after b granted (subst (λ u. Holds u b) split v)
        (subst IsText split t) found' (ap (find needle) (sym rest) ∙ single)
        (subst (λ u. length u + length replacement < 2 ^ 30) split limit) in
    (
      b',
      e,
      subst (λ u. Holds u b')
          (sym (
            ap (replace_first needle replacement) split
            ∙ replace_first-split needle replacement before after found'))
          w,
    )
