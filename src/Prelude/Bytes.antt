-- ===== src/Prelude/Bytes.antt =====
-- C strings inside arrays of bytes: copying, the closing zero, and the search for a string.
use Prim.Native.Nat.{ℕ, zero, suc, ◌+◌, ◌≤◌, ◌<◌}
use mathlib.Core.Path.{◌≡◌, refl, ap, sym, ◌∙◌}
use mathlib.Core.Logic.{◌≢◌}
use mathlib.Core.List.{List, [], ◌∷◌, ◌++◌, append_assoc}
use mathlib.Core.Option.{Option, none, some, map}
use native.Mathlib.Nat.{zero-add, suc-add}
use native.Mathlib.Omega.{arith}
use wind_breaker.Prelude.Tests.{◌==◌, if◌then◌else◌, ne→==}
use wind_breaker.Prelude.Lists.{length, take, drop, length-append, length-drop}
use wind_breaker.Prelude.Text.{starts_with}

-- `memcpy` of `text` to position `at`.
unfoldable pub overwrite : ℕ → List ℕ → List ℕ → List ℕ
overwrite zero text bytes = text ++ drop (length text) bytes
overwrite (suc at) text [] = []
overwrite (suc at) text (b ∷ bytes) = b ∷ overwrite at text bytes

pub overwrite_behind :
    (s text rest : List ℕ)
    → overwrite (length s) text (s ++ rest) ≡ s ++ (text ++ drop (length text) rest)
unfolding overwrite
overwrite_behind [] text rest = refl
overwrite_behind (c ∷ s) text rest = ap (◌∷◌ c) (overwrite_behind s text rest)

pub same_length :
    (s u rest : List ℕ)
    → length s + length u ≤ length (s ++ rest)
    → length (s ++ (u ++ drop (length u) rest)) ≡ length (s ++ rest)
same_length s u rest h = omega (
  arith,
  length-append s (u ++ drop (length u) rest),
  length-append u (drop (length u) rest),
  length-drop (length u) rest,
  length-append s rest,
)

pub take_front : (s rest : List ℕ) → take (length s) (s ++ rest) ≡ s
take_front [] rest = refl
take_front (c ∷ s) rest = ap (◌∷◌ c) (take_front s rest)

pub drop_front : (s rest : List ℕ) → drop (length s) (s ++ rest) ≡ rest
drop_front [] rest = refl
drop_front (c ∷ s) rest = drop_front s rest

pub length-overwrite :
    (at : ℕ) (text bytes : List ℕ)
    → at + length text ≤ length bytes
    → length (overwrite at text bytes) ≡ length bytes
unfolding overwrite
length-overwrite zero text bytes h =
    omega (arith, length-append text (drop (length text) bytes), length-drop (length text) bytes)
length-overwrite (suc at) text [] h = refl
length-overwrite (suc at) text (b ∷ bytes) h = ap suc (length-overwrite at text bytes (omega arith))

-- A copy behind a prefix, and one inside an array.
pub overwrite-append :
    (s : List ℕ) (n : ℕ) (text bytes : List ℕ)
    → overwrite (length s + n) text (s ++ bytes) ≡ s ++ overwrite n text bytes
unfolding overwrite
overwrite-append [] n text bytes = rw (zero-add n) refl
overwrite-append (c ∷ s) n text bytes =
    rw (suc-add (length s) n) (ap (◌∷◌ c) (overwrite-append s n text bytes))

pub overwrite_inside :
    (n : ℕ) (text bytes : List ℕ)
    → n ≤ length bytes
    → overwrite n text bytes ≡ take n bytes ++ (text ++ drop (length text) (drop n bytes))
unfolding overwrite
overwrite_inside zero text bytes h = refl
overwrite_inside (suc n) text [] h = absurd (omega arith)
overwrite_inside (suc n) text (b ∷ bytes) h =
    ap (◌∷◌ b) (overwrite_inside n text bytes (omega arith))

pub drop_two : (s t rest : List ℕ) → drop (length s + length t) (s ++ (t ++ rest)) ≡ rest
drop_two [] t rest = rw (zero-add (length t)) (drop_front t rest)
drop_two (c ∷ s) t rest = rw (suc-add (length s) (length t)) (drop_two s t rest)

pub drop-drop : (m n : ℕ) (xs : List ℕ) → drop m (drop n xs) ≡ drop (n + m) xs
drop-drop m zero xs = rw (zero-add m) refl
drop-drop m (suc n) [] = rw (suc-add n m) (drop-nil m)
  where
    drop-nil : (k : ℕ) → ◌≡◌ {A = List ℕ} (drop k []) []
    drop-nil zero = refl
    drop-nil (suc k) = refl
drop-drop m (suc n) (x ∷ xs) = rw (suc-add n m) (drop-drop m n xs)

pub length_ended : (s : List ℕ) → length (s ++ (0 ∷ [])) ≡ suc (length s)
length_ended s = omega (arith, length-append s (0 ∷ []))

-- A text printed over the zero of another continues it.
pub overwrite_continued :
    (start : ℕ) (t s bytes : List ℕ)
    → start + length t + length s < length bytes
    → overwrite (start + length t) (s ++ (0 ∷ [])) (overwrite start (t ++ (0 ∷ [])) bytes)
      ≡ overwrite start ((t ++ s) ++ (0 ∷ [])) bytes
unfolding overwrite
overwrite_continued zero t s bytes h =
    ap (λ (n : ℕ). overwrite n (s ++ (0 ∷ [])) (overwrite zero (t ++ (0 ∷ [])) bytes))
      (zero-add (length t))
    ∙ ap (overwrite (length t) (s ++ (0 ∷ [])))
        (append_assoc t (0 ∷ []) (drop (length (t ++ (0 ∷ []))) bytes))
    ∙ overwrite_behind t (s ++ (0 ∷ [])) (0 ∷ drop (length (t ++ (0 ∷ []))) bytes)
    ∙ ap (λ xs. t ++ ((s ++ (0 ∷ [])) ++ xs)) same_rest
    ∙ sym (append_assoc t (s ++ (0 ∷ [])) _)
    ∙ ap (λ xs. xs ++ drop (length ((t ++ s) ++ (0 ∷ []))) bytes) (sym (append_assoc t s (0 ∷ [])))
  where
    same_rest :
        drop (length (s ++ (0 ∷ []))) (0 ∷ drop (length (t ++ (0 ∷ []))) bytes)
        ≡ drop (length ((t ++ s) ++ (0 ∷ []))) bytes
    same_rest =
        ap (λ (n : ℕ). drop n (0 ∷ drop (length (t ++ (0 ∷ []))) bytes)) (length_ended s)
        ∙ drop-drop (length s) (length (t ++ (0 ∷ []))) bytes
        ∙ ap (λ (n : ℕ). drop n bytes)
            (omega (arith, length_ended t, length_ended (t ++ s), length-append t s))
overwrite_continued (suc start) t s [] h = absurd (omega arith)
overwrite_continued (suc start) t s (b ∷ bytes) h =
    rw (suc-add start (length t)) (ap (◌∷◌ b) (overwrite_continued start t s bytes (omega arith)))

-- The string that the bytes hold; `none` if no zero ends it.
unfoldable pub terminated : List ℕ → Option (List ℕ)
terminated [] = none
terminated (c ∷ s) = let rest = terminated s in if c == 0 then some [] else map (◌∷◌ c) rest

-- No byte of the string is zero.
abbrev pub IsText : List ℕ → Type 0
IsText [] = Unit
IsText (c ∷ s) = (c ≢ 0) × IsText s

pub terminated_text : (s rest : List ℕ) → IsText s → terminated (s ++ (0 ∷ rest)) ≡ some s
unfolding terminated
terminated_text [] rest h = refl
terminated_text (c ∷ s) rest (h, hs) =
    rw (ne→== c 0 h) (ap (map (◌∷◌ c)) (terminated_text s rest hs))

-- `strstr`: where the first copy of `needle` begins.
unfoldable pub find : List ℕ → List ℕ → Option ℕ
unfolding starts_with
find needle [] = if starts_with needle [] then some 0 else none
find needle (c ∷ s) =
    let later = find needle s in if starts_with needle (c ∷ s) then some 0 else map suc later
