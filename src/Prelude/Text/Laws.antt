-- ===== src/Prelude/Text/Laws.antt =====
-- `str_eq` and `starts_with` on the strings that they compare.
use wind_breaker.Prelude.Tests.{◌==◌, ==_iff, Bool-cases}
use mathlib.Core.Bool.{true}
use mathlib.Core.Path.{◌≡◌, refl}
use mathlib.Core.Logic.{inl, inr}
use mathlib.Core.List.{List, [], ◌∷◌, ◌++◌}
use Prim.Native.Nat.{ℕ}
use wind_breaker.Prelude.Lists.{length, drop}
use wind_breaker.Prelude.Text.{str_eq, starts_with}

pub str_eq_refl : (s : List ℕ) → str_eq s s ≡ true
unfolding str_eq
str_eq_refl [] = refl
str_eq_refl (c ∷ s) = rw ((==_iff c c).1 refl, str_eq_refl s) refl

pub str_eq-eq : (s t : List ℕ) → str_eq s t ≡ true → s ≡ t
unfolding str_eq
str_eq-eq [] [] h = refl
str_eq-eq [] (b ∷ t) h = cc
str_eq-eq (a ∷ s) [] h = cc
str_eq-eq (a ∷ s) (b ∷ t) h = elim (Bool-cases (a == b)) [
  | inl e ↦ let later = str_eq-eq s t (rw e at h) in let first = (==_iff a b).0 e in cc
  | inr e ↦ absurd (cc (rw e at h))
]

pub starts_with-append : (p s : List ℕ) → starts_with p s ≡ true → s ≡ p ++ drop (length p) s
unfolding starts_with
starts_with-append [] s h = refl
starts_with-append (c ∷ p) [] h = cc
starts_with-append (c ∷ p) (d ∷ s) h = elim (Bool-cases (c == d)) [
  | inl e ↦ let same = (==_iff c d).0 e in let later = starts_with-append p s (rw e at h) in cc
  | inr e ↦ absurd (cc (rw e at h))
]
