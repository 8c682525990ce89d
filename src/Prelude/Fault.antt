-- ===== src/Prelude/Fault.antt =====
-- Code that may stop the process: `none` is a failed assertion, or an access out of range.

use mathlib.Core.Path.{◌≡◌, refl, ◌∙◌, ap, subst}
use mathlib.Core.Bool.{Bool, true, false}
use mathlib.Core.Option.{Option, none, some, some_inj}
use wind_breaker.Prelude.Tests.{if◌then◌else◌}

infixl 5 ◌>>=◌ ◌>>◌
abbrev pub ◌>>=◌ {ℓ κ} : {A : Type ℓ} {B : Type κ} → Option A → (A → Option B) → Option B
none >>= f = none
some a >>= f = f a

abbrev pub ◌>>◌ {ℓ κ} : {A : Type ℓ} {B : Type κ} → Option A → Option B → Option B
m >> k = m >>= λ _. k

-- `assert(expr)`.
abbrev pub assert : Bool → Option (Unit {0})
assert true = some tt
assert false = none

pub >>=-eq-some {ℓ κ} :
    {A : Type ℓ} {B : Type κ} (m : Option A) (f : A → Option B) {b : B}
    → (m >>= f) ≡ some b
    → (a : A) × (m ≡ some a) × (f a ≡ some b)
>>=-eq-some none f h = cc
>>=-eq-some (some a) f h = (a, refl, h)

pub assert-eq-some : (b : Bool) {u : Unit {0}} → assert b ≡ some u → b ≡ true
assert-eq-some true h = refl
assert-eq-some false h = cc

pub >>=_of_some {ℓ κ} :
    {A : Type ℓ} {B : Type κ} {m : Option A} {a : A} (f : A → Option B) {r : Option B}
    → m ≡ some a
    → f a ≡ r
    → (m >>= f) ≡ r
>>=_of_some f h k = ap (λ o. o >>= f) h ∙ k

-- What holds of the result of code that may stop the process, if it does not.
abbrev pub Ensures {ℓ κ} : {A : Type ℓ} → (A → Type κ) → Option A → Type κ
Ensures P none = Unit
Ensures P (some a) = P a

pub Ensures-of_all {ℓ κ} :
    {A : Type ℓ} (P : A → Type κ) (m : Option A) → ((a : A) → m ≡ some a → P a) → Ensures P m
Ensures-of_all P none h = tt
Ensures-of_all P (some a) h = h a refl

pub of_Ensures {ℓ κ} :
    {A : Type ℓ} (P : A → Type κ) (m : Option A) {a : A} → Ensures P m → m ≡ some a → P a
of_Ensures P none h e = cc
of_Ensures P (some b) h e = subst P (some_inj.0 e) h

pub Ensures-bind {ℓ κ μ ν} :
    {A : Type ℓ} {B : Type κ} (P : A → Type μ) (Q : B → Type ν) (m : Option A) (f : A → Option B)
    → Ensures P m
    → ((a : A) → P a → Ensures Q (f a))
    → Ensures Q (m >>= f)
Ensures-bind P Q none f h k = tt
Ensures-bind P Q (some a) f h k = k a h

-- What a `do` block ensures whatever its first step gives.
pub Ensures-then {ℓ κ ν} :
    {A : Type ℓ} {B : Type κ} (Q : B → Type ν) (m : Option A) (f : A → Option B)
    → ((a : A) → m ≡ some a → Ensures Q (f a))
    → Ensures Q (m >>= f)
Ensures-then Q none f k = tt
Ensures-then Q (some a) f k = k a refl

pub Ensures-if {ℓ κ} :
    {A : Type ℓ} (Q : A → Type κ) (b : Bool) (m n : Option A)
    → Ensures Q m
    → Ensures Q n
    → Ensures Q (if b then m else n)
Ensures-if Q true m n h k = h
Ensures-if Q false m n h k = k

pub >>=_congr {ℓ κ} :
    {A : Type ℓ} {B : Type κ} (m : Option A) (f g : A → Option B)
    → ((a : A) → f a ≡ g a)
    → (m >>= f) ≡ (m >>= g)
>>=_congr none f g h = refl
>>=_congr (some a) f g h = h a

pub >>=_assoc {ℓ κ μ} :
    {A : Type ℓ} {B : Type κ} {C : Type μ} (m : Option A) (f : A → Option B) (g : B → Option C)
    → ((m >>= f) >>= g) ≡ (m >>= λ a. f a >>= g)
>>=_assoc none f g = refl
>>=_assoc (some a) f g = refl

pub >>=_some {ℓ} : {A : Type ℓ} (m : Option A) → (m >>= some) ≡ m
>>=_some none = refl
>>=_some (some a) = refl

pub >>=_congr_on {ℓ κ μ} :
    {A : Type ℓ} {B : Type κ} (P : A → Type μ) (m : Option A) (f g : A → Option B)
    → Ensures P m
    → ((a : A) → P a → f a ≡ g a)
    → (m >>= f) ≡ (m >>= g)
>>=_congr_on P none f g e h = refl
>>=_congr_on P (some a) f g e h = h a e
