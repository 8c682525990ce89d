-- ===== src/Hash/Digits.antt =====
-- The hexadecimal digits that src/utils/hash.c prints, against a decoder of them.
use wind_breaker.Prelude.{
  ℕ, ◌+◌, ◌-◌, ◌*◌, ◌<◌, ◌≡◌, refl, sym, ap, ◌∙◌, true, List, [], ◌∷◌, ◌++◌, some, length, drop,
  ltb, if◌then◌else◌, arith, lt→ltb,
}
use mathlib.Core.List.{append-nil, append_assoc}
use wind_breaker.Prelude.Fault.{>>=_of_some}
use wind_breaker.Prelude.Bytes.{
  IsText, overwrite, overwrite_continued, length_ended, length-overwrite, terminated,
  terminated_text,
}
use wind_breaker.Hash.{
  Evp, hex_byte, print_at, print_digest, close_digest, sha256_digest_length, sha256_hash_hex,
}

-- The digits of a text, and what they stand for.
unfoldable pub hex : List ℕ → List ℕ
unfolding hex_byte
hex [] = []
hex (c ∷ s) = hex_byte c ++ hex s

unfoldable pub digit_value : ℕ → ℕ
digit_value d = if ltb d b'a' then d - b'0' else d + 10 - b'a'

unfoldable pub from_hex : List ℕ → List ℕ
unfolding digit_value
from_hex [] = []
from_hex (a ∷ []) = []
from_hex (a ∷ b ∷ s) = (digit_value a * 16 + digit_value b) ∷ from_hex s

abbrev pub AllBytes : List ℕ → Type 0
AllBytes [] = Unit
AllBytes (c ∷ s) = (c < 256) × AllBytes s

from_hex-hex : (s : List ℕ) → AllBytes s → from_hex (hex s) ≡ s
unfolding from_hex hex
from_hex-hex [] h = refl
from_hex-hex (c ∷ s) (h, hs) = ground (arith, from_hex-hex s hs)

hex-IsText : (s : List ℕ) → AllBytes s → IsText (hex s)
unfolding hex
hex-IsText [] h = tt
hex-IsText (c ∷ s) (h, hs) = (ground arith, (ground arith, hex-IsText s hs))

pub length-hex : (s : List ℕ) → length (hex s) ≡ 2 * length s
unfolding hex hex_byte
length-hex [] = refl
length-hex (c ∷ s) = omega (arith, length-hex s)

print_at_lem :
    (at : ℕ) (text output : List ℕ)
    → at + length text < length output
    → print_at at text output ≡ some (overwrite at (text ++ (0 ∷ [])) output)
unfolding print_at
print_at_lem at text output h = rw (lt→ltb _ _ h) refl

-- The loop prints the digits of what it is given, at twice its index.
print_digest-hex :
    (i c : ℕ) (s output : List ℕ)
    → i * 2 + length (hex (c ∷ s)) < length output
    → print_digest i (c ∷ s) output ≡ some (overwrite (i * 2) (hex (c ∷ s) ++ (0 ∷ [])) output)
unfolding print_digest hex
print_digest-hex i c [] output h =
    >>=_of_some (λ x. some x) (print_at_lem (i * 2) (hex_byte c) output (omega arith)) refl
print_digest-hex i c (d ∷ s) output h =
    >>=_of_some (print_digest (i + 1) (d ∷ s))
      (print_at_lem (i * 2) (hex_byte c) output (omega arith))
      (print_digest-hex (i + 1) d s begun (omega (arith, same))
        ∙ ap some (
            ap (λ (n : ℕ). overwrite n (hex (d ∷ s) ++ (0 ∷ [])) begun) place
            ∙ overwrite_continued (i * 2) (hex_byte c) (hex (d ∷ s)) output (omega arith)))
  where
    begun : List ℕ
    begun = overwrite (i * 2) (hex_byte c ++ (0 ∷ [])) output

    same : length begun ≡ length output
    same = length-overwrite (i * 2) (hex_byte c ++ (0 ∷ [])) output (omega arith)

    place : (i + 1) * 2 ≡ i * 2 + length (hex_byte c)
    place = omega arith

close_digest_lem :
    (s output : List ℕ)
    → length s ≡ sha256_digest_length * 2
    → length s < length output
    → close_digest (overwrite 0 (s ++ (0 ∷ [])) output) ≡ some (overwrite 0 (s ++ (0 ∷ [])) output)
unfolding close_digest
close_digest_lem s output whole room =
    rw
      (lt→ltb _ _ (
        let b : 64 < length (overwrite 0 (s ++ (0 ∷ [])) output) =
          omega
            (arith, length-overwrite 0 (s ++ (0 ∷ [])) output (omega (arith, length_ended s))) in
        b))
      (ap some (
        ap (λ (n : ℕ). overwrite n (0 ∷ []) (overwrite 0 (s ++ (0 ∷ [])) output))
          (let e : 64 ≡ 0 + length s = omega arith in e)
        ∙ overwrite_continued 0 s [] output (omega arith)
        ∙ ap (λ t. overwrite 0 (t ++ (0 ∷ [])) output) (append-nil s)))

terminated_overwritten :
    (s output : List ℕ) → IsText s → terminated (overwrite 0 (s ++ (0 ∷ [])) output) ≡ some s
unfolding overwrite
terminated_overwritten s output t =
    ap terminated (append_assoc s (0 ∷ []) (drop (length (s ++ (0 ∷ []))) output))
    ∙ terminated_text s (drop (length (s ++ (0 ∷ []))) output) t

-- OpenSSL works, and gives digests of 32 bytes.
pub record Works (e : Evp) : Type 0 where
  pub creates : e.creates ≡ true
  pub begins : e.begins ≡ true
  pub updates : e.updates ≡ true
  pub finishes : e.finishes ≡ true
  pub sized : (s : List ℕ) → length (e.digest s) ≡ sha256_digest_length
  pub bytes : (s : List ℕ) → AllBytes (e.digest s)

pub sha256_hash_hex-hex :
    (e : Evp) (w : Works e) (input output : List ℕ)
    → sha256_digest_length * 2 < length output
    → (output' : List ℕ) × (sha256_hash_hex e input output ≡ some (65, output'))
      × (terminated output' ≡ some (hex (e.digest input)))
unfolding sha256_hash_hex
sha256_hash_hex-hex e w input output room = (
  overwrite 0 (hex (e.digest input) ++ (0 ∷ [])) output,
  rw (w.creates, w.begins, w.updates, w.finishes)
      (>>=_of_some _ (printed (e.digest input) (w.sized input)) (
        >>=_of_some _
          (close_digest_lem (hex (e.digest input)) output
            (omega (arith, w.sized input, length-hex (e.digest input)))
            (omega (arith, w.sized input, length-hex (e.digest input))))
          refl)),
  terminated_overwritten (hex (e.digest input)) output
      (hex-IsText (e.digest input) (w.bytes input)),
)
  where
    printed :
        (d : List ℕ)
        → length d ≡ sha256_digest_length
        → print_digest 0 d output ≡ some (overwrite 0 (hex d ++ (0 ∷ [])) output)
    printed [] h = absurd (omega arith)
    printed (x ∷ d) h = print_digest-hex 0 x d output (omega (arith, length-hex (x ∷ d)))

-- The digest is written as a C string of 64 characters, from which it can be read back, and 65 is
-- returned, if OpenSSL gives digests of 32 bytes and the array has room for 65.
pub sha256_hash_hex-reads_back :
    (e : Evp) (w : Works e) (input output : List ℕ)
    → sha256_digest_length * 2 < length output
    → (text : List ℕ) × (output' : List ℕ) × (sha256_hash_hex e input output ≡ some (65, output'))
      × (terminated output' ≡ some text)
      × (length text ≡ 64)
      × (from_hex text ≡ e.digest input)
sha256_hash_hex-reads_back e w input output room =
    let (output', done, said) = sha256_hash_hex-hex e w input output room in
    (
      hex (e.digest input),
      output',
      done,
      said,
      omega (arith, w.sized input, length-hex (e.digest input)),
      from_hex-hex (e.digest input) (w.bytes input),
    )

-- Two digests with the same digits are the same.
pub hex_inj : (s t : List ℕ) → AllBytes s → AllBytes t → hex s ≡ hex t → s ≡ t
hex_inj s t h k e = sym (from_hex-hex s h) ∙ ap from_hex e ∙ from_hex-hex t k
