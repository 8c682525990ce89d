-- ===== src/Hash.antt =====
-- src/utils/hash.c: a SHA-256 digest in hexadecimal digits. The digest itself is computed by OpenSSL
-- and is a parameter. `none` is a failed assertion or a write outside of the array.
pub mod Digits
use wind_breaker.Prelude.{
  ℕ, ◌+◌, ◌-◌, ◌*◌, ◌/◌, ◌%◌, Bool, List, [], ◌∷◌, ◌++◌, Option, none, some, length, ltb, leb,
  if◌then◌else◌,
}
use wind_breaker.Prelude.Fault.{◌>>=◌, ◌>>◌, assert}
use wind_breaker.Prelude.Bytes.{overwrite}

-- Whether EVP_MD_CTX_new, EVP_DigestInit_ex, EVP_DigestUpdate and EVP_DigestFinal_ex succeed, and the
-- digest of an input.
pub record Evp : Type 0 where
  pub creates : Bool
  pub begins : Bool
  pub updates : Bool
  pub finishes : Bool
  pub digest : List ℕ → List ℕ

abbrev pub sha256_digest_length : ℕ
sha256_digest_length = 32

-- A digit of `%02x`, and its two digits for a byte.
unfoldable pub hex_digit : ℕ → ℕ
hex_digit n = if ltb n 10 then b'0' + n else b'a' + n - 10

unfoldable pub hex_byte : ℕ → List ℕ
unfolding hex_digit
hex_byte c = hex_digit (c / 16) ∷ hex_digit (c % 16) ∷ []

-- `sprintf` of a text at a position.
unfoldable pub print_at : ℕ → List ℕ → List ℕ → Option (List ℕ)
unfolding overwrite
print_at at text output =
    if ltb (at + length text) (length output)
    then some (overwrite at (text ++ (0 ∷ [])) output)
    else none

-- The loop over the digest, from the byte `i` on.
unfoldable pub print_digest : ℕ → List ℕ → List ℕ → Option (List ℕ)
unfolding print_at hex_byte
print_digest i [] output = some output
print_digest i (c ∷ digest) output =
    print_at (i * 2) (hex_byte c) output >>= print_digest (i + 1) digest

-- `outputBuffer[SHA256_DIGEST_LENGTH * 2] = '\0'`.
unfoldable pub close_digest : List ℕ → Option (List ℕ)
unfolding overwrite
close_digest output =
    if ltb (sha256_digest_length * 2) (length output)
    then some (overwrite (sha256_digest_length * 2) (0 ∷ []) output)
    else none

unfoldable pub sha256_hash_hex : Evp → List ℕ → List ℕ → Option (ℕ × List ℕ)
sha256_hash_hex e input output = do
  assert e.creates
  assert e.begins
  assert e.updates
  assert e.finishes
  printed ← print_digest 0 (e.digest input) output
  closed ← close_digest printed
  some (sha256_digest_length * 2 + 1, closed)
