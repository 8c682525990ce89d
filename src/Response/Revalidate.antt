-- ===== src/Response/Revalidate.antt =====
-- The tag of src/http/response.c with the digest of src/utils/hash.c: what a client gets that sends a tag
-- back.
use wind_breaker.Prelude.{
  ℕ, ◌≡◌, ◌↔◌, sym, ap, ◌∙◌, List, Option, some, length, take, replicate, arith,
}
use mathlib.Core.Option.{some_inj}
use wind_breaker.Prelude.Fault.{◌>>=◌, >>=_of_some}
use wind_breaker.Prelude.Bytes.{terminated}
use wind_breaker.Buffer.{Buffer}
use wind_breaker.Static.{Response}
use wind_breaker.Static.StatusCode.{ok, not_modified}
use wind_breaker.Hash.{Evp, sha256_hash_hex}
use wind_breaker.Hash.Digits.{Works, hex, hex_inj, length-hex, sha256_hash_hex-hex}
use wind_breaker.Response.{Outside, set_etag}
use wind_breaker.Response.Headers.{decided, etag_ok, not_modified_iff}

-- The string that sha256_hash_hex leaves in an array of 65 bytes.
abbrev pub hashed : Evp → List ℕ → Option (List ℕ)
hashed e s = sha256_hash_hex e s (replicate 65 0) >>= λ r. terminated r.1

-- The bytes of a buffer in use.
abbrev pub body : Buffer → List ℕ
body b = take b.count b.bytes

pub hashed-hex : (e : Evp) (w : Works e) (s : List ℕ) → hashed e s ≡ some (hex (e.digest s))
hashed-hex e w s =
    let (output, done, said) = sha256_hash_hex-hex e w s (replicate 65 0) (omega arith) in
    >>=_of_some (λ r. terminated r.1) done said

module _ (e : Evp) (w : Works e) (o : Outside)
    (linked : (s : List ℕ) → hashed e s ≡ some (o.sha256 s)) where
  sha256-hex : (s : List ℕ) → o.sha256 s ≡ hex (e.digest s)
  sha256-hex s = some_inj.0 (sym (linked s) ∙ hashed-hex e w s)

  -- A client that sends the tag of one successful response back with a request for another one gets
  -- "not modified" exactly when the digests of the two bodies are the same, if the tags are made by
  -- sha256_hash_hex and OpenSSL gives digests of 32 bytes.
  pub set_etag_revalidates :
      (a b : Buffer) (r r' : Response)
      → r.status_code ≡ ok
      → r'.status_code ≡ ok
      → (decided o (set_etag o a r).etag b r' ≡ not_modified)
        ↔ (e.digest (body a) ≡ e.digest (body b))
  set_etag_revalidates a b r r' success success' =
      let decide =
        not_modified_iff o (set_etag o a r).etag b r' (λ h. omega (arith, h, success')) in
      let tag : (set_etag o a r).etag ≡ hex (e.digest (body a)) =
        etag_ok o a r success ∙ sha256-hex (body a) in
      (
        λ h.
            hex_inj (e.digest (body a)) (e.digest (body b)) (w.bytes (body a)) (w.bytes (body b))
              (sym tag ∙ (decide.0 h).2 ∙ sha256-hex (body b)),
        λ same. decide.1 (
          omega (arith, ap length tag, length-hex (e.digest (body a)), w.sized (body a)),
          success',
          tag ∙ ap hex same ∙ sym (sha256-hex (body b)),
        ),
      )
