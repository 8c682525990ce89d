-- ===== src/Tests/Codecs.antt =====
-- The theorems on src/utils/hash.c and src/utils/compression.c with small codecs.
use wind_breaker.Prelude.{
  ℕ, zero, suc, ◌%◌, ◌+◌, ◌<◌, ◌≡◌, refl, ap, true, List, ◌∷◌, some, length, take, drop, take_all,
  replicate, arith,
}
use wind_breaker.Prelude.Bytes.{overwrite, terminated}
use wind_breaker.Prelude.Int.{pos}
use wind_breaker.Prelude.Text.{codes}
use wind_breaker.Prelude.{◌↔◌, []}
use wind_breaker.Buffer.{Buffer}
use wind_breaker.Static.{Response, zero_response}
use wind_breaker.Static.StatusCode.{ok, not_modified}
use wind_breaker.Response.{Outside, set_etag}
use wind_breaker.Response.Headers.{decided}
use wind_breaker.Response.Revalidate.{body, hashed-hex, set_etag_revalidates}
use wind_breaker.Hash.{Evp, sha256_hash_hex}
use wind_breaker.Hash.Digits.{AllBytes, Works, hex, from_hex, sha256_hash_hex-reads_back}
use wind_breaker.Compression.{
  Gzip, Deflate, compress_gzip, decompress_gzip, compress_deflate, decompress_deflate,
}
use wind_breaker.Compression.Inverse.{
  Faithful, Inverts, decompress_gzip-compress_gzip, decompress_deflate-compress_deflate,
}

abbrev evp : Evp
evp = record {
  creates = true;
  begins = true;
  updates = true;
  finishes = true;
  digest = λ s. replicate 32 (length s % 256);
}

abbrev array : List ℕ
array = replicate 65 9

-- The bytes of a short text.
replicate_bytes : (n c : ℕ) → c < 256 → AllBytes (replicate n c)
replicate_bytes zero c h = tt
replicate_bytes (suc n) c h = (h, replicate_bytes n c h)

evp-Works : Works evp
evp-Works = record {
  creates = refl;
  begins = refl;
  updates = refl;
  finishes = refl;
  sized = λ s. refl;
  bytes = λ s. replicate_bytes 32 (length s % 256) (omega arith);
}

sha256_hash_hex-reads_back_example :
    (text : List ℕ) × (output' : List ℕ) × (sha256_hash_hex evp (codes "Hello") array
      ≡ some (65, output'))
    × (terminated output' ≡ some text)
    × (length text ≡ 64)
    × (from_hex text ≡ replicate 32 5)
sha256_hash_hex-reads_back_example =
    sha256_hash_hex-reads_back evp evp-Works (codes "Hello") array (omega arith)

-- A format with one byte before the text.
abbrev gzip : Gzip
gzip = record {
  opens = true;
  gz_opens = true;
  gz_writes = λ s. pos (length s);
  gz_closes = true;
  pack = λ s. 31 ∷ s;
  fwrites = true;
  gz_reads = λ s n. pos (length (take n (drop 1 s)));
  unpack = λ s n. take n (drop 1 s);
}

gzip-Faithful : Faithful gzip
gzip-Faithful = record {
  opens = refl;
  gz_opens = refl;
  gz_closes = refl;
  fwrites = refl;
  writes = λ s. refl;
  packs = λ s. omega arith;
  reads = λ s n h. ap (λ t. pos (length t)) (take_all n s h);
  unpacks = λ s n h. take_all n s h;
}

decompress_gzip-compress_gzip_example :
    (n : ℕ) × (packed : List ℕ) × (compress_gzip gzip (codes "Hello") 4 array
      ≡ some (pos n, packed))
    × (decompress_gzip gzip packed n array 10 ≡ some (pos 4, overwrite 0 (codes "Hell") array))
decompress_gzip-compress_gzip_example =
    decompress_gzip-compress_gzip gzip gzip-Faithful (codes "Hello") array 4 (omega arith)
      (omega arith) (omega arith) (omega arith) array 10 (omega arith) (omega arith)

abbrev deflater : Deflate
deflater = record {
  bound = λ n. n + 1;
  deflate = λ s n. 120 ∷ s;
  inflate = λ s n. take n (drop 1 s);
}

deflater-Inverts : Inverts deflater
deflater-Inverts = record {
  deflates = λ s n h. omega arith;
  inflates = λ s n m h k. take_all m s k;
}

decompress_deflate-compress_deflate_example :
    (n : ℕ) × (packed : List ℕ) × (compress_deflate deflater (codes "Hello") 4 array
      ≡ some (pos n, packed))
    × (decompress_deflate deflater packed n array 10
        ≡ some (pos 4, overwrite 0 (codes "Hell") array))
decompress_deflate-compress_deflate_example =
    decompress_deflate-compress_deflate deflater deflater-Inverts (codes "Hello") array array 4 10
      (omega arith) (omega arith) (omega arith) (omega arith) (omega arith) (omega arith)

abbrev letter : ℕ → Buffer
letter c = record { capacity = 4; count = 3; bytes = c ∷ c ∷ c ∷ 0 ∷ [] }

abbrev success : Response
success = record zero_response { status_code = ok }

abbrev outside : Outside
outside = record {
  sha256 = λ s. hex (evp.digest s);
  gzip = λ s. (pos 0, []);
  deflate = λ s. (pos 0, []);
  last_modified = λ s. some [];
  now = [];
}

set_etag_revalidates_example :
    (decided outside (set_etag outside (letter 7) success).etag (letter 8) success ≡ not_modified)
    ↔ (evp.digest (body (letter 7)) ≡ evp.digest (body (letter 8)))
set_etag_revalidates_example =
    set_etag_revalidates evp evp-Works outside (hashed-hex evp evp-Works) (letter 7) (letter 8)
      success success refl refl
