-- ===== src/Compression/Inverse.antt =====
-- Compressing and decompressing again, with the routines of src/utils/compression.c.
use wind_breaker.Prelude.{
  ℕ, zero, suc, [], ◌++◌, ◌%◌, ◌^◌, ◌≤◌, ◌<◌, ◌≡◌, refl, ap, ◌∙◌, true, List, some, length, take,
  drop, arith, length-take, take_all, le→leb, ne→==,
}
use mathlib.Core.List.{append-nil}
use wind_breaker.Prelude.Bytes.{overwrite, take_front}
use wind_breaker.Prelude.Int.{ℤ, pos, to_int_small}
use wind_breaker.Compression.{
  tmp_file, write_file, seek_end, rewind, ahead, Gzip, Deflate, deliver, written_whole,
  finish_reading, compress_gzip, decompress_gzip, compress_deflate, decompress_deflate,
}

deliver_lem :
    (result : ℤ) (got to : List ℕ)
    → length got ≤ length to
    → deliver result got to ≡ some (result, overwrite 0 got to)
unfolding deliver
deliver_lem result got to h = rw (le→leb _ _ h) refl

delivered : (got to : List ℕ) → take (length got) (overwrite 0 got to) ≡ got
unfolding overwrite
delivered got to = take_front got (drop (length got) to)

drop-nil : (n : ℕ) → drop {A = ℕ} n [] ≡ []
drop-nil zero = refl
drop-nil (suc n) = refl

-- What is written to a new file is the whole file.
content-write_file : (text : List ℕ) → (write_file text tmp_file).content ≡ text
unfolding write_file overwrite
content-write_file text = ap (◌++◌ text) (drop-nil (length text)) ∙ append-nil text

-- The documented behaviour of zlib where no call fails: `gzread` inverts `gzwrite`, if it starts at the
-- first of the compressed bytes.
pub record Faithful (g : Gzip) : Type 0 where
  pub opens : g.opens ≡ true
  pub gz_opens : g.gz_opens ≡ true
  pub gz_closes : g.gz_closes ≡ true
  pub fwrites : g.fwrites ≡ true
  pub writes : (s : List ℕ) → g.gz_writes s ≡ pos (length s)
  pub packs : (s : List ℕ) → 0 < length (g.pack s)
  pub reads : (s : List ℕ) (n : ℕ) → length s ≤ n → g.gz_reads (g.pack s) n ≡ pos (length s)
  pub unpacks : (s : List ℕ) (n : ℕ) → length s ≤ n → g.unpack (g.pack s) n ≡ s

module _ (g : Gzip) (f : Faithful g) (buffer to : List ℕ) (size : ℕ) (some_bytes : 0 < size)
    (held : size ≤ length buffer) (fits : length (g.pack (take size buffer)) ≤ length to)
    (small : length (g.pack (take size buffer)) < 2 ^ 31) where
  abbrev text : List ℕ
  text = take size buffer

  abbrev file : List ℕ
  file = g.pack text

  length-text : length text ≡ size
  length-text = omega (arith, length-take size buffer)

  whole : written_whole (g.gz_writes text) size ≡ true
  unfolding written_whole
  whole = rw (f.writes text, length-text) (ground arith)

  packed_size : length file % 2 ^ 32 ≡ length file
  packed_size = omega (arith, small)

  compress_gzip_lem : compress_gzip g buffer size to ≡ some (pos (length file), overwrite 0 file to)
  unfolding compress_gzip seek_end rewind ahead
  compress_gzip_lem =
      rw
        (
          f.opens,
          f.gz_opens,
          whole,
          f.gz_closes,
          content-write_file file,
          packed_size,
          ne→== (length file) 0 (λ e. omega (arith, f.packs text)),
          take_all (length file) file (omega arith),
          to_int_small (length file) small,
        )
        (deliver_lem (pos (length file)) file to fits)

  -- Bytes that `compress_gzip` has compressed are given back by `decompress_gzip`, with their number,
  -- if there is at least one, no call fails, `gzread` inverts `gzwrite`, the compressed bytes are fewer
  -- than 2 GiB, and the buffers have room for the compressed and for the given bytes.
  pub decompress_gzip-compress_gzip :
      (out : List ℕ) (room : ℕ)
      → size ≤ room
      → size ≤ length out
      → (n : ℕ) × (packed : List ℕ) × (compress_gzip g buffer size to ≡ some (pos n, packed))
        × (decompress_gzip g packed n out room ≡ some (pos size, overwrite 0 text out))
  unfolding decompress_gzip rewind ahead finish_reading
  decompress_gzip-compress_gzip out room enough fits_out = (
    length file,
    overwrite 0 file to,
    compress_gzip_lem,
    rw
        (
          f.opens,
          f.fwrites,
          f.gz_opens,
          delivered file to,
          content-write_file file,
          f.reads text room (omega (arith, length-text)),
          f.unpacks text room (omega (arith, length-text)),
          f.gz_closes,
        )
        (deliver_lem (pos (length text)) text out (omega (arith, length-text))
          ∙ ap (λ (n : ℕ). some (pos n, overwrite 0 text out)) length-text),
  )

-- The documented behaviour of zlib: within `compressBound`, `inflate` inverts `deflate`.
pub record Inverts (z : Deflate) : Type 0 where
  pub deflates : (s : List ℕ) (n : ℕ) → z.bound (length s) ≤ n → length (z.deflate s n) ≤ n
  pub inflates :
      (s : List ℕ) (n m : ℕ)
      → z.bound (length s) ≤ n
      → length s ≤ m
      → z.inflate (z.deflate s n) m ≡ s

-- Bytes that `compress_deflate` has compressed are given back by `decompress_deflate`, with their
-- number, if `inflate` inverts `deflate`, the bound is below 2 GiB, and the buffers have room for the
-- bound and for the given bytes.
pub decompress_deflate-compress_deflate :
    (z : Deflate) (v : Inverts z) (buffer to out : List ℕ) (size room : ℕ)
    → size ≤ length buffer
    → z.bound size ≤ length to
    → z.bound size < 2 ^ 31
    → size < 2 ^ 31
    → size ≤ room
    → size ≤ length out
    → (n : ℕ) × (packed : List ℕ) × (compress_deflate z buffer size to ≡ some (pos n, packed))
      × (decompress_deflate z packed n out room
          ≡ some (pos size, overwrite 0 (take size buffer) out))
unfolding compress_deflate decompress_deflate
decompress_deflate-compress_deflate z v buffer to out size room held fits small few enough
      fits_out =
    (
      length packed,
      overwrite 0 packed to,
      rw (to_int_small (length packed) (omega (arith, short)))
          (deliver_lem (pos (length packed)) packed to (omega (arith, short))),
      rw
          (
            delivered packed to,
            v.inflates text (z.bound size % 2 ^ 32) room bounded (omega (arith, sized)),
            to_int_small (length text) (omega (arith, sized)),
          )
          (deliver_lem (pos (length text)) text out (omega (arith, sized))
            ∙ ap (λ (n : ℕ). some (pos n, overwrite 0 text out)) sized),
    )
  where
    text : List ℕ
    text = take size buffer

    packed : List ℕ
    packed = z.deflate text (z.bound size % 2 ^ 32)

    sized : length text ≡ size
    sized = omega (arith, length-take size buffer)

    bounded : z.bound (length text) ≤ z.bound size % 2 ^ 32
    bounded = rw sized (omega arith)

    short : length packed ≤ z.bound size
    short = omega (arith, v.deflates text (z.bound size % 2 ^ 32) bounded)
