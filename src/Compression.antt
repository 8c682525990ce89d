-- ===== src/Compression.antt =====
-- src/utils/compression.c: the calls of zlib that compress and decompress a buffer. zlib is a
-- parameter; a temporary file is its bytes and the position in it, which the stream and the gz file on
-- the duplicated descriptor share. `none` is a write outside of the buffer of the caller, and -1 is
-- the answer to every call that is seen to fail.
pub mod Inverse
use wind_breaker.Prelude.{
  ℕ, Bool, true, false, not, List, [], Option, none, some, length, take, drop, leb, ◌==◌, ◌&&◌, ◌+◌,
  ◌%◌, ◌^◌, if◌then◌else◌,
}
use wind_breaker.Prelude.Bytes.{overwrite}
use wind_breaker.Prelude.Int.{ℤ, pos, negsuc, to_int}

pub record TmpFile : Type 0 where
  pub content : List ℕ
  pub position : ℕ

-- The file of `tmpfile()`.
abbrev pub tmp_file : TmpFile
tmp_file = record { content = []; position = 0 }

-- What a write at the position leaves, which it moves behind what was written.
unfoldable pub write_file : List ℕ → TmpFile → TmpFile
unfolding overwrite
write_file text f = record {
  content = overwrite f.position text f.content;
  position = f.position + length text;
}

-- `fseek(tmp_file, 0, SEEK_END)` and `rewind`.
unfoldable pub seek_end : TmpFile → TmpFile
seek_end f = record f { position = length f.content }

unfoldable pub rewind : TmpFile → TmpFile
rewind f = record f { position = 0 }

-- The bytes from the position on, which a read starts with.
unfoldable pub ahead : TmpFile → List ℕ
ahead f = drop f.position f.content

-- Whether the temporary file opens, `gzdopen` succeeds, what `gzwrite` returns, whether `gzclose`
-- answers Z_OK, and the bytes that it has then put into the descriptor; whether `fwrite` takes all;
-- and what `gzread` returns and gets of bytes ahead in the descriptor with room for a number of bytes.
pub record Gzip : Type 0 where
  pub opens : Bool
  pub gz_opens : Bool
  pub gz_writes : List ℕ → ℤ
  pub gz_closes : Bool
  pub pack : List ℕ → List ℕ
  pub fwrites : Bool
  pub gz_reads : List ℕ → ℕ → ℤ
  pub unpack : List ℕ → ℕ → List ℕ

abbrev pub failed : ℤ
failed = negsuc 0

-- What comes to the buffer of the caller, behind which nothing may be written.
unfoldable pub deliver : ℤ → List ℕ → List ℕ → Option (ℤ × List ℕ)
unfolding overwrite
deliver result got to =
    if leb (length got) (length to) then some (result, overwrite 0 got to) else none

-- `bytes_written <= 0 || bytes_written != buffer_size`.
unfoldable pub written_whole : ℤ → ℕ → Bool
written_whole (negsuc n) size = false
written_whole (pos n) size = not (n == 0) && n == size

unfoldable pub compress_gzip : Gzip → List ℕ → ℕ → List ℕ → Option (ℤ × List ℕ)
unfolding write_file seek_end rewind ahead
compress_gzip g buffer size to =
    let text = take size buffer in
    let written = write_file (g.pack text) tmp_file in
    let at_end = seek_end written in
    let compressed_size = at_end.position % 2 ^ 32 in
    let rewound = rewind at_end in
    if not g.opens
    then some (failed, to)
    else if not g.gz_opens
    then some (failed, to)
    else if not (written_whole (g.gz_writes text) size)
    then some (failed, to)
    else if not g.gz_closes
    then some (failed, to)
    else if compressed_size == 0
    then some (failed, to)
    else deliver (to_int compressed_size) (take compressed_size (ahead rewound)) to

-- The result of `gzread` and of `gzclose`.
unfoldable pub finish_reading : Gzip → ℤ → List ℕ → List ℕ → Option (ℤ × List ℕ)
finish_reading g (negsuc n) got to = deliver failed got to
finish_reading g (pos n) got to = deliver (if g.gz_closes then pos n else failed) got to

unfoldable pub decompress_gzip : Gzip → List ℕ → ℕ → List ℕ → ℕ → Option (ℤ × List ℕ)
unfolding write_file rewind ahead
decompress_gzip g buffer size to to_size =
    let written = write_file (take size buffer) tmp_file in
    let rewound = rewind written in
    if not g.opens
    then some (failed, to)
    else if not g.fwrites
    then some (failed, to)
    else if not g.gz_opens
    then some (failed, to)
    else finish_reading g (g.gz_reads (ahead rewound) to_size) (g.unpack (ahead rewound) to_size) to

-- `compressBound`, and what `deflate` and `inflate` put out in one call with Z_FINISH.
pub record Deflate : Type 0 where
  pub bound : ℕ → ℕ
  pub deflate : List ℕ → ℕ → List ℕ
  pub inflate : List ℕ → ℕ → List ℕ

-- The results of `deflate` and `inflate` themselves are not read.
unfoldable pub compress_deflate : Deflate → List ℕ → ℕ → List ℕ → Option (ℤ × List ℕ)
compress_deflate z buffer size to =
    let out = z.deflate (take size buffer) (z.bound size % 2 ^ 32) in
    deliver (to_int (length out)) out to

unfoldable pub decompress_deflate : Deflate → List ℕ → ℕ → List ℕ → ℕ → Option (ℤ × List ℕ)
decompress_deflate z buffer size to to_size =
    let out = z.inflate (take size buffer) to_size in deliver (to_int (length out)) out to
