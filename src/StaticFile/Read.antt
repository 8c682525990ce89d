-- ===== src/StaticFile/Read.antt =====
-- `read_static_file` of src/utils/static_file.c. The disk is the parameter `Disk`.
use wind_breaker.Prelude.{ℕ, ◌+◌, List, [], ◌∷◌, ◌++◌, Option, some, length, take, ltb}
use wind_breaker.Prelude.Fault.{◌>>=◌, ◌>>◌, assert}
use wind_breaker.Prelude.Int.{is_positive}
use wind_breaker.Prelude.Text.{codes}
use wind_breaker.Prelude.Bytes.{overwrite}
use wind_breaker.Buffer.{Buffer, Memory, ensure_capacity}

-- What a path leads to; `none` if `fopen` fails.
pub record Disk : Type 0 where
  pub contents : List ℕ → Option (List ℕ)

-- The path in its array of 520 bytes.
abbrev pub full_path : List ℕ → List ℕ
full_path name = take 519 (codes "static/" ++ name)

-- The bytes that `fread` gives, with a zero behind them.
fill : List ℕ → Buffer → Option Buffer
unfolding overwrite
fill content b = do
  let read = take b.capacity content
  assert (ltb 0 (length read))
  assert (ltb (length read) b.capacity)
  some (record b { count = length read; bytes = overwrite 0 (read ++ (0 ∷ [])) b.bytes })

unfoldable pub read_static_file : Disk → Memory → List ℕ → Buffer → Option Buffer
unfolding fill ensure_capacity
read_static_file disk m name b = do
  content ← disk.contents (full_path name)
  assert (ltb 0 (length content))
  ensured ← ensure_capacity m b (length content + 1)
  assert (is_positive ensured.0)
  fill content ensured.1
