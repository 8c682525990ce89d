-- ===== src/Socket.antt =====
-- src/socket.c: reading what a client has sent into the buffer of its session.
-- OpenSSL is the parameter `Bio`. `none` is a failed assertion or an access outside the buffer.
pub mod Receive
pub mod Overrun
pub mod Calls
use wind_breaker.Prelude.{
  ℕ, zero, suc, ◌+◌, ◌-◌, ◌*◌, ◌%◌, ◌^◌, Bool, true, false, ◌&&◌, ◌||◌, List, [], ◌∷◌, Option, none,
  some, length, ltb, leb, ◌==◌, if◌then◌else◌,
}
use wind_breaker.Prelude.Fault.{◌>>=◌, ◌>>◌, assert}
use wind_breaker.Prelude.Int.{ℤ, negsuc, is_positive, is_negative, to_int, to_u64}
use wind_breaker.Prelude.Bytes.{overwrite}
use wind_breaker.Buffer.{Buffer, Memory, default_size, ensure_capacity}

-- The bytes that the call of `BIO_read` with this number stores when it is given so much room. A call
-- that stores none returns 0, or a negative number where `failed` says so.
pub record Bio : Type 0 where
  pub reads : ℕ → ℕ → List ℕ
  pub failed : ℕ → ℕ → Bool

unfoldable pub stored : List ℕ → Buffer → Option Buffer
unfolding overwrite
stored got b = do
  assert (leb (b.count + length got) (length b.bytes))
  some (record b { count = b.count + length got; bytes = overwrite b.count got b.bytes })

-- The loop of `recv_bio` on fuel, from round `k`; `count` is an `unsigned char`. The result says
-- whether the last call failed.
unfoldable pub recv_rounds : ℕ → ℕ → Memory → Bio → Buffer → Option (Bool × Buffer)
recv_rounds zero k m bio b = none
recv_rounds (suc fuel) k m bio b = do
  ensured ← ensure_capacity m b (suc k % 256 * default_size)
  assert (is_positive ensured.0)
  let room = ensured.1.capacity - ensured.1.count
  elim (bio.reads k room) [
    | [] ↦ some (bio.failed k room, ensured.1)
    | c ∷ s ↦ (do b' ← stored (c ∷ s) ensured.1; recv_rounds fuel (suc k) m bio b')
  ]

-- What follows the loop: the count that is returned, and the buffer.
unfoldable pub close_text : Bool × Buffer → Option (ℕ × Buffer)
unfolding overwrite
close_text (failed, b) = if failed && b.count == 0 then some (b.count, b) else (do
  assert (ltb b.count (length b.bytes))
  some (b.count + 1, record b { count = b.count + 1; bytes = overwrite b.count (0 ∷ []) b.bytes }))

unfoldable pub recv_bio : ℕ → Memory → Bio → Buffer → Option (ℕ × Buffer)
unfolding close_text
recv_bio fuel m bio b = do
  assert (length b.bytes == 0 || ltb 0 b.capacity)
  read ← recv_rounds fuel 0 m bio b
  close_text read

-- What `SSL_pending` says, and what `SSL_read` returns and stores for the number that it is given.
pub record Ssl : Type 0 where
  pub pending : ℕ
  pub returned : ℤ → ℤ
  pub bytes : ℤ → List ℕ

-- What follows `SSL_read`: the comparison with `pending` is one of unsigned numbers.
close_ssl : ℕ → ℤ → Buffer → Option (ℤ × Buffer)
unfolding overwrite
close_ssl pending n b = do
  assert (leb (to_u64 n) pending)
  if is_negative n then some (negsuc 0, b) else (do
    assert (ltb b.count (length b.bytes))
    some (n, record b { count = b.count + 1; bytes = overwrite b.count (0 ∷ []) b.bytes }))

unfoldable pub recv_ssl : Memory → Ssl → Buffer → Option (ℤ × Buffer)
unfolding stored close_ssl
recv_ssl m ssl b = do
  assert (length b.bytes == 0 || ltb 0 b.capacity)
  ensured ← ensure_capacity m b ((b.count + ssl.pending + 1) % 2 ^ 64)
  assert (is_positive ensured.0)
  let room = to_int ((ssl.pending + 2 ^ 64 - 1) % 2 ^ 64)
  let n = ssl.returned room
  read ← stored (ssl.bytes room) ensured.1
  close_ssl ssl.pending n (record read { count = (ensured.1.count + to_u64 n) % 2 ^ 64 })
