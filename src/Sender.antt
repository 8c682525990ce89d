-- ===== src/Sender.antt =====
-- src/handlers/sender.c: what one round of the sender does with a session that it has taken out. The
-- socket is outside: what `send_ssl` or `send_bio` returned, `SSL_get_error`, and
-- `BIO_should_retry`.
pub mod Bytes
use wind_breaker.Prelude.{
  ℕ, ◌-◌, Bool, true, false, not, ◌&&◌, ◌||◌, List, ◌++◌, take, drop, ltb, ◌==◌, if◌then◌else◌,
}
use wind_breaker.Prelude.Int.{ℤ, pos, negsuc, is_positive, to_u64}
use wind_breaker.Buffer.{Buffer}
use wind_breaker.Static.{Connection, close, keep_alive}
use wind_breaker.Session.Word.{WorkStatus, send_failed, ready_to_send, rejected, sent}

pub record Attempt : Type 0 where
  pub is_ssl : Bool
  pub send_return : ℤ
  pub ssl_error : ℕ
  pub should_retry : Bool

abbrev pub ssl_error_want_read : ℕ
ssl_error_want_read = 2

abbrev pub ssl_error_want_write : ℕ
ssl_error_want_write = 3

-- `send_return == -1`.
abbrev pub is_error : ℤ → Bool
is_error n = elim n [ pos k ↦ false | negsuc k ↦ k == 0 ]

abbrev pub is_close : Connection → Bool
is_close c = elim c [ close ↦ true | keep_alive ↦ false ]

-- The rest of the buffer after `n` bytes were sent.
unfoldable pub keep_rest : ℕ → Buffer → Buffer
keep_rest n b = record b {
  count = b.count - n;
  bytes = take (b.count - n) (drop n b.bytes) ++ drop (b.count - n) b.bytes;
}

-- The status that is pushed, and the buffer. The comparison of `send_return` with the count is one
-- of unsigned numbers.
unfoldable pub after_send : Attempt → Connection → Buffer → WorkStatus × Buffer
unfolding keep_rest
after_send t connection b =
    if t.is_ssl && not (is_positive t.send_return)
    then (if t.ssl_error == ssl_error_want_read
        then (send_failed, b)
        else if t.ssl_error == ssl_error_want_write
        then (ready_to_send, b)
        else (rejected, b))
    else if not t.is_ssl && not (is_positive t.send_return) && t.should_retry
    then (send_failed, b)
    else if ltb (to_u64 t.send_return) b.count
    then (ready_to_send, keep_rest (to_u64 t.send_return) b)
    else if is_error t.send_return
    then (rejected, b)
    else if is_close connection
    then (rejected, b)
    else (sent, b)
