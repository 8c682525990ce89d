-- ===== src/Socket/Calls.antt =====
-- src/socket.c: the functions that make one call of the operating system or of OpenSSL and assert what
-- they need of it. `Os` is what these calls return; `none` is a failed assertion.
use wind_breaker.Prelude.{ℕ, Bool, true, not, Option, some, length, ltb, ◌==◌}
use wind_breaker.Prelude.Fault.{◌>>◌, assert}
use wind_breaker.Prelude.Int.{ℤ, pos, negsuc, is_positive}
use wind_breaker.Buffer.{Buffer}

-- An entry of the list that getaddrinfo gives; `bound` is whether it has an address.
pub record Address : Type 0 where
  pub family : ℕ
  pub socktype : ℕ
  pub protocol : ℕ
  pub bound : Bool
  pub addrlen : ℕ

pub record Os : Type 0 where
  pub socket : Address → ℤ
  pub setsockopt : ℤ → ℤ
  pub bind : ℤ → Address → ℤ
  pub listen : ℤ → ℤ → ℤ
  pub accept : ℤ → ℤ
  pub connect : ℤ → ℤ
  pub get_flags : ℤ → ℤ
  pub set_flags : ℤ → ℤ

-- `n != -1` and `n != -2`.
abbrev pub ne_failed : ℤ → Bool
ne_failed (pos n) = true
ne_failed (negsuc n) = not (n == 0)

abbrev pub ne_unsupported : ℤ → Bool
ne_unsupported (pos n) = true
ne_unsupported (negsuc n) = not (n == 1)

unfoldable pub open_socket : Os → Address → Option ℤ
open_socket o a = do
  assert (ltb 0 a.family)
  assert (ltb 0 a.socktype)
  assert (ltb 0 a.protocol)
  assert (ne_failed (o.socket a))
  some (o.socket a)

unfoldable pub bind_socket : Os → ℤ → Address → Option ℤ
bind_socket o fd a = do
  assert (is_positive fd)
  assert a.bound
  assert (ltb 0 a.addrlen)
  assert (ne_failed (o.bind fd a))
  some (o.bind fd a)

unfoldable pub listen_socket : Os → ℤ → ℤ → Option ℤ
listen_socket o fd backlog = do
  assert (is_positive fd)
  assert (is_positive backlog)
  assert (ne_failed (o.listen fd backlog))
  some (o.listen fd backlog)

unfoldable pub connect_socket : Os → ℤ → Option ℤ
connect_socket o fd = do
  assert (is_positive fd)
  assert (ne_failed (o.connect fd))
  some (o.connect fd)

unfoldable pub disable_socket_blocking : Os → ℤ → Option (Unit {0})
disable_socket_blocking o fd = do
  assert (is_positive fd)
  assert (ne_failed (o.get_flags fd))
  assert (ne_failed (o.set_flags fd))

unfoldable pub accept_socket : Os → ℤ → Option ℤ
unfolding disable_socket_blocking
accept_socket o fd = do
  assert (is_positive fd)
  disable_socket_blocking o (o.accept fd)
  assert (ne_failed (o.accept fd))
  some (o.accept fd)

-- `send_ssl` and `send_bio`, with what SSL_write or BIO_write returns.
unfoldable pub send_ssl : ℤ → Buffer → Option ℤ
send_ssl returned b = do
  assert (ltb 0 (length b.bytes))
  assert (ltb 0 b.count)
  assert (ne_unsupported returned)
  some returned

unfoldable pub send_bio : ℤ → Buffer → Option ℤ
send_bio returned b = do
  assert (ltb 0 (length b.bytes))
  assert (ltb 0 b.count)
  assert (ne_unsupported returned)
  some returned
