-- ===== src/Listener/Port.antt =====
-- get_listener_socket of src/listener.c.
use wind_breaker.Prelude.{
  ◌≡◌, Bool, true, false, ◌&&◌, List, [], ◌∷◌, Option, none, some, ltb, if◌then◌else◌, arith,
}
use wind_breaker.Prelude.Fault.{◌>>=◌, ◌>>◌, assert}
use wind_breaker.Prelude.Int.{ℤ, is_positive, is_negative}
use wind_breaker.Socket.Calls.{Address, Os, ne_failed, open_socket, bind_socket, listen_socket}

-- The loop over the addresses; behind its end, `p` is NULL.
unfoldable pub bind_first : Os → List Address → Option ℤ
unfolding open_socket bind_socket
bind_first o [] = none
bind_first o (a ∷ rest) =
    let later = bind_first o rest in
    (do
      fd ← open_socket o a
      if is_negative fd then later else (do
        assert (ne_failed (o.setsockopt fd))
        result ← bind_socket o fd a
        if is_negative result then later else some fd))

-- `addresses` is `none` if getaddrinfo fails.
unfoldable pub get_listener_socket : Os → Option (List Address) → ℤ → Option ℤ
unfolding bind_first listen_socket
get_listener_socket o addresses backlog = do
  found ← addresses
  fd ← bind_first o found
  listen_socket o fd backlog
  some fd

-- What the first address and the backlog have to be, and the calls for it to return.
unfoldable pub usable : Os → Address → ℤ → Bool
usable o a backlog =
    ltb 0 a.family
    && (ltb 0 a.socktype
        && (ltb 0 a.protocol
            && (is_positive (o.socket a)
                && (ne_failed (o.setsockopt (o.socket a))
                    && (a.bound
                        && (ltb 0 a.addrlen
                            && (ne_failed (o.bind (o.socket a) a)
                                && (is_positive backlog
                                    && ne_failed (o.listen (o.socket a) backlog)))))))))

-- A call that does not succeed returns -1.
pub record IsPosix (o : Os) : Type 0 where
  pub socket : (a : Address) → is_negative (o.socket a) ≡ true → ne_failed (o.socket a) ≡ false
  pub bind :
      (fd : ℤ) (a : Address) → is_negative (o.bind fd a) ≡ true → ne_failed (o.bind fd a) ≡ false

-- get_listener_socket returns the socket of the first address if that is usable, and stops the server
-- if it is not, whatever other addresses there are; `socket` and `bind` return -1 when they fail.
pub get_listener_socket_lem :
    (o : Os) (v : IsPosix o) (a : Address) (rest : List Address) (backlog : ℤ)
    → get_listener_socket o (some (a ∷ rest)) backlog
      ≡ (if usable o a backlog then some (o.socket a) else none)
unfolding get_listener_socket usable
get_listener_socket_lem o v a rest backlog = ground (arith, v.socket a, v.bind (o.socket a) a)
