-- ===== src/Listener/Loop.antt =====
-- The loop of `_listen` in src/listener.c, from `listen_async` on.
use wind_breaker.Prelude.{Bool, true, false, List, [], ◌∷◌, Option, some, ltb, if◌then◌else◌}
use wind_breaker.Prelude.Fault.{◌>>=◌, ◌>>◌, assert}
use wind_breaker.Listener.{Env, Listening, Polled, Server, listen_round}

-- One pass: whether `stop()` holds at the head of the loop, what `ppoll` and the visits answer, and
-- what the workers have made of the server at the end of the round.
pub record Pass : Type 0 where
  pub stopping : Bool
  pub polled : Polled
  pub answers : List Env
  pub others : Server → Server

-- Whether the loop was left, and the server.
unfoldable pub listen_loop : Listening → List Pass → Server → Option (Bool × Server)
unfolding listen_round
listen_loop l [] s = some (false, s)
listen_loop l (p ∷ ps) s =
    if p.stopping
    then some (true, s)
    else do t ← listen_round l p.polled p.answers s; listen_loop l ps (p.others t)

unfoldable pub listen_async : Listening → List Pass → Server → Option (Bool × Server)
unfolding listen_loop
listen_async l ps s = do assert (ltb 0 l.plain); listen_loop l ps s
