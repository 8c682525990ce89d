-- ===== src/Session/Table/Initial.antt =====
-- The session table at the start of the server.
use wind_breaker.Prelude.{ℕ, zero, suc, ◌<◌, ◌≡◌, refl, ap, Bool, arith, length}
use wind_breaker.MarkedFds.{Marks}
use wind_breaker.Session.Table.{fresh_slots, init_session_cache}
use wind_breaker.Session.Table.Invariant.{IsValid, Unused}

length-fresh_slots : (n cell : ℕ) → length (fresh_slots n cell) ≡ n
unfolding fresh_slots
length-fresh_slots zero cell = refl
length-fresh_slots (suc n) cell = ap suc (length-fresh_slots n (suc cell))

-- When at least one session is configured, `init_session_cache` makes a valid table, in which no
-- descriptor has a slot.
pub init_session_cache-IsValid :
    (max_size : ℕ) (ssl : Bool) (marks : Marks) (fd : ℕ)
    → 0 < max_size
    → IsValid (init_session_cache max_size ssl marks)
      × Unused fd (init_session_cache max_size ssl marks)
unfolding init_session_cache
init_session_cache-IsValid max_size ssl marks fd some_room = (
  record {
    sized = length-fresh_slots max_size 0;
    within = omega arith;
    round = some_room;
    distinct = λ j k f jk kc e e'. absurd (omega arith);
  },
  λ j h e. absurd (omega arith),
)
