-- ===== src/Startup/Exit.antt =====
-- What handle_exit releases at each point of main.
use wind_breaker.Prelude.{
  ℕ, ◌≡◌, refl, ◌∙◌, Bool, true, false, ◌&&◌, List, [], ◌∷◌, some, leb, arith,
}
use wind_breaker.Prelude.Fault.{Ensures, of_Ensures}
use wind_breaker.Prelude.Int.{ℤ, pos, negsuc}
use wind_breaker.Startup.{
  Boot, Things, Process, loaded, is_open, Action, act, main, handle_exit, set_status,
  init_properties, init_logger, check_logger, migrate_db, open_http, check_http, open_https,
  init_ssl_ctx, init_marked_fds, init_session_cache, init_poll_array, init_workers,
}

-- The points of a run at which a signal may arrive, with the statements that are left.
pub data Reaches (b : Boot) : List Action → Process → List Action → Process → Type 0 where
  here : {left : List Action} {p : Process} → Reaches b left p left p
  step :
      {a : Action} {left rest : List Action} {p q r : Process}
      → act b a p ≡ some q
      → Reaches b left q rest r
      → Reaches b (a ∷ left) p rest r

-- What the status tells is made.
abbrev Covered : Process → Type 0
Covered p =
    (leb 2 p.status ≡ true → p.made.logger ≡ true)
    × (p.made.http_socket ≡ is_open p.http_socket_fd)
    × (p.made.https_socket ≡ is_open p.https_socket_fd)
    × (leb 7 p.status ≡ true → p.made.marked_fds ≡ true)
    × (leb 8 p.status ≡ true → p.made.session_cache ≡ true)
    × (leb 9 p.status ≡ true → p.made.poll_array ≡ true)
    × (leb 10 p.status ≡ true → p.made.workers ≡ true)

-- Behind an assignment to the status all that is made is released.
Settles : Action → Process → Type 0
Settles (set_status n) p = handle_exit (record p { status = n }) ≡ p.made
Settles init_properties p = Unit
Settles init_logger p = Unit
Settles check_logger p = Unit
Settles migrate_db p = Unit
Settles open_http p = Unit
Settles check_http p = Unit
Settles open_https p = Unit
Settles init_ssl_ctx p = Unit
Settles init_marked_fds p = Unit
Settles init_session_cache p = Unit
Settles init_poll_array p = Unit
Settles init_workers p = Unit

-- It is so from here on, whatever statement is the last.
CoveredFrom : Boot → List Action → Process → Type 0
CoveredFrom b [] p = Covered p
CoveredFrom b (a ∷ left) p = Covered p × Settles a p × Ensures (CoveredFrom b left) (act b a p)

Covered-now : (b : Boot) (left : List Action) (p : Process) → CoveredFrom b left p → Covered p
unfolding CoveredFrom
Covered-now b [] p h = h
Covered-now b (a ∷ left) p h = h.0

Reaches-CoveredFrom :
    {b : Boot} {left rest : List Action} {p q : Process}
    → Reaches b left p rest q
    → CoveredFrom b left p
    → CoveredFrom b rest q
unfolding CoveredFrom
Reaches-CoveredFrom here h = h
Reaches-CoveredFrom {b} (step {left = left} e r) h =
    Reaches-CoveredFrom r (of_Ensures (CoveredFrom b left) _ h.2 e)

main-CoveredFrom : (b : Boot) → CoveredFrom b (main b) loaded
unfolding CoveredFrom main act Settles handle_exit
main-CoveredFrom b =
    by_tests b.configured b.log_ready b.migrated b.http b.enabled_ssl b.https b.ctx_ready
      b.workers_ready
  where
    by_tests :
        (configured log_ready migrated : Bool) (http : ℤ) (ssl : Bool) (https : ℤ)
        (ctx workers : Bool)
        → CoveredFrom
            (record {
              configured = configured;
              log_ready = log_ready;
              migrated = migrated;
              http = http;
              enabled_ssl = ssl;
              https = https;
              ctx_ready = ctx;
              workers_ready = workers;
            })
            (main (record {
              configured = configured;
              log_ready = log_ready;
              migrated = migrated;
              http = http;
              enabled_ssl = ssl;
              https = https;
              ctx_ready = ctx;
              workers_ready = workers;
            }))
            loaded
    by_tests false l m h s t c w = ground arith
    by_tests true false m h s t c w = ground arith
    by_tests true true false h s t c w = ground arith
    by_tests true true true (negsuc n) s t c w = ground arith
    by_tests true true true (pos n) false t c false = ground arith
    by_tests true true true (pos n) false t c true = ground arith
    by_tests true true true (pos n) true (negsuc k) c false = ground arith
    by_tests true true true (pos n) true (negsuc k) c true = ground arith
    by_tests true true true (pos n) true (pos k) false w = ground arith
    by_tests true true true (pos n) true (pos k) true false = ground arith
    by_tests true true true (pos n) true (pos k) true true = ground arith

-- Only what is made is released.
pub record Within (released made : Things) : Type 0 where
  pub logger : released.logger ≡ true → made.logger ≡ true
  pub http_socket : released.http_socket ≡ true → made.http_socket ≡ true
  pub https_socket : released.https_socket ≡ true → made.https_socket ≡ true
  pub ctx : released.ctx ≡ true → made.ctx ≡ true
  pub marked_fds : released.marked_fds ≡ true → made.marked_fds ≡ true
  pub session_cache : released.session_cache ≡ true → made.session_cache ≡ true
  pub poll_array : released.poll_array ≡ true → made.poll_array ≡ true
  pub workers : released.workers ≡ true → made.workers ≡ true

-- At whatever statement of main a signal arrives or an assertion fails, handle_exit releases only what
-- has been made.
pub handle_exit-Within :
    (b : Boot) (left : List Action) (p : Process)
    → Reaches b (main b) loaded left p
    → Within (handle_exit p) p.made
unfolding handle_exit
handle_exit-Within b left p r =
    let c = Covered-now b left p (Reaches-CoveredFrom r (main-CoveredFrom b)) in
    record {
      logger = c.0;
      http_socket = λ h. c.1 ∙ left_and _ _ h;
      https_socket = λ h. c.2 ∙ left_and _ _ h;
      ctx = λ h. h;
      marked_fds = c.3;
      session_cache = c.4;
      poll_array = c.5;
      workers = c.6;
    }
  where
    left_and : (x y : Bool) → (x && y) ≡ true → x ≡ true
    left_and true y h = refl
    left_and false y h = cc

-- Behind each assignment to `status`, the last one before listen_async included, handle_exit releases
-- all that has been made, and nothing else.
pub handle_exit-eq-made :
    (b : Boot) (left : List Action) (n : ℕ) (p : Process)
    → Reaches b (main b) loaded (set_status n ∷ left) p
    → handle_exit (record p { status = n }) ≡ p.made
unfolding Settles CoveredFrom
handle_exit-eq-made b left n p r = (Reaches-CoveredFrom r (main-CoveredFrom b)).1
