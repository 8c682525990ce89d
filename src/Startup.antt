-- ===== src/Startup.antt =====
-- src/main.c: the steps of main up to the listening loop, and handle_exit, which a signal or a failed
-- assertion calls at any point between them. What the steps answer is the parameter `Boot`.
pub mod Exit
use wind_breaker.Prelude.{
  ℕ, Bool, true, false, not, ◌&&◌, List, [], ◌∷◌, ◌++◌, Option, none, some, leb, if◌then◌else◌,
}
use wind_breaker.Prelude.Int.{ℤ, pos, negsuc, is_negative}

-- Whether init_properties returns, init_logger gives what the assertion behind it wants, migrate_db
-- returns 0 and all threads start; what get_listener_socket returns for the two ports; whether TLS is
-- enabled, and whether init_ssl_ctx returns.
pub record Boot : Type 0 where
  pub configured : Bool
  pub log_ready : Bool
  pub migrated : Bool
  pub http : ℤ
  pub enabled_ssl : Bool
  pub https : ℤ
  pub ctx_ready : Bool
  pub workers_ready : Bool

-- The things that the process has made, or that handle_exit releases.
pub record Things : Type 0 where
  pub logger : Bool
  pub http_socket : Bool
  pub https_socket : Bool
  pub ctx : Bool
  pub marked_fds : Bool
  pub session_cache : Bool
  pub poll_array : Bool
  pub workers : Bool

-- The static variables of main.c, and what exists.
pub record Process : Type 0 where
  pub status : ℕ
  pub http_socket_fd : ℤ
  pub https_socket_fd : ℤ
  pub made : Things

abbrev pub nothing : Things
nothing = record {
  logger = false;
  http_socket = false;
  https_socket = false;
  ctx = false;
  marked_fds = false;
  session_cache = false;
  poll_array = false;
  workers = false;
}

-- The process before main.
abbrev pub loaded : Process
loaded = record {
  status = 0;
  http_socket_fd = negsuc 0;
  https_socket_fd = negsuc 0;
  made = nothing;
}

-- `fd != -1`.
abbrev pub is_open : ℤ → Bool
is_open (pos n) = true
is_open (negsuc n) = leb 1 n

-- The statements of main.
pub data Action : Type 0 where
  init_properties : Action
  init_logger : Action
  check_logger : Action
  migrate_db : Action
  open_http : Action
  check_http : Action
  open_https : Action
  init_ssl_ctx : Action
  init_marked_fds : Action
  init_session_cache : Action
  init_poll_array : Action
  init_workers : Action
  set_status : ℕ → Action

abbrev pub make : (Things → Things) → Process → Option Process
make change p = some (record p { made = change p.made })

-- One statement; `none` is a failed assertion.
unfoldable pub act : Boot → Action → Process → Option Process
act b init_properties p = if b.configured then some p else none
act b init_logger p = make (λ t. record t { logger = true }) p
act b check_logger p = if b.log_ready then some p else none
act b migrate_db p = if b.migrated then some p else none
act b open_http p =
    some
      (record p { http_socket_fd = b.http; made = record p.made { http_socket = is_open b.http } })
act b check_http p = if is_negative p.http_socket_fd then none else some p
act b open_https p = some (record p {
  https_socket_fd = b.https;
  made = record p.made { https_socket = is_open b.https };
})
act b init_ssl_ctx p =
    if is_negative p.https_socket_fd
    then some p
    else if b.ctx_ready
    then make (λ t. record t { ctx = true }) p
    else none
act b init_marked_fds p = make (λ t. record t { marked_fds = true }) p
act b init_session_cache p = make (λ t. record t { session_cache = true }) p
act b init_poll_array p = make (λ t. record t { poll_array = true }) p
act b init_workers p = if b.workers_ready then make (λ t. record t { workers = true }) p else none
act b (set_status n) p = some (record p { status = n })

-- The statements up to listen_async.
unfoldable pub main : Boot → List Action
main b =
    init_properties
    ∷ set_status 1
    ∷ init_logger
    ∷ set_status 2
    ∷ check_logger
    ∷ set_status 3
    ∷ migrate_db
    ∷ set_status 4
    ∷ open_http
    ∷ check_http
    ∷ set_status 5
    ∷ ((if b.enabled_ssl then open_https ∷ set_status 6 ∷ init_ssl_ctx ∷ [] else [])
        ++ (init_marked_fds
            ∷ set_status 7
            ∷ init_session_cache
            ∷ set_status 8
            ∷ init_poll_array
            ∷ set_status 9
            ∷ init_workers
            ∷ set_status 10
            ∷ []))

-- What handle_exit releases: the sockets, the threads and the rest by the status, the context by its
-- pointer.
unfoldable pub handle_exit : Process → Things
handle_exit p = record {
  logger = leb 2 p.status;
  http_socket = is_open p.http_socket_fd && leb 5 p.status;
  https_socket = is_open p.https_socket_fd && leb 6 p.status;
  ctx = p.made.ctx;
  marked_fds = leb 7 p.status;
  session_cache = leb 8 p.status;
  poll_array = leb 9 p.status;
  workers = leb 10 p.status;
}
