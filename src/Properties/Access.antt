-- ===== src/Properties/Access.antt =====
-- The functions of src/properties.c that read or set one variable.
use wind_breaker.Prelude.{ℕ, ◌≡◌, refl, ◌||◌, Bool, List, Option, some, take}
use wind_breaker.Prelude.Fault.{◌>>◌, assert, Ensures, Ensures-then}
use wind_breaker.Prelude.Text.{codes}
use wind_breaker.Properties.{Config, same}

abbrev pub get_session_max_size : Config → ℕ
get_session_max_size c = c.session_max_size

abbrev pub get_worker_thread_max_size : Config → ℕ
get_worker_thread_max_size c = c.worker_thread_max_size

abbrev pub get_listen_backlog_max_size : Config → ℕ
get_listen_backlog_max_size c = c.listen_backlog_max_size

abbrev pub set_session_max_size : ℕ → Config → Config
set_session_max_size n c = record c { session_max_size = n }

-- What the assertion of `set_env` allows.
abbrev pub is_environment : List ℕ → Bool
unfolding same
is_environment env =
    same (take 3 env) (codes "dev")
    || same (take 4 env) (codes "prod")
    || same (take 4 env) (codes "test")

-- `set_env`. Its parameter hides the variable, so `strcpy` copies the argument onto itself.
unfoldable pub set_env : List ℕ → Config → Option Config
set_env env c = assert (is_environment env) >> some c

-- No call of `set_env` changes the environment, or anything else.
set_env_keeps : (env : List ℕ) (c : Config) → Ensures (λ c'. c' ≡ c) (set_env env c)
unfolding set_env
set_env_keeps env c =
    Ensures-then (λ c'. c' ≡ c) (assert (is_environment env)) (λ _. some c) (λ u _. refl)
