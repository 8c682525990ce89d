-- ===== src/Tests/Process.antt =====
-- The theorems on src/main.c and src/worker.c at small inputs.
use wind_breaker.Prelude.{
  ◌≡◌, refl, true, false, [], ◌∷◌, none, some, map, drop, if◌then◌else◌, arith,
}
use wind_breaker.Prelude.Int.{pos, negsuc}
use wind_breaker.Socket.Calls.{Address, Os}
use wind_breaker.Listener.Port.{get_listener_socket, usable, IsPosix, get_listener_socket_lem}
use wind_breaker.Workers.{handlers_size, init_workers, close_workers}
use wind_breaker.Workers.Threads.{teams, close_workers-init_workers}
use wind_breaker.Startup.{Boot, Process, loaded, nothing, act, main, handle_exit, set_status}
use wind_breaker.Startup.Exit.{Reaches, here, step, Within, handle_exit-Within, handle_exit-eq-made}

close_workers-init_workers_example :
    (init_workers (λ n. true) 2 none ≡ some (map some (teams 2 0 handlers_size)))
    × (close_workers (λ n. true) 2 (some (map some (teams 2 0 handlers_size)))
        ≡ some (teams 2 0 handlers_size))
close_workers-init_workers_example =
    close_workers-init_workers (λ n. true) (λ n. true) 2 (λ n. refl) (λ n. refl) (omega arith)

-- A start without TLS.
abbrev boot : Boot
boot = record {
  configured = true;
  log_ready = true;
  migrated = true;
  http = pos 3;
  enabled_ssl = false;
  https = negsuc 0;
  ctx_ready = false;
  workers_ready = true;
}

-- The socket is open, but the status does not tell so yet.
abbrev opened : Process
opened = record loaded {
  status = 4;
  http_socket_fd = pos 3;
  made = record nothing { logger = true; http_socket = true };
}

opened-Reaches : Reaches boot (main boot) loaded (drop 9 (main boot)) opened
unfolding main act
opened-Reaches = step refl (
    step refl
      (step refl (step refl (step refl (step refl (step refl (step refl (step refl here))))))))

handle_exit-Within_example : Within (handle_exit opened) opened.made
handle_exit-Within_example = handle_exit-Within boot (drop 9 (main boot)) opened opened-Reaches

checked-Reaches : Reaches boot (main boot) loaded (set_status 5 ∷ drop 11 (main boot)) opened
unfolding main act
checked-Reaches = step refl (
    step refl (
      step refl
        (step refl (step refl (step refl (step refl (step refl (step refl (step refl here)))))))))

handle_exit-eq-made_example : handle_exit (record opened { status = 5 }) ≡ opened.made
handle_exit-eq-made_example =
    handle_exit-eq-made boot (drop 11 (main boot)) 5 opened checked-Reaches

abbrev os : Os
os = record {
  socket = λ a. pos 3;
  setsockopt = λ fd. pos 0;
  bind = λ fd a. pos 0;
  listen = λ fd backlog. pos 0;
  accept = λ fd. pos 4;
  connect = λ fd. pos 0;
  get_flags = λ fd. pos 2;
  set_flags = λ fd. pos 0;
}

os-IsPosix : IsPosix os
os-IsPosix = record { socket = λ a h. cc; bind = λ fd a h. cc }

abbrev any_address : Address
any_address = record { family = 2; socktype = 1; protocol = 6; bound = true; addrlen = 16 }

get_listener_socket_lem_example :
    get_listener_socket os (some (any_address ∷ any_address ∷ [])) (pos 10)
    ≡ (if usable os any_address (pos 10) then some (pos 3) else none)
get_listener_socket_lem_example =
    get_listener_socket_lem os os-IsPosix any_address (any_address ∷ []) (pos 10)
