-- ===== src/Properties/Read.antt =====
-- The reading of the arguments and of the file in src/properties.c.
use wind_breaker.Prelude.{
  inl, ℕ, ◌-◌, ◌≡◌, refl, Bool, true, ◌||◌, List, [], ◌∷◌, Option, none, some, arith, length, take,
}
use wind_breaker.Prelude.Fault.{
  ◌>>=◌, assert, Ensures, Ensures-then, Ensures-bind, Ensures-if, of_Ensures,
}
use wind_breaker.Prelude.Int.{is_positive}
use wind_breaker.Prelude.Text.{codes}
use wind_breaker.Properties.{
  Config, defaults, Outside, same, begins, behind, setting, read_arg, first_of, read_args,
  read_line, read_lines, init_properties,
}
use wind_breaker.Properties.Range.{
  IsSetting, InRange, setting-ensures, set_http_port-ensures, set_log_level-ensures,
  set_log_type-ensures, set_env_arg-ensures, set_env_line-ensures,
}

-- The files and the switches have no part in the ranges.
others :
    (o : Outside) (c : Config) (log properties cert key : List ℕ) (reset https : Bool)
    → InRange o c
    → InRange o (record c {
      log_file = log;
      properties_file = properties;
      cert_file = cert;
      private_key_file = key;
      reset_db = reset;
      enable_https = https;
    })
others o c log properties cert key reset https r = record {
  sessions = r.sessions;
  workers = r.workers;
  backlog = r.backlog;
  level = r.level;
  type = r.type;
  port = r.port;
  environment = r.environment;
}

-- A setting of a file that is and one of a number.
copies :
    (o : Outside) (m : Option (List ℕ)) (f : List ℕ → Config)
    → ((t : List ℕ) → InRange o (f t))
    → Ensures (InRange o) (m >>= λ v. some (f v))
copies o m f h = Ensures-then (InRange o) m _ (λ v _. h v)

counts :
    (o : Outside) (m : Option (List ℕ)) (f : ℕ → Config)
    → ((n : ℕ) → IsSetting n → InRange o (f n))
    → Ensures (InRange o) (m >>= λ v. setting (o.atoi v) >>= λ n. some (f n))
counts o m f h = Ensures-then (InRange o) m _ (λ v _.
    Ensures-bind IsSetting (InRange o) (setting (o.atoi v)) _ (setting-ensures (o.atoi v)) h)

with_sizes :
    (o : Outside) (c : Config) (sessions workers backlog : ℕ)
    → InRange o c
    → IsSetting sessions
    → IsSetting workers
    → IsSetting backlog
    → InRange o (record c {
      session_max_size = sessions;
      worker_thread_max_size = workers;
      listen_backlog_max_size = backlog;
    })
with_sizes o c sessions workers backlog r s w b = record {
  sessions = s;
  workers = w;
  backlog = b;
  level = r.level;
  type = r.type;
  port = r.port;
  environment = r.environment;
}

read_arg-ensures :
    (o : Outside) (a : List ℕ) (value : Option (List ℕ)) (c : Config)
    → InRange o c
    → Ensures (InRange o) (read_arg o a value c)
unfolding read_arg
read_arg-ensures o a value c r =
    Ensures-if (InRange o) (same a (codes "-p") || same a (codes "--port")) _ _
      (Ensures-then (InRange o) value _ (λ v _. set_http_port-ensures o v c r))
      (Ensures-if (InRange o) (same a (codes "-e") || same a (codes "--environment")) _ _
        (Ensures-then (InRange o) value _ (λ v _. set_env_arg-ensures o v c r))
        (Ensures-if (InRange o) (same a (codes "--properties")) _ _
          (Ensures-then (InRange o) value _ (λ v _.
            Ensures-then (InRange o) (assert (o.exists v)) _ (λ _ _.
              others o c c.log_file v c.cert_file c.private_key_file c.reset_db c.enable_https r)))
          (Ensures-if (InRange o) (same a (codes "--log-file")) _ _
            (copies o value (λ t. record c { log_file = t })
              (λ t.
                others o c t c.properties_file c.cert_file c.private_key_file c.reset_db
                  c.enable_https r))
            (Ensures-if (InRange o) (same a (codes "--log-level")) _ _
              (Ensures-then (InRange o) value _ (λ v _. set_log_level-ensures o v c r))
              (Ensures-if (InRange o) (same a (codes "--log-type")) _ _
                (Ensures-then (InRange o) value _ (λ v _. set_log_type-ensures o v c r))
                (Ensures-if (InRange o) (same a (codes "--reset-db"))
                  (some (record c { reset_db = true })) _
                  (others o c c.log_file c.properties_file c.cert_file c.private_key_file true
                    c.enable_https r)
                  (Ensures-if (InRange o) (same a (codes "--enable-https"))
                    (some (record c { enable_https = true })) (some c)
                    (others o c c.log_file c.properties_file c.cert_file c.private_key_file
                      c.reset_db true r)
                    r)))))))

read_line-ensures :
    (o : Outside) (line : List ℕ) (c : Config)
    → InRange o c
    → Ensures (InRange o) (read_line o line c)
unfolding read_line
read_line-ensures o line c r =
    Ensures-if (InRange o) (begins (codes "session_max_size") line) _ _
      (counts o (behind 17 line) (λ n. record c { session_max_size = n })
        (λ n h.
          with_sizes o c n c.worker_thread_max_size c.listen_backlog_max_size r h r.workers
            r.backlog))
      (Ensures-if (InRange o) (begins (codes "worker_thread_max_size") line) _ _
        (counts o (behind 23 line) (λ n. record c { worker_thread_max_size = n })
          (λ n h.
            with_sizes o c c.session_max_size n c.listen_backlog_max_size r r.sessions h r.backlog))
        (Ensures-if (InRange o) (begins (codes "listen_backlog_max_size") line) _ _
          (counts o (behind 24 line) (λ n. record c { listen_backlog_max_size = n })
            (λ n h.
              with_sizes o c c.session_max_size c.worker_thread_max_size n r r.sessions r.workers
                h))
          (Ensures-if (InRange o) (begins (codes "http_port") line) _ _
            (Ensures-then (InRange o) (behind 10 line) _ (λ v _. set_http_port-ensures o v c r))
            (Ensures-if (InRange o) (begins (codes "env") line) _ _
              (Ensures-then (InRange o) (behind 4 line) _ (λ v _. set_env_line-ensures o v c r))
              (Ensures-if (InRange o) (begins (codes "log_file") line) _ _
                (copies o (behind 9 line) (λ t. record c { log_file = t })
                  (λ t.
                    others o c t c.properties_file c.cert_file c.private_key_file c.reset_db
                      c.enable_https r))
                (Ensures-if (InRange o) (begins (codes "log_level") line) _ _
                  (Ensures-then (InRange o) (behind 10 line) _
                    (λ v _. set_log_level-ensures o v c r))
                  (Ensures-if (InRange o) (begins (codes "log_type") line) _ _
                    (Ensures-then (InRange o) (behind 9 line) _
                      (λ v _. set_log_type-ensures o v c r))
                    (Ensures-if (InRange o) (same (take 16 line) (codes "cert_chain_file")) _ _
                      (copies o (behind 17 line) (λ t. record c { cert_file = t })
                        (λ t.
                          others o c c.log_file c.properties_file t c.private_key_file c.reset_db
                            c.enable_https r))
                      (Ensures-if (InRange o) (begins (codes "private_key_file") line) _ _
                        (copies o (behind 17 line) (λ t. record c { private_key_file = t })
                          (λ t.
                            others o c c.log_file c.properties_file c.cert_file t c.reset_db
                              c.enable_https r))
                        (Ensures-if (InRange o) (begins (codes "enable_https") line) _ (some c)
                          (Ensures-then (InRange o) (behind 13 line) _ (λ v _.
                            others o c c.log_file c.properties_file c.cert_file c.private_key_file
                              c.reset_db (is_positive (o.atoi v)) r))
                          r))))))))))

read_args-ensures :
    (o : Outside) (args : List (List ℕ)) (c : Config)
    → InRange o c
    → Ensures (InRange o) (read_args o args c)
unfolding read_args
read_args-ensures o [] c r = r
read_args-ensures o (a ∷ args) c r =
    Ensures-bind (InRange o) (InRange o) (read_arg o a (first_of args) c) _
      (read_arg-ensures o a (first_of args) c r) (read_args-ensures o args)

read_lines-ensures :
    (o : Outside) (lines : List (List ℕ)) (c : Config)
    → InRange o c
    → Ensures (InRange o) (read_lines o lines c)
unfolding read_lines
read_lines-ensures o [] c r = r
read_lines-ensures o (line ∷ lines) c r =
    Ensures-bind (InRange o) (InRange o) (read_line o (take (length line - 1) line) c) _
      (read_line-ensures o (take (length line - 1) line) c r) (read_lines-ensures o lines)

defaults-InRange : (o : Outside) → InRange o defaults
unfolding same
defaults-InRange o = record {
  sessions = omega arith;
  workers = omega arith;
  backlog = omega arith;
  level = omega arith;
  type = omega arith;
  port = inl refl;
  environment = refl;
}

pub init_properties-InRange :
    (o : Outside) (args : List (List ℕ)) (c : Config)
    → init_properties o args ≡ some c
    → InRange o c
unfolding init_properties
init_properties-InRange o args c = of_Ensures (InRange o) (init_properties o args) (
    Ensures-bind (InRange o) (InRange o) (read_args o args defaults) _
      (read_args-ensures o args defaults (defaults-InRange o))
      (λ d r. from_file d (o.lines d.properties_file) r))
  where
    from_file :
        (d : Config) (file : Option (List (List ℕ)))
        → InRange o d
        → Ensures (InRange o) (elim file [ none ↦ some d | some lines ↦ read_lines o lines d ])
    from_file d none r = r
    from_file d (some lines) r = read_lines-ensures o lines d r
