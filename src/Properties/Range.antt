-- ===== src/Properties/Range.antt =====
-- The ranges of the variables of src/properties.c, setter by setter.
use wind_breaker.Prelude.{
  ◌⊎◌, ℕ, ◌≤◌, ◌<◌, ◌≡◌, refl, Bool, true, ◌&&◌, ◌||◌, List, [], ◌∷◌, arith, ltb, inr,
}
use wind_breaker.Prelude.Fault.{
  of_Ensures, assert, assert-eq-some, Ensures, Ensures-then, Ensures-bind,
}
use wind_breaker.Prelude.Int.{ℤ, pos, negsuc}
use wind_breaker.Prelude.Text.{codes}
use wind_breaker.Properties.{
  is_level, is_type, Config, Outside, same, begins, setting, set_http_port, level_of, set_log_level,
  type_of, set_log_type, set_env_arg, set_env_line,
}

-- A number that the assertions let through.
abbrev pub IsSetting : ℕ → Type 0
IsSetting n = (0 < n) × (n < 65536)

-- The port is the one of the start, or `atoi` reads a number in range from it.
abbrev pub IsPort : Outside → List ℕ → Type 0
IsPort o t = (t ≡ codes "8080") ⊎ ((n : ℕ) × (o.atoi t ≡ pos n) × IsSetting n)

-- One of the three environments, at the beginning of the text.
abbrev pub is_named : List ℕ → Bool
is_named v = begins (codes "dev") v || begins (codes "prod") v || begins (codes "test") v

pub record InRange (o : Outside) (c : Config) : Type 0 where
  pub sessions : IsSetting c.session_max_size
  pub workers : IsSetting c.worker_thread_max_size
  pub backlog : IsSetting c.listen_backlog_max_size
  pub level : c.log_level ≤ 4
  pub type : c.log_type ≤ 2
  pub port : IsPort o c.http_port
  pub environment : is_named c.env ≡ true

same-begins : (s t : List ℕ) → same s t ≡ true → begins t s ≡ true
unfolding same
same-begins [] [] h = refl
same-begins [] (b ∷ t) h = cc
same-begins (a ∷ s) [] h = cc
same-begins (a ∷ s) (b ∷ t) h = ground (arith, same-begins s t)

pub setting-ensures : (z : ℤ) → Ensures IsSetting (setting z)
unfolding setting
setting-ensures (pos n) =
    Ensures-then IsSetting (assert (ltb 0 n && ltb n 65536)) _
      (λ _ h. bounds n (assert-eq-some _ h))
  where
    bounds : (n : ℕ) → (ltb 0 n && ltb n 65536) ≡ true → IsSetting n
    bounds n p = ground arith
setting-ensures (negsuc n) = tt

level_of-le : (v : List ℕ) (n : ℕ) → n ≤ 4 → level_of v n ≤ 4
unfolding level_of
level_of-le v n h = ground arith

type_of-le : (v : List ℕ) (n : ℕ) → n ≤ 2 → type_of v n ≤ 2
unfolding type_of
type_of-le v n h = ground arith

pub whole_named :
    (v : List ℕ)
    → (same v (codes "dev") || same v (codes "prod") || same v (codes "test")) ≡ true
    → is_named v ≡ true
whole_named v =
    by_cases (same v (codes "dev")) (same v (codes "prod")) (same v (codes "test"))
      (same-begins v (codes "dev")) (same-begins v (codes "prod")) (same-begins v (codes "test"))
  where
    by_cases :
        (d p t : Bool) {d' p' t' : Bool}
        → (d ≡ true → d' ≡ true)
        → (p ≡ true → p' ≡ true)
        → (t ≡ true → t' ≡ true)
        → (d || p || t) ≡ true
        → (d' || p' || t') ≡ true
    by_cases d p t hd hp ht e = ground (arith, hd, hp, ht)

-- The assertion on a number says what `atoi` reads.
setting-reads : (z : ℤ) → Ensures (λ n. (z ≡ pos n) × IsSetting n) (setting z)
unfolding setting
setting-reads (pos n) =
    Ensures-then (λ n'. (pos n ≡ pos n') × IsSetting n') (assert (ltb 0 n && ltb n 65536)) _
      (λ _ h. (
        refl,
        of_Ensures IsSetting (setting (pos n)) (setting-ensures (pos n))
            (rw (assert-eq-some _ h, setting) refl),
      ))
setting-reads (negsuc n) = tt

pub set_http_port-ensures :
    (o : Outside) (v : List ℕ) (c : Config)
    → InRange o c
    → Ensures (InRange o) (set_http_port o v c)
unfolding set_http_port
set_http_port-ensures o v c r =
    Ensures-bind _ (InRange o) (setting (o.atoi v)) _ (setting-reads (o.atoi v)) (λ n h. record {
      sessions = r.sessions;
      workers = r.workers;
      backlog = r.backlog;
      level = r.level;
      type = r.type;
      port = inr (n, h.0, h.1);
      environment = r.environment;
    })

with_level :
    (o : Outside) (v : List ℕ) (c : Config)
    → InRange o c
    → InRange o (record c { log_level = level_of v c.log_level })
with_level o v c r = record {
  sessions = r.sessions;
  workers = r.workers;
  backlog = r.backlog;
  level = level_of-le v c.log_level r.level;
  type = r.type;
  port = r.port;
  environment = r.environment;
}

with_type :
    (o : Outside) (v : List ℕ) (c : Config)
    → InRange o c
    → InRange o (record c { log_type = type_of v c.log_type })
with_type o v c r = record {
  sessions = r.sessions;
  workers = r.workers;
  backlog = r.backlog;
  level = r.level;
  type = type_of-le v c.log_type r.type;
  port = r.port;
  environment = r.environment;
}

pub set_log_level-ensures :
    (o : Outside) (v : List ℕ) (c : Config) → InRange o c → Ensures (InRange o) (set_log_level v c)
unfolding set_log_level
set_log_level-ensures o v c r =
    Ensures-then (InRange o) (assert (is_level v)) _ (λ _ _. with_level o v c r)

pub set_log_type-ensures :
    (o : Outside) (v : List ℕ) (c : Config) → InRange o c → Ensures (InRange o) (set_log_type v c)
unfolding set_log_type
set_log_type-ensures o v c r =
    Ensures-then (InRange o) (assert (is_type v)) _ (λ _ _. with_type o v c r)

with_env :
    (o : Outside) (v : List ℕ) (c : Config)
    → InRange o c
    → is_named v ≡ true
    → InRange o (record c { env = v })
with_env o v c r d = record {
  sessions = r.sessions;
  workers = r.workers;
  backlog = r.backlog;
  level = r.level;
  type = r.type;
  port = r.port;
  environment = d;
}

pub set_env_arg-ensures :
    (o : Outside) (v : List ℕ) (c : Config) → InRange o c → Ensures (InRange o) (set_env_arg v c)
unfolding set_env_arg
set_env_arg-ensures o v c r =
    Ensures-then (InRange o)
      (assert (same v (codes "dev") || same v (codes "prod") || same v (codes "test"))) _
      (λ _ p. with_env o v c r (whole_named v (assert-eq-some _ p)))

pub set_env_line-ensures :
    (o : Outside) (v : List ℕ) (c : Config) → InRange o c → Ensures (InRange o) (set_env_line v c)
unfolding set_env_line
set_env_line-ensures o v c r =
    Ensures-then (InRange o) (assert (is_named v)) _ (λ _ p. with_env o v c r (assert-eq-some _ p))
