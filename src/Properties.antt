-- ===== src/Properties.antt =====
-- src/properties.c: the configuration, from the arguments of the program and from a file.
-- `atoi`, `access` and the file are the parameter `Outside`. `none` is a failed assertion, or a read of
-- an argument or of text that is not there. `strcpy` has no bound: a text that is longer than its
-- array is kept whole here, and what it overwrites behind the array is left out, as is what is
-- printed about the configuration.
pub mod Range
pub mod Read
pub mod Access
use wind_breaker.Prelude.{
  ℕ, zero, suc, ◌+◌, ◌-◌, Bool, true, false, ◌&&◌, ◌||◌, List, [], ◌∷◌, Option, none, some, length,
  take, drop, ltb, leb, ◌==◌, if◌then◌else◌,
}
use wind_breaker.Prelude.Fault.{◌>>=◌, ◌>>◌, assert}
use wind_breaker.Prelude.Int.{ℤ, pos, negsuc, is_positive}
use wind_breaker.Prelude.Text.{codes}

-- The static variables that can be set.
pub record Config : Type 0 where
  pub session_max_size : ℕ
  pub worker_thread_max_size : ℕ
  pub listen_backlog_max_size : ℕ
  pub http_port : List ℕ
  pub env : List ℕ
  pub log_file : List ℕ
  pub log_level : ℕ
  pub log_type : ℕ
  pub properties_file : List ℕ
  pub cert_file : List ℕ
  pub private_key_file : List ℕ
  pub reset_db : Bool
  pub enable_https : Bool

abbrev pub defaults : Config
defaults = record {
  session_max_size = 64;
  worker_thread_max_size = 1;
  listen_backlog_max_size = 50;
  http_port = codes "8080";
  env = codes "dev";
  log_file = codes "/tmp/app.log";
  log_level = 0;
  log_type = 0;
  properties_file = codes "/etc/wind_breaker/properties.conf";
  cert_file = codes "/etc/wind_breaker/cert.pem";
  private_key_file = codes "/etc/wind_breaker/key.pem";
  reset_db = false;
  enable_https = false;
}

-- The lines of a file, as `getline` gives them; `none` if it cannot be opened.
pub record Outside : Type 0 where
  pub atoi : List ℕ → ℤ
  pub exists : List ℕ → Bool
  pub lines : List ℕ → Option (List (List ℕ))

fold_case : ℕ → ℕ
fold_case c = if leb b'A' c && leb c b'Z' then c + 32 else c

-- `strcasecmp(s, t) == 0`.
unfoldable pub same : List ℕ → List ℕ → Bool
unfolding fold_case
same [] [] = true
same (a ∷ s) (b ∷ t) = fold_case a == fold_case b && same s t
same [] (b ∷ t) = false
same (a ∷ s) [] = false

-- `strncasecmp(s, key, strlen(key)) == 0`.
abbrev pub begins : List ℕ → List ℕ → Bool
begins key s = same (take (length key) s) key

-- `line + n`.
pub behind : ℕ → List ℕ → Option (List ℕ)
behind n line = if leb n (length line) then some (drop n line) else none

-- The assertion on a number.
pub setting : ℤ → Option ℕ
setting (pos n) = do assert (ltb 0 n && ltb n 65536); some n
setting (negsuc n) = none

pub set_http_port : Outside → List ℕ → Config → Option Config
unfolding setting
set_http_port o v c = do _ ← setting (o.atoi v); some (record c { http_port = v })

level_of : List ℕ → ℕ → ℕ
unfolding same
level_of v level =
    if same v (codes "TRACE")
    then 0
    else if same v (codes "DEBUG")
    then 1
    else if same v (codes "INFO")
    then 2
    else if same v (codes "WARN")
    then 3
    else if same v (codes "ERROR")
    then 4
    else level

abbrev pub is_level : List ℕ → Bool
is_level v =
    same v (codes "TRACE")
    || same v (codes "DEBUG")
    || same v (codes "INFO")
    || same v (codes "WARN")
    || same v (codes "ERROR")
    || same v (codes "FATAL")

pub set_log_level : List ℕ → Config → Option Config
unfolding level_of
set_log_level v c = do assert (is_level v); some (record c { log_level = level_of v c.log_level })

type_of : List ℕ → ℕ → ℕ
unfolding same
type_of v type =
    if same v (codes "CONSOLE_ONLY")
    then 0
    else if same v (codes "FILE_ONLY")
    then 1
    else if same v (codes "CONSOLE_FILE")
    then 2
    else type

abbrev pub is_type : List ℕ → Bool
is_type v =
    same v (codes "CONSOLE_ONLY") || same v (codes "FILE_ONLY") || same v (codes "CONSOLE_FILE")

pub set_log_type : List ℕ → Config → Option Config
unfolding type_of
set_log_type v c = do assert (is_type v); some (record c { log_type = type_of v c.log_type })

-- The environment from an argument is compared whole, the one from the file as a prefix.
pub set_env_arg : List ℕ → Config → Option Config
set_env_arg v c = do
  assert (same v (codes "dev") || same v (codes "prod") || same v (codes "test"))
  some (record c { env = v })

pub set_env_line : List ℕ → Config → Option Config
set_env_line v c = do
  assert (begins (codes "dev") v || begins (codes "prod") v || begins (codes "test") v)
  some (record c { env = v })

-- An argument, with the one behind it. The value of an option is read as an option, too.
pub read_arg : Outside → List ℕ → Option (List ℕ) → Config → Option Config
unfolding same set_http_port set_env_arg set_log_level set_log_type
read_arg o a value c =
    if same a (codes "-p") || same a (codes "--port")
    then (do v ← value; set_http_port o v c)
    else if same a (codes "-e") || same a (codes "--environment")
    then (do v ← value; set_env_arg v c)
    else if same a (codes "--properties")
    then (do v ← value; assert (o.exists v); some (record c { properties_file = v }))
    else if same a (codes "--log-file")
    then (do v ← value; some (record c { log_file = v }))
    else if same a (codes "--log-level")
    then (do v ← value; set_log_level v c)
    else if same a (codes "--log-type")
    then (do v ← value; set_log_type v c)
    else if same a (codes "--reset-db")
    then some (record c { reset_db = true })
    else if same a (codes "--enable-https")
    then some (record c { enable_https = true })
    else some c

abbrev pub first_of : List (List ℕ) → Option (List ℕ)
first_of [] = none
first_of (a ∷ args) = some a

pub read_args : Outside → List (List ℕ) → Config → Option Config
unfolding read_arg
read_args o [] c = some c
read_args o (a ∷ args) c = do c' ← read_arg o a (first_of args) c; read_args o args c'

-- A line of the file without its last character. The test for `cert_chain_file` compares one character
-- too many, the closing zero.
pub read_line : Outside → List ℕ → Config → Option Config
unfolding same behind setting set_http_port set_env_line set_log_level set_log_type
read_line o line c =
    if begins (codes "session_max_size") line
    then (do v ← behind 17 line; n ← setting (o.atoi v); some (record c { session_max_size = n }))
    else if begins (codes "worker_thread_max_size") line
    then (do
      v ← behind 23 line
      n ← setting (o.atoi v)
      some (record c { worker_thread_max_size = n }))
    else if begins (codes "listen_backlog_max_size") line
    then (do
      v ← behind 24 line
      n ← setting (o.atoi v)
      some (record c { listen_backlog_max_size = n }))
    else if begins (codes "http_port") line
    then (do v ← behind 10 line; set_http_port o v c)
    else if begins (codes "env") line
    then (do v ← behind 4 line; set_env_line v c)
    else if begins (codes "log_file") line
    then (do v ← behind 9 line; some (record c { log_file = v }))
    else if begins (codes "log_level") line
    then (do v ← behind 10 line; set_log_level v c)
    else if begins (codes "log_type") line
    then (do v ← behind 9 line; set_log_type v c)
    else if same (take 16 line) (codes "cert_chain_file")
    then (do v ← behind 17 line; some (record c { cert_file = v }))
    else if begins (codes "private_key_file") line
    then (do v ← behind 17 line; some (record c { private_key_file = v }))
    else if begins (codes "enable_https") line
    then (do v ← behind 13 line; some (record c { enable_https = is_positive (o.atoi v) }))
    else some c

pub read_lines : Outside → List (List ℕ) → Config → Option Config
unfolding read_line
read_lines o [] c = some c
read_lines o (line ∷ lines) c = do
  c' ← read_line o (take (length line - 1) line) c
  read_lines o lines c'

unfoldable pub init_properties : Outside → List (List ℕ) → Option Config
unfolding read_args read_lines
init_properties o args = do
  c ← read_args o args defaults
  elim (o.lines c.properties_file) [ none ↦ some c | some lines ↦ read_lines o lines c ]
