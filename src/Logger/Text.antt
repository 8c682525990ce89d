-- ===== src/Logger/Text.antt =====
-- The printing of src/utils/logger.c: the pieces of a line, one `sprintf` after the other. `none` is a
-- write outside of the buffer.
use Prim.Native.String.{String}
use wind_breaker.Prelude.{
  ℕ, ◌+◌, ◌-◌, Bool, true, false, List, [], ◌∷◌, ◌++◌, Option, none, some, length, ltb, ◌==◌, ◌&&◌,
  ◌||◌, not, if◌then◌else◌, replicate,
}
use wind_breaker.Prelude.Fault.{◌>>=◌}
use wind_breaker.Prelude.Bytes.{overwrite}
use wind_breaker.Prelude.Text.{codes}
use wind_breaker.Response.Print.{decimal}
use wind_breaker.Logger.Level

unfoldable pub log_level_to_string : ℕ → List ℕ
log_level_to_string l =
    if l == Level.trace
    then codes "TRACE"
    else if l == Level.debug
    then codes "DEBUG"
    else if l == Level.info
    then codes "INFO"
    else if l == Level.warn
    then codes "WARN"
    else if l == Level.error
    then codes "ERROR"
    else codes "UNKNOWN"

-- An escape sequence of the terminal, and the conversion `%-ns`.
abbrev pub colour : String → List ℕ
colour code = 27 ∷ codes code

unfoldable pub padded : ℕ → List ℕ → List ℕ
padded n s = s ++ replicate (n - length s) b' '

-- What a message tells of its origin. `session` is `none` where the thread has none; `symbols` are
-- those of the backtrace, `none` where there is no memory for them.
pub record Context : Type 0 where
  pub time : List ℕ
  pub thread : ℕ
  pub session : Option ℕ
  pub errno : ℕ
  pub strerror : List ℕ
  pub ssl_error : Option (List ℕ)
  pub symbols : Option (List (List ℕ))

-- `sprintf` at `log_buffer + (log_buffer_offset + offset)`, with what it prints added to `offset`.
unfoldable pub print_at : ℕ → List ℕ → List ℕ × ℕ → Option (List ℕ × ℕ)
unfolding overwrite
print_at start text (bytes, offset) =
    if ltb (start + offset + length text) (length bytes)
    then some (overwrite (start + offset) (text ++ (0 ∷ [])) bytes, offset + length text)
    else none

-- The lines of the backtrace.
abbrev pub symbol_line : ℕ → List ℕ → List ℕ
symbol_line i s = colour "[35m  " ++ decimal i ++ codes ": " ++ s ++ codes "\n" ++ colour "[0m"

unfoldable pub print_symbols : ℕ → ℕ → List (List ℕ) → List ℕ × ℕ → Option (List ℕ × ℕ)
unfolding print_at
print_symbols start i [] b = some b
print_symbols start i (s ∷ symbols) b =
    print_at start (symbol_line i s) b >>= print_symbols start (i + 1) symbols

unfoldable pub print_errno : Context → ℕ → List ℕ × ℕ → Option (List ℕ × ℕ)
unfolding print_at
print_errno c start b =
    if c.errno == 0
    then some b
    else print_at start
        (colour "[31m: "
          ++ decimal c.errno
          ++ codes " "
          ++ c.strerror
          ++ codes "\n"
          ++ colour "[0m")
        b

unfoldable pub print_ssl_error : ℕ → Option (List ℕ) → List ℕ × ℕ → Option (List ℕ × ℕ)
unfolding print_at
print_ssl_error start none b = some b
print_ssl_error start (some e) b =
    print_at start (colour "[31m: " ++ e ++ codes "\n" ++ colour "[0m") b

unfoldable pub print_backtrace : ℕ → Option (List (List ℕ)) → List ℕ × ℕ → Option (List ℕ × ℕ)
unfolding print_at print_symbols
print_backtrace start none b = some b
print_backtrace start (some []) b = some b
print_backtrace start (some (s ∷ symbols)) b =
    print_at start (colour "[35mBacktrace:\n" ++ colour "[0m") b
    >>= print_symbols start 0 (s ∷ symbols)

unfoldable pub print_trouble : Context → ℕ → List ℕ × ℕ → Option (List ℕ × ℕ)
unfolding print_errno print_ssl_error print_backtrace
print_trouble c start b = do
  named ← print_errno c start b
  reported ← print_ssl_error start c.ssl_error named
  print_backtrace start c.symbols reported

-- An error that the system or OpenSSL knows of.
abbrev pub is_trouble : ℕ → Context → Bool
is_trouble level c =
    level == Level.error
    && (not (c.errno == 0) || elim c.ssl_error [ none ↦ false | some e ↦ true ])

-- The first two pieces of a line.
unfoldable pub heading : ℕ → List ℕ → List ℕ → List ℕ
unfolding padded log_level_to_string
heading level time path =
    colour "[33m"
    ++ padded 17 time
    ++ codes " "
    ++ padded 30 path
    ++ codes " ("
    ++ padded 5 (log_level_to_string level)
    ++ codes ") "
    ++ colour "[0m"

unfoldable pub origin : ℕ → Option ℕ → List ℕ
origin thread session =
    colour "[36m["
    ++ decimal thread
    ++ elim session [ none ↦ [] | some id ↦ codes "-" ++ decimal id ]
    ++ codes "]: "
    ++ colour "[0m"

-- `log_to_buffer` at `log_buffer_offset`, with the buffer that it leaves and the length that it wrote.
unfoldable pub log_to_buffer : ℕ → Context → List ℕ → List ℕ → ℕ → List ℕ → Option (List ℕ × ℕ)
unfolding print_at print_trouble heading origin
log_to_buffer level c path message start bytes = do
  headed ← print_at start (heading level c.time path) (bytes, 0)
  named ← print_at start (origin c.thread c.session) headed
  told ← print_at start message named
  if is_trouble level c then print_trouble c start told else print_at start (codes "\n") told

unfoldable pub print_pieces : ℕ → List (List ℕ) → List ℕ × ℕ → Option (List ℕ × ℕ)
unfolding print_at
print_pieces start [] b = some b
print_pieces start (p ∷ pieces) b = print_at start p b >>= print_pieces start pieces
