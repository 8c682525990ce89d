-- ===== src/Logger/Line.antt =====
-- The line that `log_to_buffer` of src/utils/logger.c writes piece by piece.
use wind_breaker.Prelude.{
  ℕ, ◌+◌, ◌<◌, ◌≡◌, refl, sym, ap, ◌∙◌, List, [], ◌∷◌, ◌++◌, Option, none, some, length, ◌==◌,
  if◌then◌else◌, arith, length-append, lt→ltb, Bool-cases, inl, inr,
}
use mathlib.Core.List.{append_assoc, append-nil}
use native.Mathlib.Nat.{zero-add, add-zero}
use wind_breaker.Prelude.Fault.{◌>>=◌, >>=_congr, >>=_of_some, >>=_assoc, >>=_some}
use wind_breaker.Prelude.Bytes.{overwrite_continued, length_ended, overwrite, length-overwrite}
use wind_breaker.Prelude.Text.{codes}
use wind_breaker.Response.Print.{decimal}
use wind_breaker.Logger.Text.{
  Context, colour, symbol_line, heading, origin, is_trouble, print_at, print_pieces, print_symbols,
  print_errno, print_ssl_error, print_backtrace, print_trouble, log_to_buffer,
}

abbrev pub joined : List (List ℕ) → List ℕ
joined [] = []
joined (p ∷ pieces) = p ++ joined pieces

unfoldable pub symbol_lines : ℕ → List (List ℕ) → List (List ℕ)
symbol_lines i [] = []
symbol_lines i (s ∷ symbols) = symbol_line i s ∷ symbol_lines (i + 1) symbols

unfoldable pub backtrace : Option (List (List ℕ)) → List (List ℕ)
backtrace none = []
backtrace (some []) = []
backtrace (some (s ∷ symbols)) =
    (colour "[35mBacktrace:\n" ++ colour "[0m") ∷ symbol_lines 0 (s ∷ symbols)

unfoldable pub ssl_line : Option (List ℕ) → List (List ℕ)
ssl_line none = []
ssl_line (some e) = (colour "[31m: " ++ e ++ codes "\n" ++ colour "[0m") ∷ []

unfoldable pub errno_line : Context → List (List ℕ)
errno_line c =
    if c.errno == 0
    then []
    else (colour "[31m: "
        ++ decimal c.errno
        ++ codes " "
        ++ c.strerror
        ++ codes "\n"
        ++ colour "[0m")
      ∷ []

-- What comes behind the message.
unfoldable pub ending : ℕ → Context → List (List ℕ)
ending level c =
    if is_trouble level c
    then errno_line c ++ (ssl_line c.ssl_error ++ backtrace c.symbols)
    else codes "\n" ∷ []

unfoldable pub pieces : ℕ → Context → List ℕ → List ℕ → List (List ℕ)
pieces level c path message =
    heading level c.time path ∷ origin c.thread c.session ∷ message ∷ ending level c

-- The whole line of a message.
unfoldable pub line : ℕ → Context → List ℕ → List ℕ → List ℕ
line level c path message = joined (pieces level c path message)

print_pieces-append :
    (start : ℕ) (p q : List (List ℕ)) (b : List ℕ × ℕ)
    → print_pieces start (p ++ q) b ≡ (print_pieces start p b >>= print_pieces start q)
unfolding print_pieces
print_pieces-append start [] q b = refl
print_pieces-append start (s ∷ p) q b =
    >>=_congr (print_at start s b) _ _ (print_pieces-append start p q)
    ∙ sym (>>=_assoc (print_at start s b) (print_pieces start p) (print_pieces start q))

print_pieces_one :
    (start : ℕ) (s : List ℕ) (b : List ℕ × ℕ) → print_pieces start (s ∷ []) b ≡ print_at start s b
unfolding print_pieces
print_pieces_one start s b = >>=_some (print_at start s b)

print_symbols-eq-pieces :
    (start i : ℕ) (symbols : List (List ℕ)) (b : List ℕ × ℕ)
    → print_symbols start i symbols b ≡ print_pieces start (symbol_lines i symbols) b
unfolding print_symbols print_pieces symbol_lines
print_symbols-eq-pieces start i [] b = refl
print_symbols-eq-pieces start i (s ∷ symbols) b =
    >>=_congr (print_at start (symbol_line i s) b) _ _
      (print_symbols-eq-pieces start (i + 1) symbols)

print_errno-eq-pieces :
    (start : ℕ) (c : Context) (b : List ℕ × ℕ)
    → print_errno c start b ≡ print_pieces start (errno_line c) b
unfolding print_errno errno_line
print_errno-eq-pieces start c b = elim (Bool-cases (c.errno == 0)) [
  | inl unset ↦ rw unset (unfold print_pieces in refl)
  | inr set ↦ rw set (sym (print_pieces_one start _ b))
]

print_ssl_error-eq-pieces :
    (start : ℕ) (o : Option (List ℕ)) (b : List ℕ × ℕ)
    → print_ssl_error start o b ≡ print_pieces start (ssl_line o) b
unfolding print_ssl_error ssl_line
print_ssl_error-eq-pieces start none b = unfold print_pieces in refl
print_ssl_error-eq-pieces start (some e) b = sym (print_pieces_one start _ b)

print_backtrace-eq-pieces :
    (start : ℕ) (o : Option (List (List ℕ))) (b : List ℕ × ℕ)
    → print_backtrace start o b ≡ print_pieces start (backtrace o) b
unfolding print_backtrace backtrace print_pieces
print_backtrace-eq-pieces start none b = refl
print_backtrace-eq-pieces start (some []) b = refl
print_backtrace-eq-pieces start (some (s ∷ symbols)) b =
    >>=_congr (print_at start (colour "[35mBacktrace:\n" ++ colour "[0m") b) _ _
      (print_symbols-eq-pieces start 0 (s ∷ symbols))

print_trouble-eq-pieces :
    (c : Context) (start : ℕ) (b : List ℕ × ℕ)
    → print_trouble c start b
      ≡ print_pieces start (errno_line c ++ (ssl_line c.ssl_error ++ backtrace c.symbols)) b
unfolding print_trouble
print_trouble-eq-pieces c start b = rw (print_errno-eq-pieces start c b) (
    rw (print_pieces-append start (errno_line c) _ b) (
      >>=_congr (print_pieces start (errno_line c) b) _ _ λ named.
        rw (print_ssl_error-eq-pieces start c.ssl_error named) (
          rw (print_pieces-append start (ssl_line c.ssl_error) _ named) (
            >>=_congr (print_pieces start (ssl_line c.ssl_error) named) _ _
              (print_backtrace-eq-pieces start c.symbols)))))

print_ending :
    (level : ℕ) (c : Context) (start : ℕ) (b : List ℕ × ℕ)
    → (if is_trouble level c then print_trouble c start b else print_at start (codes "\n") b)
      ≡ print_pieces start (ending level c) b
unfolding ending
print_ending level c start b = elim (Bool-cases (is_trouble level c)) [
  | inl trouble ↦ rw trouble (print_trouble-eq-pieces c start b)
  | inr calm ↦ rw calm (sym (print_pieces_one start (codes "\n") b))
]

log_to_buffer-eq-pieces :
    (level : ℕ) (c : Context) (path message : List ℕ) (start : ℕ) (bytes : List ℕ)
    → log_to_buffer level c path message start bytes
      ≡ print_pieces start (pieces level c path message) (bytes, 0)
unfolding log_to_buffer pieces print_pieces
log_to_buffer-eq-pieces level c path message start bytes =
    >>=_congr (print_at start (heading level c.time path) (bytes, 0)) _ _ λ headed.
      >>=_congr (print_at start (origin c.thread c.session) headed) _ _
        λ named. >>=_congr (print_at start message named) _ _ (print_ending level c start)

-- What a text and its zero at `start` leave of an array.
abbrev pub written : ℕ → List ℕ → List ℕ → List ℕ × ℕ
written start t bytes = (overwrite start (t ++ (0 ∷ [])) bytes, length t)

print_at-written :
    (start : ℕ) (t s bytes : List ℕ)
    → start + length t + length s < length bytes
    → print_at start s (written start t bytes) ≡ some (written start (t ++ s) bytes)
unfolding print_at
print_at-written start t s bytes h =
    rw (lt→ltb _ _ fits)
      (ap some (λ i. (overwrite_continued start t s bytes h i, sym (length-append t s) i)))
  where
    fits : start + length t + length s < length (overwrite start (t ++ (0 ∷ [])) bytes)
    fits =
        omega (
          arith,
          h,
          length-overwrite start (t ++ (0 ∷ [])) bytes (omega (arith, h, length_ended t)),
        )

print_pieces-written :
    (start : ℕ) (p : List (List ℕ)) (t bytes : List ℕ)
    → start + length t + length (joined p) < length bytes
    → print_pieces start p (written start t bytes) ≡ some (written start (t ++ joined p) bytes)
unfolding print_pieces
print_pieces-written start [] t bytes h =
    ap (λ u. some (written start u bytes)) (sym (append-nil t))
print_pieces-written start (s ∷ p) t bytes h =
    >>=_of_some (print_pieces start p)
      (print_at-written start t s bytes (omega (arith, joined_cons)))
      (print_pieces-written start p (t ++ s) bytes (omega (arith, joined_cons, length-append t s))
        ∙ ap (λ u. some (written start u bytes)) (append_assoc t s (joined p)))
  where
    joined_cons : length (joined (s ∷ p)) ≡ length s + length (joined p)
    joined_cons = length-append s (joined p)

-- Pieces are printed one behind the other, if there is room for them and for a zero.
pub print_pieces_lem :
    (start : ℕ) (s : List ℕ) (p : List (List ℕ)) (bytes : List ℕ)
    → start + length (joined (s ∷ p)) < length bytes
    → print_pieces start (s ∷ p) (bytes, 0) ≡ some (written start (joined (s ∷ p)) bytes)
unfolding print_pieces
print_pieces_lem start s p bytes h =
    >>=_of_some (print_pieces start p) first
      (print_pieces-written start p s bytes (omega (arith, length-append s (joined p))))
  where
    first : print_at start s (bytes, 0) ≡ some (written start s bytes)
    first =
        unfold print_at in
        rw (add-zero start) (
          rw
            (lt→ltb (start + length s) (length bytes)
              (omega (arith, h, length-append s (joined p))))
            (rw (zero-add (length s)) refl))

-- `log_to_buffer` writes the line of the message at the offset of the buffer, with its zero, and
-- nothing else, and returns its length, if there is room for the line and the zero.
pub log_to_buffer-line :
    (level : ℕ) (c : Context) (path message : List ℕ) (start : ℕ) (bytes : List ℕ)
    → start + length (line level c path message) < length bytes
    → log_to_buffer level c path message start bytes
      ≡ some (written start (line level c path message) bytes)
unfolding line pieces
log_to_buffer-line level c path message start bytes h =
    log_to_buffer-eq-pieces level c path message start bytes
    ∙ print_pieces_lem start (heading level c.time path) _ bytes h
