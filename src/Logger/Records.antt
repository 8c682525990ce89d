-- ===== src/Logger/Records.antt =====
-- What one call of the logging functions of src/utils/logger.c leaves of the log.
use wind_breaker.Prelude.{
  ℕ, zero, suc, ◌+◌, ◌-◌, ◌≤◌, ◌<◌, ◌≡◌, refl, sym, ap, ◌∙◌, true, List, [], ◌∷◌, ◌++◌, none, some,
  length, take, drop, ltb, if◌then◌else◌, arith, length-append, length-take, Bool-cases, inl, inr,
  lt→ltb, ltb→lt, ltb→le, le→leb, not, ◌||◌, ◌*◌, ◌^◌,
}
use mathlib.Core.List.{append-nil, append_assoc}
use wind_breaker.Prelude.Fault.{◌>>=◌, >>=_of_some}
use wind_breaker.Prelude.Bytes.{
  drop-drop, IsText, overwrite, overwrite_inside, length-overwrite, drop_front, terminated,
  terminated_text,
}
use wind_breaker.Prelude.Text.{codes}
use wind_breaker.Prelude.Int.{negsuc, to_int, to_int_small}
use wind_breaker.Logger.{
  Logger, Disk, memory, reserve, log_buffer_size, to_file, to_console, relative_file_path,
  finish_message, remap_log_buffer, reset, log_message,
}
use wind_breaker.Logger.Text.{Context}
use wind_breaker.Logger.Line.{line, log_to_buffer-line}
use wind_breaker.Logger.Keeps.{
  visible, visible-append, visible_text, visible-drop, content, window, IsReady, Works, HasRoom,
  Finished, IsWritten, finish_message-Finished,
}

take-append-drop : (n : ℕ) (xs : List ℕ) → take n xs ++ drop n xs ≡ xs
take-append-drop zero xs = refl
take-append-drop (suc n) [] = refl
take-append-drop (suc n) (x ∷ xs) = ap (◌∷◌ x) (take-append-drop n xs)

-- A text and its zero at `o`.
module _ (o : ℕ) (s bytes : List ℕ) (fits : o + length s < length bytes) where
  abbrev pub after : List ℕ
  after = overwrite o (s ++ (0 ∷ [])) bytes

  abbrev pub behind : List ℕ
  behind = drop (length (s ++ (0 ∷ []))) (drop o bytes)

  split_after : after ≡ take o bytes ++ (s ++ (0 ∷ behind))
  split_after =
      overwrite_inside o (s ++ (0 ∷ [])) bytes (omega arith)
      ∙ ap (λ t. take o bytes ++ t) (append_assoc s (0 ∷ []) behind)

  front : length (take o bytes) ≡ o
  front = omega (arith, fits, length-take o bytes)

  pub drop-after : drop o after ≡ s ++ (0 ∷ behind)
  drop-after =
      ap (drop o) split_after
      ∙ ap (λ (n : ℕ). drop n (take o bytes ++ (s ++ (0 ∷ behind)))) (sym front)
      ∙ drop_front (take o bytes) (s ++ (0 ∷ behind))

  pub shown_after : IsText s → terminated (drop o after) ≡ some s
  shown_after t = ap terminated drop-after ∙ terminated_text s behind t

  pub length-after : length after ≡ length bytes
  length-after = length-overwrite o (s ++ (0 ∷ [])) bytes (omega (arith, length-append s (0 ∷ [])))

  module _ (blank : visible (drop o bytes) ≡ []) where
    blank_rest : visible (0 ∷ behind) ≡ []
    unfolding visible
    blank_rest = visible-drop (length (s ++ (0 ∷ []))) (drop o bytes) blank

    pub still_blank : visible (drop (o + length s) after) ≡ []
    still_blank =
        ap visible (
          sym (drop-drop (length s) o after)
          ∙ ap (drop (length s)) drop-after
          ∙ drop_front s (0 ∷ behind))
        ∙ blank_rest

    pub visible-after : IsText s → visible after ≡ visible bytes ++ s
    visible-after t =
        ap visible split_after
        ∙ visible-append (take o bytes) (s ++ (0 ∷ behind))
        ∙ ap (λ v. visible (take o bytes) ++ v) right
        ∙ sym (ap (λ v. v ++ s) left)
      where
        left : visible bytes ≡ visible (take o bytes)
        left =
            ap visible (sym (take-append-drop o bytes))
            ∙ visible-append (take o bytes) (drop o bytes)
            ∙ ap (λ v. visible (take o bytes) ++ v) blank
            ∙ append-nil (visible (take o bytes))

        right : visible (s ++ (0 ∷ behind)) ≡ s
        right =
            visible-append s (0 ∷ behind)
            ∙ ap (λ v. visible s ++ v) blank_rest
            ∙ append-nil (visible s)
            ∙ visible_text s t

-- What the file shows, without the zeros that fill it up.
abbrev pub log_text : Logger → List ℕ
log_text l = if to_file l.log_destination then visible (content l) else []

Finished-log_text : {l l' : Logger} → Finished l l' → log_text l' ≡ log_text l
Finished-log_text {l} {l'} f =
    ap (λ (n : ℕ). if to_file n then visible (content l') else []) f.same_destination
    ∙ ap (λ v. if to_file l.log_destination then v else []) f.same_content

-- `s` has been logged: on the console, with the note of a remapping, and in the file.
pub record Logged (s : List ℕ) (l l' : Logger) : Type 0 where
  pub ready : IsReady l'
  pub told :
      l'.console
      ≡ (l.console ++ (if to_console l.log_destination then s else []))
        ++ (if ltb (log_buffer_size - reserve) (l.log_buffer_offset + length s)
            then codes "Remapped log buffer\n"
            else [])
  pub filed : log_text l' ≡ log_text l ++ (if to_file l.log_destination then s else [])
  pub same_level : l'.log_level ≡ l.log_level
  pub same_destination : l'.log_destination ≡ l.log_destination
  pub room : (n : ℕ) → HasRoom l (length s + n) → HasRoom l' n

to_int_big : (n : ℕ) → 2 ^ 31 ≤ n → n < 2 ^ 32 → to_int n ≡ negsuc (2 ^ 32 - 1 - n)
to_int_big n h k = ground arith

remap_log_buffer_stops :
    (d : Disk) (l : Logger) (bytes : List ℕ)
    → l.log_buffer ≡ memory bytes
    → to_file l.log_destination ≡ true
    → 2 ^ 31 ≤ length (l.saved ++ bytes) + log_buffer_size
    → length (l.saved ++ bytes) < 2 ^ 32
    → (remap_log_buffer d l >>= reset) ≡ none
unfolding remap_log_buffer reset
remap_log_buffer_stops d l bytes held filed big near =
    elim (Bool-cases (not d.seeks || not d.tells)) [
      | inl fails ↦ rw (filed, held, fails) refl
      | inr works ↦ elim (Bool-cases (ltb (length (l.saved ++ bytes)) (2 ^ 31))) [
        | inl small ↦
            rw
              (
                filed,
                held,
                works,
                to_int_small (length (l.saved ++ bytes)) (ltb→lt _ _ small),
                le→leb (2 ^ 31) (length (l.saved ++ bytes) + log_buffer_size) big,
              )
              refl
        | inr large ↦
            rw (filed, held, works, to_int_big (length (l.saved ++ bytes)) (ltb→le _ _ large) near)
              refl
      ]
    ]

module _ (d : Disk) (w : Works d) (level : ℕ) (c : Context) (file message path : List ℕ)
    (l : Logger) (r : IsReady l) (named : relative_file_path file ≡ some path)
    (short : length (line level c path message) < reserve)
    (text : IsText (line level c path message)) where
  abbrev s : List ℕ
  s = line level c path message

  fitting : l.log_buffer_offset + length s < length r.bytes
  fitting = omega (arith, r.below, r.sized)

  abbrev shown : List ℕ
  shown = if to_console l.log_destination then s else []

  abbrev with_line : Logger
  with_line = record l {
    log_buffer = memory (after l.log_buffer_offset s r.bytes fitting);
    log_buffer_offset = l.log_buffer_offset + length s;
    console = l.console ++ shown;
  }

  with_line-IsWritten : IsWritten with_line (after l.log_buffer_offset s r.bytes fitting) r.windows
  with_line-IsWritten = record {
    held = refl;
    sized = length-after l.log_buffer_offset s r.bytes fitting ∙ r.sized;
    below = omega (arith, r.below);
    aligned = r.aligned;
    blank = λ f. still_blank l.log_buffer_offset s r.bytes fitting (r.blank f);
  }

  with_line-room : (n : ℕ) → HasRoom l (length s + n) → HasRoom with_line n
  with_line-room n h f = omega (arith, h f)

  printed :
      (if to_console l.log_destination
        then terminated (drop l.log_buffer_offset (after l.log_buffer_offset s r.bytes fitting))
        else some [])
      ≡ some shown
  printed = elim (Bool-cases (to_console l.log_destination)) [
    | inl tty ↦ rw tty (shown_after l.log_buffer_offset s r.bytes fitting text)
    | inr quiet ↦ rw quiet refl
  ]

  reached : log_message d level c file message l ≡ finish_message d with_line
  unfolding log_message
  reached = >>=_of_some _ named (
      rw r.held (
        >>=_of_some _ (log_to_buffer-line level c path message l.log_buffer_offset r.bytes fitting)
          (>>=_of_some _ printed refl)))

  filed_line : log_text with_line ≡ log_text l ++ (if to_file l.log_destination then s else [])
  filed_line = elim (Bool-cases (to_file l.log_destination)) [
    | inl f ↦ rw f (
        visible-append l.saved (after l.log_buffer_offset s r.bytes fitting)
        ∙ ap (λ v. visible l.saved ++ v)
            (visible-after l.log_buffer_offset s r.bytes fitting (r.blank f) text)
        ∙ sym (append_assoc (visible l.saved) (visible r.bytes) s)
        ∙ ap (λ v. v ++ s) (sym (visible-append l.saved r.bytes))
        ∙ ap (λ a. visible (l.saved ++ window a) ++ s) (sym r.held))
    | inr quiet ↦ rw quiet refl
  ]

  -- A message that is shorter than the reserve is logged, and the log stays ready for the next one,
  -- if the calls of the system work and the file has room.
  pub log_message-Logged :
      HasRoom l (length s)
      → (l' : Logger) × (log_message d level c file message l ≡ some l') × Logged s l l'
  log_message-Logged room =
      let (l', done, f) =
        finish_message-Finished d w with_line _ r.windows with_line-IsWritten
          (with_line-room 0 (λ e. omega (arith, room e))) in
      (
        l',
        reached ∙ done,
        record {
          ready = f.ready;
          told = f.told;
          filed = Finished-log_text f ∙ filed_line;
          same_level = f.same_level;
          same_destination = f.same_destination;
          room = λ n h. f.room n (with_line-room n h);
        },
      )

  -- A message to a log file that leaves less than 1 MiB of the window stops the server, also when the
  -- calls of the system work, if the file in front of the window is smaller than 2 GiB and two more
  -- windows would make it reach 2 GiB: its size is computed in an `int`. The line is a C string shorter
  -- than 1 MiB, and the log was ready for it.
  pub log_message_stops :
      to_file l.log_destination ≡ true
      → log_buffer_size < l.log_buffer_offset + length s + reserve
      → 2 ^ 31 ≤ length l.saved + 2 * log_buffer_size
      → length l.saved < 2 ^ 31
      → log_message d level c file message l ≡ none
  log_message_stops filed many big near =
      reached
      ∙ unfold finish_message in
        (rw (lt→ltb _ _ over) (
          remap_log_buffer_stops d with_line (after l.log_buffer_offset s r.bytes fitting) refl
            filed (omega (arith, joined, big)) (omega (arith, joined, near))))
    where
      over : log_buffer_size - reserve < l.log_buffer_offset + length s
      over = omega (arith, many)

      joined :
          length (l.saved ++ after l.log_buffer_offset s r.bytes fitting)
          ≡ length l.saved + log_buffer_size
      joined = omega (
        arith,
        length-append l.saved (after l.log_buffer_offset s r.bytes fitting),
        length-after l.log_buffer_offset s r.bytes fitting,
        r.sized,
      )
