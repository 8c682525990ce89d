-- ===== src/Logger/Start.antt =====
-- `init_logger` and `destroy_logger`: the start and the end of the log.
use wind_breaker.Prelude.{
  ℕ, zero, ◌+◌, ◌-◌, ◌*◌, ◌^◌, ◌≤◌, ◌<◌, ◌≡◌, refl, sym, ap, ◌∙◌, Bool, true, false, List, [], ◌++◌,
  Option, some, length, drop, if◌then◌else◌, arith, Bool-cases, inl, inr,
}
use mathlib.Core.List.{append-nil}
use wind_breaker.Prelude.Fault.{◌>>=◌, >>=_of_some}
use wind_breaker.Prelude.Bytes.{IsText}
use wind_breaker.Prelude.Text.{codes}
use wind_breaker.Logger.Level
use wind_breaker.Logger.{
  Logger, Disk, memory, log_buffer_size, zeros, logo, to_file, destination_name, log_logo, announce,
  init_logger, destroy_logger,
}
use wind_breaker.Logger.Text.{Context, print_pieces, log_level_to_string}
use wind_breaker.Logger.Line.{written, joined, print_pieces_lem}
use wind_breaker.Logger.Keeps.{
  visible, visible-append, visible-zero_bytes, length-zero_bytes, IsReady, Works, HasRoom,
}
use wind_breaker.Logger.Records.{
  after, still_blank, visible-after, shown_after, length-after, log_text, Logged,
}
use wind_breaker.Logger.Series.{
  AllFit, lines, log_all, log_all-records, Entry, IsFit, first, suppressed, log_at-Logged,
  log_at_silent,
}

-- The message that `init_logger` logs.
abbrev pub announcement : Context → List ℕ → ℕ → ℕ → Entry
announcement c source level destination = record {
  level = Level.info;
  context = c;
  file = source;
  message =
      codes "Logger initialized with level "
      ++ log_level_to_string level
      ++ codes " and destination "
      ++ destination_name destination;
}

logo-IsText : IsText (joined logo)
logo-IsText = omega arith

fits : 0 + length (joined logo) < length zeros
fits = omega (arith, length-zero_bytes log_buffer_size)

zeros_blank : visible (drop zero zeros) ≡ []
zeros_blank = visible-zero_bytes log_buffer_size

-- The window right after the logo.
with_logo : Logger → Logger
with_logo l = record l {
  log_buffer = memory (after 0 (joined logo) zeros fits);
  log_buffer_offset = length (joined logo);
  console = l.console ++ joined logo;
}

print_logo : print_pieces 0 logo (zeros, 0) ≡ some (written 0 (joined logo) zeros)
print_logo = print_pieces_lem 0 _ _ zeros fits

log_logo_lem :
    (l : Logger)
    → l.log_buffer ≡ memory zeros
    → l.log_buffer_offset ≡ 0
    → log_logo l ≡ some (with_logo l)
unfolding log_logo with_logo
log_logo_lem l held empty =
    rw (held, empty)
      (>>=_of_some _ print_logo
        (>>=_of_some _ (shown_after 0 (joined logo) zeros fits logo-IsText) refl))

with_logo-IsReady :
    (l : Logger) (windows : ℕ) → length l.saved ≡ windows * log_buffer_size → IsReady (with_logo l)
unfolding with_logo
with_logo-IsReady l windows aligned = record {
  bytes = after 0 (joined logo) zeros fits;
  held = refl;
  sized = length-after 0 (joined logo) zeros fits ∙ length-zero_bytes log_buffer_size;
  below = omega arith;
  windows = windows;
  aligned = aligned;
  blank = λ _. still_blank 0 (joined logo) zeros fits zeros_blank;
}

with_logo-log_text :
    (l : Logger)
    → to_file l.log_destination ≡ true
    → log_text (with_logo l) ≡ visible l.saved ++ joined logo
unfolding with_logo
with_logo-log_text l filed = rw filed (
    visible-append l.saved (after 0 (joined logo) zeros fits)
    ∙ ap (λ v. visible l.saved ++ v)
        (visible-after 0 (joined logo) zeros fits zeros_blank logo-IsText
          ∙ ap (λ v. v ++ joined logo) (visible-zero_bytes log_buffer_size)))

-- The log of a run: the logger starts, the entries are logged, and the logger ends.
unfoldable pub run : Disk → Context → List ℕ → ℕ → ℕ → List ℕ → Logger → List Entry → Option Logger
run d c source level destination file l entries = do
  begun ← init_logger d c source level destination file l
  last ← log_all d entries begun.0
  some (destroy_logger last)

destroy_logger-log_text :
    (m : Logger)
    → IsReady m
    → to_file m.log_destination ≡ true
    → visible (destroy_logger m).saved ≡ log_text m
unfolding destroy_logger
destroy_logger-log_text m r filed = rw (r.held, filed) refl

module _ (d : Disk) (w : Works d) (c : Context) (source file : List ℕ)
    (level destination windows : ℕ) (l : Logger) (filed : to_file destination ≡ true)
    (opens : d.opens ≡ true) (stats : d.stats ≡ true) (empty : l.log_buffer_offset ≡ 0)
    (aligned : length file ≡ windows * log_buffer_size)
    (h : IsFit (announcement c source level destination)) where
  abbrev entry : Entry
  entry = announcement c source level destination

  abbrev opened_log : Logger
  opened_log = record l {
    log_level = level;
    log_destination = destination;
    opened = true;
    saved = file;
    log_buffer = memory zeros;
  }

  -- What `init_logger` writes behind the logo.
  abbrev announced : List ℕ
  announced = if suppressed level entry then [] else first entry h

  -- What stands in the file before the first message of the program.
  abbrev beginning : List ℕ
  beginning = (visible file ++ joined logo) ++ announced

  reached_announce :
      init_logger d c source level destination file l
      ≡ (announce d c source opened_log >>= (λ told. some (told, true)))
  unfolding init_logger
  reached_announce = rw (filed, opens, stats, w.grows, ap d.maps aligned, w.maps windows) refl

  ready : IsReady (with_logo opened_log)
  ready = with_logo-IsReady opened_log windows aligned

  announce_silent :
      suppressed level entry ≡ true → announce d c source opened_log ≡ some (with_logo opened_log)
  unfolding announce with_logo
  announce_silent silent =
      >>=_of_some _ (log_logo_lem opened_log refl empty)
        (log_at_silent d w entry (with_logo opened_log) silent)

  announce-Logged :
      suppressed level entry ≡ false
      → HasRoom (with_logo opened_log) (length (first entry h))
      → (m : Logger) × (announce d c source opened_log ≡ some m)
        × Logged (first entry h) (with_logo opened_log) m
  unfolding announce with_logo
  announce-Logged heard room =
      let (m, did, x) = log_at-Logged d w entry h (with_logo opened_log) ready heard room in
      (m, >>=_of_some _ (log_logo_lem opened_log refl empty) did, x)

  -- What `init_logger` leaves, with room for `n` bytes of messages.
  record Begun (n : ℕ) (m : Logger) : Type 0 where
    done : init_logger d c source level destination file l ≡ some (m, true)
    prepared : IsReady m
    same_level : m.log_level ≡ level
    same_destination : m.log_destination ≡ destination
    begun : log_text m ≡ beginning
    room : HasRoom m n

  init_logger-Begun :
      (n : ℕ)
      → 3 * length file + 4 * (length (joined logo) + (length announced + n))
        ≤ 3 * (2 ^ 31 - log_buffer_size)
      → (m : Logger) × Begun n m
  unfolding with_logo
  init_logger-Begun n room = elim (Bool-cases (suppressed level entry)) [
    | inl silent ↦ (
      with_logo opened_log,
      record {
        done =
            reached_announce
            ∙ >>=_of_some (λ (told : Logger). some (told, true)) (announce_silent silent) refl;
        prepared = ready;
        same_level = refl;
        same_destination = refl;
        begun =
            with_logo-log_text opened_log filed
            ∙ rw silent (sym (append-nil (visible file ++ joined logo)));
        room = λ _. omega (arith, room);
      },
    )
    | inr heard ↦
        let wide : 3 * length file + 4 * (length (joined logo) + (length (first entry h) + n))
            ≤ 3 * (2 ^ 31 - log_buffer_size) =
          rw heard at room in
        let (m, did, x) = announce-Logged heard (λ f. omega (arith, wide)) in
        (
          m,
          record {
            done = reached_announce ∙ >>=_of_some (λ (told : Logger). some (told, true)) did refl;
            prepared = x.ready;
            same_level = x.same_level;
            same_destination = x.same_destination;
            begun =
                x.filed
                ∙ ap (λ v. v ++ (if to_file destination then first entry h else []))
                    (with_logo-log_text opened_log filed)
                ∙ rw (filed, heard) refl;
            room = x.room n (λ _. wide);
          },
        )
  ]

  same_file : {n : ℕ} → n ≡ destination → to_file n ≡ true
  same_file e = ap to_file e ∙ filed

  all_lines :
      {n : ℕ} (entries : List Entry) (hs : AllFit entries) (b : Logger)
      → Begun n b
      → log_text b ++ (if to_file b.log_destination then lines b.log_level entries hs else [])
        ≡ beginning ++ lines level entries hs
  all_lines entries hs b begun =
      ap (λ v. v ++ (if to_file b.log_destination then lines b.log_level entries hs else []))
        begun.begun
      ∙ ap (λ (t : Bool). beginning ++ (if t then lines b.log_level entries hs else []))
          (same_file begun.same_destination)
      ∙ ap (λ (k : ℕ). beginning ++ lines k entries hs) begun.same_level

  -- After a run with a log file, the file holds what it held before, the logo, the announcement of the
  -- logger and the lines of just those entries that are not below the level, each whole and in order.
  -- It is so if nothing has been logged before, the calls of the system work, the file consisted of
  -- whole windows, the lines are C strings shorter than 1 MiB from source files below src/ or test/,
  -- and there is room: what is written is at most 1.5 GiB less 3 MiB and less three quarters of the old
  -- size. The zeros that fill the windows up are left out.
  pub run-writes :
      (entries : List Entry) (hs : AllFit entries)
      → 3 * length file
          + 4 * (length (joined logo) + (length announced + length (lines level entries hs)))
        ≤ 3 * (2 ^ 31 - log_buffer_size)
      → (m : Logger) × (run d c source level destination file l entries ≡ some m)
        × (visible m.saved ≡ beginning ++ lines level entries hs)
  unfolding run
  run-writes entries hs room =
      let (b, begun) = init_logger-Begun (length (lines level entries hs)) room in
      let (m, done, r, same, said) =
        log_all-records d w entries hs b begun.prepared (rw begun.same_level begun.room) in
      (
        destroy_logger m,
        >>=_of_some _ begun.done (>>=_of_some _ done refl),
        destroy_logger-log_text m r (same_file (same ∙ begun.same_destination))
            ∙ said
            ∙ all_lines entries hs b begun,
      )
