-- ===== src/Logger/Keeps.antt =====
-- The bounds of the log buffer of src/utils/logger.c.
use wind_breaker.Prelude.{
  ℕ, zero, suc, ◌+◌, ◌-◌, ◌*◌, ◌^◌, ◌≤◌, ◌<◌, ◌≡◌, refl, sym, ap, ◌∙◌, Bool, true, false, List, [],
  ◌∷◌, ◌++◌, some, length, take, drop, replicate, ltb, ◌==◌, if◌then◌else◌, arith, length-append,
  length-replicate, take_all, ne→==, lt→leb, ltb→lt, ltb→le, Bool-cases, inl, inr,
}
use mathlib.Core.List.{append-nil}
use wind_breaker.Prelude.Fault.{>>=_of_some}
use wind_breaker.Prelude.Bytes.{IsText, drop_front}
use wind_breaker.Prelude.Int.{to_int_small}
use wind_breaker.Prelude.Text.{codes}
use wind_breaker.Logger.{
  Area, zero_bytes, Logger, Disk, memory, null, map_failed, log_buffer_size, reserve, zeros,
  to_file, reset, map_window, remap_log_buffer, finish_message,
}

-- The bytes that are not zero.
unfoldable pub visible : List ℕ → List ℕ
visible [] = []
visible (c ∷ s) = let rest = visible s in if c == 0 then rest else c ∷ rest

pub visible-append : (s t : List ℕ) → visible (s ++ t) ≡ visible s ++ visible t
unfolding visible
visible-append [] t = refl
visible-append (c ∷ s) t = ground (arith, visible-append s t)

pub visible_text : (s : List ℕ) → IsText s → visible s ≡ s
unfolding visible
visible_text [] h = refl
visible_text (c ∷ s) (h, hs) = rw (ne→== c 0 h) (ap (◌∷◌ c) (visible_text s hs))

pub visible-drop : (n : ℕ) (s : List ℕ) → visible s ≡ [] → visible (drop n s) ≡ []
unfolding visible
visible-drop zero s h = h
visible-drop (suc n) [] h = h
visible-drop (suc n) (c ∷ s) h = visible-drop n s (ground arith)

visible-replicate : (n : ℕ) → visible (replicate n 0) ≡ []
unfolding visible
visible-replicate zero = refl
visible-replicate (suc n) = visible-replicate n

pub visible-zero_bytes : (n : ℕ) → visible (zero_bytes n) ≡ []
unfolding zero_bytes
visible-zero_bytes n = visible-replicate n

pub length-zero_bytes : (n : ℕ) → length (zero_bytes n) ≡ n
unfolding zero_bytes
length-zero_bytes n = length-replicate n 0

-- What the log file holds: what is saved, and the window.
abbrev pub window : Area → List ℕ
window null = []
window map_failed = []
window (memory bytes) = bytes

abbrev pub content : Logger → List ℕ
content l = l.saved ++ window l.log_buffer

-- Between two messages: there is memory, the reserve is free, the saved part of the file consists of
-- whole windows, and in a file the rest of the window is still zero.
pub record IsReady (l : Logger) : Type 0 where
  pub bytes : List ℕ
  pub held : l.log_buffer ≡ memory bytes
  pub sized : length bytes ≡ log_buffer_size
  pub below : l.log_buffer_offset + reserve ≤ log_buffer_size
  pub windows : ℕ
  pub aligned : length l.saved ≡ windows * log_buffer_size
  pub blank : to_file l.log_destination ≡ true → visible (drop l.log_buffer_offset bytes) ≡ []

-- The calls of the system succeed, `mmap` at whole windows.
pub record Works (d : Disk) : Type 0 where
  pub grows : d.grows ≡ true
  pub seeks : d.seeks ≡ true
  pub tells : d.tells ≡ true
  pub maps : (windows : ℕ) → d.maps (windows * log_buffer_size) ≡ true

-- A file has room for `n` more bytes of messages before its size leaves `int`.
abbrev pub HasRoom : Logger → ℕ → Type 0
HasRoom l n =
    to_file l.log_destination ≡ true
    → 3 * length l.saved + 4 * (l.log_buffer_offset + n) ≤ 3 * (2 ^ 31 - log_buffer_size)

abbrev pub remapped : Logger → Bool
remapped l = ltb (log_buffer_size - reserve) l.log_buffer_offset

-- What `finish_message` leaves.
pub record Finished (l l' : Logger) : Type 0 where
  pub ready : IsReady l'
  pub same_content : visible (content l') ≡ visible (content l)
  pub same_level : l'.log_level ≡ l.log_level
  pub same_destination : l'.log_destination ≡ l.log_destination
  pub told : l'.console ≡ l.console ++ (if remapped l then codes "Remapped log buffer\n" else [])
  pub room : (n : ℕ) → HasRoom l n → HasRoom l' n

zero_bytes_whole : (n : ℕ) → take n (zero_bytes n) ≡ zero_bytes n
zero_bytes_whole n = take_all n (zero_bytes n) (omega (arith, length-zero_bytes n))

-- A window that has been written joins the file, and a cleared one comes behind it.
abbrev mapped : Logger → List ℕ → Logger
mapped l bytes = record l {
  saved = l.saved ++ bytes;
  log_buffer = memory zeros;
  console = l.console ++ codes "Remapped log buffer\n";
}

map_window_lem :
    (d : Disk) (w : Works d) (l : Logger) (windows : ℕ)
    → length l.saved ≡ windows * log_buffer_size
    → map_window d (length l.saved) l ≡ (
      record l { log_buffer = memory zeros; console = l.console ++ codes "Remapped log buffer\n" },
      true,
    )
unfolding map_window
map_window_lem d w l windows h =
    rw
      (
        w.grows,
        ap d.maps h,
        w.maps windows,
        take_all (length l.saved) l.saved (omega arith),
        drop_front l.saved zeros,
        zero_bytes_whole log_buffer_size,
      )
      refl

remap_lem :
    (d : Disk) (w : Works d) (l : Logger) (bytes : List ℕ) (windows : ℕ)
    → l.log_buffer ≡ memory bytes
    → to_file l.log_destination ≡ true
    → length (l.saved ++ bytes) ≡ windows * log_buffer_size
    → length (l.saved ++ bytes) + log_buffer_size < 2 ^ 31
    → remap_log_buffer d l ≡ some (mapped l bytes, true)
unfolding remap_log_buffer
remap_lem d w l bytes windows held filed aligned room =
    rw
      (
        filed,
        held,
        w.seeks,
        w.tells,
        to_int_small (length (l.saved ++ bytes)) (omega arith),
        lt→leb _ _ room,
      )
      (ap some (map_window_lem d w _ windows aligned))

-- A buffer that has just been written, whose offset may be too high for the next message.
pub record IsWritten (l : Logger) (bytes : List ℕ) (windows : ℕ) : Type 0 where
  pub held : l.log_buffer ≡ memory bytes
  pub sized : length bytes ≡ log_buffer_size
  pub below : l.log_buffer_offset ≤ log_buffer_size
  pub aligned : length l.saved ≡ windows * log_buffer_size
  pub blank : to_file l.log_destination ≡ true → visible (drop l.log_buffer_offset bytes) ≡ []

module _ (d : Disk) (w : Works d) (l : Logger) (bytes : List ℕ) (windows : ℕ)
    (h : IsWritten l bytes windows) where
  unmoved : remapped l ≡ false → Finished l l
  unmoved few = record {
    ready = record {
      bytes = bytes;
      held = h.held;
      sized = h.sized;
      below = omega (arith, ltb→le _ _ few);
      windows = windows;
      aligned = h.aligned;
      blank = h.blank;
    };
    same_content = refl;
    same_level = refl;
    same_destination = refl;
    told = rw few (sym (append-nil l.console));
    room = λ n r. r;
  }

  abbrev in_file : Logger
  in_file = record (mapped l bytes) { log_buffer_offset = 0 }

  in_file-Finished : remapped l ≡ true → Finished l in_file
  in_file-Finished many = record {
    ready = record {
      bytes = zeros;
      held = refl;
      sized = length-zero_bytes log_buffer_size;
      below = omega arith;
      windows = windows + 1;
      aligned = omega (arith, length-append l.saved bytes, h.aligned, h.sized);
      blank = λ _. visible-zero_bytes log_buffer_size;
    };
    same_content =
        visible-append (l.saved ++ bytes) zeros
        ∙ ap (λ v. visible (l.saved ++ bytes) ++ v) (visible-zero_bytes log_buffer_size)
        ∙ append-nil (visible (l.saved ++ bytes))
        ∙ ap (λ a. visible (l.saved ++ window a)) (sym h.held);
    same_level = refl;
    same_destination = refl;
    told = rw many refl;
    room = λ n r f. omega (arith, r f, ltb→lt _ _ many, length-append l.saved bytes, h.sized);
  }

  abbrev on_console : Logger
  on_console = record l {
    console = l.console ++ codes "Remapped log buffer\n";
    log_buffer_offset = 0;
  }

  on_console-Finished :
      remapped l ≡ true → to_file l.log_destination ≡ false → Finished l on_console
  on_console-Finished many alone = record {
    ready = record {
      bytes = bytes;
      held = h.held;
      sized = h.sized;
      below = omega arith;
      windows = windows;
      aligned = h.aligned;
      blank = λ f. cc (f, alone);
    };
    same_content = refl;
    same_level = refl;
    same_destination = refl;
    told = rw many refl;
    room = λ n r f. cc (f, alone);
  }

  pub finish_message-Finished :
      HasRoom l 0 → (l' : Logger) × (finish_message d l ≡ some l') × Finished l l'
  unfolding finish_message reset
  finish_message-Finished room = elim (Bool-cases (remapped l)) [
    | inr few ↦ (l, rw few refl, unmoved few)
    | inl many ↦ elim (Bool-cases (to_file l.log_destination)) [
      | inl filed ↦ (
        in_file,
        rw many (
            >>=_of_some reset
              (remap_lem d w l bytes (windows + 1) h.held filed
                (omega (arith, length-append l.saved bytes, h.aligned, h.sized))
                (omega (arith, room filed, ltb→lt _ _ many, length-append l.saved bytes, h.sized)))
              refl),
        in_file-Finished many,
      )
      | inr alone ↦ (
        on_console,
        rw many (unfold remap_log_buffer in rw alone refl),
        on_console-Finished many alone,
      )
    ]
  ]
