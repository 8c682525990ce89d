-- ===== src/Logger.antt =====
-- src/utils/logger.c: the log buffer, the lines that are written to it, the console and the log file.
-- A mapped buffer is a window of the file behind `saved`; `none` is a failed assertion, a write
-- outside of the buffer, or behaviour that C leaves undefined. Formatted times and messages, and
-- what the calls of the system answer, are arguments.

pub mod Line
pub mod Keeps
pub mod Records
pub mod Series
pub mod Start
pub mod Text
pub mod Level
pub mod Destination
use Prim.Native.String.{String}
use wind_breaker.Prelude.{
  take, ℕ, ◌+◌, ◌-◌, ◌*◌, ◌^◌, Bool, true, false, List, [], ◌∷◌, ◌++◌, map, Option, none, some,
  length, drop, ltb, leb, ◌==◌, ◌&&◌, ◌||◌, not, if◌then◌else◌, replicate,
}
use wind_breaker.Prelude.Fault.{◌>>=◌, ◌>>◌, assert}
use wind_breaker.Prelude.Bytes.{overwrite, find, terminated}
use wind_breaker.Prelude.Int.{pos, negsuc, to_int}
use wind_breaker.Prelude.Text.{codes}
use wind_breaker.Response.Print.{decimal}
use wind_breaker.Logger.Level
use wind_breaker.Logger.Text.{log_level_to_string, colour, Context, log_to_buffer, print_pieces}
use wind_breaker.Logger.Destination

-- Four times the reserve for the next message.
abbrev pub log_buffer_size : ℕ
log_buffer_size = 4194304

abbrev pub reserve : ℕ
reserve = 1048576

-- `log_buffer`: NULL, MAP_FAILED, or memory.
pub data Area : Type 0 where
  null : Area
  map_failed : Area
  memory : List ℕ → Area

-- The static variables, and what is printed. `saved` is the file in front of the mapped window.
pub record Logger : Type 0 where
  pub log_level : ℕ
  pub log_destination : ℕ
  pub opened : Bool
  pub log_buffer_offset : ℕ
  pub log_buffer : Area
  pub saved : List ℕ
  pub console : List ℕ

-- What the calls of the system answer: `mmap` at an offset, and memory that `malloc` does not clear.
pub record Disk : Type 0 where
  pub opens : Bool
  pub stats : Bool
  pub grows : Bool
  pub maps : ℕ → Bool
  pub seeks : Bool
  pub tells : Bool
  pub fresh : List ℕ

abbrev pub to_file : ℕ → Bool
to_file d = d == Destination.file_only || d == Destination.console_file

abbrev pub to_console : ℕ → Bool
to_console d = d == Destination.console_only || d == Destination.console_file

-- The bytes by which `ftruncate` makes the file longer.
pub zero_bytes : ℕ → List ℕ
zero_bytes n = replicate n 0

abbrev pub zeros : List ℕ
zeros = zero_bytes log_buffer_size

-- The file is made `size + log_buffer_size` bytes long, and its end becomes the window.
unfoldable pub map_window : Disk → ℕ → Logger → Logger × Bool
map_window d size l =
    if not d.grows
    then (l, false)
    else if d.maps size
    then (
      record l {
        saved = take size l.saved;
        log_buffer = memory (take log_buffer_size (drop size (l.saved ++ zeros)));
        console = l.console ++ codes "Remapped log buffer\n";
      },
      true,
    )
    else (record l { saved = take (size + log_buffer_size) (l.saved ++ zeros) }, false)

-- `remap_log_buffer`: `false` for -1, `none` where the sum leaves `int`. The window joins what is
-- saved; what `ftell` tells is stored in an `int`.
unfoldable pub remap_log_buffer : Disk → Logger → Option (Logger × Bool)
unfolding map_window
remap_log_buffer d l =
    if not (to_file l.log_destination)
    then some (record l { console = l.console ++ codes "Remapped log buffer\n" }, true)
    else elim l.log_buffer [
      | null ↦ none
      | map_failed ↦ none
      | memory bytes ↦
          let unmapped = record l { saved = l.saved ++ bytes; log_buffer = map_failed } in
          if not d.seeks || not d.tells
          then some (unmapped, false)
          else elim (to_int (length unmapped.saved)) [
            | negsuc n ↦ some (unmapped, false)
            | pos size ↦
                if leb (2 ^ 31) (size + log_buffer_size)
                then none
                else some (map_window d size unmapped)
          ]
    ]

-- The path behind "src/", or behind "test/"; a name with neither is taken from NULL + 5.
unfoldable pub relative_file_path : List ℕ → Option (List ℕ)
unfolding find
relative_file_path file = elim (find (codes "src/") file) [
  | some i ↦ some (drop (i + 4) file)
  | none ↦ elim (find (codes "test/") file) [ some i ↦ some (drop (i + 5) file) | none ↦ none ]
]

-- The result of the remapping is asserted, and the buffer begins anew.
unfoldable pub reset : Logger × Bool → Option Logger
reset (l, done) = do assert done; some (record l { log_buffer_offset = 0 })

-- The rest of `log_message` once the line is in the buffer.
unfoldable pub finish_message : Disk → Logger → Option Logger
unfolding remap_log_buffer reset
finish_message d l =
    if ltb (log_buffer_size - reserve) l.log_buffer_offset
    then remap_log_buffer d l >>= reset
    else some l

unfoldable pub log_message : Disk → ℕ → Context → List ℕ → List ℕ → Logger → Option Logger
log_message d level c file message l = do
  path ← relative_file_path file
  elim l.log_buffer [
    | null ↦ some l
    | map_failed ↦ none
    | memory bytes ↦ do
      written ← log_to_buffer level c path message l.log_buffer_offset bytes
      shown ←
          if to_console l.log_destination
          then terminated (drop l.log_buffer_offset written.0)
          else some []
      finish_message d (record l {
        log_buffer = memory written.0;
        log_buffer_offset = l.log_buffer_offset + written.1;
        console = l.console ++ shown;
      })
  ]

-- `log_trace_`, `log_debug_`, `log_info_` and `log_warn_` stop at their levels; `log_error_` never.
unfoldable pub log_at : Disk → ℕ → Context → List ℕ → List ℕ → Logger → Option Logger
log_at d level c file message l =
    if ltb level Level.error && ltb level l.log_level
    then some l
    else log_message d level c file message l

-- The five pieces of the logo.
abbrev pub logo : List (List ℕ)
logo =
    (colour "[31m" ++ codes "__        ___           _   ____                 _             \n")
    ∷ codes "\\ \\      / (_)_ __   __| | | __ ) _ __ ___  __ _| | _____ _ __ \n"
    ∷ (colour "[32m"
        ++ codes " \\ \\ /\\ / /| | '_ \\ / _` | |  _ \\| '__/ _ \\/ _` | |/ / _ \\ '__|\n")
    ∷ codes "  \\ V  V / | | | | | (_| | | |_) | | |  __/ (_| |   <  __/ |   \n"
    ∷ (colour "[34m"
        ++ codes "   \\_/\\_/  |_|_| |_|\\__,_| |____/|_|  \\___|\\__,_|_|\\_\\___|_|   \n"
        ++ colour "[0m")
    ∷ []

unfoldable pub log_logo : Logger → Option Logger
log_logo l = elim l.log_buffer [
  | null ↦ none
  | map_failed ↦ none
  | memory bytes ↦ do
    printed ← print_pieces l.log_buffer_offset logo (bytes, 0)
    shown ← terminated (drop l.log_buffer_offset printed.0)
    some (record l {
      log_buffer = memory printed.0;
      log_buffer_offset = l.log_buffer_offset + printed.1;
      console = l.console ++ shown;
    })
]

abbrev pub destination_name : ℕ → List ℕ
destination_name d =
    if d == Destination.console_only
    then codes "CONSOLE_ONLY"
    else if d == Destination.file_only
    then codes "FILE_ONLY"
    else codes "CONSOLE_FILE"

-- The logo, and the message that the logger is there.
unfoldable pub announce : Disk → Context → List ℕ → Logger → Option Logger
announce d c file l = do
  shown ← log_logo l
  log_at d Level.info c file
      (codes "Logger initialized with level "
        ++ log_level_to_string l.log_level
        ++ codes " and destination "
        ++ destination_name l.log_destination)
      shown

-- `init_logger`; `false` for NULL, which it also returns with the console alone. `file` is the file's
-- content, and `source` the name of the source file.
unfoldable pub init_logger :
    Disk → Context → List ℕ → ℕ → ℕ → List ℕ → Logger → Option (Logger × Bool)
init_logger d c source level destination file l =
    let set_up = record l { log_level = level; log_destination = destination } in
    if to_file destination
    then (if not d.opens
        then some (record set_up { opened = false }, false)
        else if not d.stats || not d.grows
        then some (record set_up { opened = true }, false)
        else if d.maps (length file)
        then announce d c source
            (record set_up { opened = true; saved = file; log_buffer = memory zeros })
          >>= (λ told. some (told, true))
        else some (
          record set_up { opened = true; saved = file ++ zeros; log_buffer = map_failed },
          false,
        ))
    else announce d c source (record set_up { log_buffer = memory d.fresh })
      >>= (λ told. some (told, set_up.opened))

-- `destroy_logger`: a mapped window stays in the file.
unfoldable pub destroy_logger : Logger → Logger
destroy_logger l = record l {
  opened = false;
  log_buffer = null;
  saved = elim l.log_buffer [
    | null ↦ l.saved
    | map_failed ↦ l.saved
    | memory bytes ↦ if to_file l.log_destination then l.saved ++ bytes else l.saved
  ];
}
