-- ===== src/Migration.antt =====
-- src/utils/db_migration.c: bringing the schema of the database up to date when the server starts.
-- SQLite, the directory and the C library are the parameter `Outside`; the model keeps the commands
-- that SQLite gets, in order. `none` is a write outside the array of file names.
pub mod Atomic
use wind_breaker.Prelude.{
  ℕ, zero, suc, ◌+◌, ◌^◌, Bool, true, false, not, ◌&&◌, List, [], ◌∷◌, ◌++◌, Option, none, some,
  length, take, ltb, leb, if◌then◌else◌, ◌==◌,
}
use wind_breaker.Prelude.Int.{ℤ, pos, negsuc}

-- `commit` has whether SQLite could commit.
pub data Command : Type 0 where
  begin_transaction rollback close : Command
  commit : Bool → Command
  execute : List ℕ → Command
  insert_schema_version : ℕ → List ℕ → Command

-- The rows of the table of versions, or why there are none.
pub data Versions : Type 0 where
  rows : List ℤ → Versions
  no_such_table : Versions
  not_prepared : Versions

pub record Entry : Type 0 where
  pub name : List ℕ
  pub is_regular : Bool

-- `scan` is `sscanf` with `v%d_`, `sort` is `qsort` with `strcmp`. What SQLite answers for the file
-- with this number is `executes` and `inserts`.
pub record Outside : Type 0 where
  pub resets : Bool
  pub removes : Bool
  pub opens : Bool
  pub versions : Versions
  pub directory : Option (List Entry)
  pub scan : List ℕ → Option ℤ
  pub sort : List (List ℕ) → List (List ℕ)
  pub begins : Bool
  pub file : List ℕ → Option (List ℕ)
  pub executes : ℕ → Bool
  pub inserts : ℕ → Bool
  pub commits : Bool

last_version : ℕ → List ℤ → ℕ
last_version last [] = last
last_version last (pos n ∷ vs) = last_version (if ltb last n then n else last) vs
last_version last (negsuc n ∷ vs) = last_version last vs

-- `none` is -1.
unfoldable pub get_current_schema_version : Versions → Option ℕ
unfolding last_version
get_current_schema_version (rows vs) = some (last_version 0 vs)
get_current_schema_version no_such_table = some 0
get_current_schema_version not_prepared = none

is_newer : ℕ → Option ℤ → Bool
is_newer current none = false
is_newer current (some (negsuc n)) = false
is_newer current (some (pos n)) = ltb current n

-- The names that `find_migration_files` copies into its array.
unfoldable pub find_migration_files : Outside → ℕ → List Entry → List (List ℕ)
unfolding is_newer
find_migration_files o current [] = []
find_migration_files o current (e ∷ es) =
    let rest = find_migration_files o current es in
    if e.is_regular && is_newer current (o.scan e.name) then e.name ∷ rest else rest

abbrev pub max_files : ℕ
max_files = 10

abbrev pub max_file_size : ℕ
max_file_size = 4096

-- What `fread` gives: at most the size of the buffer.
abbrev pub content : List ℕ → List ℕ
content text = take (2 ^ 16) text

-- The length of `migrations/` is 11.
abbrev pub is_too_long : List ℕ → Bool
is_too_long name = leb max_file_size (11 + length name)

-- The file with number `i`, whose text was read.
run_text : Outside → List ℕ → ℕ → ℕ → List ℕ → Bool × List Command
run_text o name i version text =
    if length text == 0
    then (false, [])
    else if not (o.executes i)
    then (false, execute text ∷ [])
    else (o.inserts i, execute text ∷ insert_schema_version (suc version) name ∷ [])

-- The body of the loop of `migrate_db`: does it go on?
run_file : Outside → List ℕ → ℕ → ℕ → Bool × List Command
unfolding run_text
run_file o name i version = if is_too_long name then (false, []) else (elim (o.file name) [
  | none ↦ (false, [])
  | some text ↦ run_text o name i version (content text)
])

-- A file that fails ends the loop.
go_on : Bool × List Command → Bool × List Command → Bool × List Command
go_on (false, done) rest = (false, done ++ (rollback ∷ close ∷ []))
go_on (true, done) rest = (rest.0, done ++ rest.1)

pub run_files : Outside → List (List ℕ) → ℕ → ℕ → Bool × List Command
unfolding run_file go_on
run_files o [] i version = (true, [])
run_files o (name ∷ names) i version =
    let rest = run_files o names (suc i) (suc version) in go_on (run_file o name i version) rest

-- What follows `BEGIN TRANSACTION`; the result of `commit` is not read.
end : Outside → Bool × List Command → Bool × List Command
end o (false, done) = (false, begin_transaction ∷ done)
end o (true, done) = (true, begin_transaction ∷ (done ++ (commit o.commits ∷ close ∷ [])))

migrate_files : Outside → ℕ → Option (List Entry) → Option (Bool × List Command)
unfolding run_files end find_migration_files
migrate_files o version none = some (false, close ∷ [])
migrate_files o version (some entries) =
    let names = find_migration_files o version entries in
    if ltb max_files (length names)
    then none
    else if not o.begins
    then some (false, begin_transaction ∷ close ∷ [])
    else some (end o (run_files o (o.sort names) 0 version))

-- Whether it returns 0, and the commands.
unfoldable pub migrate_db : Outside → Option (Bool × List Command)
unfolding get_current_schema_version migrate_files
migrate_db o =
    if o.resets && not o.removes
    then some (false, [])
    else if not o.opens
    then some (false, [])
    else (elim (get_current_schema_version o.versions) [
      | none ↦ some (false, close ∷ close ∷ [])
      | some version ↦ migrate_files o version o.directory
    ])
