-- ===== src/Migration/Atomic.antt =====
-- The sequences of commands that src/utils/db_migration.c gives to SQLite.
use wind_breaker.Prelude.{
  ℕ, suc, ◌≤◌, ◌≡◌, Bool, true, false, List, [], ◌∷◌, ◌++◌, Option, none, some, length, take,
}
use wind_breaker.Migration.{
  Command, begin_transaction, commit, rollback, close, execute, insert_schema_version, Entry,
  Outside, get_current_schema_version, find_migration_files, max_files, content,
}

-- The text of a file that can be read.
abbrev pub text_of : Option (List ℕ) → List ℕ
text_of none = []
text_of (some text) = content text

-- Each file with the next version, in order.
abbrev pub script : Outside → List (List ℕ) → ℕ → List Command
script o [] version = []
script o (name ∷ names) version =
    execute (text_of (o.file name))
    ∷ insert_schema_version (suc version) name
    ∷ script o names (suc version)

-- How the commands of a migration that returns -1 may run.
pub data Undone (o : Outside) : List Command → Type 0 where
  unopened : Undone o []
  closed : Undone o (close ∷ [])
  closed_twice : Undone o (close ∷ close ∷ [])
  not_begun : o.begins ≡ false → Undone o (begin_transaction ∷ close ∷ [])
  rolled_back :
      (version : ℕ) (entries : List Entry) (k : ℕ)
      → get_current_schema_version o.versions ≡ some version
      → o.directory ≡ some entries
      → Undone o (
          begin_transaction
          ∷ (take k (script o (o.sort (find_migration_files o version entries)) version)
              ++ (rollback ∷ close ∷ [])))

-- The same for a migration that returns 0, which must be complete.
abbrev pub Ends : Outside → Bool × List Command → Type 0
Ends o (true, log) =
    (version : ℕ) × (entries : List Entry) × (get_current_schema_version o.versions ≡ some version)
    × (o.directory ≡ some entries)
    × (log
        ≡ begin_transaction
          ∷ (script o (o.sort (find_migration_files o version entries)) version
              ++ (commit o.commits ∷ close ∷ [])))
Ends o (false, log) = Undone o log

abbrev Ran : Outside → List (List ℕ) → ℕ → Bool × List Command → Type 0
Ran o names version (true, log) = log ≡ script o names version
Ran o names version (false, log) =
    (k : ℕ) × (log ≡ take k (script o names version) ++ (rollback ∷ close ∷ []))

-- One file: both of its commands, or a part of them.
abbrev RanFile : List ℕ → ℕ → List ℕ → Bool × List Command → Type 0
RanFile name version text (true, log) =
    log ≡ execute text ∷ insert_schema_version (suc version) name ∷ []
RanFile name version text (false, log) =
    (k : ℕ) × (k ≤ 2)
    × (log ≡ take k (execute text ∷ insert_schema_version (suc version) name ∷ []))

-- A directory with at most as many new files as the array of names has room for.
abbrev pub Fits : Outside → Type 0
Fits o =
    (version : ℕ) (entries : List Entry)
    → get_current_schema_version o.versions ≡ some version
    → o.directory ≡ some entries
    → length (find_migration_files o version entries) ≤ max_files

abbrev Finishes : Outside → Option (Bool × List Command) → Type 0
Finishes o m = (r : Bool × List Command) × (m ≡ some r) × Ends o r
