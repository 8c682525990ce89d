-- ===== src/Loader/Load.antt =====
-- The pages of src/handlers/loader.c: `load` and what it calls.
use wind_breaker.Prelude.{
  ℕ, ◌+◌, Bool, not, List, [], ◌∷◌, ◌++◌, Option, none, some, length, take, replicate,
  if◌then◌else◌, get_elem?,
}
use wind_breaker.Prelude.Fault.{◌>>=◌, ◌>>◌, assert}
use wind_breaker.Prelude.Int.{ℤ, pos, negsuc, is_positive}
use wind_breaker.Prelude.Text.{codes, str_eq}
use wind_breaker.Prelude.Bytes.{overwrite, terminated}
use wind_breaker.Buffer.{Buffer, Memory, ensure_capacity}
use wind_breaker.StaticFile.Read.{Disk, read_static_file}
use wind_breaker.Response.Print.{print_at}
use wind_breaker.Loader.Replace.{str_replace}

-- A column as text; `none` is NULL.
abbrev pub Column : Type 0
Column = Option (List ℕ)

-- `sqlite3_step` of a query for one row.
pub data Step : Type 0 where
  row : List Column → Step
  done failed : Step

-- One use of a statement: whether it is prepared, what the step gives, whether the reset succeeds.
pub record Query : Type 0 where
  pub is_prepared : Bool
  pub step : Step
  pub is_reset : Bool

-- One use of a statement for many rows, with whether the last step is SQLITE_DONE.
pub record Listing : Type 0 where
  pub is_prepared : Bool
  pub rows : List (Column × Column)
  pub is_done : Bool

-- `resets` tells whether both resets of the projects' statement succeed.
pub record Database : Type 0 where
  pub post : List ℕ → Query
  pub project : List ℕ → Query
  pub projects : Listing
  pub posts : Listing
  pub resets : Bool

-- `memset` of the first `n` bytes to zero.
unfoldable pub clear : ℕ → Buffer → Buffer
unfolding overwrite
clear n b = record b { bytes = overwrite 0 (replicate n 0) b.bytes }

-- A column in place of a placeholder; the length of NULL is read out of range.
inject : Memory → List ℕ → ℕ → List Column → Buffer → Option Buffer
unfolding str_replace
inject m needle i columns b = do
  column ← get_elem? columns i
  value ← column
  str_replace m needle value b

-- A link in place of a placeholder, printed in `tmp` first; nothing for NULL. The page, and `tmp`.
inject_link :
    Memory → List ℕ → List ℕ → ℕ → List Column → Buffer × Buffer → Option (Buffer × Buffer)
unfolding str_replace print_at terminated clear
inject_link m needle label i columns (b, tmp) = do
  column ← get_elem? columns i
  elim column [
    | none ↦ (do page ← str_replace m needle [] b; some (page, tmp))
    | some url ↦ (do
      printed ← print_at 0 (codes "<a href=\"" ++ url ++ codes "\">" ++ label ++ codes "</a>") tmp
      link ← terminated printed.bytes
      page ← str_replace m needle link b
      some (page, clear printed.capacity printed))
  ]

abbrev pub Loaded : Type 0
Loaded = Option (ℤ × (Buffer × Buffer))

-- What `load_post` and `load_project` return behind the step.
finish : Query → Buffer × Buffer → ℤ × (Buffer × Buffer)
finish q page =
    let answer : ℤ = elim q.step [ done ↦ negsuc 1 | row columns ↦ pos 0 | failed ↦ pos 0 ] in
    (elim answer [ negsuc n ↦ negsuc 1 | pos n ↦ if q.is_reset then pos 0 else negsuc 0 ], page)

post_page : Disk → Memory → List ℕ → List Column → Buffer × Buffer → Option (Buffer × Buffer)
unfolding inject read_static_file str_replace terminated
post_page disk m argument columns (b, tmp) = do
  titled ← inject m (codes "%TITLE%") 0 columns b
  described ← inject m (codes "%DESCRIPTION%") 1 columns titled
  dated ← inject m (codes "%CREATED_AT%") 2 columns described
  read ← read_static_file disk m (take 204 (argument ++ codes ".html")) tmp
  text ← terminated read.bytes
  page ← str_replace m (codes "%POST%") text dated
  some (page, read)

project_page : Memory → List Column → Buffer × Buffer → Option (Buffer × Buffer)
unfolding inject inject_link
project_page m columns (b, tmp) = do
  titled ← inject m (codes "%TITLE%") 0 columns b
  described ← inject m (codes "%DESCRIPTION%") 1 columns titled
  sourced ← inject m (codes "%GITHUB_URL%") 2 columns described
  pictured ← inject m (codes "%IMAGE_URL%") 3 columns sourced
  linked ← inject_link m (codes "%WEBSITE_LINK%") (codes "Website") 4 columns (pictured, tmp)
  inject_link m (codes "%README_LINK%") (codes "Readme") 5 columns linked

-- The row of a query, if there is one, put into the page.
with_row :
    Step → (List Column → Option (Buffer × Buffer)) → Buffer × Buffer → Option (Buffer × Buffer)
with_row (row columns) fill page = fill columns
with_row done fill page = some page
with_row failed fill page = some page

unfoldable pub load_post : Disk → Memory → Query → List ℕ → Buffer × Buffer → Loaded
unfolding with_row post_page finish
load_post disk m q argument page =
    if q.is_prepared
    then (do
      filled ← with_row q.step (λ columns. post_page disk m argument columns page) page
      some (finish q filled))
    else some (negsuc 0, page)

unfoldable pub load_project : Memory → Query → Buffer × Buffer → Loaded
unfolding with_row project_page finish
load_project m q page =
    if q.is_prepared
    then (do
      filled ← with_row q.step (λ columns. project_page m columns page) page
      some (finish q filled))
    else some (negsuc 0, page)

-- One item of a list. The count grows by the length of the whole item, also when it was cut.
add_item : Memory → List ℕ → Column × Column → Buffer → Option Buffer
unfolding ensure_capacity print_at
add_item m path item tmp = do
  id ← item.0
  title ← item.1
  ensured ← ensure_capacity m tmp (tmp.count + 256)
  assert (is_positive ensured.0)
  let text =
      codes "<li id=\""
      ++ id
      ++ codes "\"><a href=\""
      ++ path
      ++ id
      ++ codes "\">"
      ++ title
      ++ codes "</a></li>"
  printed ← print_at tmp.count text ensured.1
  some (record printed { count = tmp.count + length text })

add_items : Memory → List ℕ → List (Column × Column) → Buffer → Option Buffer
unfolding add_item
add_items m path [] tmp = some tmp
add_items m path (item ∷ items) tmp = do
  added ← add_item m path item tmp
  add_items m path items added

-- The rows of a listing, in an empty `tmp`.
list_items : Memory → List ℕ → Listing → Buffer → Option Buffer
unfolding add_items clear
list_items m path l tmp = add_items m path l.rows (record (clear tmp.capacity tmp) { count = 0 })

inject_items : Memory → List ℕ → Buffer × Buffer → Option (Buffer × Buffer)
unfolding terminated str_replace
inject_items m needle (b, tmp) = do
  items ← terminated tmp.bytes
  page ← str_replace m needle items b
  some (page, tmp)

index_posts : Memory → Listing → Buffer × Buffer → Option (Buffer × Buffer)
unfolding list_items inject_items
index_posts m posts (b, tmp) = do
  listed ← list_items m (codes "/posts/") posts tmp
  if posts.is_done then inject_items m (codes "%NOTES%") (b, listed) else some (b, listed)

after_projects : Memory → Listing → Buffer × Buffer → Option (Buffer × Buffer)
unfolding inject_items index_posts str_replace
after_projects m posts page = do
  projects ← inject_items m (codes "%PROJECTS%") page
  versioned ← str_replace m (codes "%VERSION%") (codes "1.2.1") projects.0
  index_posts m posts (versioned, projects.1)

index_page : Memory → Database → Buffer × Buffer → Option (Buffer × Buffer)
unfolding list_items after_projects
index_page m db (b, tmp) = do
  listed ← list_items m (codes "/projects/") db.projects tmp
  if db.projects.is_done then after_projects m db.posts (b, listed) else some (b, listed)

unfoldable pub load_index : Memory → Database → Buffer × Buffer → Loaded
unfolding index_page
load_index m db page =
    if not db.projects.is_prepared
    then some (negsuc 0, page)
    else if not db.posts.is_prepared
    then some (negsuc 0, page)
    else (do filled ← index_page m db page; some (if db.resets then pos 0 else negsuc 0, filled))

unfoldable pub load : Disk → Memory → Database → List ℕ → List ℕ → Buffer × Buffer → Loaded
unfolding load_index load_project load_post str_eq
load disk m db name argument page =
    if str_eq name (codes "index.html")
    then load_index m db page
    else if str_eq name (codes "project.html")
    then load_project m (db.project argument) page
    else if str_eq name (codes "post.html")
    then load_post disk m (db.post argument) argument page
    else some (pos 0, page)
