-- ===== src/Tests/Loader.antt =====
-- The theorems on src/handlers/loader.c and src/utils/db_migration.c at small inputs.
use wind_breaker.Prelude.{
  ℕ, ◌≡◌, refl, true, false, [], ◌∷◌, ◌++◌, List, none, some, arith, length, replicate,
  length-replicate,
}
use wind_breaker.Prelude.Int.{pos}
use wind_breaker.Prelude.Text.{codes, str_eq}
use wind_breaker.Prelude.Bytes.{find}
use wind_breaker.Buffer.{Buffer, Memory}
use wind_breaker.Buffer.Capacity.{IsValid}
use wind_breaker.Loader.Page.{load_round_page}
use wind_breaker.Static.{Request, uri_to_file_name, Response, zero_request, zero_response}
use wind_breaker.StaticFile.Read.{Disk}
use wind_breaker.Response.Print.Text.{Starts}
use wind_breaker.Loader.{error_page, load_round}
use wind_breaker.Loader.Load.{Database, Listing, done}
use wind_breaker.Loader.ErrorPage.{load_round_error}
use wind_breaker.Loader.Replace.{str_replace}
use wind_breaker.Loader.Replace.Splice.{Holds}
use wind_breaker.Loader.Replace.First.{replace_first, str_replace_lem}
use wind_breaker.Migration.{Outside, rows}

abbrev pub memory : Memory
memory = record { grants = λ n. true; junk = λ n. 0 }

abbrev template : List ℕ
template = codes "x{a}y"

abbrev template_buffer : Buffer
template_buffer = record { capacity = 16; count = 5; bytes = template ++ (0 ∷ replicate 10 0) }

template_held : Holds template template_buffer
template_held = record {
  valid = record { sized = refl; used = omega arith };
  bounded = omega arith;
  counted = refl;
  rest = replicate 10 0;
  split = refl;
}

str_replace_lem_example :
    (b' : Buffer) × (str_replace memory (codes "{a}") (codes "bc") template_buffer ≡ some b')
    × Holds (replace_first (codes "{a}") (codes "bc") template) b'
unfolding find
str_replace_lem_example =
    str_replace_lem memory (codes "{a}") (codes "bc") template 1 template_buffer (λ j. refl)
      template_held (omega arith) refl refl (omega arith)

abbrev page : Buffer
page = record { capacity = 1024; count = 0; bytes = replicate 1024 0 }

page-IsValid : IsValid page
page-IsValid = record { sized = length-replicate {A = ℕ} 1024 0; used = omega arith }

abbrev missing : Response
missing = record zero_response { status_code = 404 }

-- A directory with one new file.
abbrev update : Outside
update = record {
  resets = false;
  removes = true;
  opens = true;
  versions = rows (pos 1 ∷ []);
  directory = some (record { name = codes "v2_posts.sql"; is_regular = true } ∷ []);
  scan = λ s. some (pos 2);
  sort = λ s. s;
  begins = true;
  file = λ s. some (codes "CREATE TABLE Post (id);");
  executes = λ i. true;
  inserts = λ i. true;
  commits = true;
}

-- An empty disk and an empty database.
abbrev pub empty_disk : Disk
empty_disk = record { contents = λ path. none }

abbrev no_rows : Listing
no_rows = record { is_prepared = true; rows = []; is_done = true }

abbrev pub empty_database : Database
empty_database = record {
  post = λ id. record { is_prepared = true; step = done; is_reset = true };
  project = λ id. record { is_prepared = true; step = done; is_reset = true };
  projects = no_rows;
  posts = no_rows;
  resets = true;
}

load_round_error_example :
    (b' tmp' : Buffer) × (load_round empty_disk memory empty_database zero_request missing
        (page, page)
      ≡ some (missing, (b', tmp')))
    × (b'.count ≡ length (error_page missing.status_code))
    × Starts (error_page missing.status_code) b'
    × (tmp'.count ≡ 0)
load_round_error_example =
    load_round_error empty_disk memory empty_database zero_request missing page page (λ j. refl)
      page-IsValid (omega arith) refl

-- A disk where every file says `hi`, and a request for the style sheet.
abbrev greeting_disk : Disk
greeting_disk = record { contents = λ path. some (codes "hi") }

abbrev styles : Request
styles = record zero_request { uri = codes "style.css" ∷ [] ∷ [] ∷ [] ∷ [] }

abbrev good : Response
good = record zero_response { status_code = 200 }

load_round_page_example :
    (b' tmp' : Buffer) × (load_round greeting_disk memory empty_database styles good (page, page)
      ≡ some (good, (b', tmp')))
    × (b'.count ≡ 2)
    × Starts (codes "hi" ++ (0 ∷ [])) b'
    × (tmp'.count ≡ 0)
unfolding uri_to_file_name str_eq
load_round_page_example =
    load_round_page greeting_disk memory empty_database styles good page page (codes "style.css")
      (codes "hi") (λ j. refl) page-IsValid (omega arith) refl refl refl refl refl refl
      (omega arith) (omega arith)
