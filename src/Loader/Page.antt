-- ===== src/Loader/Page.antt =====
-- The pages of src/handlers/loader.c that are files as they stand.
use wind_breaker.Prelude.{
  take_all, ℕ, ◌+◌, ◌^◌, ◌<◌, ◌≡◌, refl, true, false, List, [], ◌∷◌, ◌++◌, some, arith, take, drop,
  ◌==◌, length, length-append, length-drop, lt→ltb,
}
use wind_breaker.Prelude.Fault.{>>=_of_some}
use wind_breaker.Prelude.Int.{pos}
use wind_breaker.Prelude.Text.{codes, str_eq}
use wind_breaker.Prelude.Bytes.{overwrite}
use wind_breaker.Buffer.{Buffer, Memory}
use wind_breaker.Buffer.Capacity.{IsValid, ensure_capacity_lem}
use wind_breaker.Static.{Request, Response, token, uri_to_file_name}
use wind_breaker.Static.StatusCode.{ok}
use wind_breaker.StaticFile.Read.{Disk, full_path, read_static_file}
use wind_breaker.Response.Print.Text.{Starts}
use wind_breaker.Loader.Load.{Database, clear, load}
use wind_breaker.Loader.{Round, load_file, tidy, load_round}
use wind_breaker.Loader.ErrorPage.{cleared-IsValid}

-- The buffer with the file and the closing zero at its front.
record HasPage (content : List ℕ) (b : Buffer) : Type 0 where
  counted : b.count ≡ length content
  starts : Starts (content ++ (0 ∷ [])) b

read_static_file_lem :
    (disk : Disk) (m : Memory) (name content : List ℕ) (b : Buffer)
    → ((k : ℕ) → m.grants k ≡ true)
    → IsValid b
    → b.capacity < 2 ^ 31
    → disk.contents (full_path name) ≡ some content
    → 0 < length content
    → length content < 2 ^ 30
    → (b' : Buffer) × (read_static_file disk m name b ≡ some b') × HasPage content b'
unfolding read_static_file overwrite
read_static_file_lem disk m name content b granted v small found some_bytes short =
    let (e, done, q) = ensure_capacity_lem m b (length content + 1) v small (omega arith) granted in
    let all : take e.capacity content ≡ content =
      take_all e.capacity content (omega (arith, q.enough)) in
    (
      record e {
        count = length content;
        bytes = (content ++ (0 ∷ [])) ++ drop (length (content ++ (0 ∷ []))) e.bytes;
      },
      >>=_of_some _ found (
          rw (lt→ltb 0 (length content) some_bytes) (
            >>=_of_some _ done (
              rw (lt→ltb 0 e.capacity (omega (arith, q.enough))) (
                rw all (
                  rw
                    (
                      lt→ltb 0 (length content) some_bytes,
                      lt→ltb (length content) e.capacity (omega (arith, q.enough)),
                    )
                    refl))))),
      record {
        counted = refl;
        starts = record {
          valid = record {
            sized = omega (
              arith,
              length-append (content ++ (0 ∷ [])) (drop (length (content ++ (0 ∷ []))) e.bytes),
              length-append content (0 ∷ []),
              length-drop (length (content ++ (0 ∷ []))) e.bytes,
              q.valid.sized,
              q.enough,
            );
            used = omega (arith, q.enough);
          };
          bounded = q.bounded;
          rest = drop (length (content ++ (0 ∷ []))) e.bytes;
          split = refl;
        };
      },
    )

load_other :
    (disk : Disk) (m : Memory) (db : Database) (name argument : List ℕ) (page : Buffer × Buffer)
    → str_eq name (codes "index.html") ≡ false
    → str_eq name (codes "project.html") ≡ false
    → str_eq name (codes "post.html") ≡ false
    → load disk m db name argument page ≡ some (pos 0, page)
unfolding load
load_other disk m db name argument page e e' e'' = rw (e, e', e'')

load_file_lem :
    (disk : Disk) (m : Memory) (db : Database) (q : Request) (r : Response) (b b' tmp : Buffer)
    (name : List ℕ)
    → uri_to_file_name q.uri ≡ some name
    → read_static_file disk m name b ≡ some b'
    → load disk m db name (token q.uri 1) (b', tmp) ≡ some (pos 0, (b', tmp))
    → load_file disk m db q r (b, tmp) ≡ some (r, (b', tmp))
unfolding load_file
load_file_lem disk m db q r b b' tmp name named read loaded =
    >>=_of_some _ named (>>=_of_some _ read (>>=_of_some _ loaded refl))

-- When memory is granted and the session's buffer is well formed and has less than 2 ^ 31 bytes, a
-- round of the loader for a response with status 200 whose URI names a file other than the three
-- pages from the database, where that file has between 1 and 2 ^ 30 - 1 bytes, goes through: the
-- response stays as it is, the buffer counts the bytes of the file, and it starts with the whole file
-- and a zero behind it; the loader's own buffer is empty again.
pub load_round_page :
    (disk : Disk) (m : Memory) (db : Database) (q : Request) (r : Response) (b tmp : Buffer)
    (name content : List ℕ)
    → ((k : ℕ) → m.grants k ≡ true)
    → IsValid b
    → b.capacity < 2 ^ 31
    → (r.status_code == ok) ≡ true
    → uri_to_file_name q.uri ≡ some name
    → str_eq name (codes "index.html") ≡ false
    → str_eq name (codes "project.html") ≡ false
    → str_eq name (codes "post.html") ≡ false
    → disk.contents (full_path name) ≡ some content
    → 0 < length content
    → length content < 2 ^ 30
    → (b' tmp' : Buffer) × (load_round disk m db q r (b, tmp) ≡ some (r, (b', tmp')))
      × (b'.count ≡ length content)
      × Starts (content ++ (0 ∷ [])) b'
      × (tmp'.count ≡ 0)
unfolding load_round
load_round_page disk m db q r b tmp name content granted v small good named e e' e'' found
      some_bytes short =
    let (b', read, page) =
      read_static_file_lem disk m name content (clear b.count b) granted (cleared-IsValid b v)
        (still_small b small) found some_bytes short in
    (
      b',
      record (clear tmp.count tmp) { count = 0 },
      rw good (
          >>=_of_some (λ (round : Round). some (tidy round))
            (load_file_lem disk m db q r (clear b.count b) b' tmp name named read
              (load_other disk m db name (token q.uri 1) (b', tmp) e e' e''))
            refl),
      page.counted,
      page.starts,
      refl,
    )
  where
    still_small : (b : Buffer) → b.capacity < 2 ^ 31 → (clear b.count b).capacity < 2 ^ 31
    still_small b h = h
