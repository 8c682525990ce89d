-- ===== src/Loader/ErrorPage.antt =====
-- The page that the loader makes for a status that is not 200.
use wind_breaker.Prelude.{
  ℕ, ◌^◌, ◌≤◌, ◌<◌, ◌≡◌, refl, ◌∙◌, ap, true, false, [], ◌++◌, Option, some, arith, length, lt→ltb,
  ◌==◌, length-append, replicate, length-replicate,
}
use wind_breaker.Prelude.Text.{codes}
use wind_breaker.Prelude.Bytes.{length-overwrite}
use wind_breaker.Response.Print.Whole.{length-decimal, length_name}
use wind_breaker.Prelude.Fault.{◌>>=◌, >>=_of_some}
use wind_breaker.Buffer.{Buffer, Memory}
use wind_breaker.Buffer.Capacity.{IsValid, ensure_capacity_lem}
use wind_breaker.Static.{Request, Response}
use wind_breaker.Static.StatusCode.{ok}
use wind_breaker.StaticFile.Read.{Disk}
use wind_breaker.Response.Print.{decimal, http_status_code_to_str}
use wind_breaker.Response.Print.Text.{Starts, print_at_lem}
use wind_breaker.Loader.Load.{Database, clear}
use wind_breaker.Loader.{Round, error_page, gen_error_body, fail_with, tidy, load_round}

-- Clearing the used bytes keeps the buffer well formed.
pub cleared-IsValid : (b : Buffer) → IsValid b → IsValid (clear b.count b)
unfolding clear
cleared-IsValid b v = record {
  sized =
      length-overwrite 0 (replicate b.count 0) b.bytes
        (omega (arith, length-replicate {A = ℕ} b.count 0, v.used, v.sized))
      ∙ v.sized;
  used = v.used;
}

length-error_page : (c : ℕ) → length (error_page c) < 512
length-error_page c = omega (
  arith,
  length-append (codes "<html><body><h1>") (decimal c),
  length-append (codes "<html><body><h1>" ++ decimal c) (codes " "),
  length-append (codes "<html><body><h1>" ++ decimal c ++ codes " ") (http_status_code_to_str c),
  length-append (codes "<html><body><h1>" ++ decimal c ++ codes " " ++ http_status_code_to_str c)
      (codes "</h1></body></html>"),
  length-decimal c,
  length_name c,
)

gen_error_body_lem :
    (m : Memory) (c : ℕ) (b : Buffer)
    → ((k : ℕ) → m.grants k ≡ true)
    → IsValid b
    → b.capacity < 2 ^ 31
    → (b' : Buffer) × (gen_error_body m c b ≡ some (length (error_page c), b'))
      × Starts (error_page c) b'
      × (length (error_page c) ≤ b'.capacity)
unfolding gen_error_body
gen_error_body_lem m c b granted v small =
    let (e, done, q) = ensure_capacity_lem m b 512 v small (omega arith) granted in
    let short = length-error_page c in
    let empty : Starts [] e = record {
      valid = q.valid;
      bounded = q.bounded;
      rest = e.bytes;
      split = refl;
    } in
    let (b', printed, w, same) = print_at_lem [] (error_page c) e empty (omega (arith, q.enough)) in
    (
      b',
      >>=_of_some _ done
          (rw (lt→ltb 0 e.capacity (omega (arith, q.enough))) (>>=_of_some _ printed refl)),
      w,
      omega (arith, q.enough),
    )

failed_with :
    (m : Memory) (r : Response) (e b tmp : Buffer)
    → gen_error_body m r.status_code b ≡ some (length (error_page r.status_code), e)
    → fail_with m r.status_code r (b, tmp)
      ≡ some (r, (record e { count = length (error_page r.status_code) }, tmp))
unfolding fail_with
failed_with m r e b tmp made =
    ap (λ (o : Option (ℕ × Buffer)). o >>= λ p. some (r, (record p.1 { count = p.0 }, tmp))) made

-- When memory is granted and the session's buffer is well formed and has less than 2 ^ 31 bytes, a
-- round of the loader for a response whose status is not 200 goes through, whatever the disk, the
-- database and the request hold: the response stays as it is, and the buffer's used bytes are the
-- whole error page of the status, at the start of a well-formed buffer.
pub load_round_error :
    (disk : Disk) (m : Memory) (db : Database) (q : Request) (r : Response) (b tmp : Buffer)
    → ((k : ℕ) → m.grants k ≡ true)
    → IsValid b
    → b.capacity < 2 ^ 31
    → (r.status_code == ok) ≡ false
    → (b' tmp' : Buffer) × (load_round disk m db q r (b, tmp) ≡ some (r, (b', tmp')))
      × (b'.count ≡ length (error_page r.status_code))
      × Starts (error_page r.status_code) b'
      × (tmp'.count ≡ 0)
unfolding load_round
load_round_error disk m db q r b tmp granted v small failed =
    let (e, made, w, room) =
      gen_error_body_lem m r.status_code (clear b.count b) granted (cleared-IsValid b v)
        (still_small b small) in
    (
      record e { count = length (error_page r.status_code) },
      record (clear tmp.count tmp) { count = 0 },
      rw failed (
          >>=_of_some (λ (round : Round). some (tidy round))
            (failed_with m r e (clear b.count b) tmp made) refl),
      refl,
      record {
        valid = record { sized = w.valid.sized; used = room };
        bounded = w.bounded;
        rest = w.rest;
        split = w.split;
      },
      refl,
    )
  where
    still_small : (b : Buffer) → b.capacity < 2 ^ 31 → (clear b.count b).capacity < 2 ^ 31
    still_small b h = h
