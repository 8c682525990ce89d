-- ===== src/Response/Upgrade.antt =====
-- The redirection of src/http/response.c to https.
use wind_breaker.Prelude.{
  ℕ, ◌^◌, ◌≤◌, ◌<◌, ◌≡◌, refl, inr, ap, true, List, [], ◌++◌, some, arith, length, take,
  length-take,
}
use wind_breaker.Prelude.Fault.{>>=_of_some}
use wind_breaker.Prelude.Text.{codes}
use wind_breaker.Buffer.{Buffer, Memory}
use wind_breaker.Buffer.Capacity.{IsValid}
use wind_breaker.Static.{Response, token}
use wind_breaker.Static.StatusCode.{moved_permanently}
use wind_breaker.Response.{
  Outside, clipped, set_location, set_date, set_content_length, construct_upgrade_to_https_response,
}
use wind_breaker.Response.Print.Whole.{Fits, head, message, print_response-message}

-- The redirection to the same host and the first token of the URI; the fields that the code does not
-- set are those of `r`.
abbrev pub redirection : Outside → List ℕ → List (List ℕ) → Response → Response
redirection o host uri r = record r {
  status_code = moved_permanently;
  content_length = 0;
  content_language = codes "en-US";
  date = o.now;
  location = clipped 256 (codes "https://" ++ host ++ token uri 0);
}

redirection-Fits :
    (o : Outside) (host : List ℕ) (uri : List (List ℕ)) (r : Response)
    → Fits r
    → length o.now < 128
    → Fits (redirection o host uri r)
redirection-Fits o host uri r f now = record {
  content_type = f.content_type;
  content_language = omega arith;
  date = now;
  etag = f.etag;
  location = omega (arith, length-take 255 (codes "https://" ++ host ++ token uri 0));
  last_modified = f.last_modified;
  content_encoding = f.content_encoding;
}

abbrev pub nothing : Buffer
nothing = record { capacity = 0; count = 0; bytes = [] }

-- When memory is granted, the fields that the code leaves unset fit their arrays, the date fits its
-- own, and the head is shorter than 1022 bytes, `construct_upgrade_to_https_response` into a valid
-- buffer of at least 1024 bytes does not fail: the bytes in use are then the redirection, whole, and
-- their number is what is returned.
pub construct_upgrade_to_https_response-message :
    (o : Outside) (m : Memory) (uri : List (List ℕ)) (host : List ℕ) (r : Response)
    (buffer : Buffer)
    → ((k : ℕ) → m.grants k ≡ true)
    → Fits r
    → length o.now < 128
    → IsValid buffer
    → buffer.capacity < 2 ^ 31
    → 1024 ≤ buffer.capacity
    → length (head (redirection o host uri r)) < 1022
    → (b : Buffer) × (construct_upgrade_to_https_response o m uri host r buffer ≡ some (b.count, b))
      × IsValid b
      × (take b.count b.bytes ≡ message (redirection o host uri r) nothing)
unfolding construct_upgrade_to_https_response set_location set_date set_content_length
construct_upgrade_to_https_response-message o m uri host r buffer granted f now v small least
      short =
    let (b, e, w, t) =
      print_response-message m (redirection o host uri r) nothing buffer granted
        (redirection-Fits o host uri r f now) v small least (omega arith) (omega arith)
        (inr short) in
    (
      record b { count = length (message (redirection o host uri r) nothing) },
      >>=_of_some _ e refl,
      record {
        sized = w.sized;
        used =
            fits (length (message (redirection o host uri r) nothing)) b.bytes (ap length t)
              w.sized;
      },
      t,
    )
  where
    fits : (n : ℕ) (xs : List ℕ) {c : ℕ} → length (take n xs) ≡ n → length xs ≡ c → n ≤ c
    fits n xs e s = omega (arith, length-take n xs, e, s)
