-- ===== src/Tests/Buffers.antt =====
-- The theorems on buffers, on printing and on sending at small buffers.
use wind_breaker.Prelude.{
  ℕ, ◌<◌, ◌≡◌, ◌↔◌, refl, inl, true, [], ◌∷◌, ◌++◌, none, some, arith, length, take, replicate,
  length-replicate, if◌then◌else◌,
}
use wind_breaker.Prelude.Int.{pos}
use wind_breaker.Prelude.Text.{codes}
use wind_breaker.Buffer.{Buffer, Memory, grow, grow_fuel}
use wind_breaker.Buffer.Capacity.{IsValid, Grown, grow_total}
use wind_breaker.Static.{Response, keep_alive, zero_response}
use wind_breaker.Static.StatusCode.{ok, not_modified}
use wind_breaker.Response.{Outside}
use wind_breaker.Response.Headers.{decided, not_modified_iff}
use wind_breaker.Response.Print.{print_response}
use wind_breaker.Response.Print.Whole.{Fits, message, print_response-message}
use wind_breaker.Session.Word.{sent, rejected}
use wind_breaker.Sender.{after_send, is_close}
use wind_breaker.Sender.Bytes.{sends, took, used, sends-used}

abbrev memory : Memory
memory = record { grants = λ n. true; junk = λ n. 0 }

granted : (k : ℕ) → memory.grants k ≡ true
granted k = refl

-- "Hi!" in a buffer of four bytes.
abbrev greeting : Buffer
greeting = record { capacity = 4; count = 3; bytes = codes "Hi!?" }

greeting-IsValid : IsValid greeting
greeting-IsValid = record { sized = refl; used = omega arith }

abbrev page : Buffer
page = record { capacity = 1024; count = 0; bytes = replicate 1024 0 }

page-IsValid : IsValid page
page-IsValid = record { sized = length-replicate {A = ℕ} 1024 0; used = omega arith }

abbrev reply : Response
reply = record zero_response {
  status_code = 200;
  content_type = codes "text/plain";
  content_length = 3;
}

reply-Fits : Fits reply
reply-Fits = record {
  content_type = omega arith;
  content_language = omega arith;
  date = omega arith;
  etag = omega arith;
  location = omega arith;
  last_modified = omega arith;
  content_encoding = omega arith;
}

abbrev outside : Outside
outside = record {
  sha256 = λ s. s;
  gzip = λ s. (pos 1, 0 ∷ []);
  deflate = λ s. (pos 1, 0 ∷ []);
  last_modified = λ s. none;
  now = codes "now";
}

grow_total_example : (n : ℕ) × (grow grow_fuel 2 100 ≡ some n) × Grown 2 100 n
grow_total_example = grow_total 2 100 (omega arith)

print_response-message_example :
    (dest' : Buffer) × (print_response memory reply greeting page
      ≡ some (length (message reply greeting), dest'))
    × IsValid dest'
    × (take (length (message reply greeting)) dest'.bytes ≡ message reply greeting)
print_response-message_example =
    print_response-message memory reply greeting page granted reply-Fits page-IsValid (omega arith)
      (omega arith) (omega arith) (omega arith) (inl (omega arith))

not_modified_iff_example : (decided outside (codes "Hi!") greeting reply ≡ not_modified) ↔ (
    (0 < length (codes "Hi!"))
    × (reply.status_code ≡ ok)
    × ((codes "Hi!") ≡ outside.sha256 (take greeting.count greeting.bytes)))
not_modified_iff_example =
    not_modified_iff outside (codes "Hi!") greeting reply (λ e. omega (arith, e))

sends-used_example :
    ((sends true keep_alive (1 ∷ []) greeting).0 ++ used (sends true keep_alive (1 ∷ []) greeting).1
      ≡ used greeting)
    × IsValid (sends true keep_alive (1 ∷ []) greeting).1
    × ((rest : ℕ)
        → 0 < rest
        → rest ≡ (sends true keep_alive (1 ∷ []) greeting).1.count
        → (after_send (took true rest) keep_alive (sends true keep_alive (1 ∷ []) greeting).1).0
          ≡ (if is_close keep_alive then rejected else sent))
sends-used_example =
    sends-used true keep_alive (1 ∷ []) greeting greeting-IsValid (omega arith, omega arith, tt)

empty-Fits : Fits zero_response
empty-Fits = record {
  content_type = omega arith;
  content_language = omega arith;
  date = omega arith;
  etag = omega arith;
  location = omega arith;
  last_modified = omega arith;
  content_encoding = omega arith;
}
