-- ===== src/Response/Print/Whole.antt =====
-- `to_string` of src/http/response.c against the text of a response.
use mathlib.Core.List.{append_assoc, append-nil}
use native.Mathlib.Nat.{mod-eq_of_lt}
use wind_breaker.Prelude.{
  ℕ, zero, suc, ◌+◌, ◌%◌, ◌/◌, ◌^◌, ◌≤◌, ◌<◌, ◌≡◌, refl, sym, ◌∙◌, ap, true, List, [], ◌∷◌, ◌++◌,
  some, arith, length, take, drop, length-append, length-take, ltb, ◌==◌, ◌⊎◌, if◌then◌else◌,
  ltb→le, le→leb, Bool-cases, inl, inr,
}
use wind_breaker.Prelude.Fault.{>>=_of_some}
use wind_breaker.Prelude.Text.{codes}
use wind_breaker.Prelude.Bytes.{overwrite_behind, same_length, take_front}
use wind_breaker.Static.{Response}
use wind_breaker.Buffer.{Buffer, Memory}
use wind_breaker.Buffer.Capacity.{IsValid}
use wind_breaker.Response.Print.{
  line, field, crlf, digits, decimal, status_line, http_status_code_to_str, copy_body,
  print_response,
}
use wind_breaker.Response.Print.Text.{Starts, print_with_lem, line-eq-print_with}

-- A field that is empty is left out.
abbrev pub field_text : List ℕ → List ℕ → List ℕ
field_text name value = if ltb 0 (length value) then name ++ value ++ crlf else []

-- The status line and the header fields, in the order of the code.
abbrev pub head : Response → List ℕ
head r =
    status_line r.status_code
    ++ field_text (codes "Content-Type: ") r.content_type
    ++ (codes "Content-Length: " ++ decimal r.content_length ++ crlf)
    ++ field_text (codes "Content-Language: ") r.content_language
    ++ field_text (codes "Date: ") r.date
    ++ field_text (codes "ETag: ") r.etag
    ++ field_text (codes "Location: ") r.location
    ++ field_text (codes "Last-Modified: ") r.last_modified
    ++ field_text (codes "Content-Encoding: ") r.content_encoding

-- The message: the head, an empty line, and as much of the body as the head announces.
abbrev pub message : Response → Buffer → List ℕ
message r body = head r ++ crlf ++ take r.content_length body.bytes

-- The strings fit the arrays of `http_response_t`, the encoding is one that the server names.
pub record Fits (r : Response) : Type 0 where
  pub content_type : length r.content_type < 256
  pub content_language : length r.content_language < 128
  pub date : length r.date < 128
  pub etag : length r.etag < 65
  pub location : length r.location < 256
  pub last_modified : length r.last_modified < 128
  pub content_encoding : length r.content_encoding < 8

length-digits : (fuel n : ℕ) (after : List ℕ) → length (digits fuel n after) ≤ fuel + length after
unfolding digits
length-digits zero n after = omega arith
length-digits (suc fuel) n after =
    let more = length-digits fuel (n / 10) ((b'0' + n % 10) ∷ after) in ground arith

length_shown :
    (fuel n : ℕ) → length (if n == 0 then b'0' ∷ [] else digits (suc fuel) n []) ≤ suc fuel
length_shown fuel n = elim (Bool-cases (n == 0)) [
  | inl e ↦ rw e (omega arith)
  | inr e ↦ rw e (omega (arith, length-digits (suc fuel) n []))
]

pub length-decimal : (n : ℕ) → length (decimal n) ≤ 20
unfolding decimal digits
length-decimal n = length_shown 19 n

pub length_name : (c : ℕ) → length (http_status_code_to_str c) ≤ 21
unfolding http_status_code_to_str
length_name c = ground arith

length-status_line : (c : ℕ) → length (status_line c) < 128
length-status_line c = omega (
  arith,
  length-append (codes "HTTP/1.1 ") (decimal c),
  length-append (codes "HTTP/1.1 " ++ decimal c) (codes " "),
  length-append (codes "HTTP/1.1 " ++ decimal c ++ codes " ") (http_status_code_to_str c),
  length-append (codes "HTTP/1.1 " ++ decimal c ++ codes " " ++ http_status_code_to_str c) crlf,
  length-decimal c,
  length_name c,
)

length-length : (n : ℕ) → length (codes "Content-Length: " ++ decimal n ++ crlf) < 128
length-length n = omega (
  arith,
  length-append (codes "Content-Length: ") (decimal n),
  length-append (codes "Content-Length: " ++ decimal n) crlf,
  length-decimal n,
)

-- What was printed so far: `s`, of at most `n` bytes, into a buffer of at least `least`.
record Reached (s : List ℕ) (n least : ℕ) (b : Buffer) : Type 0 where
  starts : Starts s b
  short : length s ≤ n
  large : least ≤ b.capacity

module _ (m : Memory) (granted : (k : ℕ) → m.grants k ≡ true) where
  then_line :
      (room n least : ℕ) (text s : List ℕ) (b : Buffer)
      → Reached s n least b
      → n + room ≤ 2 ^ 30
      → length text < room
      → (b' : Buffer) × (line m room text (b, length s) ≡ some (b', length (s ++ text)))
        × Reached (s ++ text) (n + room) least b'
  then_line room n least text s b v limit fits =
      let (b', e, w, more, enough) =
        print_with_lem m s text b room v.starts (omega (arith, v.short)) (omega arith) (inr fits)
          granted in
      (
        b',
        line-eq-print_with m s text b room (omega (arith, v.short)) ∙ e,
        record {
          starts = w;
          short = omega (arith, length-append s text, v.short);
          large = omega (arith, v.large);
        },
      )

  then_field :
      (room n least : ℕ) (name value s : List ℕ) (b : Buffer)
      → Reached s n least b
      → n + room ≤ 2 ^ 30
      → length name + length value + 2 < room
      → (b' : Buffer) × (field m room name value (b, length s)
          ≡ some (b', length (s ++ field_text name value)))
        × Reached (s ++ field_text name value) (n + room) least b'
  unfolding field
  then_field room n least name value s b v limit fits = elim (Bool-cases (ltb 0 (length value))) [
    | inl e ↦ rw e (
        then_line room n least (name ++ value ++ crlf) s b v limit
          (omega (arith, length-append name value, length-append (name ++ value) crlf)))
    | inr e ↦
        rw (e, append-nil s)
          (b, refl, record { starts = v.starts; short = omega (arith, v.short); large = v.large })
  ]

copy_body_lem :
    (n : ℕ) (body : Buffer) (s : List ℕ) (b : Buffer)
    → Starts s b
    → n ≤ length body.bytes
    → length s + n ≤ b.capacity
    → length s + n < 2 ^ 31
    → (b' : Buffer) × (copy_body n body (b, length s) ≡ some (b', length (s ++ take n body.bytes)))
      × Starts (s ++ take n body.bytes) b'
unfolding copy_body
copy_body_lem n body s b v enough room small = elim (Bool-cases (ltb 0 n)) [
  | inl e ↦
      let long : length (take n body.bytes) ≡ n = omega (arith, length-take n body.bytes) in
      let total : length b.bytes ≡ length (s ++ v.rest) = ap length v.split in
      (
        record b { bytes = s ++ (take n body.bytes ++ drop (length (take n body.bytes)) v.rest) },
        rw e (
            rw
              (
                le→leb n (length body.bytes) enough,
                le→leb (length s + n) (length b.bytes) (omega (arith, v.valid.sized)),
              )
              (rw
                (
                  v.split,
                  overwrite_behind s (take n body.bytes) v.rest,
                  mod-eq_of_lt {n = length s + n} {m = 2 ^ 32} (omega arith),
                  length-append s (take n body.bytes),
                  long,
                )
                refl)),
        record {
          valid = record {
            sized =
                same_length s (take n body.bytes) v.rest (omega (arith, total, v.valid.sized))
                ∙ sym total
                ∙ v.valid.sized;
            used = v.valid.used;
          };
          bounded = v.bounded;
          rest = drop (length (take n body.bytes)) v.rest;
          split =
              sym (append_assoc s (take n body.bytes) (drop (length (take n body.bytes)) v.rest));
        },
      )
  | inr e ↦
      let none_left : n ≡ 0 = omega (arith, ltb→le 0 n e) in
      rw none_left (rw (append-nil s) (b, refl, v))
]

start :
    (dest : Buffer)
    → IsValid dest
    → dest.capacity < 2 ^ 31
    → 1024 ≤ dest.capacity
    → Reached [] 0 1024 dest
start dest v small least = record {
  starts = record { valid = v; bounded = small; rest = dest.bytes; split = refl };
  short = omega arith;
  large = least;
}

-- `to_string`, for a response whose strings fit its arrays and that announces no more than the body
-- has, into a valid buffer of at least 1024 bytes, when memory is granted, and if there is a body or
-- the head is shorter than 1022 bytes: no assertion fails, nothing is cut off, the number that is
-- returned is the length of the message, and the buffer is valid and starts with the message.
pub print_response-message :
    (m : Memory) (r : Response) (body dest : Buffer)
    → ((k : ℕ) → m.grants k ≡ true)
    → Fits r
    → IsValid dest
    → dest.capacity < 2 ^ 31
    → 1024 ≤ dest.capacity
    → r.content_length ≤ 2 ^ 29
    → r.content_length ≤ length body.bytes
    → 0 < r.content_length ⊎ length (head r) < 1022
    → (dest' : Buffer) × (print_response m r body dest ≡ some (length (message r body), dest'))
      × IsValid dest'
      × (take (length (message r body)) dest'.bytes ≡ message r body)
unfolding print_response
print_response-message m r body dest granted f v small least limit enough room =
    let (b0, e0, v0) =
      then_line m granted 128 0 1024 (status_line r.status_code) [] dest (start dest v small least)
        (omega arith) (length-status_line r.status_code) in
    let (b1, e1, v1) =
      then_field m granted 348 128 1024 (codes "Content-Type: ") r.content_type _ b0 v0
        (omega arith) (omega (arith, f.content_type)) in
    let (b2, e2, v2) =
      then_line m granted 128 476 1024
        (codes "Content-Length: " ++ decimal r.content_length ++ crlf) _ b1 v1 (omega arith)
        (length-length r.content_length) in
    let (b3, e3, v3) =
      then_field m granted 256 604 1024 (codes "Content-Language: ") r.content_language _ b2 v2
        (omega arith) (omega (arith, f.content_language)) in
    let (b4, e4, v4) =
      then_field m granted 256 860 1024 (codes "Date: ") r.date _ b3 v3 (omega arith)
        (omega (arith, f.date)) in
    let (b5, e5, v5) =
      then_field m granted 128 1116 1024 (codes "ETag: ") r.etag _ b4 v4 (omega arith)
        (omega (arith, f.etag)) in
    let (b6, e6, v6) =
      then_field m granted 348 1244 1024 (codes "Location: ") r.location _ b5 v5 (omega arith)
        (omega (arith, f.location)) in
    let (b7, e7, v7) =
      then_field m granted 256 1592 1024 (codes "Last-Modified: ") r.last_modified _ b6 v6
        (omega arith) (omega (arith, f.last_modified)) in
    let (b8, e8, v8) =
      then_field m granted 128 1848 1024 (codes "Content-Encoding: ") r.content_encoding _ b7 v7
        (omega arith) (omega (arith, f.content_encoding)) in
    let (b9, e9, w9, _, more) =
      print_with_lem m (head r) crlf b8 (r.content_length + 2) v8.starts (omega (arith, v8.short))
        (omega arith) (empty_line (v8.large)) granted in
    let (b, e, w) =
      copy_body_lem r.content_length body (head r ++ crlf) b9 w9 enough
        (omega (arith, length-append (head r) crlf))
        (omega (arith, length-append (head r) crlf, v8.short)) in
    (
      b,
      >>=_of_some _ e0 (
          >>=_of_some _ e1 (
            >>=_of_some _ e2 (
              >>=_of_some _ e3 (
                >>=_of_some _ e4 (
                  >>=_of_some _ e5 (
                    >>=_of_some _ e6 (
                      >>=_of_some _ e7
                        (>>=_of_some _ e8 (>>=_of_some _ e9 (>>=_of_some _ e refl)))))))))),
      w.valid,
      rw w.split (take_front (message r body) w.rest),
    )
  where
    empty_line :
        {n : ℕ} → 1024 ≤ n → length (head r) + length crlf < n ⊎ length crlf < r.content_length + 2
    empty_line h = elim room [ inl some_body ↦ inr (omega arith) | inr short ↦ inl (omega arith) ]
