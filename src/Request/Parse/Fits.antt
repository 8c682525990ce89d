-- ===== src/Request/Parse/Fits.antt =====
-- The arrays of `http_request_t` that src/http/request.c copies header values to, and what the result
-- of its control line is used for.
use wind_breaker.Prelude.{
  ℕ, ◌-◌, ◌<◌, ◌≡◌, refl, ap, subst, ◌∙◌, true, false, List, [], ◌∷◌, Option, none, some, length,
  take, drop, length-take, leb, if◌then◌else◌, Bool-cases, Option-cases, inl, inr, arith,
}
use mathlib.Core.Option.{some_inj}
use wind_breaker.Prelude.Fault.{◌>>=◌}
use wind_breaker.Prelude.Int.{ℤ, pos}
use wind_breaker.Prelude.Text.{codes, eq_nocase, starts_with_nocase}
use wind_breaker.Buffer.{Buffer}
use wind_breaker.Static.{Request, keep_alive, close}
use wind_breaker.Request.Parse.{
  Library, header_pattern, Parsed, slice, extent, parse_headers, parse_lines, parse_control_data,
  parse_http_request, request_lines, store_header, succeed, header_groups, parse_header_field,
}

-- The header values fit the arrays of `http_request_t`, but for an entity tag: its array has 65 bytes.
abbrev pub Fits : Request → Type 0
Fits r =
    (length r.host < 256)
    × (length r.user_agent < 256)
    × (length r.accept < 256)
    × (length r.accept_language < 256)
    × (length r.accept_encoding < 256)
    × (length r.if_none_match < 256)
    × (length r.content_type < 256)

kept : {r s : Request} → Fits r → some r ≡ some s → Fits s
kept f e = subst Fits (some_inj.0 e) f

none_kept : {s : Request} → none ≡ some s → Fits s
none_kept e = cc

connection_kept :
    (text : List ℕ) (r : Request)
    → Fits r
    → {s : Request}
    → (if starts_with_nocase (codes "keep-alive") text
        then some (record r { connection = keep_alive })
        else if starts_with_nocase (codes "close") text
        then some (record r { connection = close })
        else some r)
      ≡ some s
    → Fits s
connection_kept text r f e = elim (Bool-cases (starts_with_nocase (codes "keep-alive") text)) [
  | inl k ↦ kept f (rw k at e)
  | inr k ↦ elim (Bool-cases (starts_with_nocase (codes "close") text)) [
    | inl c ↦ kept f (rw (k, c) at e)
    | inr c ↦ kept f (rw (k, c) at e)
  ]
]

store_header-Fits :
    (lib : Library) (name value text : List ℕ) (r : Request)
    → length value < 256
    → Fits r
    → {s : Request} → store_header lib name value text r ≡ some s
    → Fits s
unfolding store_header
store_header-Fits lib name value text r l f e = elim (Bool-cases (eq_nocase name (codes "Host"))) [
  | inl h0 ↦ kept (omega (arith, l, f)) (rw (h0, store_header) at e)
  | inr h0 ↦
      let e0 = rw (h0, store_header) at e in
      elim (Bool-cases (eq_nocase name (codes "User-Agent"))) [
        | inl h1 ↦ kept (omega (arith, l, f)) (rw h1 at e0)
        | inr h1 ↦
            let e1 = rw h1 at e0 in
            elim (Bool-cases (eq_nocase name (codes "Accept"))) [
              | inl h2 ↦ kept (omega (arith, l, f)) (rw h2 at e1)
              | inr h2 ↦
                  let e2 = rw h2 at e1 in
                  elim (Bool-cases (eq_nocase name (codes "Accept-Language"))) [
                    | inl h3 ↦ kept (omega (arith, l, f)) (rw h3 at e2)
                    | inr h3 ↦
                        let e3 = rw h3 at e2 in
                        elim (Bool-cases (eq_nocase name (codes "Accept-Encoding"))) [
                          | inl h4 ↦ kept (omega (arith, l, f)) (rw h4 at e3)
                          | inr h4 ↦
                              let e4 = rw h4 at e3 in
                              elim (Bool-cases (eq_nocase name (codes "Connection"))) [
                                | inl h5 ↦ connection_kept text r f (rw h5 at e4)
                                | inr h5 ↦
                                    let e5 = rw h5 at e4 in
                                    elim (Bool-cases (eq_nocase name (codes "If-None-Match"))) [
                                      | inl h6 ↦ kept (omega (arith, l, f)) (rw h6 at e5)
                                      | inr h6 ↦
                                          let e6 = rw h6 at e5 in
                                          elim (Bool-cases
                                            (eq_nocase name (codes "Content-Type"))) [
                                              | inl h7 ↦ kept (omega (arith, l, f)) (rw h7 at e6)
                                              | inr h7 ↦
                                                  let e7 = rw h7 at e6 in
                                                  elim (Bool-cases
                                                    (eq_nocase name (codes "Content-Length"))) [
                                                      | inl h8 ↦ kept f (rw h8 at e7)
                                                      | inr h8 ↦ let e8 = rw h8 at e7 in kept f e8
                                                    ]
                                            ]
                                    ]
                              ]
                        ]
                  ]
            ]
      ]
]

parsed_kept :
    {n m : ℤ} {r s : Request} → Fits r → ◌≡◌ {A = Parsed} (some (n, r)) (some (m, s)) → Fits s
parsed_kept f e = subst Fits (ap (λ p. p.1) (some_inj.0 e)) f

succeed_kept :
    (o : Option Request) {n : ℤ} {s : Request}
    → ((r : Request) → o ≡ some r → Fits r)
    → succeed o ≡ some (n, s)
    → Fits s
unfolding succeed
succeed_kept none h e = cc
succeed_kept (some r) h e = parsed_kept (h r refl) e

header_groups-Fits :
    (lib : Library) (line : List ℕ) (r : Request) (groups : List (ℕ × ℕ)) {n : ℤ} {s : Request}
    → Fits r
    → header_groups lib line r groups ≡ some (n, s)
    → Fits s
unfolding header_groups
header_groups-Fits lib line r [] f e = cc
header_groups-Fits lib line r (whole ∷ []) f e = cc
header_groups-Fits lib line r (whole ∷ name ∷ []) f e = cc
header_groups-Fits lib line r (whole ∷ name ∷ value ∷ more) f e =
    elim (Bool-cases (leb 100 (extent name))) [
      | inl a ↦ parsed_kept f (rw (a, header_groups) at e)
      | inr a ↦ elim (Bool-cases (leb 256 (extent value))) [
        | inl b ↦ parsed_kept f (rw (a, b, header_groups) at e)
        | inr b ↦
            succeed_kept _
              (λ q w.
                store_header-Fits lib (slice line name) (slice line value) (drop value.0 line) r
                  (short (value.1 - value.0) (drop value.0 line) b) f w)
              (rw (a, b, header_groups) at e)
      ]
    ]
  where
    short : (k : ℕ) (t : List ℕ) → leb 256 k ≡ false → length (take k t) < 256
    short k t h = ground (arith, length-take k t, h)

pub parse_header_field-Fits :
    (lib : Library) (line : List ℕ) (r : Request) {n : ℤ} {s : Request}
    → Fits r
    → parse_header_field lib line r ≡ some (n, s)
    → Fits s
unfolding parse_header_field
parse_header_field-Fits lib line r f e = elim (Option-cases (lib.match_regex header_pattern line)) [
  | inl h ↦ parsed_kept f (rw (h, parse_header_field) at e)
  | inr (groups, h) ↦ header_groups-Fits lib line r groups f (rw (h, parse_header_field) at e)
]

-- The bug in `parse_http_request`: when there is a header line, the result of the control line plays
-- no part. A request whose control line was refused, with `result`, is answered as if it were fine.
pub parse_http_request-control_ignored :
    (lib : Library) (behind : List ℕ) (raw : Buffer) (r s : Request) (result : ℤ)
    (first line : List ℕ) (lines : List (List ℕ))
    → request_lines behind raw ≡ first ∷ line ∷ lines
    → parse_control_data lib first r ≡ some (result, s)
    → parse_http_request lib true behind raw r ≡ parse_headers lib (pos 0) (line ∷ lines) s
unfolding parse_http_request parse_lines parse_headers
parse_http_request-control_ignored lib behind raw r s result first line lines e c =
    ap (λ ls. parse_lines lib ls r) e
    ∙ ap (λ o. o >>= λ q. parse_headers lib q.0 (line ∷ lines) q.1) c
