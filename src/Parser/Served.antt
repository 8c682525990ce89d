-- ===== src/Parser/Served.antt =====
-- What src/handlers/parser.c answers with success.
use wind_breaker.Prelude.{
  ℕ, ◌≡◌, ap, subst, Bool, true, List, ◌++◌, some, Option-cases, inl, inr, arith,
}
use mathlib.Core.Option.{some_inj}
use wind_breaker.Prelude.Int.{ℤ, pos, negsuc}
use wind_breaker.Prelude.Text.{codes}
use wind_breaker.Buffer.{Buffer}
use wind_breaker.Static.{Request, uri_to_file_name}
use wind_breaker.Static.StatusCode.{ok}
use wind_breaker.StaticFile.{Files, find_static_file}
use wind_breaker.StaticFile.Safe.{IsBelow, find_static_file-IsBelow}
use wind_breaker.Request.{is_get, accepts_file, validate_request_headers}
use wind_breaker.Request.Checks.{
  Verdict, accepted, wrong_method, wrong_language, no_name, no_file, wrong_type, wrong_encoding,
  validate_request_headers-Verdict,
}
use wind_breaker.Request.Parse.{Library, parse_http_request}
use wind_breaker.Parser.{status_for, parse_round}

-- The file that a request with a good answer gets.
pub record Serves (fs : Files) (r : Request) : Type 0 where
  pub by_get : is_get r.method ≡ true
  pub name : List ℕ
  pub named : uri_to_file_name r.uri ≡ some name
  pub accepted_type : accepts_file name r.accept ≡ true
  pub root : List ℕ
  pub path : List ℕ
  pub resolved_root : fs.realpath (codes "static/") ≡ some root
  pub resolved : fs.realpath (codes "static/" ++ name) ≡ some path
  pub below : IsBelow root path
  pub readable : fs.is_readable path ≡ true

Verdict-Serves :
    (fs : Files) (r : Request) (c : ℕ) → Verdict (find_static_file fs) r c → c ≡ ok → Serves fs r
Verdict-Serves fs r _ (accepted name g l u f a e) h =
    let (safe, root, path, p, q, b, d) = find_static_file-IsBelow fs name f in
    record {
      by_get = g;
      name = name;
      named = u;
      accepted_type = a;
      root = root;
      path = path;
      resolved_root = p;
      resolved = q;
      below = b;
      readable = d;
    }
Verdict-Serves fs r _ (wrong_method g) h = absurd (omega (arith, h))
Verdict-Serves fs r _ (wrong_language g l) h = absurd (omega (arith, h))
Verdict-Serves fs r _ (no_name g l u) h = absurd (omega (arith, h))
Verdict-Serves fs r _ (no_file name g l u f) h = absurd (omega (arith, h))
Verdict-Serves fs r _ (wrong_type name g l u f a) h = absurd (omega (arith, h))
Verdict-Serves fs r _ (wrong_encoding name g l u f a e) h = absurd (omega (arith, h))

status_for-Serves :
    (fs : Files) (result : ℤ) (r : Request) → status_for fs result r ≡ ok → Serves fs r
unfolding status_for
status_for-Serves fs (negsuc n) r h = absurd (ground (arith, h))
status_for-Serves fs (pos n) r h =
    Verdict-Serves fs r (validate_request_headers (find_static_file fs) r)
      (validate_request_headers-Verdict (find_static_file fs) r) h

-- When a round of the parser answers 200, the request is a GET, its URI has a file name, its Accept
-- header allows the type of that file, and the file resolves to a readable one that is not outside
-- the static directory.
pub parse_round-Serves :
    (fs : Files) (lib : Library) (granted : Bool) (behind : List ℕ) (raw : Buffer) (r s : Request)
    → parse_round fs lib granted behind raw r ≡ some (ok, s)
    → Serves fs s
unfolding parse_round
parse_round-Serves fs lib granted behind raw r s h =
    elim (Option-cases (parse_http_request lib granted behind raw r)) [
      | inl e ↦ absurd (cc (rw (e, parse_round) at h))
      | inr ((result, t), e) ↦
          let answer = some_inj.0 (rw (e, parse_round) at h) in
          subst (Serves fs) (ap (λ p. p.1) answer)
            (status_for-Serves fs result t (ap (λ p. p.0) answer))
    ]
