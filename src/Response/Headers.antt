-- ===== src/Response/Headers.antt =====
-- When src/http/response.c answers "not modified".
use wind_breaker.Prelude.{
  ℕ, ◌<◌, ◌≡◌, ◌≢◌, ◌↔◌, refl, sym, ◌∙◌, ap, List, [], length, take, arith, ◌==◌, ne→==, Bool-cases,
  inl, inr, ℕ_discrete,
}
use wind_breaker.Prelude.Text.{str_eq}
use wind_breaker.Prelude.Text.Laws.{str_eq_refl, str_eq-eq}
use wind_breaker.Buffer.{Buffer}
use wind_breaker.Static.{Response}
use wind_breaker.Static.StatusCode.{ok, not_modified}
use wind_breaker.Response.{Outside, set_etag, handle_if_none_match}

-- The part of `construct_response` that decides on the answer.
abbrev pub decided : Outside → List ℕ → Buffer → Response → ℕ
decided o if_none_match tmp r =
    (handle_if_none_match if_none_match (set_etag o tmp r, tmp)).0.status_code

pub etag_ok :
    (o : Outside) (tmp : Buffer) (r : Response)
    → r.status_code ≡ ok
    → (set_etag o tmp r).etag ≡ o.sha256 (take tmp.count tmp.bytes)
unfolding set_etag
etag_ok o tmp r e = rw e refl

etag_else :
    (o : Outside) (tmp : Buffer) (r : Response) → r.status_code ≢ ok → (set_etag o tmp r).etag ≡ []
unfolding set_etag
etag_else o tmp r e = rw (ne→== r.status_code ok e) refl

etag-status_code :
    (o : Outside) (tmp : Buffer) (r : Response) → (set_etag o tmp r).status_code ≡ r.status_code
unfolding set_etag
etag-status_code o tmp r = ground arith

handled_same :
    (if_none_match : List ℕ) (r : Response) (tmp : Buffer)
    → 0 < length if_none_match
    → if_none_match ≡ r.etag
    → (handle_if_none_match if_none_match (r, tmp)).0.status_code ≡ not_modified
unfolding handle_if_none_match
handled_same if_none_match r tmp some_tag e =
    rw (ne→== (length if_none_match) 0 (omega arith), sym e, str_eq_refl if_none_match) refl

handled_only :
    (if_none_match : List ℕ) (r : Response) (tmp : Buffer)
    → r.status_code ≢ not_modified
    → (handle_if_none_match if_none_match (r, tmp)).0.status_code ≡ not_modified
    → (0 < length if_none_match) × (if_none_match ≡ r.etag)
unfolding handle_if_none_match
handled_only if_none_match r tmp fresh h = elim (Bool-cases (length if_none_match == 0)) [
  | inl e ↦ absurd (fresh (rw (e, handle_if_none_match) at h))
  | inr e ↦ elim (Bool-cases (str_eq if_none_match r.etag)) [
    | inl same ↦ (ground (arith, e), str_eq-eq if_none_match r.etag same)
    | inr other ↦ absurd (fresh (rw (e, other, handle_if_none_match) at h))
  ]
]

-- A response that was not "not modified" before becomes it exactly when the request names a tag, the
-- response is a success, and the tag is the digest of the body that would be sent.
pub not_modified_iff :
    (o : Outside) (if_none_match : List ℕ) (tmp : Buffer) (r : Response)
    → r.status_code ≢ not_modified
    → (decided o if_none_match tmp r ≡ not_modified) ↔ (
        (0 < length if_none_match)
        × (r.status_code ≡ ok)
        × (if_none_match ≡ o.sha256 (take tmp.count tmp.bytes)))
not_modified_iff o if_none_match tmp r fresh = (
  λ h.
      let (some_tag, same) =
        handled_only if_none_match (set_etag o tmp r) tmp
          (λ e. fresh (sym (etag-status_code o tmp r) ∙ e)) h in
      elim (ℕ_discrete r.status_code ok) [
        | yes success ↦ (some_tag, success, same ∙ etag_ok o tmp r success)
        | no failure ↦ absurd (omega (arith, ap length same, ap length (etag_else o tmp r failure)))
      ],
  λ (some_tag, success, same).
      handled_same if_none_match (set_etag o tmp r) tmp some_tag
        (same ∙ sym (etag_ok o tmp r success)),
)
