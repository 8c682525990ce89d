-- ===== src/Request/Negotiation.antt =====
-- The media types, languages and encodings that src/http/request.c compares with the header fields of a
-- request.
use wind_breaker.Prelude.{
  ℕ, ◌≡◌, ◌↔◌, ◌⊎◌, refl, ◌∙◌, sym, ap, Bool, true, false, ◌||◌, ◌==◌, List, [], ◌∷◌, ◌++◌, Option,
  none, some, Bool-cases, Option-cases, inl, inr, arith, if◌then◌else◌,
}
use wind_breaker.Prelude.Text.{codes, str_eq, contains_nocase}
use wind_breaker.Prelude.Text.Laws.{str_eq-eq}
use wind_breaker.Static.{Request, uri_to_file_name}
use wind_breaker.Static.StatusCode.{ok}
use wind_breaker.Request.{
  is_get, offers, accepts_file, language_ok, encoding_ok, check_file, validate_request_headers,
}
use wind_breaker.Request.Checks.{
  Verdict, accepted, wrong_method, wrong_language, no_name, no_file, wrong_type, wrong_encoding,
  validate_request_headers-Verdict,
}

-- The extensions, each with the media type of its files.
abbrev pub media_types : List (List ℕ × List ℕ)
media_types =
    (codes ".html", codes "text/html")
    ∷ (codes ".png", codes "image/png")
    ∷ (codes ".css", codes "text/css")
    ∷ (codes ".js", codes "application/javascript")
    ∷ (codes ".gif", codes "image/gif")
    ∷ []

-- The media type of a file: that of the first extension in the table that its name contains.
unfoldable pub media_type : List (List ℕ × List ℕ) → List ℕ → Option (List ℕ)
media_type [] name = none
media_type ((extension, media) ∷ rows) name =
    let rest = media_type rows name in if contains_nocase extension name then some media else rest

-- What stands before the slash of a media type, and the slash.
abbrev pub major : List ℕ → List ℕ
major [] = []
major (c ∷ s) = let rest = major s in if c == 47 then c ∷ [] else c ∷ rest

-- The media ranges with a media type in them.
abbrev pub ranges : List ℕ → List (List ℕ)
ranges media = media ∷ (major media ++ codes "*") ∷ codes "*/*" ∷ []

abbrev pub languages : List (List ℕ)
languages = codes "en-US" ∷ codes "en" ∷ codes "*" ∷ []

abbrev pub encodings : List (List ℕ)
encodings = codes "gzip" ∷ codes "deflate" ∷ []

-- A header field without a value admits everything, any other what stands in it.
abbrev pub Admits : List ℕ → List (List ℕ) → Type 0
Admits value [] = value ≡ []
Admits value (name ∷ names) = (contains_nocase name value ≡ true) ⊎ Admits value names

offers-Admits :
    (names : List (List ℕ)) (value : List ℕ) → offers names value ≡ true → Admits value names
unfolding offers
offers-Admits [] value h = str_eq-eq value [] h
offers-Admits (name ∷ names) value h = elim (Bool-cases (contains_nocase name value)) [
  | inl e ↦ inl e
  | inr e ↦ inr (offers-Admits names value (rw e at h))
]

Admits-offers :
    (names : List (List ℕ)) (value : List ℕ) → Admits value names → offers names value ≡ true
unfolding offers
Admits-offers [] value h = ap (λ v. str_eq v []) h
Admits-offers (name ∷ names) value (inl e) = rw e refl
Admits-offers (name ∷ names) value (inr h) = elim (Bool-cases (contains_nocase name value)) [
  | inl e ↦ rw e refl
  | inr e ↦ rw e (Admits-offers names value h)
]

-- The order of the ranges plays no part.
or-swap : (x y z w : Bool) → (x || (y || (z || w))) ≡ (z || (y || (x || w)))
or-swap true true true w = refl
or-swap true true false w = refl
or-swap true false true w = refl
or-swap true false false w = refl
or-swap false true true w = refl
or-swap false true false w = refl
or-swap false false true w = refl
or-swap false false false w = refl

accepts_media : Option (List ℕ) → List ℕ → Bool
accepts_media none accept = false
accepts_media (some media) accept = offers (ranges media) accept

accepts_file-eq-accepts_media :
    (name accept : List ℕ)
    → accepts_file name accept ≡ accepts_media (media_type media_types name) accept
unfolding accepts_file media_type accepts_media offers
accepts_file-eq-accepts_media name accept =
    by_tests (contains_nocase (codes ".html") name) (contains_nocase (codes ".png") name)
      (contains_nocase (codes ".css") name) (contains_nocase (codes ".js") name)
      (contains_nocase (codes ".gif") name)
  where
    by_tests :
        (html png css js gif : Bool)
        → (if html
            then offers (codes "text/html" ∷ codes "text/*" ∷ codes "*/*" ∷ []) accept
            else if png
            then offers (codes "*/*" ∷ codes "image/*" ∷ codes "image/png" ∷ []) accept
            else if css
            then offers (codes "text/css" ∷ codes "text/*" ∷ codes "*/*" ∷ []) accept
            else if js
            then offers
                (codes "application/javascript" ∷ codes "application/*" ∷ codes "*/*" ∷ [])
                accept
            else if gif
            then offers (codes "image/gif" ∷ codes "image/*" ∷ codes "*/*" ∷ []) accept
            else false)
          ≡ accepts_media
              (if html
                then some (codes "text/html")
                else if png
                then some (codes "image/png")
                else if css
                then some (codes "text/css")
                else if js
                then some (codes "application/javascript")
                else if gif
                then some (codes "image/gif")
                else none)
              accept
    by_tests true png css js gif = refl
    by_tests false true css js gif =
        or-swap (contains_nocase (codes "*/*") accept) (contains_nocase (codes "image/*") accept)
          (contains_nocase (codes "image/png") accept) (str_eq accept [])
    by_tests false false true js gif = refl
    by_tests false false false true gif = refl
    by_tests false false false false true = refl
    by_tests false false false false false = refl

-- What a request has to be for a file to be sent.
pub record Acceptable (find : List ℕ → Bool) (r : Request) : Type 0 where
  pub by_get : is_get r.method ≡ true
  pub name : List ℕ
  pub named : uri_to_file_name r.uri ≡ some name
  pub found : find name ≡ true
  pub media : List ℕ
  pub typed : media_type media_types name ≡ some media
  pub type_admitted : Admits r.accept (ranges media)
  pub language_admitted : Admits r.accept_language languages
  pub encoding_admitted : Admits r.accept_encoding encodings

media_accepted :
    (name accept : List ℕ)
    → accepts_file name accept ≡ true
    → (media : List ℕ) × (media_type media_types name ≡ some media) × Admits accept (ranges media)
unfolding accepts_media
media_accepted name accept h = elim (Option-cases (media_type media_types name)) [
  | inl e ↦
      absurd (
        cc
          (sym (accepts_file-eq-accepts_media name accept) ∙ h, ap (λ o. accepts_media o accept) e))
  | inr (media, e) ↦ (
    media,
    e,
    offers-Admits (ranges media) accept (
        sym (ap (λ o. accepts_media o accept) e)
        ∙ (sym (accepts_file-eq-accepts_media name accept) ∙ h)),
  )
]

Verdict-Acceptable :
    (find : List ℕ → Bool) (r : Request) (c : ℕ) → Verdict find r c → c ≡ ok → Acceptable find r
unfolding offers language_ok
Verdict-Acceptable find r _ (accepted name g l u f a e) h =
    let (media, t, admitted) = media_accepted name r.accept a in
    record {
      by_get = g;
      name = name;
      named = u;
      found = f;
      media = media;
      typed = t;
      type_admitted = admitted;
      language_admitted = offers-Admits languages r.accept_language l;
      encoding_admitted = offers-Admits encodings r.accept_encoding e;
    }
Verdict-Acceptable find r _ (wrong_method g) h = absurd (omega (arith, h))
Verdict-Acceptable find r _ (wrong_language g l) h = absurd (omega (arith, h))
Verdict-Acceptable find r _ (no_name g l u) h = absurd (omega (arith, h))
Verdict-Acceptable find r _ (no_file name g l u f) h = absurd (omega (arith, h))
Verdict-Acceptable find r _ (wrong_type name g l u f a) h = absurd (omega (arith, h))
Verdict-Acceptable find r _ (wrong_encoding name g l u f a e) h = absurd (omega (arith, h))

-- A request gets 200 from the checks exactly when it is a GET, its URI names a file that is found and
-- whose media type, that of the first extension in a table of five that its name contains, is admitted
-- by the Accept field, and English and gzip or deflate are admitted by Accept-Language and
-- Accept-Encoding. A field that is empty admits everything; any other admits what stands in it, in
-- upper or lower case: for a media type, itself, its range such as `text/*`, or `*/*`; for English,
-- `en-US`, `en` or `*`.
pub validate_request_headers_iff :
    (find : List ℕ → Bool) (r : Request)
    → (validate_request_headers find r ≡ ok) ↔ Acceptable find r
unfolding validate_request_headers check_file accepts_media
validate_request_headers_iff find r = (
  λ h. Verdict-Acceptable find r _ (validate_request_headers-Verdict find r) h,
  λ a.
      let accepts : accepts_file a.name r.accept ≡ true =
        accepts_file-eq-accepts_media a.name r.accept
        ∙ ap (λ o. accepts_media o r.accept) a.typed
        ∙ Admits-offers (ranges a.media) r.accept a.type_admitted in
      let language : language_ok r ≡ true =
        Admits-offers languages r.accept_language a.language_admitted in
      let encoding : encoding_ok r ≡ true =
        Admits-offers encodings r.accept_encoding a.encoding_admitted in
      rw (a.by_get, language, a.named, a.found, accepts, encoding) refl,
)
