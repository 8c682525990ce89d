-- ===== src/StaticFile/Safe.antt =====
-- The names and the paths of src/utils/static_file.c and src/static.c.
use wind_breaker.Prelude.{
  ℕ, ◌≡◌, refl, Bool, true, false, ◌&&◌, ◌||◌, List, [], ◌∷◌, ◌++◌, Option, none, some, length,
  drop, leb, ltb, ◌==◌, if◌then◌else◌, Bool-cases, inl, inr, ◌⊎◌, arith,
}
use Prim.Native.String.{String}
use wind_breaker.Prelude.Text.{codes, starts_with, str_eq}
use wind_breaker.Prelude.Text.Laws.{starts_with-append}
use wind_breaker.Static.{find_served, uri_to_file_name, token}
use wind_breaker.Static.Files.{served}
use wind_breaker.StaticFile.{
  Files, path_max, begins, is_safe_path, is_below, check_resolved, find_static_file,
}

-- The path `path` is `root`, or `root` with a slash and more behind it.
abbrev pub IsBelow : List ℕ → List ℕ → Type 0
IsBelow root path =
    (behind : List ℕ) × (path ≡ root ++ behind) × ((behind ≡ []) ⊎ (begins b'/' behind ≡ true))

ending :
    (behind : List ℕ)
    → (begins b'/' behind || length behind == 0) ≡ true
    → (behind ≡ []) ⊎ (begins b'/' behind ≡ true)
ending [] h = inl refl
ending (c ∷ s) h = inr (ground (arith, h))

is_below-IsBelow : (root path : List ℕ) → is_below root path ≡ true → IsBelow root path
unfolding is_below
is_below-IsBelow root path h = elim (Bool-cases (starts_with root path)) [
  | inl e ↦ (
    drop (length root) path,
    starts_with-append root path e,
    ending (drop (length root) path) (rw (e, is_below) at h),
  )
  | inr e ↦ absurd (cc (rw (e, is_below) at h))
]

check_resolved-IsBelow :
    (fs : Files) (root path : Option (List ℕ))
    → check_resolved fs root path ≡ true
    → (r : List ℕ) × (p : List ℕ) × (root ≡ some r)
      × (path ≡ some p)
      × IsBelow r p
      × (fs.is_readable p ≡ true)
unfolding check_resolved
check_resolved-IsBelow fs none path h = cc
check_resolved-IsBelow fs (some r) none h = cc
check_resolved-IsBelow fs (some r) (some p) h = elim (Bool-cases (is_below r p)) [
  | inl e ↦ (r, p, refl, refl, is_below-IsBelow r p e, rw e at h)
  | inr e ↦ absurd (cc (rw e at h))
]

-- Every file that is found has a safe name, and resolves to a readable file that is the resolved
-- static directory or lies below it, whatever links there are.
pub find_static_file-IsBelow :
    (fs : Files) (uri : List ℕ)
    → find_static_file fs uri ≡ true
    → (is_safe_path uri ≡ true)
      × (root : List ℕ) × (path : List ℕ) × (fs.realpath (codes "static/") ≡ some root)
      × (fs.realpath (codes "static/" ++ uri) ≡ some path)
      × IsBelow root path
      × (fs.is_readable path ≡ true)
unfolding find_static_file
find_static_file-IsBelow fs uri h = elim (Bool-cases (is_safe_path uri)) [
  | inr e ↦ absurd (cc (rw (e, find_static_file) at h))
  | inl e ↦ elim (Bool-cases (leb path_max (length (codes "static/" ++ uri)))) [
    | inl long ↦ absurd (cc (rw (e, long, find_static_file) at h))
    | inr short ↦
        let (root, path, r, q, below, readable) =
          check_resolved-IsBelow fs (fs.realpath (codes "static/"))
            (fs.realpath (codes "static/" ++ uri)) (rw (e, short, find_static_file) at h) in
        (e, root, path, r, q, below, readable)
  ]
]

abbrev safe : Option (List ℕ) → Bool
safe none = true
safe (some name) = is_safe_path name

if_safe :
    (b : Bool) (x y : Option (List ℕ))
    → safe x ≡ true
    → safe y ≡ true
    → safe (if b then x else y) ≡ true
if_safe true x y h k = h
if_safe false x y h k = k

abbrev all_safe : List (List ℕ) → Bool
all_safe [] = true
all_safe (s ∷ rest) = is_safe_path s && all_safe rest

find_served-safe :
    (names : List (List ℕ)) (name : List ℕ)
    → all_safe names ≡ true
    → safe (find_served names name) ≡ true
unfolding find_served
find_served-safe [] name h = refl
find_served-safe (s ∷ rest) name h = elim (Bool-cases (is_safe_path s)) [
  | inl e ↦
      if_safe (str_eq name s) (some s) (find_served rest name) e
        (find_served-safe rest name (rw e at h))
  | inr e ↦ absurd (cc (rw e at h))
]

served-safe : all_safe served ≡ true
unfolding is_safe_path
served-safe = refl

uri_to_file_name-safe : (uri : List (List ℕ)) → safe (uri_to_file_name uri) ≡ true
unfolding uri_to_file_name is_safe_path
uri_to_file_name-safe uri =
    let others = find_served-safe served (token uri 0) served-safe in
    let deep = λ (page : String).
      str_eq (token uri 0) (codes page)
      && ltb 0 (length (token uri 1))
      && length (token uri 2) == 0 in
    let post_page =
      if_safe (deep "posts") (some (codes "post.html")) (find_served served (token uri 0)) refl
        others in
    let page =
      if_safe (deep "projects") (some (codes "project.html"))
        (if deep "posts" then some (codes "post.html") else find_served served (token uri 0)) refl
        post_page in
    elim (Bool-cases (str_eq (token uri 0) [])) [
      | inl e ↦ rw e refl
      | inr e ↦ elim (Bool-cases (starts_with (codes "favicon") (token uri 0))) [
        | inl f ↦ rw (e, f) refl
        | inr f ↦ rw (e, f) page
      ]
    ]

-- Each name that `uri_to_file_name` gives, for any URI, is a safe path.
pub uri_to_file_name-is_safe :
    (uri : List (List ℕ)) (name : List ℕ)
    → uri_to_file_name uri ≡ some name
    → is_safe_path name ≡ true
uri_to_file_name-is_safe uri name h = rw h at (uri_to_file_name-safe uri)
