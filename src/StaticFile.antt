-- ===== src/StaticFile.antt =====
-- src/utils/static_file.c: the files that may be served. The operating system's part is the record
-- `Files`.
pub mod Safe
pub mod Read
use wind_breaker.Prelude.{
  ℕ, ◌+◌, Bool, true, false, not, ◌&&◌, ◌||◌, List, [], ◌∷◌, ◌++◌, Option, none, some, length, drop,
  leb, ◌==◌, if◌then◌else◌,
}
use wind_breaker.Prelude.Text.{codes, contains, starts_with}

-- `realpath`, and whether `stat` and `access` find a regular file that can be read.
pub record Files : Type 0 where
  pub realpath : List ℕ → Option (List ℕ)
  pub is_readable : List ℕ → Bool

-- `input[0] == c`.
abbrev pub begins : ℕ → List ℕ → Bool
begins c [] = false
begins c (d ∷ s) = d == c

unfoldable pub is_safe_path : List ℕ → Bool
unfolding contains
is_safe_path input =
    if begins b'/' input || contains (codes "//") input
    then false
    else if contains (codes "..") input
    then false
    else if contains (92 ∷ []) input
    then false
    else true

abbrev pub path_max : ℕ
path_max = 4096

-- `resolved_path` is `static_root` or lies below it.
is_below : List ℕ → List ℕ → Bool
unfolding starts_with
is_below root path =
    let behind = drop (length root) path in
    starts_with root path && (begins b'/' behind || length behind == 0)

check_resolved : Files → Option (List ℕ) → Option (List ℕ) → Bool
unfolding is_below
check_resolved fs none path = false
check_resolved fs (some root) none = false
check_resolved fs (some root) (some path) =
    if not (is_below root path) then false else fs.is_readable path

unfoldable pub find_static_file : Files → List ℕ → Bool
unfolding is_safe_path check_resolved
find_static_file fs uri =
    if not (is_safe_path uri)
    then false
    else if leb path_max (length (codes "static/" ++ uri))
    then false
    else check_resolved fs (fs.realpath (codes "static/")) (fs.realpath (codes "static/" ++ uri))
