-- ===== src/Logger/Series.antt =====
-- Series of calls of the logging functions.
use wind_breaker.Prelude.{
  ℕ, ◌+◌, ◌<◌, ◌≡◌, refl, sym, ap, ◌∙◌, Bool, true, false, List, [], ◌∷◌, ◌++◌, Option, some,
  length, ltb, ◌&&◌, if◌then◌else◌, arith, length-append, Bool-cases, inl, inr,
}
use mathlib.Core.List.{append-nil, append_assoc}
use wind_breaker.Prelude.Fault.{◌>>=◌, >>=_of_some}
use wind_breaker.Prelude.Bytes.{IsText}
use wind_breaker.Logger.Level
use wind_breaker.Logger.{Logger, Disk, reserve, to_file, relative_file_path, log_at}
use wind_breaker.Logger.Text.{Context}
use wind_breaker.Logger.Records.{log_text, Logged, log_message-Logged}
use wind_breaker.Logger.Line.{line}
use wind_breaker.Logger.Keeps.{IsReady, Works, HasRoom}

-- A call of one of the logging functions, with what is known at the time.
pub record Entry : Type 0 where
  pub level : ℕ
  pub context : Context
  pub file : List ℕ
  pub message : List ℕ

-- The source file has a path, and the line is a C string that is shorter than the reserve.
pub record IsFit (e : Entry) : Type 0 where
  pub path : List ℕ
  pub named : relative_file_path e.file ≡ some path
  pub text : IsText (line e.level e.context path e.message)
  pub short : length (line e.level e.context path e.message) < reserve

abbrev pub AllFit : List Entry → Type 0
AllFit [] = Unit
AllFit (e ∷ entries) = IsFit e × AllFit entries

abbrev pub suppressed : ℕ → Entry → Bool
suppressed log_level e = ltb e.level Level.error && ltb e.level log_level

-- The lines of the entries that are not below the level.
abbrev pub lines : ℕ → (entries : List Entry) → AllFit entries → List ℕ
lines log_level [] h = []
lines log_level (e ∷ entries) (h, hs) =
    (if suppressed log_level e then [] else line e.level e.context h.path e.message)
    ++ lines log_level entries hs

abbrev pub first : (e : Entry) → IsFit e → List ℕ
first e h = line e.level e.context h.path e.message

-- The calls one after the other.
unfoldable pub log_all : Disk → List Entry → Logger → Option Logger
log_all d [] l = some l
log_all d (e ∷ entries) l = log_at d e.level e.context e.file e.message l >>= log_all d entries

nothing : (b : Bool) (s : List ℕ) → s ≡ s ++ (if b then [] else [])
nothing true s = sym (append-nil s)
nothing false s = sym (append-nil s)

both :
    (b : Bool) (s t u : List ℕ)
    → (s ++ (if b then t else [])) ++ (if b then u else []) ≡ s ++ (if b then t ++ u else [])
both true s t u = append_assoc s t u
both false s t u = append-nil (s ++ [])

joined_lines :
    (s : List ℕ) (l m : Logger) (x : Logged s l m) (entries : List Entry) (hs : AllFit entries)
    → log_text m ++ (if to_file m.log_destination then lines m.log_level entries hs else [])
      ≡ log_text l ++ (if to_file l.log_destination then s ++ lines l.log_level entries hs else [])
joined_lines s l m x entries hs =
    ap (λ t. t ++ (if to_file m.log_destination then lines m.log_level entries hs else [])) x.filed
    ∙ ap (λ (n : ℕ). start ++ (if to_file n then lines m.log_level entries hs else []))
        x.same_destination
    ∙ ap (λ (n : ℕ). start ++ (if to_file l.log_destination then lines n entries hs else []))
        x.same_level
    ∙ both (to_file l.log_destination) (log_text l) s (lines l.log_level entries hs)
  where
    start : List ℕ
    start = log_text l ++ (if to_file l.log_destination then s else [])

module _ (d : Disk) (w : Works d) where
  pub log_at-Logged :
      (e : Entry) (h : IsFit e) (l : Logger)
      → IsReady l
      → suppressed l.log_level e ≡ false
      → HasRoom l (length (line e.level e.context h.path e.message))
      → (l' : Logger) × (log_at d e.level e.context e.file e.message l ≡ some l')
        × Logged (line e.level e.context h.path e.message) l l'
  unfolding log_at
  log_at-Logged e h l r heard room = rw heard (
      log_message-Logged d w e.level e.context e.file e.message h.path l r h.named h.short h.text
        room)

  pub log_at_silent :
      (e : Entry) (l : Logger)
      → suppressed l.log_level e ≡ true
      → log_at d e.level e.context e.file e.message l ≡ some l
  unfolding log_at
  log_at_silent e l silent = rw silent refl

  -- A series of calls of the logging functions succeeds and leaves in the file, behind what was there,
  -- the lines of just those messages that are not below the level, whole and in order, if each line is
  -- a C string shorter than 1 MiB, the calls of the system work and the file has room. The zeros that
  -- fill the file up are left out.
  pub log_all-records :
      (entries : List Entry) (h : AllFit entries) (l : Logger)
      → IsReady l
      → HasRoom l (length (lines l.log_level entries h))
      → (l' : Logger) × (log_all d entries l ≡ some l')
        × IsReady l'
        × (l'.log_destination ≡ l.log_destination)
        × (log_text l'
            ≡ log_text l ++ (if to_file l.log_destination then lines l.log_level entries h else []))
  unfolding log_all
  log_all-records [] h l r room =
      (l, refl, r, refl, nothing (to_file l.log_destination) (log_text l))
  log_all-records (e ∷ entries) (h, hs) l r room = elim (Bool-cases (suppressed l.log_level e)) [
    | inl silent ↦
        let (l', done, r', same, said) = log_all-records entries hs l r (rw silent at room) in
        (
          l',
          >>=_of_some (log_all d entries) (log_at_silent e l silent) done,
          r',
          same,
          rw silent said,
        )
    | inr heard ↦
        let wanted : HasRoom l (length (first e h) + length (lines l.log_level entries hs)) = λ f.
          omega (
            arith,
            (rw heard at room) f,
            length-append (first e h) (lines l.log_level entries hs),
          ) in
        let (m, did, x) = log_at-Logged e h l r heard (λ f. omega (arith, wanted f)) in
        let (l', done, r', same, said) =
          log_all-records entries hs m x.ready (rw x.same_level (x.room _ wanted)) in
        (
          l',
          >>=_of_some (log_all d entries) did done,
          r',
          same ∙ x.same_destination,
          rw heard (said ∙ joined_lines (first e h) l m x entries hs),
        )
  ]
