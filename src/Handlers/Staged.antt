-- ===== src/Handlers/Staged.antt =====
-- The flags that a session has on its way through the workers of src/handlers/.
use mathlib.Core.Option.{some_inj}
use wind_breaker.Prelude.{
  All, set-All, ℕ, ◌-◌, ◌≡◌, refl, sym, ◌∙◌, subst, true, List, [], ◌∷◌, some, set, arith, ◌==◌,
  Bool-cases, inl, inr, ◌≢◌,
}
use wind_breaker.Prelude.Fault.{>>=-eq-some}
use wind_breaker.Buffer.{Buffer}
use wind_breaker.Static.{Request, Response}
use wind_breaker.MarkedFds.{mark}
use wind_breaker.Session.Word.{Status, WorkStatus, rejected, has, processing, raise, lower}
use wind_breaker.Session.Word.Laws.{awaits}
use wind_breaker.Session.Table.{Slot, Sessions, store, reset_session, del_from_session}
use wind_breaker.Session.Table.Rotate.{del_at-All}
use wind_breaker.Session.Push.{on_match, switch}
use wind_breaker.Session.Push.Transitions.{next_status, left_slot, on_match-status}
use wind_breaker.Session.Push.Lookup.{pushed, on_match-eq-switch}
use wind_breaker.System.{fill}
use wind_breaker.Handlers.{Worker, source}
use wind_breaker.Handlers.Protocol.{
  Follows, to_loader, to_builder, to_sender, sends_more, sends_later, is_sent, gives_up,
}

-- No stage is done before the one that it builds on.
pub record Staged (s : Status) : Type 0 where
  pub reads : s.is_parsed ≡ true → s.is_read ≡ true
  pub parses : s.is_fetched ≡ true → s.is_parsed ≡ true
  pub fetches : s.is_ready ≡ true → s.is_fetched ≡ true

abbrev pub IsStaged : Slot → Type 0
IsStaged s = Staged s.status

abbrev pub AllStaged : Sessions → Type 0
AllStaged t = All IsStaged t.slots

pub fill-All :
    (cell thread : ℕ) (b : Buffer) (q : Request) (r : Response) (xs : List Slot)
    → All IsStaged xs
    → All IsStaged (fill cell thread b q r xs)
unfolding fill
fill-All cell thread b q r [] h = tt
fill-All cell thread b q r (s ∷ xs) h =
    let rest = fill-All cell thread b q r xs h.1 in
    elim (Bool-cases (s.cell == cell)) [ inl e ↦ rw e (h.0, rest) | inr e ↦ rw e (h.0, rest) ]

reset-Staged : (s : Slot) → Staged (reset_session s).status
unfolding reset_session
reset-Staged s = record { reads = λ h. cc; parses = λ h. cc; fetches = λ h. cc }

abbrev pub taken : Status → Status
taken s = record s { is_processing = true }

pub next-Staged :
    {k : Worker} {w : WorkStatus}
    → Follows k w
    → (s : Status) → awaits (source k) s ≡ true
    → Staged s
    → Staged (next_status w (taken s))
unfolding source
next-Staged to_loader s a h = record {
  reads = λ _. ground arith;
  parses = λ _. refl;
  fetches = h.fetches;
}
next-Staged to_builder s a h = record {
  reads = h.reads;
  parses = λ _. ground arith;
  fetches = λ _. refl;
}
next-Staged to_sender s a h = record {
  reads = h.reads;
  parses = h.parses;
  fetches = λ _. ground arith;
}
next-Staged sends_more s a h = record {
  reads = h.reads;
  parses = h.parses;
  fetches = λ _. h.fetches (ground arith);
}
next-Staged sends_later s a h = record { reads = h.reads; parses = h.parses; fetches = λ e. cc }
next-Staged is_sent s a h = record { reads = λ e. cc; parses = λ e. cc; fetches = λ e. cc }
next-Staged gives_up s a h = record { reads = h.reads; parses = h.parses; fetches = h.fetches }

-- What a push leaves of a session that is held.
pub on_match-AllStaged :
    (w : WorkStatus) (i fd : ℕ) (s : Slot) (t : Sessions) {t' : Sessions}
    → w ≢ rejected
    → has processing s.status ≡ true
    → AllStaged t
    → Staged (next_status w s.status)
    → on_match w fd i s t ≡ some t'
    → AllStaged t'
on_match-AllStaged w i fd s t {t'} ne p h k e =
    subst AllStaged (some_inj.0 (sym (on_match-status w i fd s t ne p) ∙ e))
      (set-All IsStaged t.slots i (left_slot w s) h k)

pub rejected-AllStaged :
    (i fd : ℕ) (s : Slot) (t : Sessions) {t' : Sessions}
    → has processing s.status ≡ true
    → AllStaged t
    → Staged s.status
    → on_match rejected fd i s t ≡ some t'
    → AllStaged t'
unfolding switch del_from_session store raise lower
rejected-AllStaged i fd s t {t'} p h k e =
    let u = store i (pushed rejected s) t in
    let (m, _, e') =
      >>=-eq-some (mark fd (del_from_session i u).marks) _
        (sym (on_match-eq-switch rejected i fd s t p) ∙ e) in
    subst AllStaged (some_inj.0 e') (
      del_at-All IsStaged reset-Staged i (t.count - 1 - i) (set t.slots i (pushed rejected s)) (
        set-All IsStaged t.slots i (pushed rejected s) h
          (record { reads = k.reads; parses = k.parses; fetches = k.fetches })))
