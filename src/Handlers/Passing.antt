-- ===== src/Handlers/Passing.antt =====
-- One round of a worker of src/handlers/, for a session that waits for it.
use wind_breaker.Prelude.{
  ℕ, zero, suc, ◌<◌, ◌≡◌, ◌≢◌, refl, sym, ◌∙◌, ap, subst, Bool, true, false, List, [], ◌∷◌, none,
  some, Option, arith, get_elem?, set, get_elem?-set_self, get_elem?-set_ne, get_elem?-lt,
  Bool-cases, inl, inr, ◌==◌, ℕ_discrete,
}
use mathlib.Core.Bool.{false≢true}
use wind_breaker.Prelude.Fault.{>>=_of_some}
use wind_breaker.Buffer.{Buffer}
use wind_breaker.Static.{Request, Response}
use wind_breaker.Session.Word.{Status, WorkStatus, raise, lower, has}
use wind_breaker.Session.Word.Laws.{awaits}
use wind_breaker.Session.Table.{
  Slot, Sessions, Oracle, Cond, request_read_cond, parsed_cond, data_fetched_cond,
  response_generated_cond, store,
}
use wind_breaker.Session.Table.Invariant.{IsValid, store-IsValid}
use wind_breaker.Session.Push.{push_request, signal}
use wind_breaker.Session.Push.Keeps.{push_request-IsValid}
use wind_breaker.Session.Push.Lookup.{pushed}
use wind_breaker.Session.Push.Handover.{Awaited, to_parser, on_match-Awaited}
use wind_breaker.Session.Push.Handover
use wind_breaker.Session.Pop.{peek_next}
use wind_breaker.Session.Pop.Scan.{peek_next_lem}
use wind_breaker.Session.Pop.Exclusive.{held, pop_request-eq-got}
use wind_breaker.System.{fill}
use wind_breaker.Handlers.{
  Worker, parser, loader, builder, sender, World, Done, Objects, served, objects, source, body,
  write_objects, serve, after_pop, round,
}
use wind_breaker.Handlers.Protocol.{
  Follows, to_loader, to_builder, to_sender, sends_more, sends_later, is_sent, gives_up,
  body-Follows,
}
use wind_breaker.Handlers.Written.{
  with_objects, written, get-written, written-IsValid, push-written,
}

-- The status of slot `i`.
abbrev status_of : Option Slot → Option Status
status_of none = none
status_of (some s) = some s.status

abbrev pub status_at : List Slot → ℕ → Option Status
status_at xs i = status_of (get_elem? xs i)

status_at-fill :
    (cell thread : ℕ) (b : Buffer) (q : Request) (r : Response) (xs : List Slot) (j : ℕ)
    → status_at (fill cell thread b q r xs) j ≡ status_at xs j
unfolding fill
status_at-fill cell thread b q r [] j = refl
status_at-fill cell thread b q r (s ∷ xs) zero = elim (Bool-cases (s.cell == cell)) [
  | inl e ↦ rw e refl
  | inr e ↦ rw e refl
]
status_at-fill cell thread b q r (s ∷ xs) (suc j) = status_at-fill cell thread b q r xs j

-- The session of slot `i` waits for the workers of stage `w`, with these objects, and no live slot
-- behind it waits for a worker.
pub record Ready (w : WorkStatus) (i fd : ℕ) (x : Objects) (t : Sessions) : Type 0 where
  pub valid : IsValid t
  pub slot : Slot
  pub at : get_elem? t.slots i ≡ some slot
  pub live : i < t.count
  pub awaited : awaits w slot.status ≡ true
  pub has_fd : slot.related_fd ≡ fd
  pub holds : objects slot ≡ x
  pub quiet :
      {u : WorkStatus} {c : Cond}
      → Awaited u c
      → (j : ℕ) (st : Status) → i < j
      → j < t.count
      → status_at t.slots j ≡ some st
      → awaits u st ≡ false

pub Ready-peek_next :
    {w : WorkStatus} {c : Cond} (a : Awaited w c) (i fd : ℕ) (x : Objects) (t : Sessions)
    → Ready w i fd x t
    → peek_next w t ≡ some i
Ready-peek_next {w} a i fd x t r =
    let (k, s, e, le, l, g, p) = peek_next_lem w t i r.slot r.live r.at r.awaited in
    elim (ℕ_discrete i k) [
      | yes same ↦ e ∙ ap some (sym same)
      | no ne ↦
          absurd
            (false≢true (sym (r.quiet a k s.status (omega (arith, ne, le)) l (ap status_of g)) ∙ p))
    ]

-- What the round of a worker leaves when it gives the session back with an awaited status.
abbrev after : WorkStatus → Cond → ℕ → ℕ → Objects → Slot → Sessions → Sessions
after w c thread i x s t = signal c (
    store i (pushed w (with_objects 0 x (held s))) (written thread x (held s) (store i (held s) t)))

status_at-after :
    (w : WorkStatus) (c : Cond) (thread i : ℕ) (x : Objects) (s : Slot) (t : Sessions) (j : ℕ)
    → i ≢ j
    → status_at (after w c thread i x s t).slots j ≡ status_at t.slots j
unfolding signal store write_objects
status_at-after w c thread i x s t j ne =
    ap status_of (
      get_elem?-set_ne (written thread x (held s) (store i (held s) t)).slots i j
        (pushed w (with_objects 0 x (held s))) ne)
    ∙ status_at-fill s.cell 0 x.buffer x.request x.response
        (write_objects s.cell thread (objects (held s)) (store i (held s) t)).slots j
    ∙ status_at-fill s.cell thread s.buffer s.request s.response (set t.slots i (held s)) j
    ∙ ap status_of (get_elem?-set_ne t.slots i j (held s) ne)

passed-awaits :
    {k : Worker} {w : WorkStatus} {c : Cond}
    → Follows k w
    → Awaited w c
    → (x : Objects) (s : Slot) → awaits (source k) s.status ≡ true
    → awaits w (pushed w (with_objects 0 x (held s))).status ≡ true
unfolding source raise lower
passed-awaits to_loader a x s h = ground arith
passed-awaits to_builder a x s h = ground arith
passed-awaits to_sender a x s h = ground arith
passed-awaits sends_more a x s h = ground arith
passed-awaits sends_later a x s h = elim a [ ]
passed-awaits is_sent a x s h = elim a [ ]
passed-awaits gives_up a x s h = elim a [ ]

round_served :
    {w : WorkStatus} {c : Cond} (a : Awaited w c) (wd : World) (k : Worker) (stop : Bool)
    (o : Oracle) (thread : ℕ) (own own' : Buffer) (i : ℕ) (s : Slot) (x : Objects) (t : Sessions)
    → IsValid t
    → peek_next (source k) t ≡ some i
    → get_elem? t.slots i ≡ some s
    → i < t.count
    → 0 < s.related_fd
    → s.related_fd < 16384
    → body wd k own (objects s) ≡ some (w, (x, own'))
    → (round wd k stop o thread own t ≡ some (served i w, (own', after w c thread i x s t)))
      × IsValid (after w c thread i x s t)
unfolding round serve store raise has
round_served {w} {c} a wd k stop o thread own own' i s x t v e g live low high b =
    let t₁ = store i (held s) t in
    let v' = store-IsValid i s (held s) t v g refl in
    let at : get_elem? (set t.slots i (held s)) i ≡ some (held s) =
      get_elem?-set_self t.slots i (held s) (get_elem?-lt t.slots i g) in
    let before = written thread x (held s) t₁ in
    let push : push_request o w s.related_fd before ≡ some (after w c thread i x s t) =
      push-written o w thread x i (held s) t₁ v' low high live at
      ∙ on_match-Awaited a s.related_fd i (with_objects 0 x (held s)) before refl in
    (
      >>=_of_some (after_pop wd k o thread own) (pop_request-eq-got (source k) stop i s t e g) (
          >>=_of_some (λ (done : Done). _) b
            (>>=_of_some (λ (u : Sessions). some (served i w, (own', u))) push refl)),
      push_request-IsValid o w s.related_fd before (after w c thread i x s t)
          (written-IsValid thread x (held s) t₁ v') push,
    )

source-Awaited : (k : Worker) → (c : Cond) × Awaited (source k) c
unfolding source
source-Awaited parser = (request_read_cond, to_parser)
source-Awaited loader = (parsed_cond, Handover.to_loader)
source-Awaited builder = (data_fetched_cond, Handover.to_builder)
source-Awaited sender = (response_generated_cond, Handover.to_sender)

-- When the session of slot `i` waits for a worker and no live slot behind it waits for one, a round of
-- that worker whose body finishes with a status `w` that a worker waits for takes this session, and
-- afterwards it waits for the workers of `w`, in the same slot and for the same descriptor, with exactly
-- the objects that the body left; the table is valid and no live slot behind it waits for a worker.
pub round_passes :
    {w : WorkStatus} {c : Cond} (a : Awaited w c) (wd : World) (k : Worker) (stop : Bool)
    (o : Oracle) (thread : ℕ) (own own' : Buffer) (i fd : ℕ) (x x' : Objects) (t : Sessions)
    → Ready (source k) i fd x t
    → 0 < fd
    → fd < 16384
    → body wd k own x ≡ some (w, (x', own'))
    → (t' : Sessions) × (round wd k stop o thread own t ≡ some (served i w, (own', t')))
      × Ready w i fd x' t'
unfolding signal store write_objects
round_passes {w} {c} a wd k stop o thread own own' i fd x x' t r low high b =
    let (c', a') = source-Awaited k in
    let s = r.slot in
    let b' : body wd k own (objects s) ≡ some (w, (x', own')) = ap (body wd k own) r.holds ∙ b in
    let (ran, valid) =
      round_served a wd k stop o thread own own' i s x' t r.valid (Ready-peek_next a' i fd x t r)
        r.at r.live (subst (λ n. 0 < n) (sym r.has_fd) low)
        (subst (λ n. n < 16384) (sym r.has_fd) high) b' in
    (
      after w c thread i x' s t,
      ran,
      record {
        valid = valid;
        slot = pushed w (with_objects 0 x' (held s));
        at = get_elem?-set_self _ i (pushed w (with_objects 0 x' (held s))) (
            get_elem?-lt _ i (
              get-written thread x' i (held s) (store i (held s) t)
                (get_elem?-set_self t.slots i (held s) (get_elem?-lt t.slots i r.at))));
        live = r.live;
        awaited = passed-awaits (body-Follows wd k own x b) a x' s r.awaited;
        has_fd = r.has_fd;
        holds = refl;
        quiet = λ q j st h l e. r.quiet q j st h l (
            sym (status_at-after w c thread i x' s t j (λ same. absurd (omega (arith, same, h))))
            ∙ e);
      },
    )
