-- ===== src/Handlers/Rounds.antt =====
-- What a round of a worker of src/handlers/ keeps.
use mathlib.Core.Option.{some_inj}
use wind_breaker.Prelude.{
  ℕ, ◌<◌, ◌≡◌, refl, true, ◌≢◌, set, sym, ◌∙◌, ap, subst, Bool, some, get_elem?, get_elem?-set_self,
  get_elem?-lt, get-All, set-All,
}
use wind_breaker.Prelude.Fault.{>>=-eq-some, of_Ensures}
use wind_breaker.Buffer.{Buffer}
use wind_breaker.Session.Push.Transitions.{next_status}
use wind_breaker.Session.Word.{Status, rejected, WorkStatus, raise, processing, has}
use wind_breaker.Session.Word.Laws.{awaits}
use wind_breaker.Session.Table.{Slot, Sessions, Oracle, store}
use wind_breaker.Session.Table.Invariant.{IsValid, store-IsValid}
use wind_breaker.Session.Push.{push_request, on_match}
use wind_breaker.Session.Push.Keeps.{push_request-IsValid, push_request-range}
use wind_breaker.Session.Pop.{Popped, got, stopped, waits, pop_request}
use wind_breaker.Session.Pop.Exclusive.{held}
use wind_breaker.Session.Pop.Taken.{TookAny, pop_request-TookAny}
use wind_breaker.Handlers.{
  Worker, World, Objects, Turn, served, idle, asleep, objects, source, body, write_objects, serve,
  after_pop, round,
}
use wind_breaker.Handlers.Protocol.{
  Follows, to_loader, to_builder, to_sender, sends_more, sends_later, is_sent, gives_up,
  body-Follows,
}
use wind_breaker.Handlers.Written.{with_objects, written, written-IsValid, push-written}
use wind_breaker.Handlers.Staged.{
  Staged, AllStaged, IsStaged, fill-All, taken, next-Staged, on_match-AllStaged, rejected-AllStaged,
}

-- The status that a worker gave a session follows its stage.
abbrev pub Fits : Worker → Turn → Type 0
Fits k (served i w) = Follows k w
Fits k idle = Unit
Fits k (asleep c) = Unit

record Kept (k : Worker) (r : Turn × (Buffer × Sessions)) : Type 0 where
  fits : Fits k r.0
  valid : IsValid r.1.1
  staged : AllStaged r.1.1

pushed-AllStaged :
    {k : Worker} {w : WorkStatus}
    → w ≢ rejected
    → Follows k w
    → (i fd : ℕ) (s : Slot) (t : Sessions) {t' : Sessions} (st : Status) → s.status ≡ taken st
    → awaits (source k) st ≡ true
    → Staged st
    → AllStaged t
    → on_match w fd i s t ≡ some t'
    → AllStaged t'
unfolding has
pushed-AllStaged {w = w} ne f i fd s t st e a v h m =
    on_match-AllStaged w i fd s t ne (ap (has processing) e) h
      (subst (λ x. Staged (next_status w x)) (sym e) (next-Staged f st a v)) m

-- A push of a status that follows, for the session that the worker holds.
push_AllStaged :
    {k : Worker} {w : WorkStatus} (f : Follows k w) (i fd : ℕ) (s : Slot) (t : Sessions)
    {t' : Sessions} (st : Status)
    → s.status ≡ taken st
    → awaits (source k) st ≡ true
    → Staged st
    → AllStaged t
    → on_match w fd i s t ≡ some t'
    → AllStaged t'
unfolding has
push_AllStaged to_loader i fd s t st e a v h m =
    pushed-AllStaged (λ q. cc) to_loader i fd s t st e a v h m
push_AllStaged to_builder i fd s t st e a v h m =
    pushed-AllStaged (λ q. cc) to_builder i fd s t st e a v h m
push_AllStaged to_sender i fd s t st e a v h m =
    pushed-AllStaged (λ q. cc) to_sender i fd s t st e a v h m
push_AllStaged sends_more i fd s t st e a v h m =
    pushed-AllStaged (λ q. cc) sends_more i fd s t st e a v h m
push_AllStaged sends_later i fd s t st e a v h m =
    pushed-AllStaged (λ q. cc) sends_later i fd s t st e a v h m
push_AllStaged is_sent i fd s t st e a v h m =
    pushed-AllStaged (λ q. cc) is_sent i fd s t st e a v h m
push_AllStaged gives_up i fd s t st e a v h m =
    rejected-AllStaged i fd s t (ap (has processing) e) h
      (subst Staged (sym e) (record { reads = v.reads; parses = v.parses; fetches = v.fetches })) m

written-AllStaged :
    (thread : ℕ) (x : Objects) (s : Slot) (t : Sessions)
    → AllStaged t
    → AllStaged (written thread x s t)
unfolding write_objects
written-AllStaged thread x s t h =
    fill-All s.cell 0 x.buffer x.request x.response
      (write_objects s.cell thread (objects s) t).slots
      (fill-All s.cell thread s.buffer s.request s.response t.slots h)

serve-Kept :
    (wd : World) (k : Worker) (o : Oracle) (thread : ℕ) (own : Buffer) (i : ℕ) (s : Slot)
    (t : Sessions) {r : Turn × (Buffer × Sessions)}
    → IsValid t
    → AllStaged t
    → get_elem? t.slots i ≡ some s
    → i < t.count
    → awaits (source k) s.status ≡ true
    → serve wd k o thread own i (held s) (store i (held s) t) ≡ some r
    → Kept k r
unfolding serve store raise
serve-Kept wd k o thread own i s t v h g live a e =
    let v' = store-IsValid i s (held s) t v g refl in
    let st : Staged s.status = get-All IsStaged t.slots i s h g in
    let h' : AllStaged (store i (held s) t) =
      set-All IsStaged t.slots i (held s) h
        (record { reads = st.reads; parses = st.parses; fetches = st.fetches }) in
    let at : get_elem? (set t.slots i (held s)) i ≡ some (held s) =
      get_elem?-set_self t.slots i (held s) (get_elem?-lt t.slots i g) in
    let (done, b, e₁) = >>=-eq-some (body wd k own (objects (held s))) _ e in
    let before = written thread done.1.0 (held s) (store i (held s) t) in
    let (u, p, e₂) = >>=-eq-some (push_request o done.0 s.related_fd before) _ e₁ in
    let (low, high) = push_request-range o done.0 s.related_fd before u p in
    subst (Kept k) (some_inj.0 e₂) (record {
      fits = body-Follows wd k own (objects (held s)) b;
      valid =
          push_request-IsValid o done.0 s.related_fd before u
            (written-IsValid thread done.1.0 (held s) (store i (held s) t) v') p;
      staged =
          push_AllStaged (body-Follows wd k own (objects (held s)) b) i s.related_fd
            (with_objects 0 done.1.0 (held s)) before s.status refl a st
            (written-AllStaged thread done.1.0 (held s) (store i (held s) t) h')
            (sym (
                push-written o done.0 thread done.1.0 i (held s) (store i (held s) t) v' low high
                  live at)
              ∙ p);
    })

after_pop-Kept :
    (wd : World) (k : Worker) (o : Oracle) (thread : ℕ) (own : Buffer) (t : Sessions)
    (p : Popped × Sessions) {r : Turn × (Buffer × Sessions)}
    → IsValid t
    → AllStaged t
    → TookAny (source k) t p
    → after_pop wd k o thread own p ≡ some r
    → Kept k r
after_pop-Kept wd k o thread own t (got i s', t') v h took e =
    serve-Kept wd k o thread own i took.slot t v h took.at took.live took.awaited (
      sym (
        ap (λ u. serve wd k o thread own i u t') took.out
        ∙ ap (λ u. serve wd k o thread own i (held took.slot) u) took.left)
      ∙ e)
after_pop-Kept wd k o thread own t (stopped, t') v h same e =
    subst (Kept k) (some_inj.0 e) (record {
      fits = tt;
      valid = subst IsValid (sym same) v;
      staged = subst AllStaged (sym same) h;
    })
after_pop-Kept wd k o thread own t (waits c, t') v h same e =
    subst (Kept k) (some_inj.0 e) (record {
      fits = tt;
      valid = subst IsValid (sym same) v;
      staged = subst AllStaged (sym same) h;
    })

-- On a valid table in which no session has a stage done before the one that it builds on, a round of
-- any worker that does not stop the process leaves such a table again, and the status that it gives
-- its session is one of those that follow the worker's stage.
pub round-AllStaged :
    (wd : World) (k : Worker) (stop : Bool) (o : Oracle) (thread : ℕ) (own own' : Buffer)
    (turn : Turn) (t t' : Sessions)
    → IsValid t
    → AllStaged t
    → round wd k stop o thread own t ≡ some (turn, (own', t'))
    → Fits k turn × IsValid t' × AllStaged t'
unfolding round
round-AllStaged wd k stop o thread own own' turn t t' v h e =
    let (p, took, e') = >>=-eq-some (pop_request (source k) stop t) _ e in
    let kept =
      after_pop-Kept wd k o thread own t p v h
        (of_Ensures (TookAny (source k) t) (pop_request (source k) stop t)
          (pop_request-TookAny (source k) stop t) took)
        e' in
    (kept.fits, kept.valid, kept.staged)
