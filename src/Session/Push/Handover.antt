-- ===== src/Session/Push/Handover.antt =====
-- From the push of one stage in src/data_structures/session.c to the pop of the next.
use wind_breaker.Prelude.{
  ℕ, ◌≤◌, ◌<◌, ◌≡◌, refl, ◌∙◌, Bool, true, false, ◌∷◌, none, some, arith, get_elem?, set,
  get_elem?-set_self, get_elem?-lt,
}
use wind_breaker.Session.Word.{
  Status, WorkStatus, request_read, parsed, data_fetched, ready_to_send, processing, has, raise,
  lower,
}
use wind_breaker.Session.Word.Laws.{awaits}
use wind_breaker.Session.Table.{
  Slot, Sessions, Oracle, Cond, request_read_cond, parsed_cond, data_fetched_cond,
  response_generated_cond, store,
}
use wind_breaker.Session.Table.Invariant.{IsValid}
use wind_breaker.Session.Push.{push_request, on_match, signal}
use wind_breaker.Session.Push.Lookup.{pushed, push_request-eq-on_match}
use wind_breaker.Session.Pop.{got, waits, peek_next, pop_request}
use wind_breaker.Session.Pop.Scan.{peek_next_lem}
use wind_breaker.Session.Pop.Exclusive.{held, pop_request-eq-got}

-- The stages that a worker waits for, and the condition of each.
pub data Awaited : WorkStatus → Cond → Type 0 where
  to_parser : Awaited request_read request_read_cond
  to_loader : Awaited parsed parsed_cond
  to_builder : Awaited data_fetched data_fetched_cond
  to_sender : Awaited ready_to_send response_generated_cond

-- The session has come no further than the stage, and its sending has not failed.
abbrev pub NoFurther : WorkStatus → Status → Type 0
NoFurther request_read s =
    (s.is_failed ≡ false) × (s.is_parsed ≡ false) × (s.is_fetched ≡ false) × (s.is_ready ≡ false)
NoFurther parsed s = (s.is_failed ≡ false) × (s.is_fetched ≡ false) × (s.is_ready ≡ false)
NoFurther data_fetched s = (s.is_failed ≡ false) × (s.is_ready ≡ false)
NoFurther _ s = s.is_failed ≡ false

pub on_match-Awaited :
    {w : WorkStatus} {c : Cond} (a : Awaited w c) (fd i : ℕ) (s : Slot) (t : Sessions)
    → has processing s.status ≡ true
    → on_match w fd i s t ≡ some (signal c (store i (pushed w s) t))
unfolding on_match
on_match-Awaited to_parser fd i s t p = rw p refl
on_match-Awaited to_loader fd i s t p = rw p refl
on_match-Awaited to_builder fd i s t p = rw p refl
on_match-Awaited to_sender fd i s t p = rw p refl

pushed-awaits :
    {w : WorkStatus} {c : Cond} (a : Awaited w c) (s : Slot)
    → NoFurther w s.status
    → awaits w (pushed w s).status ≡ true
unfolding raise lower
pushed-awaits to_parser s h = ground arith
pushed-awaits to_loader s h = ground arith
pushed-awaits to_builder s h = ground arith
pushed-awaits to_sender s h = ground arith

pop_request-waits :
    {w : WorkStatus} {c : Cond} (a : Awaited w c) (t : Sessions)
    → peek_next w t ≡ none
    → pop_request w false t ≡ some (waits c, t)
unfolding pop_request
pop_request-waits to_parser t e = rw (e, pop_request) refl
pop_request-waits to_loader t e = rw (e, pop_request) refl
pop_request-waits to_builder t e = rw (e, pop_request) refl
pop_request-waits to_sender t e = rw (e, pop_request) refl

-- A worker of a stage that finds no session in `before` goes to wait for the condition of its stage.
-- When a held session of a valid table that has come no further than this stage, and whose sending has
-- not failed, is then pushed for it, the push succeeds and broadcasts that very condition, and the
-- `pop_request` of the woken worker returns a session, from the slot of the pushed one or a later one,
-- and does not wait again.
pub push_request_wakes :
    {w : WorkStatus} {c : Cond} (a : Awaited w c) (o : Oracle) (stop : Bool) (i : ℕ) (s : Slot)
    (before t : Sessions)
    → peek_next w before ≡ none
    → IsValid t
    → 0 < s.related_fd
    → s.related_fd < 16384
    → i < t.count
    → get_elem? t.slots i ≡ some s
    → has processing s.status ≡ true
    → NoFurther w s.status
    → (t' t'' : Sessions) × (k : ℕ) × (s' : Slot) × (pop_request w false before
        ≡ some (waits c, before))
      × (push_request o w s.related_fd t ≡ some t')
      × (t'.signals ≡ c ∷ t.signals)
      × (pop_request w stop t' ≡ some (got k s', t''))
      × (i ≤ k)
unfolding signal store
push_request_wakes {w} {c} a o stop i s before t idle v low high live g p h =
    let t' = signal c (store i (pushed w s) t) in
    let at : get_elem? (set t.slots i (pushed w s)) i ≡ some (pushed w s) =
      get_elem?-set_self t.slots i (pushed w s) (get_elem?-lt t.slots i g) in
    let (k, s', e, later, live', g', awaited) =
      peek_next_lem w t' i (pushed w s) live at (pushed-awaits a s h) in
    (
      t',
      store k (held s') t',
      k,
      held s',
      pop_request-waits a before idle,
      push_request-eq-on_match o w i s.related_fd s t v low high live g refl
          ∙ on_match-Awaited a s.related_fd i s t p,
      refl,
      pop_request-eq-got w stop k s' t' e g',
      later,
    )
