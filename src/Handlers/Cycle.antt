-- ===== src/Handlers/Cycle.antt =====
-- Four rounds in a row, one of each worker of src/handlers/.

use wind_breaker.Prelude.{
  ◌++◌, ℕ, ◌<◌, ◌≡◌, refl, sym, ◌∙◌, ap, subst, Bool, false, some, arith, get_elem?, set,
  get_elem?-set_self, get_elem?-lt,
}
use wind_breaker.Prelude.Fault.{>>=_of_some}
use wind_breaker.Buffer.{Buffer}
use wind_breaker.Session.Word.{request_read, parsed, data_fetched, ready_to_send, sent, raise, has}
use wind_breaker.Session.Table.{Slot, Sessions, Oracle, store}
use wind_breaker.Session.Table.Invariant.{IsValid, store-IsValid}
use wind_breaker.Session.Push.{push_request}
use wind_breaker.Session.Push.Keeps.{push_request-IsValid}
use wind_breaker.Session.Push.Transitions.{next_status, left_slot, told, on_match-status}
use wind_breaker.Session.Push.Handover
use wind_breaker.Session.Pop.{pop_request_by_fd, is_busy}
use wind_breaker.Session.Pop.Exclusive.{held, pop_request-eq-got, by_fd_idle}
use wind_breaker.Handlers.{
  parser, loader, builder, sender, World, Done, Objects, served, objects, source, body, serve,
  after_pop, round, write_objects,
}
use wind_breaker.Handlers.Written.{
  with_objects, written, get-written, written-IsValid, push-written,
}
use wind_breaker.Handlers.Passing.{Ready, Ready-peek_next, round_passes}

-- What the sender's round leaves when the whole response went out.
record Sent (i fd : ℕ) (t : Sessions) : Type 0 where
  valid : IsValid t
  slot : Slot
  at : get_elem? t.slots i ≡ some slot
  has_fd : slot.related_fd ≡ fd
  idle : is_busy slot.status ≡ false
  live : i < t.count

next-idle : (s : Slot) → is_busy (next_status sent s.status) ≡ false
unfolding is_busy has
next-idle s = ground arith

round_sends :
    (wd : World) (stop : Bool) (o : Oracle) (thread : ℕ) (own own' : Buffer) (i fd : ℕ)
    (x x' : Objects) (t : Sessions)
    → Ready ready_to_send i fd x t
    → 0 < fd
    → fd < 16384
    → body wd sender own x ≡ some (sent, (x', own'))
    → (t' : Sessions) × (round wd sender stop o thread own t ≡ some (served i sent, (own', t')))
      × Sent i fd t'
unfolding round serve source store raise has write_objects
round_sends wd stop o thread own own' i fd x x' t r low high b =
    let s = r.slot in
    let t₁ = store i (held s) t in
    let v' = store-IsValid i s (held s) t r.valid r.at refl in
    let at : get_elem? (set t.slots i (held s)) i ≡ some (held s) =
      get_elem?-set_self t.slots i (held s) (get_elem?-lt t.slots i r.at) in
    let before = written thread x' (held s) t₁ in
    let b' : body wd sender own (objects s) ≡ some (sent, (x', own')) =
      ap (body wd sender own) r.holds ∙ b in
    let low' : 0 < s.related_fd = subst (λ n. 0 < n) (sym r.has_fd) low in
    let high' : s.related_fd < 16384 = subst (λ n. n < 16384) (sym r.has_fd) high in
    let s' = left_slot sent (with_objects 0 x' (held s)) in
    let t' = record before {
      slots = set before.slots i s';
      signals = told sent ++ before.signals;
    } in
    let made =
      on_match-status sent i s.related_fd (with_objects 0 x' (held s)) before (λ q. cc) refl in
    let push : push_request o sent s.related_fd before ≡ some t' =
      push-written o sent thread x' i (held s) t₁ v' low' high' r.live at ∙ made in
    (
      t',
      >>=_of_some (after_pop wd sender o thread own)
          (pop_request-eq-got ready_to_send stop i s t
            (Ready-peek_next Handover.to_sender i fd x t r) r.at)
          (>>=_of_some (λ (done : Done). _) b'
            (>>=_of_some (λ (u : Sessions). some (served i sent, (own', u))) push refl)),
      record {
        valid =
            push_request-IsValid o sent s.related_fd before t'
              (written-IsValid thread x' (held s) t₁ v') push;
        slot = s';
        at =
            get_elem?-set_self before.slots i s'
              (get_elem?-lt before.slots i (get-written thread x' i (held s) t₁ at));
        has_fd = r.has_fd;
        idle = next-idle (held s);
        live = r.live;
      },
    )

-- A request that was read, in slot `i` of a valid table, on a descriptor between 1 and 16383, with no
-- live slot behind it that waits for a worker: if the bodies of the parser, the loader, the builder and
-- the sender, each on the objects that the one before left, end with PARSED, DATA_FETCHED,
-- READY_TO_SEND and SENT, then one round of each of the four workers, one after the other and with no
-- other thread in between, serves it. Every round takes this very session and gives it back for the next worker, and afterwards the table
-- is valid and `pop_request_by_fd` hands the session out for the next request of its connection.
pub workers_cycle :
    (wd : World) (stop : Bool) (o : Oracle) (thread : ℕ)
    (own₁ own₁' own₂ own₂' own₃ own₃' own₄ own₄' : Buffer) (i fd : ℕ) (x x₁ x₂ x₃ x₄ : Objects)
    (t : Sessions)
    → Ready request_read i fd x t
    → 0 < fd
    → fd < 16384
    → body wd parser own₁ x ≡ some (parsed, (x₁, own₁'))
    → body wd loader own₂ x₁ ≡ some (data_fetched, (x₂, own₂'))
    → body wd builder own₃ x₂ ≡ some (ready_to_send, (x₃, own₃'))
    → body wd sender own₄ x₃ ≡ some (sent, (x₄, own₄'))
    → (t₁ t₂ t₃ t₄ t₅ : Sessions) × (s : Slot) × (round wd parser stop o thread own₁ t
        ≡ some (served i parsed, (own₁', t₁)))
      × (round wd loader stop o thread own₂ t₁ ≡ some (served i data_fetched, (own₂', t₂)))
      × (round wd builder stop o thread own₃ t₂ ≡ some (served i ready_to_send, (own₃', t₃)))
      × (round wd sender stop o thread own₄ t₃ ≡ some (served i sent, (own₄', t₄)))
      × IsValid t₄
      × (pop_request_by_fd fd t₄ ≡ some (some (i, s), t₅))
unfolding source
workers_cycle wd stop o thread own₁ own₁' own₂ own₂' own₃ own₃' own₄ own₄' i fd x x₁ x₂ x₃ x₄ t r
      low high b₁ b₂ b₃ b₄ =
    let (t₁, e₁, r₁) =
      round_passes Handover.to_loader wd parser stop o thread own₁ own₁' i fd x x₁ t r low high
        b₁ in
    let (t₂, e₂, r₂) =
      round_passes Handover.to_builder wd loader stop o thread own₂ own₂' i fd x₁ x₂ t₁ r₁ low high
        b₂ in
    let (t₃, e₃, r₃) =
      round_passes Handover.to_sender wd builder stop o thread own₃ own₃' i fd x₂ x₃ t₂ r₂ low high
        b₃ in
    let (t₄, e₄, d) = round_sends wd stop o thread own₄ own₄' i fd x₃ x₄ t₃ r₃ low high b₄ in
    (
      t₁,
      t₂,
      t₃,
      t₄,
      store i (held d.slot) t₄,
      held d.slot,
      e₁,
      e₂,
      e₃,
      e₄,
      d.valid,
      by_fd_idle fd i d.slot t₄ low high d.live d.at d.has_fd d.idle
          (λ m h q. d.valid.distinct m i fd h d.live q (rw d.at (ap some d.has_fd))),
    )
