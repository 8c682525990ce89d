-- ===== src/System/Listens.antt =====
-- The listener's loop among the steps of the server.
use mathlib.Core.Option.{some_inj}
use wind_breaker.Prelude.{
  ◌∙◌, sym, ◌≡◌, ap, subst, Bool, true, false, List, [], ◌∷◌, some, Bool-cases, inl, inr, ltb, All,
}
use wind_breaker.Prelude.Fault.{◌>>=◌, >>=-eq-some, assert}
use wind_breaker.Listener.{Listening, Server, listen_round}
use wind_breaker.Listener.Loop.{Pass, listen_loop, listen_async}
use wind_breaker.System.{listens, Reach, here, next}

Reach-trans : (l : Listening) {s t u : Server} → Reach l s t → Reach l t u → Reach l s u
Reach-trans l r here = r
Reach-trans l r (next r' st) = next (Reach-trans l r r') st

-- What the workers do between two rounds is steps of the server.
abbrev pub Works : Listening → Pass → Type 0
Works l p = (s : Server) → Reach l s (p.others s)

listen_loop_left :
    (l : Listening) (p : Pass) (ps : List Pass) (s : Server)
    → p.stopping ≡ true
    → listen_loop l (p ∷ ps) s ≡ some (true, s)
unfolding listen_loop
listen_loop_left l p ps s e = rw e

listen_loop_inside :
    (l : Listening) (p : Pass) (ps : List Pass) (s : Server)
    → p.stopping ≡ false
    → listen_loop l (p ∷ ps) s
      ≡ (listen_round l p.polled p.answers s >>= λ t. listen_loop l ps (p.others t))
unfolding listen_loop
listen_loop_inside l p ps s e = rw e

listen_loop-Reach :
    (l : Listening) (ps : List Pass) (s : Server) {r : Bool × Server}
    → All (Works l) ps
    → listen_loop l ps s ≡ some r
    → Reach l s r.1
unfolding listen_loop
listen_loop-Reach l [] s w h =
    subst (Reach l s) (ap (λ (r : Bool × Server). r.1) (some_inj.0 h)) here
listen_loop-Reach l (p ∷ ps) s w h = elim (Bool-cases p.stopping) [
  | inl e ↦
      subst (Reach l s)
        (ap (λ (r : Bool × Server). r.1) (some_inj.0 (sym (listen_loop_left l p ps s e) ∙ h))) here
  | inr e ↦
      let (t, step, h') =
        >>=-eq-some (listen_round l p.polled p.answers s) _
          (sym (listen_loop_inside l p ps s e) ∙ h) in
      Reach-trans l (next here (listens p.polled p.answers step))
        (Reach-trans l (w.0 t) (listen_loop-Reach l ps (p.others t) w.1 h'))
]

-- The loop of the listener, over any rounds with any steps of the workers between them, leaves the
-- server in a state that it may become by steps.
pub listen_async-Reach :
    (l : Listening) (ps : List Pass) (s : Server) (r : Bool × Server)
    → All (Works l) ps
    → listen_async l ps s ≡ some r
    → Reach l s r.1
unfolding listen_async
listen_async-Reach l ps s r w h =
    let (u, _, h') = >>=-eq-some (assert (ltb 0 l.plain)) _ h in listen_loop-Reach l ps s w h'
