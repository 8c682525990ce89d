-- ===== src/Listener/Rounds.antt =====
-- A round of the loop in src/listener.c and the invariants of the tables.
use mathlib.Core.Option.{some_inj}
use wind_breaker.Prelude.{
  ℕ, zero, suc, ◌≡◌, refl, sym, ◌∙◌, ap, Bool, true, false, List, [], ◌∷◌, Option, none, some, ltb,
  get_elem?, length,
}
use wind_breaker.Prelude.Fault.{assert, Ensures, Ensures-then, Ensures-if}
use wind_breaker.Prelude.Int.{is_negative}
use wind_breaker.PollArray.{PollFd}
use wind_breaker.Listener.{
  Env, Server, Listening, PollErrorClass, reset, remove_fd, continue, classify_poll_error, visit_fd,
  scan, set_revents, Polled, to_char, listen_round,
}
use wind_breaker.Listener.Keeps.{Sound, Visited, visit_fd-Sound}

scan-Sound :
    (l : Listening) (es : List Env) (i : ℕ) (s : Server)
    → Sound l s
    → Ensures (Sound l) (scan l es i s)
unfolding scan
scan-Sound l [] i s v = v
scan-Sound l (e ∷ es) i s v =
    by_test (ltb i s.polls.count) _
      (next (visit_fd l e i s) (visit_fd-Sound l e i s v) (scan-Sound l es))
  where
    next :
        (r : Option (ℕ × Server))
        → Ensures (Visited l) r
        → ((k : ℕ) (s' : Server) → Sound l s' → Ensures (Sound l) (scan l es k s'))
        → Ensures (Sound l) (elim r [ none ↦ none | some (i', s') ↦ scan l es (suc i') s' ])
    next none h more = tt
    next (some (i', s')) h more = more (suc i') s' h

    by_test :
        (b : Bool) (r : Option Server)
        → Ensures (Sound l) r
        → Ensures (Sound l) (elim b [ false ↦ some s | true ↦ r ])
    by_test false r h = v
    by_test true r h = h

-- The kernel changes neither a descriptor nor what is asked for.
length-set_revents : (rs : List ℕ) (ps : List PollFd) → length (set_revents rs ps) ≡ length ps
unfolding set_revents
length-set_revents [] ps = refl
length-set_revents (r ∷ rs) [] = refl
length-set_revents (r ∷ rs) (p ∷ ps) = ap suc (length-set_revents rs ps)

get-set_revents :
    (rs : List ℕ) (ps : List PollFd) (j : ℕ) (q : PollFd)
    → get_elem? (set_revents rs ps) j ≡ some q
    → (p : PollFd) × (get_elem? ps j ≡ some p) × (q.events ≡ p.events)
unfolding set_revents
get-set_revents [] ps j q g = (q, g, refl)
get-set_revents (r ∷ rs) [] j q g = cc
get-set_revents (r ∷ rs) (p ∷ ps) zero q g = (p, refl, sym (ap PollFd.events (some_inj.0 g)))
get-set_revents (r ∷ rs) (p ∷ ps) (suc j) q g = get-set_revents rs ps j q g

head-set_revents :
    (rs : List ℕ) (ps : List PollFd) (p : PollFd)
    → get_elem? ps 0 ≡ some p
    → (q : PollFd) × (get_elem? (set_revents rs ps) 0 ≡ some q) × (q.fd ≡ p.fd)
unfolding set_revents
head-set_revents [] ps p g = (p, g, refl)
head-set_revents (r ∷ rs) [] p g = cc
head-set_revents (r ∷ rs) (x ∷ ps) p g =
    (record x { revents = r }, refl, ap PollFd.fd (some_inj.0 g))

pub seen-Sound :
    (l : Listening) (rs : List ℕ) (s : Server)
    → Sound l s
    → Sound l (record s { polls = record s.polls { fds = set_revents rs s.polls.fds } })
seen-Sound l rs s v =
    let (q, g, e) = head-set_revents rs s.polls.fds v.listening.0 v.listening.1 in
    record {
      table = v.table;
      polls = record {
        sized = length-set_revents rs s.polls.fds ∙ v.polls.sized;
        some_used = v.polls.some_used;
        within = v.polls.within;
        last_within = v.polls.last_within;
        last_behind = v.polls.last_behind;
        watches = λ j q' h g'.
            let (p, at, same) = get-set_revents rs s.polls.fds j q' g' in
            same ∙ v.polls.watches j p h at;
      };
      roomy = v.roomy;
      listening = (q, g, e ∙ v.listening.2);
    }

-- When the session table and the poll array are valid, the array is large enough, and the plain
-- listening socket stands at index 0, all of this still holds after each round of `_listen` that does
-- not stop the process, whatever the kernel, the clients and OpenSSL answer.
pub listen_round-Sound :
    (l : Listening) (polled : Polled) (es : List Env) (s : Server)
    → Sound l s
    → Ensures (Sound l) (listen_round l polled es s)
unfolding listen_round
listen_round-Sound l polled es s v = Ensures-then (Sound l) (assert (ltb 0 s.polls.count)) _ (λ _ _.
    Ensures-if (Sound l) (is_negative (to_char polled.returned)) _ _
      (by_class (classify_poll_error polled.errno)) (scan-Sound l es 0 seen w))
  where
    seen : Server
    seen = record s { polls = record s.polls { fds = set_revents polled.events s.polls.fds } }

    w : Sound l seen
    w = seen-Sound l polled.events s v

    by_class :
        (c : PollErrorClass)
        → Ensures (Sound l) (elim c [ reset ↦ none | remove_fd ↦ some seen | continue ↦ some seen ])
    by_class reset = tt
    by_class remove_fd = w
    by_class continue = w
