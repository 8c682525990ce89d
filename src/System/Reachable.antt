-- ===== src/System/Reachable.antt =====
-- What holds in every state that the server can reach.
use mathlib.Core.Option.{some_inj}
use wind_breaker.Prelude.{
  ℕ, zero, suc, ◌≤◌, ◌<◌, ◌≡◌, refl, sym, ◌∙◌, ap, subst, Bool, true, false, List, [], ◌∷◌, some,
  arith, length, get_elem?, ◌==◌, if◌then◌else◌, Bool-cases, inl, inr, not, replicate, Option, none,
}
use wind_breaker.Prelude.Fault.{
  assert, assert-eq-some, Ensures, Ensures-then, Ensures-bind, Ensures-of_all, of_Ensures,
}
use wind_breaker.Buffer.{Buffer}
use wind_breaker.Static.{Request, Response}
use wind_breaker.PollArray.{
  put, unused, PollArray, in_range, watching, init_poll_array, init_poll_array_ssl,
}
use wind_breaker.PollArray.Invariant
use wind_breaker.PollArray.Add.{least_size}
use wind_breaker.PollArray.Initial.{init_poll_array-IsValid, init_poll_array_ssl-IsValid}
use wind_breaker.MarkedFds.{init_marked_fds}
use wind_breaker.Session.Table.{Slot, Sessions, broadcast_session}
use wind_breaker.Session.Table.Invariant.{IsValid, fd_at}
use wind_breaker.Session.Table.Initial.{init_session_cache-IsValid}
use wind_breaker.Session.Push.Keeps.{push_request-IsValid}
use wind_breaker.Session.Pop.{pop_request, pop_request_by_fd, Popped}
use wind_breaker.Session.Pop.Keeps.{pop_request-ensures, pop_request_by_fd-ensures, Handed}
use wind_breaker.Listener.{Listening, Server, listen_round}
use wind_breaker.Properties.{Config, Outside, init_properties}
use wind_breaker.Properties.Read.{init_properties-InRange}
use wind_breaker.Listener.Keeps.{Sound, with_sessions, with_polls, marks-IsValid}
use wind_breaker.Listener.Rounds.{seen-Sound, listen_round-Sound}
use wind_breaker.PollArray.Outcome.{add_poll_fd-Continues, remove_poll_fd-Continues}
use wind_breaker.System.{
  listening, start, fill, Step, listens, takes, takes_by_fd, works, wakes, adds, removes, gives,
  stops, Reach, here, next,
}

length-fill :
    (cell thread : ℕ) (b : Buffer) (q : Request) (r : Response) (xs : List Slot)
    → length (fill cell thread b q r xs) ≡ length xs
unfolding fill
length-fill cell thread b q r [] = refl
length-fill cell thread b q r (s ∷ xs) = ap suc (length-fill cell thread b q r xs)

fd_at-fill :
    (cell thread : ℕ) (b : Buffer) (q : Request) (r : Response) (xs : List Slot) (j : ℕ)
    → fd_at (fill cell thread b q r xs) j ≡ fd_at xs j
unfolding fill
fd_at-fill cell thread b q r [] j = refl
fd_at-fill cell thread b q r (s ∷ xs) zero = elim (Bool-cases (s.cell == cell)) [
  | inl e ↦ rw e refl
  | inr e ↦ rw e refl
]
fd_at-fill cell thread b q r (s ∷ xs) (suc j) = fd_at-fill cell thread b q r xs j

pub fill-IsValid :
    (cell thread : ℕ) (b : Buffer) (q : Request) (r : Response) (t : Sessions)
    → IsValid t
    → IsValid (record t { slots = fill cell thread b q r t.slots })
fill-IsValid cell thread b q r t v = record {
  sized = length-fill cell thread b q r t.slots ∙ v.sized;
  within = v.within;
  round = v.round;
  distinct = λ j k fd jk kc e e'.
      v.distinct j k fd jk kc (sym (fd_at-fill cell thread b q r t.slots j) ∙ e)
        (sym (fd_at-fill cell thread b q r t.slots k) ∙ e');
}

broadcast-IsValid : (t : Sessions) → IsValid t → IsValid (broadcast_session t)
unfolding broadcast_session
broadcast-IsValid t v = record {
  sized = v.sized;
  within = v.within;
  round = v.round;
  distinct = v.distinct;
}

Step-Sound : (l : Listening) {s s' : Server} → Step l s s' → Sound l s → Sound l s'
Step-Sound l {s} (listens polled es h) v =
    of_Ensures (Sound l) (listen_round l polled es s) (listen_round-Sound l polled es s v) h
Step-Sound l {s} (takes w stop p h) v = with_sessions l s _ v (
    of_Ensures (λ (r : Popped × Sessions). IsValid r.1) (pop_request w stop s.sessions)
      (pop_request-ensures w stop s.sessions v.table) h)
Step-Sound l {s} (takes_by_fd {t = t} fd r h) v = with_sessions l s t v (
    handed r t (
      of_Ensures Handed (pop_request_by_fd fd s.sessions)
        (pop_request_by_fd-ensures fd s.sessions v.table) h))
  where
    handed : (r : Option (ℕ × Slot)) (t : Sessions) → Handed (r, t) → IsValid t
    handed none t h = h
    handed (some p) t h = h.0
Step-Sound l (works s cell thread b q r) v =
    with_sessions l s _ v (fill-IsValid cell thread b q r s.sessions v.table)
Step-Sound l {s} (gives o w fd h) v =
    with_sessions l s _ v (push_request-IsValid o w fd s.sessions _ v.table h)
Step-Sound l (wakes s events) v = seen-Sound l events s v
Step-Sound l {s} (adds fd r h) v =
    with_polls l s s.sessions r.1 v v.table
      (add_poll_fd-Continues l.has_ssl fd s.polls v.polls v.roomy r h)
Step-Sound l {s} (removes i r h) v =
    with_polls l s (record s.sessions { marks = r.marks }) r.array v
      (marks-IsValid s.sessions r.marks v.table)
      (remove_poll_fd-Continues i s.polls s.sessions.marks r v.polls h)
Step-Sound l (stops s) v = with_sessions l s _ v (broadcast-IsValid s.sessions v.table)

Reach-keeps : (l : Listening) {s s' : Server} → Sound l s → Reach l s s' → Sound l s'
Reach-keeps l v here = v
Reach-keeps l v (next r st) = Step-Sound l st (Reach-keeps l v r)

-- The poll array at the start, with the plain listening socket at its head.
record Opened (l : Listening) (max_count : ℕ) (a : PollArray) : Type 0 where
  valid : Invariant.IsValid a
  size : a.max_count ≡ max_count
  head : get_elem? a.fds 0 ≡ some (watching l.plain)

abbrev Ranges : ℕ → ℕ → PollArray → Type 0
Ranges m fd a = (in_range fd ≡ true) × (in_range m ≡ true)

abbrev RangesSsl : ℕ → ℕ → ℕ → PollArray → Type 0
RangesSsl m fd fd' a =
    (in_range fd ≡ true) × (in_range fd' ≡ true) × (not (fd == fd') ≡ true) × (in_range m ≡ true)

init_poll_array-Ranges : (m fd : ℕ) → Ensures (Ranges m fd) (init_poll_array m fd)
unfolding init_poll_array
init_poll_array-Ranges m fd = Ensures-then (Ranges m fd) (assert (in_range fd)) _ (λ _ p.
    Ensures-then (Ranges m fd) (assert (in_range m)) _ (λ _ q.
      Ensures-then (Ranges m fd) (put 0 (watching fd) (replicate m unused)) _
        (λ _ _. (assert-eq-some (in_range fd) p, assert-eq-some (in_range m) q))))

init_poll_array_ssl-RangesSsl :
    (m fd fd' : ℕ) → Ensures (RangesSsl m fd fd') (init_poll_array_ssl m fd fd')
unfolding init_poll_array_ssl
init_poll_array_ssl-RangesSsl m fd fd' =
    Ensures-then (RangesSsl m fd fd') (assert (in_range fd)) _ (λ _ p.
      Ensures-then (RangesSsl m fd fd') (assert (in_range fd')) _ (λ _ q.
        Ensures-then (RangesSsl m fd fd') (assert (not (fd == fd'))) _ (λ _ ne.
          Ensures-then (RangesSsl m fd fd') (assert (in_range m)) _ (λ _ r.
            Ensures-then (RangesSsl m fd fd') (put 0 (watching fd) (replicate m unused)) _
              (λ first _. Ensures-then (RangesSsl m fd fd') (put 1 (watching fd') first) _ (λ _ _. (
                assert-eq-some (in_range fd) p,
                assert-eq-some (in_range fd') q,
                assert-eq-some (not (fd == fd')) ne,
                assert-eq-some (in_range m) r,
              )))))))

opens :
    (l : Listening) (m : ℕ) (ssl : Bool)
    → least_size ssl ≤ m
    → Ensures
        (Opened l m)
        (if ssl then init_poll_array_ssl m l.plain l.tls else init_poll_array m l.plain)
opens l m true room = Ensures-of_all (Opened l m) (init_poll_array_ssl m l.plain l.tls) (λ a h.
    let (ok, ok', ne, size) =
      of_Ensures (RangesSsl m l.plain l.tls) (init_poll_array_ssl m l.plain l.tls)
        (init_poll_array_ssl-RangesSsl m l.plain l.tls) h in
    let (a', e, v, same, first, second) =
      init_poll_array_ssl-IsValid m l.plain l.tls ok ok' (ground (arith, ne)) size (omega arith) in
    subst (Opened l m) (some_inj.0 (sym e ∙ h)) (record { valid = v; size = same; head = first }))
opens l m false room = Ensures-of_all (Opened l m) (init_poll_array m l.plain) (λ a h.
    let (ok, size) =
      of_Ensures (Ranges m l.plain) (init_poll_array m l.plain) (init_poll_array-Ranges m l.plain)
        h in
    let (a', e, v, same, first) = init_poll_array-IsValid m l.plain ok size (omega arith) in
    subst (Opened l m) (some_inj.0 (sym e ∙ h)) (record { valid = v; size = same; head = first }))

start-ensures :
    (c : Config) (plain tls : ℕ)
    → 0 < c.session_max_size
    → least_size c.enable_https ≤ c.session_max_size
    → Ensures (Sound (listening c plain tls)) (start c plain tls)
unfolding start
start-ensures c plain tls some_room room =
    let n = c.session_max_size in
    let l = listening c plain tls in
    Ensures-bind (Opened l n) (Sound l) _ _ (opens l n c.enable_https room) (λ a o. record {
      table = (init_session_cache-IsValid n c.enable_https (init_marked_fds n) 0 some_room).0;
      polls = o.valid;
      roomy = omega (arith, o.size);
      listening = (watching plain, o.head, refl);
    })

-- When the server was configured with as many sessions as it has listening sockets and one more, every
-- state that it reaches from its start, in whatever order the listener and the workers take their
-- steps and whatever clients, kernel and OpenSSL answer, has a session table within its arrays in
-- which no two live slots have one descriptor, a valid poll array with room for the listening sockets
-- and a connection, and the plain listening socket at index 0.
pub start-Reach-Sound :
    (o : Outside) (args : List (List ℕ)) (c : Config) (plain tls : ℕ) (s s' : Server)
    → init_properties o args ≡ some c
    → least_size c.enable_https ≤ c.session_max_size
    → start c plain tls ≡ some s
    → Reach (listening c plain tls) s s'
    → Sound (listening c plain tls) s'
start-Reach-Sound o args c plain tls s s' configured room started r =
    Reach-keeps (listening c plain tls)
      (of_Ensures (Sound (listening c plain tls)) (start c plain tls)
        (start-ensures c plain tls (init_properties-InRange o args c configured).sessions.0 room)
        started)
      r
