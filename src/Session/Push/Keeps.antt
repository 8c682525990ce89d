-- ===== src/Session/Push/Keeps.antt =====
-- `push_request` of src/data_structures/session.c and the invariant of the session table.
use mathlib.Core.Option.{some_inj}
use wind_breaker.Prelude.{
  ℕ, zero, suc, ◌≤◌, ◌<◌, ◌≡◌, ◌≢◌, ◌⊎◌, refl, sym, ◌∙◌, ap, subst, true, false, Bool, List, Option,
  none, some, arith, ltb, length, get_elem?, get_elem?_of_lt, ℕ_discrete, Bool-cases, inl, inr,
  ◌&&◌, ◌==◌,
}
use wind_breaker.Prelude.Int.{ℤ, pos, negsuc}
use wind_breaker.Prelude.Fault.{◌>>=◌, ◌>>◌, >>=-eq-some, assert, assert-eq-some}
use wind_breaker.MarkedFds.{mark}
use wind_breaker.Session.Word.{WorkStatus, initial, initial_ssl}
use wind_breaker.Session.Table.{Slot, Sessions, Oracle, init_session_connection, del_from_session}
use wind_breaker.Session.Table.Invariant.{
  IsValid, Unused, fd_at, fd_of, store-IsValid, del_from_session-IsValid,
}
use wind_breaker.Session.Push.{push_request, enter, begin_ssl, after_handshake}
use wind_breaker.Session.Push.Lookup.{
  push_request-eq-on_match, push_request-eq-enter, on_match-IsValid, marks-IsValid,
}
use wind_breaker.Session.Push.Entry.{
  next_index, added, taken, add_to_session-eq-some, added-IsValid,
}

-- A descriptor is in no live slot, or in one of them.
abbrev Found : ℕ → ℕ → Sessions → Type 0
Found n fd t = (i : ℕ) × (s : Slot) × (i < n) × (get_elem? t.slots i ≡ some s) × (s.related_fd ≡ fd)

search_slots :
    (n fd : ℕ) (t : Sessions)
    → n ≤ length t.slots
    → ((j : ℕ) → j < n → fd_at t.slots j ≢ some fd) ⊎ Found n fd t
search_slots zero fd t l = inl (λ j h. absurd (omega arith))
search_slots (suc n) fd t l = elim (search_slots n fd t (omega arith)) [
  | inr (i, s, h, g, e) ↦ inr (i, s, omega arith, g, e)
  | inl before ↦
      let (s, g) = get_elem?_of_lt t.slots n (omega arith) in
      elim (ℕ_discrete s.related_fd fd) [
        | yes e ↦ inr (n, s, omega arith, g, e)
        | no ne ↦ inl λ j h f. elim (ℕ_discrete j n) [
          | no jn ↦ before j (omega (arith, jn)) f
          | yes jn ↦
              ne (some_inj.0 (sym (ap fd_of g) ∙ subst (λ x. fd_at t.slots x ≡ some fd) jn f))
        ]
      ]
]

pub push_request-range :
    (o : Oracle) (w : WorkStatus) (fd : ℕ) (t t' : Sessions)
    → push_request o w fd t ≡ some t'
    → (0 < fd) × (fd < 16384)
unfolding push_request
push_request-range o w fd t t' h =
    in_bounds fd (assert-eq-some _ (>>=-eq-some (assert (ltb 0 fd && ltb fd 16384)) _ h).1)
  where
    in_bounds : (n : ℕ) → (ltb 0 n && ltb n 16384) ≡ true → (0 < n) × (n < 16384)
    in_bounds n p = ground arith

-- The result of a step that may stop the process is valid, if there is one.
abbrev ValidResult : Option Sessions → Type 0
ValidResult none = Unit
ValidResult (some t) = IsValid t

valid_result : (r : Option Sessions) {t : Sessions} → ValidResult r → r ≡ some t → IsValid t
valid_result none h e = cc
valid_result (some t) h e = subst IsValid (some_inj.0 e) h

dropped :
    (i fd : ℕ) (s : Slot) (t : Sessions)
    → IsValid t
    → i < t.count
    → get_elem? t.slots i ≡ some s
    → (m : Option (List ℕ))
    → ValidResult (m >>= λ marks. some (record (del_from_session i t) { marks = marks }))
dropped i fd s t v l g none = tt
dropped i fd s t v l g (some m) =
    marks-IsValid m (del_from_session i t) (del_from_session-IsValid i s t v l g).0

after_handshake-valid :
    (r : ℤ) (i fd : ℕ) (s : Slot) (t : Sessions)
    → IsValid t
    → i < t.count
    → get_elem? t.slots i ≡ some s
    → ValidResult (after_handshake r fd i s t)
unfolding after_handshake
after_handshake-valid (pos n) i fd s t v l g = elim (Bool-cases (n == 1)) [
  | inl e ↦ rw e (store-IsValid i s _ t v g refl)
  | inr e ↦ rw e tt
]
after_handshake-valid (negsuc n) i fd s t v l g = elim (Bool-cases (n == 0)) [
  | inl e ↦ rw e (dropped i fd s t v l g (mark fd (del_from_session i t).marks))
  | inr e ↦ rw e tt
]

begin_ssl-valid :
    (o : Oracle) (i fd : ℕ) (s : Slot) (t : Sessions)
    → IsValid t
    → i < t.count
    → get_elem? t.slots i ≡ some s
    → ValidResult (begin_ssl o fd (i, t))
unfolding begin_ssl
begin_ssl-valid o i fd s t v l g =
    guarded t.has_ssl _ (rw g (after_handshake-valid (init_session_connection o) i fd s t v l g))
  where
    guarded : (b : Bool) (r : Option Sessions) → ValidResult r → ValidResult (assert b >> r)
    guarded true r h = h
    guarded false r h = tt

enter-valid :
    (o : Oracle) (w : WorkStatus) (fd : ℕ) (t : Sessions)
    → IsValid t
    → Unused fd t
    → ValidResult (enter o w fd (false, t))
unfolding enter
enter-valid o initial fd t v u =
    let (s, g, e) = add_to_session-eq-some o fd t v in rw e (added-IsValid o fd s t v u g).0
enter-valid o initial_ssl fd t v u =
    let (s, g, e) = add_to_session-eq-some o fd t v in
    let (v', l, g') = added-IsValid o fd s t v u g in
    rw e (begin_ssl-valid o (next_index t) fd (taken o fd s) (added o fd s t) v' l g')
enter-valid o _ fd t v u = v

-- In a valid table every call of `push_request` that does not stop the process leaves a valid table:
-- the live slots stay within the arrays, and no two of them have one descriptor.
pub push_request-IsValid :
    (o : Oracle) (w : WorkStatus) (fd : ℕ) (t t' : Sessions)
    → IsValid t
    → push_request o w fd t ≡ some t'
    → IsValid t'
push_request-IsValid o w fd t t' v h =
    elim (search_slots t.count fd t (omega (arith, v.sized, v.within))) [
      | inl u ↦
          valid_result (enter o w fd (false, t)) (enter-valid o w fd t v u)
            (sym (push_request-eq-enter o w fd t v in_range.0 in_range.1 u) ∙ h)
      | inr (i, s, l, g, e) ↦
          on_match-IsValid w i fd s t t' v l g e
            (sym (push_request-eq-on_match o w i fd s t v in_range.0 in_range.1 l g e) ∙ h)
    ]
  where
    in_range : (0 < fd) × (fd < 16384)
    in_range = push_request-range o w fd t t' h
