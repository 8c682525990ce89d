-- ===== src/Session/Word/Laws.antt =====
-- The flags of a status against the bit operations and the scan of src/data_structures/session.c.
use Prim.Native.Nat.{bit_and, bit_or}
use wind_breaker.Prelude.{
  ℕ, zero, suc, ◌-◌, ◌%◌, ◌≡◌, refl, Bool, true, false, not, ◌&&◌, ◌==◌, List, [], ◌∷◌, length,
  arith,
}
use wind_breaker.Session.Word.{
  WorkStatus, Status, initial, request_read, parsed, data_fetched, ready_to_send, value, byte,
  raise, lower, has, mask, is_next,
}

-- A law over the flags is checked at every list of flags.
on_lists : ℕ → (List Bool → Bool) → Bool
on_lists zero p = p []
on_lists (suc n) p = on_lists n (λ bs. p (true ∷ bs)) && on_lists n (λ bs. p (false ∷ bs))

on_lists_sound :
    (n : ℕ) (p : List Bool → Bool) (bs : List Bool)
    → length bs ≡ n
    → on_lists n p ≡ true
    → p bs ≡ true
unfolding on_lists
on_lists_sound zero p [] e h = h
on_lists_sound zero p (b ∷ bs) e h = absurd (omega arith)
on_lists_sound (suc n) p [] e h = absurd (omega arith)
on_lists_sound (suc n) p (true ∷ bs) e h =
    on_lists_sound n (λ bs. p (true ∷ bs)) bs (omega arith) (ground arith)
on_lists_sound (suc n) p (false ∷ bs) e h =
    on_lists_sound n (λ bs. p (false ∷ bs)) bs (omega arith) (ground arith)

abbrev flag : List Bool → ℕ → Bool
flag [] i = false
flag (b ∷ bs) zero = b
flag (b ∷ bs) (suc i) = flag bs i

abbrev of_flags : List Bool → Status
of_flags bs = record {
  is_initial = flag bs 0;
  is_read = flag bs 1;
  is_parsed = flag bs 2;
  is_fetched = flag bs 3;
  is_ready = flag bs 4;
  is_failed = flag bs 5;
  is_sent = flag bs 6;
  is_processing = flag bs 7;
}

abbrev flags : Status → List Bool
flags s =
    s.is_initial ∷ s.is_read ∷ s.is_parsed ∷ s.is_fetched ∷ s.is_ready ∷ s.is_failed ∷ s.is_sent
    ∷ s.is_processing ∷ []

abbrev Everywhere : (Status → Bool) → Type 0
Everywhere p = on_lists 8 (λ bs. p (of_flags bs)) ≡ true

at_status : (p : Status → Bool) (s : Status) → Everywhere p → p s ≡ true
at_status p s h = on_lists_sound 8 (λ bs. p (of_flags bs)) (flags s) refl h

three_equations :
    (a a' b b' c c' : ℕ) → (a == a' && b == b' && c == c') ≡ true → (a ≡ a') × (b ≡ b') × (c ≡ c')
three_equations a a' b b' c c' h = ground arith

agrees : WorkStatus → Status → Bool
unfolding raise lower has mask
agrees w s =
    byte (raise w s) == bit_or (byte s) (value w) % 256
    && byte (lower w s) == bit_and (byte s) (1023 - value w)
    && byte (mask w s) == bit_and (byte s) (value w)

agrees_table : (w : WorkStatus) → Everywhere (agrees w)
unfolding on_lists agrees
agrees_table initial = refl
agrees_table _ = refl

-- On every status and every work status the flags do what the bit operations of the source do to
-- the byte: `raise` is `|=` cut to eight bits, `lower` is `&= ~`, and `mask` is `&=`.
pub byte-flags :
    (w : WorkStatus) (s : Status)
    → (byte (raise w s) ≡ bit_or (byte s) (value w) % 256)
      × (byte (lower w s) ≡ bit_and (byte s) (1023 - value w))
      × (byte (mask w s) ≡ bit_and (byte s) (value w))
byte-flags w s =
    three_equations _ _ _ _ _ _ (unfold agrees in at_status (agrees w) s (agrees_table w))

-- What `peek_next` means to look for: a session that nobody holds, whose sending has not failed,
-- and whose furthest stage is `w`.
abbrev pub awaits : WorkStatus → Status → Bool
awaits w s = not s.is_processing && not s.is_failed && furthest w
  where
    furthest : WorkStatus → Bool
    furthest initial =
        s.is_initial && not s.is_read && not s.is_parsed && not s.is_fetched && not s.is_ready
    furthest request_read = s.is_read && not s.is_parsed && not s.is_fetched && not s.is_ready
    furthest parsed = s.is_parsed && not s.is_fetched && not s.is_ready
    furthest data_fetched = s.is_fetched && not s.is_ready
    furthest ready_to_send = s.is_ready
    furthest _ = false

same : Bool → Bool → Bool
same true b = b
same false b = not b

same_sound : (a b : Bool) → same a b ≡ true → a ≡ b
unfolding same
same_sound a b h = ground arith

scan_table : (w : WorkStatus) → Everywhere (λ s. same (is_next w s) (awaits w s))
unfolding on_lists same is_next
scan_table initial = refl
scan_table _ = refl

-- The guards and the bit scan of `peek_next` pick a session exactly when it awaits the stage.
pub is_next-awaits : (w : WorkStatus) (s : Status) → is_next w s ≡ awaits w s
is_next-awaits w s =
    same_sound _ _ (at_status (λ t. same (is_next w t) (awaits w t)) s (scan_table w))
