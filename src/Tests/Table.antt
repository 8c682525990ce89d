-- ===== src/Tests/Table.antt =====
-- The theorems on src/data_structures/session.c and marked_fds.c at a small table: one session that a
-- worker holds, one that waits for the parser, and one free slot.

use mathlib.Core.Option.{some_inj}
use wind_breaker.Prelude.{
  ℕ, zero, suc, ◌≤◌, ◌<◌, ◌≡◌, ◌≢◌, refl, true, false, [], ◌∷◌, none, some, arith, get_elem?, set,
}
use wind_breaker.Prelude.Int.{pos}
use wind_breaker.Buffer.{Buffer}
use wind_breaker.Static.{zero_request, zero_response}
use wind_breaker.MarkedFds.{Marks}
use wind_breaker.Session.Word.{
  Status, cleared, initial, request_read, parsed, rejected, has, is_next,
}
use wind_breaker.Session.Word.Laws.{awaits}
use wind_breaker.Prelude.Text.{codes, contains}
use wind_breaker.Shutdown.{stop_server}
use wind_breaker.Session.Pop.Shutdown.{Woken, Returns, broadcast_session_ends_waits}
use wind_breaker.Session.Table.{broadcast_session, Slot, Sessions, Oracle, parsed_cond}
use wind_breaker.Session.Table.Invariant.{IsValid, Unused, fd_at}
use wind_breaker.Session.Push.{on_match, enter, push_request}
use wind_breaker.Session.Push.Keeps.{push_request-IsValid}
use wind_breaker.Session.Push.Entry.{full_table_aborts}
use wind_breaker.Session.Push.Transitions.{left_slot, on_match-status}
use wind_breaker.Session.Pop.{got, peek_next, pop_request, pop_request_by_fd}
use wind_breaker.Session.Pop.Scan.{peek_next_lem}
use wind_breaker.Session.Pop.Exclusive.{pop_request_exclusive}

abbrev pub oracle : Oracle
oracle = record { rand = 7; accept_return = pos 1; want_read = false }

abbrev pub no_bytes : Buffer
no_bytes = record { capacity = 0; count = 0; bytes = [] }

abbrev pub slot : ℕ → ℕ → Status → Slot
slot cell fd status = record {
  cell = cell;
  id = 1;
  related_fd = fd;
  thread_id = 0;
  status = status;
  buffer = no_bytes;
  request = zero_request;
  response = zero_response;
  bio_fd = some fd;
}

abbrev pub held : Slot
held = slot 0 5 (record cleared { is_read = true; is_processing = true })

abbrev pub waiting : Slot
waiting = slot 1 6 (record cleared { is_read = true })

abbrev pub no_marks : Marks
no_marks = 0 ∷ 0 ∷ 0 ∷ 0 ∷ 0 ∷ 0 ∷ 0 ∷ []

abbrev pub table : Sessions
table = record {
  slots = held ∷ waiting ∷ slot 2 0 cleared ∷ [];
  max_size = 3;
  count = 2;
  last_index = 0;
  has_ssl = false;
  marks = no_marks;
  signals = [];
}

table_distinct :
    (j k fd : ℕ) → j < k → k < 2 → fd_at table.slots j ≡ some fd → fd_at table.slots k ≢ some fd
table_distinct zero zero fd l h e e' = absurd (omega arith)
table_distinct zero (suc zero) fd l h e e' = omega (arith, some_inj.0 e, some_inj.0 e')
table_distinct zero (suc (suc k)) fd l h e e' = absurd (omega arith)
table_distinct (suc j) k fd l h e e' = absurd (omega arith)

pub table-IsValid : IsValid table
table-IsValid = record {
  sized = refl;
  within = omega arith;
  round = omega arith;
  distinct = table_distinct;
}

table-Unused : Unused 9 table
table-Unused zero h e = omega (arith, some_inj.0 e)
table-Unused (suc zero) h e = omega (arith, some_inj.0 e)
table-Unused (suc (suc j)) h e = absurd (omega arith)

-- The table after the parser has pushed its session.
abbrev pushed_table : Sessions
pushed_table = record table {
  slots =
      slot 0 5 (record cleared { is_read = true; is_parsed = true })
      ∷ waiting
      ∷ slot 2 0 cleared
      ∷ [];
  signals = parsed_cond ∷ [];
}

abbrev full : Sessions
full = record table { slots = held ∷ []; max_size = 1; count = 1 }

full-IsValid : IsValid full
full-IsValid = record {
  sized = refl;
  within = omega arith;
  round = omega arith;
  distinct = λ j k fd l h e e'. absurd (omega arith);
}

full-Unused : Unused 9 full
full-Unused zero h e = omega (arith, some_inj.0 e)
full-Unused (suc j) h e = absurd (omega arith)

parsed-ne-rejected : parsed ≢ rejected
parsed-ne-rejected e = cc

push_request-IsValid_example : IsValid pushed_table
unfolding push_request on_match has enter
push_request-IsValid_example =
    push_request-IsValid oracle parsed 5 table pushed_table table-IsValid refl

pop_request_exclusive_example :
    (s' : Slot) × (t' : Sessions) × (pop_request request_read false table ≡ some (got 1 s', t'))
    × (get_elem? t'.slots 1 ≡ some s')
    × (s'.related_fd ≡ waiting.related_fd)
    × (s'.status.is_processing ≡ true)
    × IsValid t'
    × (peek_next parsed t' ≢ some 1)
    × (pop_request_by_fd waiting.related_fd t' ≡ some (none, t'))
unfolding peek_next is_next
pop_request_exclusive_example =
    pop_request_exclusive request_read parsed false 1 waiting table table-IsValid refl refl
      (omega arith) (omega arith)

on_match-status_example :
    on_match parsed 5 0 held table
    ≡ some (record table {
      slots = set table.slots 0 (left_slot parsed held);
      signals = parsed_cond ∷ table.signals;
    })
unfolding has
on_match-status_example = on_match-status parsed 0 5 held table parsed-ne-rejected refl

peek_next_lem_example :
    (i : ℕ) × (s' : Slot) × (peek_next request_read table ≡ some i)
    × (1 ≤ i)
    × (i < table.count)
    × (get_elem? table.slots i ≡ some s')
    × (awaits request_read s'.status ≡ true)
peek_next_lem_example = peek_next_lem request_read table 1 waiting (omega arith) refl refl

full_table_aborts_example :
    (t' : Sessions) × (s' : Slot) × (push_request oracle initial 9 full ≡ some t')
    × (get_elem? t'.slots full.last_index ≡ some s')
    × (s'.cell ≡ held.cell)
    × (s'.related_fd ≡ 9)
    × (s'.status.is_processing ≡ false)
    × (push_request oracle parsed 9 t' ≡ none)
full_table_aborts_example =
    full_table_aborts oracle oracle parsed 9 held full full-IsValid full-Unused (omega arith)
      (omega arith) refl refl

broadcast_session_ends_waits_example :
    Woken parsed_cond (broadcast_session table)
    × Returns parsed (stop_server (codes "/src/src/main.c") false) (broadcast_session table)
unfolding contains
broadcast_session_ends_waits_example =
    broadcast_session_ends_waits (codes "/src/src/main.c") parsed parsed_cond table refl
