-- ===== src/Session/Table.antt =====
-- The arrays of src/data_structures/session.c, and taking and giving back a slot of them.
-- The parallel arrays are permuted together, so they are one list of slots; `cell` names the
-- allocated objects that the pointers of a slot lead to. `none` is a failed assertion. OpenSSL's own
-- calls do not fail here; what `rand` and `SSL_accept` return is the parameter `Oracle`.
pub mod Rotate
pub mod Invariant
pub mod Initial
pub mod Destroy
use wind_breaker.Prelude.{
  ℕ, zero, suc, ◌+◌, ◌-◌, ◌%◌, Bool, ◌||◌, List, [], ◌∷◌, Option, none, some, ltb, ◌==◌,
  if◌then◌else◌, length, get_elem?, set, replicate,
}
use wind_breaker.Prelude.Fault.{◌>>=◌, ◌>>◌, assert}
use wind_breaker.Prelude.Int.{ℤ, pos, negsuc}
use wind_breaker.Buffer.{Buffer}
use wind_breaker.Static.{Request, Response, zero_request, zero_response}
use wind_breaker.MarkedFds.{Marks}
use wind_breaker.Session.Word.{Status, cleared, initial, mask}

pub record Slot : Type 0 where
  pub cell : ℕ
  pub id : ℕ
  pub related_fd : ℕ
  pub thread_id : ℕ
  pub status : Status
  pub buffer : Buffer
  pub request : Request
  pub response : Response
  pub bio_fd : Option ℕ

pub data Cond : Type 0 where
  request_read_cond parsed_cond data_fetched_cond response_generated_cond : Cond

-- The static variables of session.c, with the marks that it writes. `signals` lists the conditions
-- that were broadcast, the last one first.
pub record Sessions : Type 0 where
  pub slots : List Slot
  pub max_size : ℕ
  pub count : ℕ
  pub last_index : ℕ
  pub has_ssl : Bool
  pub marks : Marks
  pub signals : List Cond

-- What `SSL_accept` returns, and whether `SSL_get_error` then says SSL_ERROR_WANT_READ.
pub record Oracle : Type 0 where
  pub rand : ℕ
  pub accept_return : ℤ
  pub want_read : Bool

abbrev fresh_buffer : Buffer
fresh_buffer = record { capacity = 1024; count = 0; bytes = replicate 1024 0 }

fresh_slots : ℕ → ℕ → List Slot
fresh_slots zero cell = []
fresh_slots (suc n) cell =
    record {
      cell = cell;
      id = 0;
      related_fd = 0;
      thread_id = 0;
      status = cleared;
      buffer = fresh_buffer;
      request = zero_request;
      response = zero_response;
      bio_fd = none;
    }
    ∷ fresh_slots n (suc cell)

unfoldable pub init_session_cache : ℕ → Bool → Marks → Sessions
unfolding fresh_slots
init_session_cache max_size ssl marks = record {
  slots = fresh_slots max_size 0;
  max_size = max_size;
  count = 0;
  last_index = 0;
  has_ssl = ssl;
  marks = marks;
  signals = [];
}

-- `broadcast_session`.
unfoldable pub broadcast_session : Sessions → Sessions
broadcast_session t = record t {
  signals =
      response_generated_cond ∷ data_fetched_cond ∷ parsed_cond ∷ request_read_cond ∷ t.signals;
}

-- `reset_session_at_index`: the storage stays, and all that it holds is cleared.
unfoldable pub reset_session : Slot → Slot
reset_session s = record s {
  id = 0;
  related_fd = 0;
  thread_id = 0;
  status = cleared;
  buffer = record {
    capacity = s.buffer.capacity;
    count = 0;
    bytes = replicate (length s.buffer.bytes) 0;
  };
  request = zero_request;
  response = zero_response;
  bio_fd = none;
}

-- `reset_request_at_index`: the buffer gives its storage back.
unfoldable pub reset_request : Slot → Slot
reset_request s = record s {
  buffer = record { capacity = 0; count = 0; bytes = [] };
  request = record zero_request { is_ssl = s.request.is_ssl };
}

unfoldable pub store : ℕ → Slot → Sessions → Sessions
store i s t = record t { slots = set t.slots i s }

-- `get_session_id_for_thread`: the loop over the live slots; `none` is -1.
thread_scan : ℕ → ℕ → List Slot → Option ℕ
thread_scan zero thread xs = none
thread_scan (suc n) thread [] = none
thread_scan (suc n) thread (s ∷ xs) =
    if s.thread_id == thread then some s.id else thread_scan n thread xs

unfoldable pub get_session_id_for_thread : ℕ → Sessions → Option ℕ
unfolding thread_scan
get_session_id_for_thread thread t = thread_scan t.count thread t.slots

-- `init_session_connection`: 1 and -1 as they are returned, or what `SSL_accept` returned.
unfoldable pub init_session_connection : Oracle → ℤ
init_session_connection o = elim o.accept_return [
  | negsuc n ↦ if o.want_read then pos 1 else negsuc 0
  | pos n ↦ if n == 0 || n == 2 then (if o.want_read then pos 1 else negsuc 0) else pos n
]

-- `add_to_session`: the index that it takes, and the table after it.
unfoldable pub add_to_session : Oracle → ℕ → Sessions → Option (ℕ × Sessions)
unfolding reset_session store mask
add_to_session o fd t = do
  let next = if ltb t.count t.max_size then t.count else t.last_index
  assert (ltb next t.max_size)
  s ← get_elem? t.slots next
  let cleaned = reset_session s
  let taken = record cleaned {
    id = o.rand;
    related_fd = fd;
    status = mask initial cleaned.status;
    bio_fd = some fd;
  }
  let t' = store next taken t
  some (
    next,
    (if ltb t.count t.max_size
        then record t' { count = t.count + 1 }
        else record t' { last_index = (t.last_index + 1) % t.max_size }),
  )

-- The loop of `del_from_session`, from slot `i` on: each round moves one slot to the left, and the
-- deleted one to its place.
bubble : ℕ → Slot → List Slot → List Slot
bubble zero s xs = s ∷ xs
bubble (suc n) s [] = s ∷ []
bubble (suc n) s (x ∷ xs) = x ∷ bubble n s xs

pub del_at : ℕ → ℕ → List Slot → List Slot
unfolding bubble reset_session
del_at i n [] = []
del_at zero n (s ∷ xs) = bubble n (reset_session s) xs
del_at (suc i) n (s ∷ xs) = s ∷ del_at i n xs

-- `del_from_session`, at an index below `count`. The test against `session_last_index` reads `i` as
-- the loop leaves it.
unfoldable pub del_from_session : ℕ → Sessions → Sessions
unfolding del_at
del_from_session i t = record t {
  slots = del_at i (t.count - 1 - i) t.slots;
  count = t.count - 1;
  last_index =
      let left = if ltb i (t.count - 1) then t.count - 1 else i in
      if ltb left t.last_index then t.last_index - 1 else t.last_index;
}
