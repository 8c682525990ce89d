-- ===== src/Session/Word.antt =====
-- The status byte of a session (`*status_array[i]`) and `WORK_STATUS` of src/static.h.
-- The byte is read as its eight flags; `Session.Word.Laws` relates them to the bit operations.
pub mod Laws
use wind_breaker.Prelude.{
  ℕ, zero, suc, ◌+◌, ◌-◌, ◌^◌, ◌*◌, Bool, true, false, ◌&&◌, ltb, ◌==◌, if◌then◌else◌,
}

pub data WorkStatus : Type 0 where
  initial request_read parsed data_fetched ready_to_send : WorkStatus
  send_failed sent processing rejected initial_ssl : WorkStatus

-- The numbers of the enumeration: two of them do not fit the eight bits of a status.
abbrev pub value : WorkStatus → ℕ
value initial = 1
value request_read = 2
value parsed = 4
value data_fetched = 8
value ready_to_send = 16
value send_failed = 32
value sent = 64
value processing = 128
value rejected = 256
value initial_ssl = 512

-- `char *status_array[i]`, bit 0 first.
pub record Status : Type 0 where
  pub is_initial : Bool
  pub is_read : Bool
  pub is_parsed : Bool
  pub is_fetched : Bool
  pub is_ready : Bool
  pub is_failed : Bool
  pub is_sent : Bool
  pub is_processing : Bool

abbrev pub cleared : Status
cleared = record {
  is_initial = false;
  is_read = false;
  is_parsed = false;
  is_fetched = false;
  is_ready = false;
  is_failed = false;
  is_sent = false;
  is_processing = false;
}

abbrev pub bit_value : Bool → ℕ → ℕ
bit_value true n = n
bit_value false n = 0

-- The byte, as an unsigned number.
abbrev pub byte : Status → ℕ
byte s =
    bit_value s.is_initial 1
    + bit_value s.is_read 2
    + bit_value s.is_parsed 4
    + bit_value s.is_fetched 8
    + bit_value s.is_ready 16
    + bit_value s.is_failed 32
    + bit_value s.is_sent 64
    + bit_value s.is_processing 128

-- The byte in a comparison with a `WORK_STATUS`: a signed `char`, converted to `unsigned int`.
abbrev pub promoted : Status → ℕ
promoted s = byte s + bit_value s.is_processing (2 ^ 32 - 256)

-- `*status_array[i] |= status;`. What does not fit the byte is lost.
unfoldable pub raise : WorkStatus → Status → Status
raise initial s = record s { is_initial = true }
raise request_read s = record s { is_read = true }
raise parsed s = record s { is_parsed = true }
raise data_fetched s = record s { is_fetched = true }
raise ready_to_send s = record s { is_ready = true }
raise send_failed s = record s { is_failed = true }
raise sent s = record s { is_sent = true }
raise processing s = record s { is_processing = true }
raise rejected s = s
raise initial_ssl s = s

-- `*status_array[i] &= ~status;`
unfoldable pub lower : WorkStatus → Status → Status
lower initial s = record s { is_initial = false }
lower request_read s = record s { is_read = false }
lower parsed s = record s { is_parsed = false }
lower data_fetched s = record s { is_fetched = false }
lower ready_to_send s = record s { is_ready = false }
lower send_failed s = record s { is_failed = false }
lower sent s = record s { is_sent = false }
lower processing s = record s { is_processing = false }
lower rejected s = s
lower initial_ssl s = s

-- `*status_array[i] & status`, as a truth value.
unfoldable pub has : WorkStatus → Status → Bool
has initial s = s.is_initial
has request_read s = s.is_read
has parsed s = s.is_parsed
has data_fetched s = s.is_fetched
has ready_to_send s = s.is_ready
has send_failed s = s.is_failed
has sent s = s.is_sent
has processing s = s.is_processing
has rejected s = false
has initial_ssl s = false

-- `*status_array[i] &= status;`
unfoldable pub mask : WorkStatus → Status → Status
unfolding has raise
mask w s = if has w s then raise w cleared else cleared

-- `(1 << bit) & *status_array[i]` for the bits that `peek_next` reads.
unfoldable pub has_bit : ℕ → Status → Bool
has_bit zero s = s.is_initial
has_bit (suc zero) s = s.is_read
has_bit (suc (suc zero)) s = s.is_parsed
has_bit (suc (suc (suc zero))) s = s.is_fetched
has_bit (suc (suc (suc (suc bit)))) s = s.is_ready

-- The inner loop of `peek_next`, from bit `n - 1` down to 0: is this the session looked for?
unfoldable pub scan_bits : ℕ → WorkStatus → Status → Bool
unfolding has_bit has
scan_bits zero w s = false
scan_bits (suc bit) w s =
    if ltb (value w) (2 ^ bit) && has_bit bit s
    then false
    else if (2 ^ bit == value w) && has w s
    then true
    else scan_bits bit w s

-- The body of the outer loop of `peek_next`: its three guards, then the bits 4 to 0.
unfoldable pub is_next : WorkStatus → Status → Bool
unfolding scan_bits has
is_next w s =
    if ltb (promoted s) (value w)
    then false
    else if has processing s
    then false
    else if has send_failed s
    then false
    else scan_bits 5 w s
