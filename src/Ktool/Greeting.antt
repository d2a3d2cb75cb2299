-- ===== src/Ktool/Greeting.antt =====
-- `MAIXLoader` of ktool.py: the greetings, and the requests without a data buffer.
pub mod Retry
pub mod Tries
pub mod First
use user_basic.Base.{
  ℕ, zero, suc, Bool, true, false, ◌&&◌, Option, none, some, List, [], ◌∷◌, ◌++◌, leb, ◌==◌,
  if◌then◌else◌, replicate,
}
use user_basic.Ktool.Slip.{Bytes}
use user_basic.Ktool.Packet.{u32, pack_u32, request}
use user_basic.Ktool.Response.{Operation, operation, error_code}
use user_basic.Ktool.Port.{
  Loader, Failure, bad_value, not_connected, not_initialized, Res, ok, err, Io, ◌>>=◌, ◌>>◌, pure,
  raise, raise_exception, check_kill_exit, port_write, write, recv_one_return, flash_reply,
  isp_reply, flash_recv_debug, catch, packed,
}

abbrev pub max_retry_times : ℕ
max_retry_times = 4

abbrev pub sram_start : ℕ
sram_start = 0x805E0000

-- A frame of an operation and twelve zeros, written out in the source.
abbrev pub bare_frame : ℕ → Bytes
bare_frame op = 0xc0 ∷ op ∷ (replicate 12 0 ++ 0xc0 ∷ [])

-- `greeting`
unfoldable pub greeting : Io (Unit {0})
greeting = do port_write (bare_frame 0xc2); r ← isp_reply; pure tt

-- `Operation(op) == expected and ErrorCode(reason) == ISP_RET_OK`; the second half is evaluated
-- only where the first holds, and both enumerations may raise `ValueError`.
unfoldable pub of_reason : Option ℕ → Io Bool
of_reason none = raise bad_value
of_reason (some r) = pure (r == 0xE0)

unfoldable pub of_operation : Option Operation → Bool → ℕ → Io Bool
unfolding of_reason
of_operation none same reason = raise bad_value
of_operation (some o) true reason = of_reason (error_code reason)
of_operation (some o) false reason = pure false

unfoldable pub answers : ℕ → ℕ → ℕ → Io Bool
unfolding of_operation
answers expected op reason = of_operation (operation op) (op == expected) reason

-- A round of the loops of `flash_greeting` and `init_flash`: `again` is the rest of the loop, or
-- the error when the tries are used up.
unfoldable pub after_reply :
    ℕ → Io (Unit {0}) → Io (Unit {0}) → Option (ℕ × ℕ × Bytes) → Io (Unit {0})
after_reply expected done again none = again
after_reply expected done again (some (op, reason, text)) =
    answers expected op reason >>= λ good. if good then done else again

unfoldable pub attempt : Io (Unit {0}) → ℕ → Io (Unit {0}) → Io (Unit {0}) → Io (Unit {0})
unfolding after_reply
attempt send expected done again = do
  check_kill_exit
  send
  r ← catch flash_reply
  after_reply expected done again r

-- The loop with as many further tries as the number says.
unfoldable pub retry : Io (Unit {0}) → ℕ → Io (Unit {0}) → Failure → ℕ → Io (Unit {0})
retry send expected done e zero = attempt send expected done (raise_exception e)
retry send expected done e (suc n) = attempt send expected done (retry send expected done e n)

-- `flash_greeting`
unfoldable pub flash_greeting : Io (Unit {0})
flash_greeting = retry (port_write (bare_frame 0xd2)) 0xd2 (pure tt) not_connected max_retry_times

-- `get_flash_id` only logs what it reads, and swallows every exception.
unfoldable pub get_flash_id : Io (Unit {0})
get_flash_id = do r ← catch (do port_write (bare_frame 0xde); recv_one_return); pure tt

-- A request whose body is made of 32-bit numbers.
append_packed : Option Bytes → Option Bytes → Option Bytes
append_packed (some a) (some b) = some (a ++ b)
append_packed _ _ = none

pack_all : List ℕ → Option Bytes
unfolding append_packed
pack_all [] = some []
pack_all (n ∷ ns) = append_packed (pack_u32 n) (pack_all ns)

request_of : ℕ → Option Bytes → Option Bytes
request_of op none = none
request_of op (some out) = request op out

unfoldable pub words_request : ℕ → List ℕ → Option Bytes
unfolding pack_all request_of
words_request op ns = request_of op (pack_all ns)

-- `init_flash`
unfoldable pub init_flash : Io (Unit {0})
init_flash = do
  out ← packed (words_request 0xd7 (0 ∷ 0 ∷ []))
  retry (write out) 0xd7 get_flash_id not_initialized max_retry_times

-- `boot`
unfoldable pub boot : ℕ → Io (Unit {0})
boot address = do out ← packed (words_request 0xc5 (address ∷ 0 ∷ [])); write out

-- `change_baudrate`; a `goE` board takes special values for three high rates.
unfoldable pub port_baudrate : Bool → ℕ → ℕ
port_baudrate goE baudrate =
    if goE && leb 4500000 baudrate
    then (if baudrate == 4500000
        then 300
        else if baudrate == 6000000
        then 250
        else if baudrate == 7500000
        then 350
        else baudrate)
    else baudrate

unfoldable pub set_baudrate : ℕ → Io (Unit {0})
set_baudrate b l = (record l { baudrate = b }, ok tt)

unfoldable pub change_baudrate : Bool → ℕ → Io (Unit {0})
unfolding set_baudrate
change_baudrate goE baudrate = do
  out ← packed (words_request 0xd6 (0 ∷ 4 ∷ baudrate ∷ []))
  write out
  set_baudrate (port_baudrate goE baudrate)

-- `flash_erase`: the reply only decides what is logged, but its codes must be known.
unfoldable pub flash_erase : Io (Unit {0})
unfolding of_reason
flash_erase = do
  port_write (bare_frame 0xd3)
  r ← flash_reply
  good ← of_reason (error_code r.1)
  pure tt
