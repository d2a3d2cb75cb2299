-- ===== src/Ktool/Transfer/Send.antt =====
-- What the transfers write, and when they try again.
use user_basic.Base.{
  ℕ, zero, suc, Bool, if◌then◌else◌, true, false, some, List, [], ◌∷◌, ◌++◌, ◌≡◌, refl, arith, ◌⊎◌,
}
use user_basic.Ktool.Slip.{Bytes, frame, Event, got, timeout_start, timeout_end, recv}
use user_basic.Ktool.Response.{flash_parse, operation, error_code}
use user_basic.Ktool.Port.{
  Loader, exit, ok, err, port_write, write, recv_one_return, flash_reply, flash_recv_debug, catch,
}
use user_basic.Ktool.Transfer.{send_loop}

-- The codes of `FlashModeResponse.ErrorCode`.
abbrev pub IsCode : ℕ → Type 0
IsCode reason = error_code reason ≡ some reason

-- On an open port one frame is written, and any reply to a write, be it to SRAM or to the flash, with
-- a known code ends the loop
-- well, also a code that refuses the request.
pub send_loop_answered :
    (tosram : Bool) (l : Loader) (n reason : ℕ) (text out : Bytes) (rest : List Event)
    → l.is_open ≡ true
    → recv l.events ≡ got ((if tosram then 0xd8 else 0xd4) ∷ reason ∷ text) rest
    → IsCode reason
    → send_loop n out l ≡ (record l { events = rest; sent = l.sent ++ frame out ∷ [] }, ok tt)
unfolding send_loop write port_write recv_one_return flash_recv_debug flash_reply catch flash_parse
    operation
send_loop_answered true l zero reason text out rest o h r = ground arith
send_loop_answered true l (suc n) reason text out rest o h r = ground arith
send_loop_answered false l zero reason text out rest o h r = ground arith
send_loop_answered false l (suc n) reason text out rest o h r = ground arith

-- With the port closed every try fails, and the process exits with 2.
send_loop_closed :
    (l : Loader) (n : ℕ) (out : Bytes) → l.is_open ≡ false → send_loop n out l ≡ (l, err (exit 2))
unfolding send_loop write port_write catch
send_loop_closed l zero out o = ground arith
send_loop_closed l (suc n) out o = ground (arith, send_loop_closed l n out o)

-- On an open port a receive timeout closes the port: one frame is written, and the process exits
-- with 2 however many tries are left.
pub send_loop_timeout :
    (l : Loader) (n : ℕ) (out : Bytes) (rest : List Event)
    → l.is_open ≡ true
    → (recv l.events ≡ timeout_start rest) ⊎ (recv l.events ≡ timeout_end rest)
    → send_loop n out l
      ≡ (record l { is_open = false; events = rest; sent = l.sent ++ frame out ∷ [] }, err (exit 2))
unfolding send_loop write port_write recv_one_return flash_recv_debug flash_reply catch
send_loop_timeout l zero out rest o h = ground arith
send_loop_timeout l (suc n) out rest o h = ground (
  arith,
  send_loop_closed (record l { is_open = false; events = rest; sent = l.sent ++ frame out ∷ [] }) n
      out refl,
)
