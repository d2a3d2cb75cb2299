-- ===== src/Ktool/Greeting/First.antt =====
-- Requests of `MAIXLoader` that are answered at once.
use user_basic.Base.{ℕ, true, false, some, List, [], ◌∷◌, ◌++◌, ◌≡◌, arith}
use user_basic.Ktool.Slip.{Bytes, frame, Event, recv, got}
use user_basic.Ktool.Response.{parsed, isp_parse, flash_parse, operation, error_code}
use user_basic.Ktool.Port.{
  Loader, ok, check_kill_exit, port_write, write, recv_one_return, isp_reply, flash_reply, catch,
  packed, of_parsed,
}
use user_basic.Ktool.Greeting.{
  greeting, attempt, retry, init_flash, get_flash_id, boot, words_request, bare_frame, answers,
}

pub greeting_answered :
    (l : Loader) (bytes text : Bytes) (op reason : ℕ) (rest : List Event)
    → l.is_open ≡ true
    → recv l.events ≡ got bytes rest
    → isp_parse bytes ≡ parsed op reason text
    → greeting l ≡ (record l { events = rest; sent = l.sent ++ bare_frame 0xc2 ∷ [] }, ok tt)
unfolding greeting port_write isp_reply recv_one_return of_parsed
greeting_answered l bytes text op reason rest o h p = ground arith

pub boot_lem :
    (l : Loader) (address : ℕ) (out : Bytes)
    → l.is_open ≡ true
    → words_request 0xc5 (address ∷ 0 ∷ []) ≡ some out
    → boot address l ≡ (record l { sent = l.sent ++ frame out ∷ [] }, ok tt)
unfolding boot packed write port_write
boot_lem l address out o p = ground arith

pub init_flash_answered :
    (l : Loader) (out text id : Bytes) (mid rest : List Event)
    → l.is_open ≡ true
    → l.kill_process ≡ false
    → words_request 0xd7 (0 ∷ 0 ∷ []) ≡ some out
    → recv l.events ≡ got (0xd7 ∷ 0xe0 ∷ text) mid
    → recv mid ≡ got id rest
    → init_flash l
      ≡ (record l { events = rest; sent = l.sent ++ frame out ∷ [] ++ bare_frame 0xde ∷ [] }, ok tt)
unfolding init_flash packed retry attempt check_kill_exit write port_write recv_one_return
    flash_reply catch flash_parse answers operation error_code get_flash_id
init_flash_answered l out text id mid rest o k p h h' = ground arith
