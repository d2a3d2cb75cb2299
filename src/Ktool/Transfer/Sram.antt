-- ===== src/Ktool/Transfer/Sram.antt =====
-- A program that is loaded to SRAM and started.
use mathlib.Core.List.{append_assoc}
use user_basic.Base.{ℕ, true, false, none, some, List, [], ◌∷◌, ◌++◌, map, ◌≡◌, arith, length}
use user_basic.Ktool.Slip.{Bytes, frame, Event, recv, got}
use user_basic.Ktool.Response.{parsed, flash_parse, error_code}
use user_basic.Ktool.Port.{
  Loader, ok, packed, write, port_write, flash_recv_debug, flash_reply, recv_one_return, of_parsed,
  of_code,
}
use user_basic.Ktool.Greeting.{words_request}
use user_basic.Ktool.Transfer.{chunks, chunk_size_of, start_program, flash_firmware, flash_image}
use user_basic.Ktool.Transfer.Plan.{IsWritePlan, Confirmed, flash_chunks-Confirmed}

-- On an open port the request to start is written, and any reply with a known code is taken.
pub start_program_answered :
    (l : Loader) (start bytes text : Bytes) (op reason code : ℕ) (rest : List Event)
    → l.is_open ≡ true
    → words_request 0xd9 (0x80000000 ∷ 0 ∷ []) ≡ some start
    → recv l.events ≡ got bytes rest
    → flash_parse bytes ≡ parsed op reason text
    → error_code reason ≡ some code
    → start_program l ≡ (record l { events = rest; sent = l.sent ++ frame start ∷ [] }, ok tt)
unfolding start_program packed write port_write flash_recv_debug flash_reply recv_one_return
    of_parsed of_code
start_program_answered l start bytes text op reason code rest o s h p c = ground (arith, s, h, p, c)

-- The chunks go to SRAM from address 0 on, without the header, and then the program is started.
pub flash_firmware-sram :
    (sha256 : Bytes → Bytes) (encrypt : Bytes → List Bytes → List Bytes) (firmware : Bytes)
    (ps : List Bytes) (l : Loader) (mid : List Event) (start bytes text : Bytes)
    (op reason code : ℕ) (rest : List Event)
    → l.is_open ≡ true
    → l.kill_process ≡ false
    → IsWritePlan true
        (chunk_size_of (length firmware))
        0
        0
        (chunks firmware (chunk_size_of (length firmware)))
        ps
    → Confirmed true (length (chunks firmware (chunk_size_of (length firmware)))) l.events mid
    → words_request 0xd9 (0x80000000 ∷ 0 ∷ []) ≡ some start
    → recv mid ≡ got bytes rest
    → flash_parse bytes ≡ parsed op reason text
    → error_code reason ≡ some code
    → flash_firmware sha256 encrypt firmware none 0 true true true false l
      ≡ (record l { events = rest; sent = l.sent ++ (map frame ps ++ frame start ∷ []) }, ok tt)
unfolding flash_firmware flash_image
flash_firmware-sram sha256 encrypt firmware ps l mid start bytes text op reason code rest o k plan a
      s h p c =
    ground (
      arith,
      flash_chunks-Confirmed true (chunk_size_of (length firmware)) 0
          (chunks firmware (chunk_size_of (length firmware))) ps 0 l mid o k plan a,
      start_program_answered (record l { events = mid; sent = l.sent ++ map frame ps }) start bytes
          text op reason code rest o s h p c,
      append_assoc l.sent (map frame ps) (frame start ∷ []),
    )
