-- ===== src/Ktool/Response.antt =====
-- The replies of the two loaders on the board: `ISPResponse` and `FlashModeResponse` of ktool.py.
use user_basic.Base.{
  ℕ, zero, suc, Bool, true, false, ◌&&◌, ◌||◌, Option, none, some, [], ◌∷◌, leb, ltb, ◌==◌,
  if◌then◌else◌,
}
use user_basic.Ktool.Slip.{Bytes}

-- `ISPResponse.ISPOperation`
pub data IspOperation : Type 0 where
  isp_echo isp_nop isp_memory_write isp_memory_read isp_memory_boot : IspOperation
  isp_debug_info isp_change_baudrate : IspOperation

-- `ISPResponse.ISPOperation(op)`; `none` is its `ValueError`.
unfoldable pub isp_operation : ℕ → Option IspOperation
isp_operation op =
    if op == 0xC1
    then some isp_echo
    else if op == 0xC2
    then some isp_nop
    else if op == 0xC3
    then some isp_memory_write
    else if op == 0xC4
    then some isp_memory_read
    else if op == 0xC5
    then some isp_memory_boot
    else if op == 0xD1
    then some isp_debug_info
    else if op == 0xC6
    then some isp_change_baudrate
    else none

-- `ISPResponse.ErrorCode(reason)`: its five members are told apart by number alone.
unfoldable pub isp_error_code : ℕ → Option ℕ
isp_error_code r =
    if r == 0 || r == 0xE0 || r == 0xE1 || r == 0xE2 || r == 0xE3 then some r else none

-- `FlashModeResponse.Operation`
pub data Operation : Type 0 where
  debug_info nop flash_erase flash_write reboot uarths_baudrate_set : Operation
  flash_init sram_write sram_execute flash_read flash_id flash_erase_block : Operation

-- `FlashModeResponse.Operation(op)`
unfoldable pub operation : ℕ → Option Operation
operation op =
    if op == 0xD1
    then some debug_info
    else if op == 0xD2
    then some nop
    else if op == 0xD3
    then some flash_erase
    else if op == 0xD4
    then some flash_write
    else if op == 0xD5
    then some reboot
    else if op == 0xD6
    then some uarths_baudrate_set
    else if op == 0xD7
    then some flash_init
    else if op == 0xD8
    then some sram_write
    else if op == 0xD9
    then some sram_execute
    else if op == 0xDA
    then some flash_read
    else if op == 0xDE
    then some flash_id
    else if op == 0xDF
    then some flash_erase_block
    else none

-- `FlashModeResponse.ErrorCode(reason)`, with one member more.
unfoldable pub error_code : ℕ → Option ℕ
unfolding isp_error_code
error_code r = if r == 0xE4 then some r else isp_error_code r

-- The exceptions of a parse.
pub data ParseError : Type 0 where
  index_error value_error : ParseError

pub data Parsed : Type 0 where
  parsed : ℕ → ℕ → Bytes → Parsed
  failed : ParseError → Parsed

-- What a lead byte of UTF-8 wants behind it: the range of the next byte and how many follow.
lead : ℕ → Option (ℕ × ℕ × ℕ)
lead b =
    if ltb b 0x80
    then some (0, 0x80, 0xBF)
    else if leb 0xC2 b && leb b 0xDF
    then some (1, 0x80, 0xBF)
    else if b == 0xE0
    then some (2, 0xA0, 0xBF)
    else if b == 0xED
    then some (2, 0x80, 0x9F)
    else if leb 0xE1 b && leb b 0xEF
    then some (2, 0x80, 0xBF)
    else if b == 0xF0
    then some (3, 0x90, 0xBF)
    else if b == 0xF4
    then some (3, 0x80, 0x8F)
    else if leb 0xF1 b && leb b 0xF3
    then some (3, 0x80, 0xBF)
    else none

utf8_from : ℕ → ℕ → ℕ → Bytes → Bool
utf8_from zero lo hi [] = true
utf8_from (suc k) lo hi [] = false
utf8_from zero lo hi (b ∷ bs) = elim (lead b) [
  | none ↦ false
  | some (k, lo', hi') ↦ utf8_from k lo' hi' bs
]
utf8_from (suc k) lo hi (b ∷ bs) =
    let rest = utf8_from k 0x80 0xBF bs in if leb lo b && leb b hi then rest else false

-- Whether `bytes.decode()` succeeds; the model keeps the bytes of the text.
unfoldable pub is_utf8 : Bytes → Bool
unfolding utf8_from lead
is_utf8 = utf8_from 0 0x80 0xBF

-- `ISPResponse.parse`: an unknown operation and a bad text are `ValueError`s, and are caught.
isp_text : Option IspOperation → Bytes → Bytes
isp_text (some isp_debug_info) text = if is_utf8 text then text else []
isp_text _ text = []

unfoldable pub isp_parse : Bytes → Parsed
unfolding isp_operation isp_text
isp_parse [] = failed index_error
isp_parse (op ∷ []) = failed index_error
isp_parse (op ∷ reason ∷ text) = parsed op reason (isp_text (isp_operation op) text)

-- `FlashModeResponse.parse`: here they are not caught.
flash_text : Option Operation → ℕ → ℕ → Bytes → Parsed
flash_text none op reason text = failed value_error
flash_text (some debug_info) op reason text =
    if is_utf8 text then parsed op reason text else failed value_error
flash_text _ op reason text = parsed op reason []

unfoldable pub flash_parse : Bytes → Parsed
unfolding operation flash_text
flash_parse [] = failed index_error
flash_parse (op ∷ []) = failed index_error
flash_parse (op ∷ reason ∷ text) = flash_text (operation op) op reason text
