-- ===== src/Examples/Reading.antt =====
-- A block read from the flash of a board that answers, and the resets.
use user_basic.Base.{
  none, List, ◌+◌, ◌^◌, ◌++◌, ◌*◌, some, [], ◌∷◌, ◌≡◌, refl, sym, length-replicate, replicate, true,
  false, ℕ,
}
use mathlib.Core.List.{append-nil}
use user_basic.Ktool.Slip.{Bytes, frame}
use user_basic.Ktool.Slip.RoundTrip.{on_wire, recv-frame}
use user_basic.Ktool.Packet.{request, pack_u32, crc32}
use user_basic.Ktool.Greeting.{words_request}
use user_basic.Ktool.Port.{Loader}
use user_basic.Ktool.Memory.{Segment}
use user_basic.Ktool.Memory.Read.{Replies}

-- An empty block of flash, behind a head with a wrong checksum.
abbrev pub block : Bytes
block = replicate 4096 0xff

abbrev pub head : Bytes
head = replicate 16 0

abbrev pub request_bytes : Bytes
request_bytes =
    218 ∷ 0 ∷ 0 ∷ 0 ∷ 46 ∷ 175 ∷ 79 ∷ 77 ∷ 0 ∷ 16 ∷ 0 ∷ 0 ∷ 4 ∷ 0 ∷ 0 ∷ 0 ∷ 0 ∷ 16 ∷ 0 ∷ 0 ∷ []

abbrev board : Loader
board = record {
  is_open = true;
  kill_process = false;
  baudrate = 115200;
  events = on_wire (frame (head ++ block)) [];
  sent = [];
  actions = [];
  tool_killed = false;
  dump = none;
}

pub request_packed : words_request 0xda (0x1000 ∷ 4 ∷ 4096 ∷ []) ≡ some request_bytes
unfolding words_request pack_u32 request crc32
request_packed = refl

board-Replies : Replies 4096 1 board.events [] block
board-Replies = (
  head,
  block,
  [],
  [],
  refl,
  length-replicate {A = ℕ} 4096 0xff,
  recv-frame [] (head ++ block) [] tt,
  sym (append-nil block),
  (refl, refl),
)

-- The address is moved on by a multiple of 2 ^ 32.
abbrev move : Segment → Segment
move s = record s { p_vaddr = s.p_vaddr + 0x1000 * 2 ^ 32 }

abbrev segments : List Segment
segments = record { p_filesz = 2; p_vaddr = 0x80000000; contents = 1 ∷ 2 ∷ [] } ∷ []
