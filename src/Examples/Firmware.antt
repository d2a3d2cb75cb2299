-- ===== src/Examples/Firmware.antt =====
-- A small firmware on a board that answers.
use user_basic.Base.{
  ◌<◌, ◌%◌, ◌^◌, none, some, List, [], ◌∷◌, map, ◌≡◌, refl, length, replicate, true, false, arith,
}
use user_basic.Ktool.Slip.{Bytes, recv, frame}
use user_basic.Ktool.Slip.RoundTrip.{on_wire}
use user_basic.Ktool.Packet.{pack_u32}
use user_basic.Ktool.Packet.Decode.{packet_of, data_request-fits}
use user_basic.Ktool.Response.{error_code, isp_error_code}
use user_basic.Ktool.Port.{Loader, ok}
use user_basic.Ktool.Transfer.{chunks, ljust, chunk_size_of, with_header, flash_firmware}
use user_basic.Ktool.Transfer.Chunks.{chunks_lem}
use user_basic.Ktool.Transfer.Padding.{IsPadded}
use user_basic.Ktool.Transfer.Plan.{IsPlan}
use user_basic.Ktool.Transfer.Firmware.{written, flash_firmware-Answered}

-- A digest of 32 bytes, and a cipher.
abbrev pub digest : Bytes → Bytes
digest bytes = replicate 32 (length bytes % 256)

abbrev pub keep_blocks : Bytes → List Bytes → List Bytes
keep_blocks key bs = bs

abbrev pub firmware : Bytes
firmware = 1 ∷ 2 ∷ []

abbrev pub image : Bytes
image = 0 ∷ 2 ∷ 0 ∷ 0 ∷ 0 ∷ 1 ∷ 2 ∷ replicate 32 7

pub image_lem : with_header digest keep_blocks none firmware ≡ some image
unfolding with_header pack_u32
image_lem = refl

abbrev pub packet : Bytes
packet = packet_of 0xd4 0x1000 (ljust 4096 image)

-- The image is one chunk.
pub one_chunk : chunks image 4096 ≡ image ∷ []
unfolding chunks
one_chunk = refl

fits : length (ljust 4096 image) < 2 ^ 32
fits = omega (arith, (rw one_chunk at (chunks_lem image 4096 (omega arith)).1).0)

pub image-IsPlan : IsPlan 4096 0x1000 0 (chunks image 4096) (packet ∷ [])
image-IsPlan =
    rw one_chunk
      (data_request-fits 0xd4 0x1000 (ljust 4096 image) (omega arith) (omega arith) fits, tt)

abbrev board : Loader
board = record {
  is_open = true;
  kill_process = false;
  baudrate = 115200;
  events = on_wire (0xc0 ∷ 0xd4 ∷ 0xe0 ∷ 0xc0 ∷ []) [];
  sent = [];
  actions = [];
  tool_killed = false;
  dump = none;
}

flash_firmware-Answered_example :
    (flash_firmware digest keep_blocks firmware none 0x1000 true false true false board
      ≡ (record board { events = []; sent = map frame (packet ∷ []) }, ok tt))
    × ((padded : Bytes) × (written 0x1000 (packet ∷ []) ≡ some padded)
        × IsPadded (chunk_size_of (length image)) image padded)
unfolding recv error_code isp_error_code chunks
flash_firmware-Answered_example =
    flash_firmware-Answered digest keep_blocks firmware none 0x1000 true image (packet ∷ []) board
      [] refl refl image_lem image-IsPlan (0xe0, [], [], refl, refl, refl)
