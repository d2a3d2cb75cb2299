-- ===== src/Examples/Starting.antt =====
-- A run of ktool.py with `--sram`.
use user_basic.Base.{true, some, List, [], ◌∷◌, ◌++◌, map, ◌≡◌, refl, arith, length, codes, line_eq}
use user_basic.Ktool.Slip.{Bytes, frame, Event, recv}
use user_basic.Ktool.Response.{operation, error_code, flash_parse}
use user_basic.Ktool.Port.{err, exit}
use user_basic.Ktool.Greeting.{words_request}
use user_basic.Ktool.Packet.{request, pack_u32, crc32}
use user_basic.Ktool.Packet.Decode.{packet_of, data_request-fits}
use user_basic.Ktool.Transfer.{chunk_size_of, ljust}
use user_basic.Ktool.Transfer.Padding.{IsPadded}
use user_basic.Ktool.Transfer.Firmware.{written_by}
use user_basic.Process.Args.{Args, settle}
use user_basic.Process.World.{choose_port, format_of}
use user_basic.Process.Flow.{process}
use user_basic.Process.Front.{Starts, PacksLoader, loading_frames, loaded}
use user_basic.Process.Sram.{LoadsSram, PacksSram, AnswersSram, process-Boots}
use user_basic.Examples.Firmware.{firmware}
use user_basic.Examples.Running.{
  world, arguments, reply, loader, boot_lem, or_none, packs, isp_chunks,
}
use user_basic.Examples.Package.{loading, answers_loader, fits, one_data_chunk}

abbrev sram_args : Args
sram_args = record (arguments (codes "k210.bin")) { sram = true }

abbrev replies : List Event
replies = reply 0xc2 (reply 0xc3 (reply 0xd2 (reply 0xd8 (reply 0xd9 []))))

starts : Starts world (settle sram_args) (codes "ttyUSB1")
unfolding choose_port line_eq settle
starts = record { found_port = refl; opens = refl; no_onlyterm = refl; no_bootloader = refl }

loads : LoadsSram world (settle sram_args) firmware
unfolding format_of line_eq settle
loads = record {
  to_sram = refl;
  no_erase = refl;
  no_read = refl;
  no_terminal = refl;
  file = refl;
  format = refl;
}

packs_loader : PacksLoader world (settle sram_args) loading
unfolding settle
packs_loader = record { isp = packs.isp; boot = boot_lem; change = refl }

abbrev sram_packet : Bytes
sram_packet = packet_of 0xd8 0 (ljust 4096 firmware)

-- The request to start.
start_request : Bytes
unfolding words_request request
start_request = or_none (words_request 0xd9 (0x80000000 ∷ 0 ∷ []))

packs_sram : PacksSram firmware (sram_packet ∷ []) start_request
unfolding words_request request start_request pack_u32 crc32
packs_sram = record {
  writes =
      rw one_data_chunk
        (data_request-fits 0xd8 0 (ljust 4096 firmware) (omega arith) (omega arith) fits, tt);
  starts = refl;
}

answers_sram : AnswersSram firmware (reply 0xd8 (reply 0xd9 [])) []
unfolding recv flash_parse operation error_code
answers_sram = record {
  mid = reply 0xd9 [];
  op = 0xd9;
  reason = 0xe0;
  code = 0xe0;
  bytes = 0xd9 ∷ 0xe0 ∷ [];
  text = [];
  confirms = rw one_data_chunk (0xe0, [], reply 0xd9 [], refl, refl, refl);
  replies = refl;
  parses = refl;
  known = refl;
}

process-Boots_example :
    (process world sram_args (loader replies) ≡ (
      record (loaded (settle sram_args) loading [] (loader replies)) {
        sent = loading_frames loading ++ (map frame (sram_packet ∷ []) ++ frame start_request ∷ []);
      },
      err (exit 0),
    ))
    × ((padded : Bytes) × (written_by 0xd8 0 (sram_packet ∷ []) ≡ some padded)
        × IsPadded (chunk_size_of (length firmware)) firmware padded)
process-Boots_example =
    process-Boots world sram_args (codes "ttyUSB1") firmware loading (sram_packet ∷ [])
      start_request (loader replies) (reply 0xd8 (reply 0xd9 [])) [] starts loads packs_loader
      packs_sram (answers_loader world (reply 0xd8 (reply 0xd9 [])) isp_chunks) answers_sram
