-- ===== src/Examples/Board.antt =====
-- ktool.py on a board that answers.
use user_basic.Base.{
  none, ◌≤◌, ◌+◌, ◌++◌, inl, some, List, [], ◌∷◌, codes, ◌≡◌, refl, length, true, false, replace,
}
use user_basic.Ktool.Slip.{Bytes, Event, silent, late, byte, recv, frame, got}
use user_basic.Ktool.Slip.RoundTrip.{on_wire, recv-frame}
use mathlib.Core.List.{flatten}
use user_basic.Ktool.Slip.Stream.{slip_reader-frames}
use user_basic.Ktool.Slip.{slip_reader, header, timed_out}
use user_basic.Ktool.Packet.{data_request, request, crc32}
use user_basic.Ktool.Packet.Decode.{decode, checksum_of, decode-data_request}
use user_basic.Ktool.Response.{error_code, isp_error_code}
use user_basic.Ktool.Port.{Loader, ok, err, exit, port_closed}
use user_basic.Ktool.Greeting.{flash_greeting, bare_frame}
use user_basic.Ktool.Greeting.Retry.{flash_greeting_timeout, flash_greeting-sent}
use user_basic.Ktool.Transfer.{send_loop, install_chunk}
use user_basic.Ktool.Transfer.Send.{send_loop_answered, send_loop_timeout}
use user_basic.Ktool.Transfer.Plan.{install_chunk_refused}

-- The check value of CRC-32.
crc32_check : crc32 (codes "123456789") ≡ 0xCBF43926
unfolding crc32
crc32_check = refl

-- A port that has still to deliver the events.
abbrev port : List Event → Loader
port es = record {
  is_open = true;
  kill_process = false;
  baudrate = 115200;
  events = es;
  sent = [];
  actions = [];
  tool_killed = false;
  dump = none;
}

abbrev noise : List Event
noise = silent ∷ byte 0x41 ∷ []

recv-frame_example :
    recv (noise ++ on_wire (frame (0xc0 ∷ 0xdb ∷ 1 ∷ [])) []) ≡ got (0xc0 ∷ 0xdb ∷ 1 ∷ []) []
recv-frame_example = recv-frame noise (0xc0 ∷ 0xdb ∷ 1 ∷ []) [] (tt, (refl, tt))

slip_reader-frames_example :
    slip_reader header
      ((0xc0 ∷ 0xdb ∷ []) ∷ (0xdc ∷ 0xc0 ∷ 0xc0 ∷ 7 ∷ 0xdb ∷ 0xdd ∷ 0xc0 ∷ []) ∷ [] ∷ [])
    ≡ ((0xc0 ∷ []) ∷ (7 ∷ 0xdb ∷ []) ∷ [], timed_out true)
unfolding frame flatten replace
slip_reader-frames_example =
    slip_reader-frames ((0xc0 ∷ []) ∷ (7 ∷ 0xdb ∷ []) ∷ [])
      ((0xc0 ∷ 0xdb ∷ []) ∷ (0xdc ∷ 0xc0 ∷ 0xc0 ∷ 7 ∷ 0xdb ∷ 0xdd ∷ 0xc0 ∷ []) ∷ []) [] tt refl

-- Two bytes for the flash at address 8, padded to four.
abbrev write_packet : Bytes
write_packet =
    212 ∷ 0 ∷ 0 ∷ 0 ∷ 96 ∷ 13 ∷ 171 ∷ 66 ∷ 8 ∷ 0 ∷ 0 ∷ 0 ∷ 4 ∷ 0 ∷ 0 ∷ 0 ∷ 1 ∷ 2 ∷ 0 ∷ 0 ∷ []

write_packed : data_request 0xd4 8 (1 ∷ 2 ∷ 0 ∷ 0 ∷ []) ≡ some write_packet
unfolding data_request request crc32
write_packed = refl

decode-data_request_example :
    decode write_packet
    ≡ some (record {
      op = 0xd4;
      reserved = 0;
      checksum = checksum_of 8 (1 ∷ 2 ∷ 0 ∷ 0 ∷ []);
      address = 8;
      data_len = 4;
      data_buf = 1 ∷ 2 ∷ 0 ∷ 0 ∷ [];
    })
decode-data_request_example = decode-data_request 0xd4 8 (1 ∷ 2 ∷ 0 ∷ 0 ∷ []) write_packed

-- The replies to a write and to a memory write.
abbrev write_reply : List Event
write_reply = on_wire (0xc0 ∷ 0xd4 ∷ 0xe0 ∷ 0xc0 ∷ []) []

send_loop_answered_example :
    send_loop 4 write_packet (port write_reply)
    ≡ (record (port []) { sent = frame write_packet ∷ [] }, ok tt)
unfolding recv error_code isp_error_code
send_loop_answered_example =
    send_loop_answered false (port write_reply) 4 0xe0 [] write_packet [] refl refl refl

send_loop_timeout_example :
    send_loop 4 write_packet (port (late ∷ []))
    ≡ (record (port []) { is_open = false; sent = frame write_packet ∷ [] }, err (exit 2))
unfolding recv
send_loop_timeout_example = send_loop_timeout (port (late ∷ [])) 4 write_packet [] refl (inl refl)

flash_greeting_timeout_example :
    flash_greeting (port (silent ∷ late ∷ []))
    ≡ (record (port []) { is_open = false; sent = bare_frame 0xd2 ∷ [] }, err port_closed)
unfolding recv
flash_greeting_timeout_example =
    flash_greeting_timeout (port (silent ∷ late ∷ [])) [] refl refl refl

abbrev greeting_reply : List Event
greeting_reply = on_wire (0xc0 ∷ 0xd2 ∷ 0xe0 ∷ 0xc0 ∷ []) []

-- A reply that refuses a greeting.
abbrev no_greeting : List Event → List Event
no_greeting es = on_wire (0xc0 ∷ 0xd2 ∷ 0xe1 ∷ 0xc0 ∷ []) es

five_refusals : List Event
five_refusals = no_greeting (no_greeting (no_greeting (no_greeting (no_greeting []))))

flash_greeting-sent_example :
    length (flash_greeting (port greeting_reply)).0.sent ≤ length (port greeting_reply).sent + 5
flash_greeting-sent_example = flash_greeting-sent (port greeting_reply)

abbrev first_packet : Bytes
first_packet = 195 ∷ 0 ∷ 0 ∷ 0 ∷ 142 ∷ 220 ∷ 98 ∷ 39 ∷ 0 ∷ 0 ∷ 94 ∷ 128 ∷ 2 ∷ 0 ∷ 0 ∷ 0 ∷ 7 ∷ 8 ∷ []

abbrev shifted_packet : Bytes
shifted_packet =
    195 ∷ 0 ∷ 0 ∷ 0 ∷ 179 ∷ 12 ∷ 151 ∷ 35 ∷ 2 ∷ 0 ∷ 94 ∷ 128 ∷ 2 ∷ 0 ∷ 0 ∷ 0 ∷ 7 ∷ 8 ∷ []

first_packed : data_request 0xc3 0x805E0000 (7 ∷ 8 ∷ []) ≡ some first_packet
unfolding data_request request crc32
first_packed = refl

shifted_packed : data_request 0xc3 0x805E0002 (7 ∷ 8 ∷ []) ≡ some shifted_packet
unfolding data_request request crc32
shifted_packed = refl

abbrev accepting : List Event
accepting = on_wire (0xc0 ∷ 0xc3 ∷ 0xe0 ∷ 0xc0 ∷ []) []

abbrev refusing : List Event
refusing = on_wire (0xc0 ∷ 0xc3 ∷ 0xe3 ∷ 0xc0 ∷ []) accepting

install_chunk_refused_example : install_chunk 2 0x805E0000 (7 ∷ 8 ∷ []) (port refusing) ≡ (
  record (port []) { sent = frame first_packet ∷ frame shifted_packet ∷ [] },
  ok (0x805E0000 + 2 + 2),
)
unfolding recv isp_error_code
install_chunk_refused_example =
    install_chunk_refused (port refusing) 0 0x805E0000 0xc3 0xc3 0xe3 0xe0 (7 ∷ 8 ∷ []) first_packet
      shifted_packet [] [] accepting [] refl refl first_packed shifted_packed refl refl refl refl
      refl refl
