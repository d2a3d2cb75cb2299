-- ===== src/Examples/Running.antt =====
-- Whole runs of ktool.py.
use user_basic.Base.{
  ℕ, true, false, Option, none, some, List, [], ◌∷◌, ◌≡◌, refl, arith, length, Line, codes, line_eq,
}
use user_basic.Ktool.Slip.{Bytes, Event, recv}
use user_basic.Ktool.Slip.RoundTrip.{on_wire}
use user_basic.Ktool.Packet.{pack_u32, request, crc32}
use user_basic.Ktool.Packet.Decode.{packet_of, data_request-fits}
use user_basic.Ktool.Response.{isp_parse, operation, isp_operation, error_code, isp_error_code}
use user_basic.Ktool.Port.{Loader, ok}
use user_basic.Ktool.Greeting.{sram_start, words_request}
use user_basic.Ktool.Transfer.{chunks, chunk_size_of}
use user_basic.Ktool.Transfer.Padding.{IsPadded}
use user_basic.Ktool.Transfer.Firmware.{written}
use user_basic.Process.Args.{unset, Args, settle, settle_board}
use user_basic.Process.World.{World, choose_port, format_of}
use user_basic.Process.Flow.{process}
use user_basic.Process.Normal.{resets, process-flash_only}
use user_basic.Process.Whole.{Requests, Packs, Answers, Flashes, frames, process-Flashes}
use user_basic.Examples.Firmware.{
  digest, keep_blocks, firmware, image, packet, image_lem, image-IsPlan, one_chunk,
}

-- One port, and one file.
abbrev pub content_of : Line → Option Bytes
content_of [] = none
content_of (c ∷ cs) = some firmware

abbrev pub world : World
world = record {
  grep = λ _. codes "ttyUSB0" ∷ [];
  sort = λ ds. ds;
  opens = λ _. true;
  has_mpyterm = false;
  content_of = content_of;
  writable = λ _. true;
  extension = λ _. [];
  unzip = λ _. none;
  json_files = λ _. none;
  segments = λ _. [];
  sha256 = digest;
  encrypt = keep_blocks;
  isp_prog = 7 ∷ 8 ∷ 9 ∷ [];
}

abbrev pub arguments : Line → Args
arguments path = record {
  port = codes "ttyUSB1";
  baudrate = 115200;
  bootloader = none;
  key = none;
  terminal = false;
  noansi = true;
  sram = false;
  board = unset;
  address = 0x1000;
  swapendian = false;
  erase = false;
  read = false;
  rdlen = 0;
  termbdr = 115200;
  nosha = false;
  mpyterm = false;
  onlyterm = false;
  reset = false;
  firmware = path;
}

abbrev pub args : Args
args = arguments (codes "k210.bin")

abbrev pub reply : ℕ → List Event → List Event
reply op es = on_wire (0xc0 ∷ op ∷ 0xe0 ∷ 0xc0 ∷ []) es

abbrev pub replies : List Event
replies = reply 0xc2 (reply 0xc3 (reply 0xd2 (reply 0xd7 (reply 0xde (reply 0xd4 [])))))

abbrev pub loader : List Event → Loader
loader es = record {
  is_open = false;
  kill_process = true;
  baudrate = 9600;
  events = es;
  sent = [];
  actions = [];
  tool_killed = true;
  dump = none;
}

abbrev pub or_none : Option Bytes → Bytes
or_none none = []
or_none (some bytes) = bytes

unfoldable pub boot_request : Bytes
unfolding words_request request
boot_request = or_none (words_request 0xc5 (sram_start ∷ 0 ∷ []))

unfoldable pub init_request : Bytes
unfolding words_request request
init_request = or_none (words_request 0xd7 (0 ∷ 0 ∷ []))

abbrev pub requests : Requests
requests = record {
  isp = packet_of 0xc3 sram_start (7 ∷ 8 ∷ 9 ∷ []) ∷ [];
  boot = boot_request;
  refusals = 0;
  change = none;
  refusals' = 0;
  init = init_request;
  image = image;
  flash = packet ∷ [];
}

flashes : Flashes world (settle args) (codes "ttyUSB1") firmware
unfolding choose_port format_of line_eq settle
flashes = record {
  found_port = refl;
  opens = refl;
  no_onlyterm = refl;
  no_sram = refl;
  no_erase = refl;
  no_read = refl;
  no_terminal = refl;
  no_key = refl;
  no_bootloader = refl;
  hashed = refl;
  in_order = refl;
  file = refl;
  binary = refl;
}

pub isp_chunks : chunks (7 ∷ 8 ∷ 9 ∷ []) 1024 ≡ (7 ∷ 8 ∷ 9 ∷ []) ∷ []
unfolding chunks
isp_chunks = refl

pub boot_lem : words_request 0xc5 (sram_start ∷ 0 ∷ []) ≡ some boot_request
unfolding words_request request boot_request pack_u32 crc32
boot_lem = refl

pub init_lem : words_request 0xd7 (0 ∷ 0 ∷ []) ≡ some init_request
unfolding words_request request init_request pack_u32 crc32
init_lem = refl

pub packs : Packs world (settle args) firmware requests
unfolding settle
packs = record {
  isp = rw isp_chunks (
    data_request-fits 0xc3 sram_start (7 ∷ 8 ∷ 9 ∷ []) (omega arith) (omega arith) (omega arith),
    tt,
  );
  boot = boot_lem;
  change = refl;
  init = init_lem;
  image = image_lem;
  flash = image-IsPlan;
}

pub answered : Answers world requests replies []
unfolding recv isp_parse isp_operation operation error_code isp_error_code
answered = record {
  e1 = reply 0xc3 (reply 0xd2 (reply 0xd7 (reply 0xde (reply 0xd4 []))));
  e2 = reply 0xd2 (reply 0xd7 (reply 0xde (reply 0xd4 [])));
  e3 = reply 0xd2 (reply 0xd7 (reply 0xde (reply 0xd4 [])));
  e4 = reply 0xd7 (reply 0xde (reply 0xd4 []));
  e7 = reply 0xd7 (reply 0xde (reply 0xd4 []));
  e5 = reply 0xde (reply 0xd4 []);
  e6 = reply 0xd4 [];
  hello = 0xc2 ∷ 0xe0 ∷ [];
  op = 0xc2;
  reason = 0xe0;
  said = [];
  greets = refl;
  parses = refl;
  accepts = rw isp_chunks ([], reply 0xd2 (reply 0xd7 (reply 0xde (reply 0xd4 []))), refl, refl);
  few = omega arith;
  refuses = refl;
  text = [];
  wakes = refl;
  regreets = refl;
  text' = [];
  ready = refl;
  chip = 0xde ∷ 0xe0 ∷ [];
  names_chip = refl;
  stores = rw one_chunk (0xe0, [], [], refl, refl, refl);
}

abbrev last : Loader
last = record (loader []) {
  tool_killed = false;
  kill_process = false;
  baudrate = 115200;
  sent = frames requests;
  actions = resets (settle_board unset);
}

process-Flashes_example :
    (process world args (loader replies) ≡ (last, ok tt))
    × ((padded : Bytes) × (written 0x1000 (packet ∷ []) ≡ some padded)
        × IsPadded (chunk_size_of (length image)) image padded)
unfolding settle
process-Flashes_example =
    process-Flashes world args (codes "ttyUSB1") firmware requests (loader replies) [] flashes packs
      answered

process-flash_only_example :
    (args.onlyterm ≡ false)
    × (args.sram ≡ false)
    × (args.erase ≡ false)
    × (args.read ≡ false)
    × (args.terminal ≡ false)
    × (last.is_open ≡ false)
    × (last.actions ≡ resets (settle_board unset))
process-flash_only_example =
    process-flash_only world args (loader replies) last tt process-Flashes_example.0
