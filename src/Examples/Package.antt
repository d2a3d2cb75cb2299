-- ===== src/Examples/Package.antt =====
-- A kfpkg archive with two entries.
use user_basic.Base.{
  true, false, none, some, List, [], ◌∷◌, ◌++◌, map, ◌≡◌, refl, arith, length, Line, codes, line_eq,
  strip_prefix, contains, if◌then◌else◌, All, ◌<◌, ◌^◌,
}
use user_basic.Base.Number.{auto_int}
use user_basic.Ktool.Slip.{Bytes, frame, Event, recv}
use user_basic.Ktool.Packet.Decode.{packet_of, data_request-fits}
use user_basic.Ktool.Response.{isp_parse, isp_operation, operation, error_code, isp_error_code}
use user_basic.Ktool.Port.{ok}
use user_basic.Ktool.Greeting.{bare_frame}
use user_basic.Ktool.Transfer.{chunks, ljust}
use user_basic.Ktool.Transfer.Chunks.{chunks_lem}
use user_basic.Ktool.Transfer.Plan.{IsPlan}
use user_basic.Process.Args.{Args, unset, settle, settle_board}
use user_basic.Process.World.{World, choose_port, format_of}
use user_basic.Process.FlashList.{FlashEntry, text, quote_addresses}
use user_basic.Process.FlashList.Quoted.{plain, with_quotes, quote_addresses-plain}
use user_basic.Process.Normal.{resets}
use user_basic.Process.Flow.{Unzipped, process}
use user_basic.Process.Package.{Item, AreItems, IsStored, packets_of}
use user_basic.Process.Front.{Starts, Loading, PacksLoader, AnswersLoader, loading_frames}
use user_basic.Process.Unpack.{Unpacks, AnswersInit, process-Unpacks}
use user_basic.Examples.Firmware.{firmware, image, packet, image_lem, image-IsPlan, one_chunk}
use user_basic.Examples.Running.{
  world, arguments, reply, loader, requests, init_request, boot_lem, init_lem, packs, isp_chunks,
}

abbrev list_text : Line
list_text = plain ((codes "[", codes "0x1000") ∷ (codes "{", codes "8192") ∷ []) (codes "]")

quote_addresses-plain_example :
    quote_addresses list_text
    ≡ with_quotes ((codes "[", codes "0x1000") ∷ (codes "{", codes "8192") ∷ []) (codes "]")
unfolding strip_prefix contains
quote_addresses-plain_example =
    quote_addresses-plain ((codes "[", codes "0x1000") ∷ (codes "{", codes "8192") ∷ []) (codes "]")
      (((refl, tt), refl), (((refl, tt), refl), tt)) refl

abbrev archive : Unzipped
archive [] = none
archive (c ∷ cs) =
    if line_eq (c ∷ cs) (codes "flash-list.json") then some list_text else some firmware

abbrev entries : List FlashEntry
entries =
    record {
      bin = codes "k210.bin";
      address = text (codes "0x1000");
      sha256_prefix = some true;
      swap = none;
    }
    ∷ record {
      bin = codes "data.bin";
      address = text (codes "8192");
      sha256_prefix = some false;
      swap = some false;
    }
    ∷ []

abbrev package_world : World
package_world = record world {
  content_of = λ _. some (codes "PK");
  extension = λ _. codes ".kfpkg";
  unzip = λ _. some archive;
  json_files = λ _. some entries;
}

abbrev package_args : Args
package_args = arguments (codes "k210.kfpkg")

abbrev data_packet : Bytes
data_packet = packet_of 0xd4 8192 (ljust 4096 firmware)

abbrev items : List Item
items =
    record {
      at = codes "0x1000";
      address = 0x1000;
      content = firmware;
      image = image;
      packets = packet ∷ [];
    }
    ∷ record {
      at = codes "8192";
      address = 8192;
      content = firmware;
      image = firmware;
      packets = data_packet ∷ [];
    }
    ∷ []

pub one_data_chunk : chunks firmware 4096 ≡ firmware ∷ []
unfolding chunks
one_data_chunk = refl

pub fits : length (ljust 4096 firmware) < 2 ^ 32
fits = omega (arith, (rw one_data_chunk at (chunks_lem firmware 4096 (omega arith)).1).0)

data-IsPlan : IsPlan 4096 8192 0 (chunks firmware 4096) (data_packet ∷ [])
data-IsPlan =
    rw one_data_chunk
      (data_request-fits 0xd4 8192 (ljust 4096 firmware) (omega arith) (omega arith) fits, tt)

abbrev later : List Event
later = reply 0xd4 (reply 0xd4 [])

abbrev before : List Event
before = reply 0xd7 (reply 0xde later)

abbrev all_replies : List Event
all_replies = reply 0xc2 (reply 0xc3 (reply 0xd2 before))

items_lem : AreItems package_world archive entries items later []
unfolding recv error_code auto_int line_eq
items_lem = (
  record {
    quoted = refl;
    value = refl;
    file = refl;
    in_order = refl;
    prefixed = true;
    prefix = refl;
    bytes = image_lem;
    packs = image-IsPlan;
  },
  reply 0xd4 [],
  rw one_chunk (0xe0, [], reply 0xd4 [], refl, refl, refl),
  (
    record {
      quoted = refl;
      value = refl;
      file = refl;
      in_order = refl;
      prefixed = false;
      prefix = refl;
      bytes = refl;
      packs = data-IsPlan;
    },
    [],
    rw one_data_chunk (0xe0, [], [], refl, refl, refl),
    refl,
  ),
)

abbrev pub loading : Loading
loading = record {
  isp = requests.isp;
  boot = requests.boot;
  refusals = 0;
  change = none;
  refusals' = 0;
}

starts : Starts package_world (settle package_args) (codes "ttyUSB1")
unfolding choose_port line_eq settle
starts = record { found_port = refl; opens = refl; no_onlyterm = refl; no_bootloader = refl }

unpacks : Unpacks package_world (settle package_args) archive entries
unfolding format_of line_eq settle
unpacks = record {
  no_sram = refl;
  no_erase = refl;
  no_read = refl;
  no_terminal = refl;
  content = codes "PK";
  file = refl;
  format = refl;
  unzips = refl;
  list = list_text;
  listed = refl;
  entries = refl;
}

packs_loader : PacksLoader package_world (settle package_args) loading
unfolding settle
packs_loader = record { isp = packs.isp; boot = boot_lem; change = refl }

-- The board brings up the second loader, whatever follows.
pub answers_loader :
    (w : World) (later : List Event)
    → chunks w.isp_prog 1024 ≡ (7 ∷ 8 ∷ 9 ∷ []) ∷ []
    → AnswersLoader w loading (reply 0xc2 (reply 0xc3 (reply 0xd2 later))) later
unfolding recv isp_parse isp_operation operation error_code isp_error_code
answers_loader w later one = record {
  e1 = reply 0xc3 (reply 0xd2 later);
  e2 = reply 0xd2 later;
  e3 = reply 0xd2 later;
  e4 = later;
  hello = 0xc2 ∷ 0xe0 ∷ [];
  op = 0xc2;
  reason = 0xe0;
  said = [];
  greets = refl;
  parses = refl;
  accepts = rw one ([], reply 0xd2 later, refl, refl);
  few = omega arith;
  refuses = refl;
  text = [];
  wakes = refl;
  regreets = refl;
}

answers_init : AnswersInit before later
unfolding recv
answers_init = record {
  mid = reply 0xde later;
  text = [];
  ready = refl;
  chip = 0xde ∷ 0xe0 ∷ [];
  names_chip = refl;
}

process-Unpacks_example :
    (process package_world package_args (loader all_replies) ≡ (
      record (loader []) {
        tool_killed = false;
        kill_process = false;
        baudrate = 115200;
        sent =
            loading_frames loading
            ++ (frame init_request ∷ bare_frame 0xde ∷ map frame (packets_of items));
        actions = resets (settle_board unset);
      },
      ok tt,
    ))
    × All IsStored items
unfolding settle
process-Unpacks_example =
    process-Unpacks package_world package_args (codes "ttyUSB1") archive entries items loading
      init_request (loader all_replies) before later [] starts unpacks packs_loader init_lem
      (answers_loader package_world before isp_chunks) answers_init items_lem
