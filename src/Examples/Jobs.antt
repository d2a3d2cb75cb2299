-- ===== src/Examples/Jobs.antt =====
-- Runs of ktool.py with `--erase` and with `--read`.
use user_basic.Base.{
  ℕ, ◌*◌, true, some, List, [], ◌∷◌, ◌++◌, map, ◌≡◌, refl, sym, arith, length, length-replicate,
  codes, line_eq,
}
use mathlib.Core.List.{append-nil}
use user_basic.Ktool.Slip.{Bytes, late, silent, byte, frame, Event, recv}
use user_basic.Ktool.Slip.RoundTrip.{on_wire, recv-frame}
use user_basic.Ktool.Response.{
  isp_parse, isp_operation, operation, error_code, isp_error_code, flash_parse,
}
use user_basic.Ktool.Port.{err, exit}
use user_basic.Ktool.Greeting.{bare_frame, words_request}
use user_basic.Ktool.Packet.{request, pack_u32, crc32}
use user_basic.Ktool.Memory.{read_size}
use user_basic.Ktool.Memory.Read.{Replies}
use user_basic.Process.Args.{Args, settle}
use user_basic.Process.World.{choose_port}
use user_basic.Process.Flow.{process, status}
use user_basic.Process.Progress.{process-ends}
use user_basic.Process.Front.{Starts, Loading, PacksLoader, AnswersLoader}
use user_basic.Process.Unpack.{AnswersInit}
use user_basic.Process.Jobs.{ended, process-Erases, process-Reads}
use user_basic.Examples.Running.{
  world, arguments, reply, loader, init_request, boot_lem, init_lem, or_none, packs, isp_chunks,
}
use user_basic.Examples.Package.{loading, answers_loader}
use user_basic.Examples.Reading.{block, head, request_bytes, request_packed}

abbrev erase_args : Args
erase_args = record (arguments (codes "k210.bin")) { erase = true; baudrate = 921600 }

abbrev read_args : Args
read_args = record (arguments (codes "k210.bin")) { read = true; rdlen = 4096 }

abbrev before : List Event → List Event
before later = reply 0xd7 (reply 0xde later)

abbrev all_replies : List Event → List Event
all_replies later = reply 0xc2 (reply 0xc3 (reply 0xd2 (before later)))

-- The board refuses the erase.
abbrev refusal : List Event
refusal = on_wire (0xc0 ∷ 0xd3 ∷ 0xe1 ∷ 0xc0 ∷ []) []

erase_starts : Starts world (settle erase_args) (codes "ttyUSB1")
unfolding choose_port line_eq settle
erase_starts = record { found_port = refl; opens = refl; no_onlyterm = refl; no_bootloader = refl }

read_starts : Starts world (settle read_args) (codes "ttyUSB1")
unfolding choose_port line_eq settle
read_starts = record { found_port = refl; opens = refl; no_onlyterm = refl; no_bootloader = refl }

packs_loader : PacksLoader world (settle read_args) loading
unfolding settle
packs_loader = record { isp = packs.isp; boot = boot_lem; change = refl }

-- The request for the rate 921600.
change_request : Bytes
unfolding words_request request
change_request = or_none (words_request 0xd6 (0 ∷ 4 ∷ 921600 ∷ []))

change_lem : words_request 0xd6 (0 ∷ 4 ∷ 921600 ∷ []) ≡ some change_request
unfolding words_request request change_request pack_u32 crc32
change_lem = refl

abbrev fast : Loading
fast = record loading { change = some change_request; refusals' = 0 }

packs_fast : PacksLoader world (settle erase_args) fast
unfolding settle
packs_fast = record { isp = packs.isp; boot = boot_lem; change = (refl, change_lem) }

-- The replies with the change of the rate.
abbrev fast_replies : List Event → List Event
fast_replies later = reply 0xc2 (reply 0xc3 (reply 0xd2 (reply 0xd2 (before later))))

answers_fast : (later : List Event) → AnswersLoader world fast (fast_replies later) (before later)
unfolding recv isp_parse isp_operation operation error_code isp_error_code
answers_fast later = record {
  e1 = reply 0xc3 (reply 0xd2 (reply 0xd2 (before later)));
  e2 = reply 0xd2 (reply 0xd2 (before later));
  e3 = reply 0xd2 (reply 0xd2 (before later));
  e4 = reply 0xd2 (before later);
  hello = 0xc2 ∷ 0xe0 ∷ [];
  op = 0xc2;
  reason = 0xe0;
  said = [];
  greets = refl;
  parses = refl;
  accepts = rw isp_chunks ([], reply 0xd2 (reply 0xd2 (before later)), refl, refl);
  few = omega arith;
  refuses = refl;
  text = [];
  wakes = refl;
  regreets = (omega arith, reply 0xd2 (before later), [], refl, refl);
}

answers_init : (later : List Event) → AnswersInit (before later) later
unfolding recv
answers_init later = record {
  mid = reply 0xde later;
  text = [];
  ready = refl;
  chip = 0xde ∷ 0xe0 ∷ [];
  names_chip = refl;
}

process-Erases_example : process world erase_args (loader (fast_replies refusal)) ≡ (
  ended
      (settle erase_args)
      fast
      init_request
      (bare_frame 0xd3 ∷ [])
      []
      (loader (fast_replies refusal)),
  err (exit 0),
)
unfolding recv flash_parse operation error_code
process-Erases_example =
    process-Erases world erase_args (codes "ttyUSB1") fast init_request
      (loader (fast_replies refusal)) (before refusal) refusal [] (0xd3 ∷ 0xe1 ∷ []) [] 0xd3 0xe1
      0xe1 erase_starts refl refl packs_fast init_lem (answers_fast refusal) (answers_init refusal)
      refl refl refl

abbrev dump_reply : List Event
dump_reply = on_wire (frame (head ++ block)) []

block-Replies : Replies 4096 1 dump_reply [] block
block-Replies = (
  head,
  block,
  [],
  [],
  refl,
  length-replicate {A = ℕ} 4096 0xff,
  recv-frame [] (head ++ block) [] tt,
  sym (append-nil block),
  (refl, refl),
)

process-Reads_example :
    (process world read_args (loader (all_replies dump_reply)) ≡ (
      record (ended
          (settle read_args)
          loading
          init_request
          (map frame (request_bytes ∷ []))
          []
          (loader (all_replies dump_reply))) { dump = some block },
      err (exit 0),
    ))
    × (length block ≡ 1 * read_size 4096)
process-Reads_example =
    process-Reads world read_args (codes "ttyUSB1") loading init_request
      (loader (all_replies dump_reply)) (before dump_reply) dump_reply [] 1 block
      (request_bytes ∷ []) read_starts refl refl refl (omega arith) (omega arith) refl packs_loader
      init_lem (answers_loader world (before dump_reply) isp_chunks) (answers_init dump_reply)
      (omega arith) (omega arith) (request_packed, tt) block-Replies

-- A board that sends something else, and then nothing.
abbrev noise : List Event
noise = silent ∷ byte 7 ∷ byte 0xc0 ∷ byte 0xc2 ∷ late ∷ []

process-ends_example : (n : ℕ) × (status (process world erase_args (loader noise)).1 ≡ some n)
process-ends_example = process-ends world erase_args (loader noise) refl
