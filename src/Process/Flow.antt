-- ===== src/Process/Flow.antt =====
-- ktool.py: the steps of `KTool.process` in their order.
use user_basic.Base.{
  ℕ, ◌+◌, ◌*◌, Bool, true, false, not, ◌||◌, Option, none, some, List, [], ◌∷◌, Line, length, ltb,
  ◌==◌, if◌then◌else◌, codes,
}
use user_basic.Ktool.Slip.{Bytes}
use user_basic.Ktool.Reset.{
  Action, miniterm, reset_to_boot_dan, reset_to_boot_kd233, reset_to_boot_maixgo,
  reset_to_boot_go_d,
}
use user_basic.Ktool.Port.{
  Failure, stalled, exit, no_port, no_serial, no_file, bad_key, bad_zip, bad_attribute, no_key,
  bad_value, bad_type, bad_struct, no_mpyterm, Res, ok, err, Io, ◌>>=◌, ◌>>◌, pure, raise, close,
  raise_exception, line_actions, check_kill_exit,
}
use user_basic.Ktool.Greeting.{
  sram_start, flash_greeting, init_flash, boot, set_baudrate, change_baudrate, flash_erase,
}
use user_basic.Ktool.Transfer.{
  install_flash_bootloader, flash_firmware, flash_image, chunks, chunk_size_of,
}
use user_basic.Ktool.Memory.{read_flash, load_elf_to_sram, store_dump}
use user_basic.Process.Args.{Board, kd233, dan, bit, trainer, go_e, go_d, Args, settle}
use user_basic.Process.World.{World, choose_port, Format, fmt_binary, fmt_elf, fmt_kfpkg, format_of}
use user_basic.Process.FlashList.{Address, text, number, FlashEntry, quote_addresses}
use user_basic.Base.Int.{ℤ, pos, negsuc}
use user_basic.Base.Number.{digit_value, auto_int}
use user_basic.Process.Detect.{tool_check, detect}

-- `open_terminal`, which ends the process.
unfoldable pub open_terminal : World → Bool → Args → Io (Unit {0})
open_terminal w reset a =
    if a.mpyterm
    then (if w.has_mpyterm then raise (exit 0) else raise no_mpyterm)
    else line_actions (miniterm a.termbdr (not reset) ∷ []) >> raise (exit 0)

unfoldable pub when : Bool → Io (Unit {0}) → Io (Unit {0})
when true m = m
when false m = pure tt

-- `MAIXLoader(port=_port, baudrate=115200)`
unfoldable pub create : World → Line → Io (Unit {0})
create w port l =
    if w.opens port
    then (record l { is_open = true; baudrate = 115200; kill_process = false }, ok tt)
    else (l, err no_serial)

-- The check of the firmware file: its bytes and its format. Without a file there are no bytes.
unfoldable pub formatted : Bytes → Option Format → Io (Option Bytes × Format)
formatted content none = raise (exit 1)
formatted content (some f) = pure (some content, f)

unfoldable pub opened_file : World → Args → Option Bytes → Io (Option Bytes × Format)
unfolding formatted
opened_file w a none = raise (exit 1)
opened_file w a (some content) = formatted content (format_of w a content)

unfoldable pub open_firmware : World → Args → Io (Option Bytes × Format)
unfolding opened_file
open_firmware w a =
    if a.erase || a.read then pure (none, fmt_binary) else opened_file w a (w.content_of a.firmware)

-- An argument that is missing or empty counts as none.
abbrev pub given : Option Line → Option Line
given none = none
given (some []) = none
given (some (c ∷ cs)) = some (c ∷ cs)

-- The ISP program, from a file if one is given.
unfoldable pub isp_of : World → Option Line → Option Bytes
isp_of w none = some w.isp_prog
isp_of w (some path) = w.content_of path

unfoldable pub of_file : {A : Type 0} → Failure → Option A → Io A
of_file e none = raise e
of_file e (some c) = pure c

abbrev pub is_go_e : Board → Bool
is_go_e go_e = true
is_go_e b = false

-- The second loader is installed and started, and the rate is set.
unfoldable pub load_isp : World → Args → Board → Io (Unit {0})
unfolding isp_of of_file
load_isp w a b = do
  image ← of_file no_file (isp_of w (given a.bootloader))
  install_flash_bootloader image
  boot sram_start
  set_baudrate 115200
  flash_greeting
  when (not (a.baudrate == 115200)) (change_baudrate (is_go_e b) a.baudrate >> flash_greeting)

-- `firmware_bin.read()`, where `firmware_bin` may be `None`.
unfoldable pub run_sram : World → Args → Option Bytes → Format → Io (Unit {0})
unfolding of_file
run_sram w a file fmt_kfpkg = raise (exit 1)
run_sram w a file fmt_elf = do
  content ← of_file bad_attribute file
  load_elf_to_sram w.sha256 w.encrypt (w.segments content)
  when a.terminal (open_terminal w false a)
  raise (exit 0)
run_sram w a file fmt_binary = do
  content ← of_file bad_attribute file
  flash_firmware w.sha256 w.encrypt content none 0 true true true false
  when a.terminal (open_terminal w false a)
  raise (exit 0)

-- `--read`: to open the file for writing empties it.
unfoldable pub run_read : World → Args → Io (Unit {0})
run_read w a =
    if ltb a.rdlen 4096 || ltb (16 * 1024 * 1024) a.rdlen
    then raise (exit 1)
    else if w.writable a.firmware
    then (do store_dump []; bytes ← read_flash a.rdlen a.address; raise (exit 0))
    else raise (exit 1)

-- A kfpkg archive: its files one after the other.
abbrev pub or_false : Option Bool → Bool
or_false none = false
or_false (some b) = b

-- `int(address, 0)`
unfoldable pub of_integer : Option ℤ → Io ℤ
of_integer none = raise bad_value
of_integer (some n) = pure n

unfoldable pub of_address : Address → Io ℤ
unfolding of_integer
of_address (number n) = raise bad_type
of_address (text s) = of_integer (auto_int s)

-- The content of the archive's files, by their names.
abbrev pub Unzipped : Type 0
Unzipped = Line → Option Bytes

-- At a negative address: the first chunk, which `struct.pack` refuses.
unfoldable pub refused_chunks : List Bytes → Io (Unit {0})
refused_chunks [] = pure tt
refused_chunks (c ∷ cs) = check_kill_exit >> raise bad_struct

-- `flash_firmware` for an entry at its address.
unfoldable pub flash_at : World → Bytes → ℤ → Bool → Bool → Io (Unit {0})
unfolding refused_chunks
flash_at w content (pos n) prefix swap =
    flash_firmware w.sha256 w.encrypt content none n prefix false true swap
flash_at w content (negsuc n) prefix swap = do
  image ← flash_image w.sha256 w.encrypt prefix none content
  refused_chunks (chunks image (chunk_size_of (length image)))

unfoldable pub flash_entries : World → Unzipped → List FlashEntry → Io (Unit {0})
unfolding of_file of_address flash_at
flash_entries w z [] = pure tt
flash_entries w z (e ∷ es) = do
  tool_check
  address ← of_address e.address
  content ← of_file no_file (z e.bin)
  prefix ← of_file no_key e.sha256_prefix
  flash_at w content address prefix (or_false e.swap)
  flash_entries w z es

unfoldable pub flash_archive : World → Option Unzipped → Io (Unit {0})
unfolding quote_addresses
flash_archive w none = raise_exception bad_zip
flash_archive w (some z) = do
  list ← of_file no_file (z (codes "flash-list.json"))
  files ← of_file bad_value (w.json_files (quote_addresses list))
  flash_entries w z files

-- `binascii.a2b_hex`; `none` is its `Error`, a `ValueError`.
hex_pair : Option ℕ → Option ℕ → Option Bytes → Option Bytes
hex_pair (some a) (some b) (some rest) = some ((16 * a + b) ∷ rest)
hex_pair _ _ _ = none

unfoldable pub a2b_hex : Line → Option Bytes
unfolding digit_value hex_pair
a2b_hex [] = some []
a2b_hex (a ∷ []) = none
a2b_hex (a ∷ b ∷ cs) = hex_pair (digit_value a) (digit_value b) (a2b_hex cs)

unfoldable pub with_key : World → Args → Bytes → Option Line → Io (Unit {0})
unfolding of_file
with_key w a content none =
    flash_firmware w.sha256 w.encrypt content none a.address (not a.nosha) false true a.swapendian
with_key w a content (some hex) = do
  key ← of_file bad_value (a2b_hex hex)
  when (not (length key == 16)) (raise_exception bad_key)
  flash_firmware w.sha256 w.encrypt content (some key) a.address (not a.nosha) false true false

unfoldable pub run_flash : World → Args → Option Bytes → Format → Io (Unit {0})
unfolding flash_archive with_key of_file
run_flash w a file fmt_kfpkg = flash_archive w (w.unzip a.firmware)
run_flash w a file format =
    of_file bad_attribute file >>= λ content. with_key w a content (given a.key)

-- The reset after a flash.
unfoldable pub boot_actions : Board → List Action
boot_actions dan = reset_to_boot_dan
boot_actions bit = reset_to_boot_dan
boot_actions trainer = reset_to_boot_dan
boot_actions kd233 = reset_to_boot_kd233
boot_actions go_e = reset_to_boot_maixgo
boot_actions go_d = reset_to_boot_go_d
boot_actions b = []

unfoldable pub close_port : Io (Unit {0})
close_port l = (close l, ok tt)

-- What follows when the second loader runs.
unfoldable pub run_job : World → Args → Board → Option Bytes → Format → Io (Unit {0})
unfolding close_port
run_job w a b file format = do
  when a.sram (run_sram w a file format)
  init_flash
  when a.erase (flash_erase >> raise (exit 0))
  when a.read (run_read w a)
  run_flash w a file format
  line_actions (boot_actions b)
  close_port
  when a.terminal (open_terminal w true a)

-- What follows the choice of a port.
unfoldable pub run_port : World → Args → Line → Io (Unit {0})
run_port w a port = do
  when a.onlyterm (open_terminal w a.reset a)
  create w port
  (file, format) ← open_firmware w a
  b ← detect a.board
  load_isp w a b
  run_job w a b file format

-- `self.killProcess = False`
unfoldable pub clear_kill : Io (Unit {0})
clear_kill l = (record l { tool_killed = false }, ok tt)

-- Without a port, `raise_exception` closes that of an earlier run.
unfoldable pub of_port : Option Line → Io Line
of_port none = raise_exception no_port
of_port (some port) = pure port

-- `KTool.process` on its arguments.
unfoldable pub process : World → Args → Io (Unit {0})
unfolding of_port settle clear_kill
process w a = do clear_kill; port ← of_port (choose_port w (settle a)); run_port w (settle a) port

-- `main`: the status of the process; `none` is a process that still waits.
unfoldable pub status : Res (Unit {0}) → Option ℕ
status (ok a) = some 0
status (err (exit n)) = some n
status (err stalled) = none
status (err e) = some 1
