-- ===== src/Process/Stall.antt =====
-- `KTool.process` behind the opening of the port keeps a property of the loader.
use user_basic.Ktool.Transfer.{chunks, chunk_size_of}
use user_basic.Base.{
  ℕ, zero, suc, Bool, true, false, Option, none, some, List, [], ◌∷◌, Line, codes, length,
}
use user_basic.Ktool.Slip.{Bytes}
use user_basic.Ktool.Reset.{Action}
use user_basic.Ktool.Port.{
  Loader, Failure, stalled, timed_out, no_file, bad_zip, bad_value, bad_type, bad_struct, exit, Res,
  ok, err, Io, ◌>>◌, line_actions, no_key, no_port,
}
use user_basic.Ktool.Greeting.{greeting}
use user_basic.Ktool.Stall.{
  StallsDry, DryStall, IsRaised, stall_rules, StallsDry-raise, StallsDry-pure, StallsDry-bind,
  StallsDry-if, raise_exception-StallsDry, dry_if, check_kill_exit-StallsDry,
}
use user_basic.Ktool.Stall.Operations.{
  greeting-StallsDry, flash_greeting-StallsDry, init_flash-StallsDry, boot-StallsDry,
  set_baudrate-StallsDry, change_baudrate-StallsDry, flash_erase-StallsDry,
}
use user_basic.Ktool.Stall.Install.{install_flash_bootloader-StallsDry}
use user_basic.Ktool.Stall.Data.{
  flash_firmware-StallsDry, read_flash-StallsDry, load_elf_to_sram-StallsDry, flash_image-StallsDry,
  store_dump-StallsDry,
}
use user_basic.Process.Args.{Board, Args}
use user_basic.Process.FlashList.{Address, text, number, FlashEntry, quote_addresses}
use user_basic.Base.Int.{ℤ, pos, negsuc}
use user_basic.Base.Number.{auto_int}
use user_basic.Process.World.{World, Format, fmt_binary, fmt_elf, fmt_kfpkg}
use user_basic.Process.Detect.{
  tool_check, untimed, try_reset, tries, try_all, greeted, round, detect_loop, detect, after_round,
}
use user_basic.Process.Flow.{
  open_terminal, when, of_file, load_isp, run_sram, run_read, flash_entries, flash_archive,
  with_key, Unzipped, of_integer, of_address, run_flash, close_port, run_job, of_port, flash_at,
  refused_chunks, or_false,
}

pub of_port-StallsDry : (o : Option Line) → StallsDry (of_port o)
unfolding of_port
of_port-StallsDry none = raise_exception-StallsDry no_port tt
of_port-StallsDry (some port) = StallsDry-pure port

pub of_file-StallsDry :
    {A : Type 0} (e : Failure) (o : Option A) → IsRaised e → StallsDry (of_file e o)
unfolding of_file
of_file-StallsDry e none h = StallsDry-raise e h
of_file-StallsDry e (some a) h = StallsDry-pure a

pub tool_check-StallsDry : StallsDry tool_check
unfolding tool_check
tool_check-StallsDry = record { at = λ l. dry_if l.tool_killed _ _ (λ _. tt) tt }

untimed-StallsDry : {A : Type 0} (r : Loader × Res A) → DryStall r → DryStall (untimed r)
unfolding untimed
untimed-StallsDry (l, ok a) h = tt
untimed-StallsDry (l, err timed_out) h = tt
untimed-StallsDry (l, err stalled) h = h
untimed-StallsDry (l, err _) h = tt

greeted-StallsDry : {A : Type 0} (r : Loader × Res A) → DryStall r → DryStall (greeted r)
unfolding greeted
greeted-StallsDry (l, ok a) h = tt
greeted-StallsDry (l, err stalled) h = h
greeted-StallsDry (l, err (exit n)) h = tt
greeted-StallsDry (l, err _) h = tt

after_round-StallsDry :
    (again : Io Board) (found : Option Board)
    → StallsDry again
    → StallsDry (after_round again found)
unfolding after_round
after_round-StallsDry again none h = h
after_round-StallsDry again (some b) h = StallsDry-pure b

pub when-StallsDry : (b : Bool) (m : Io (Unit {0})) → StallsDry m → StallsDry (when b m)
unfolding when
when-StallsDry true m h = h
when-StallsDry false m h = StallsDry-pure tt

pub load_isp-StallsDry : (w : World) (a : Args) (b : Board) → StallsDry (load_isp w a b)
unfolding load_isp
load_isp-StallsDry w a b =
    search
      (
        stall_rules, of_file-StallsDry, install_flash_bootloader-StallsDry, boot-StallsDry,
        set_baudrate-StallsDry, flash_greeting-StallsDry, change_baudrate-StallsDry, when-StallsDry,
      )
      depth 12

of_integer-StallsDry : (o : Option ℤ) → StallsDry (of_integer o)
unfolding of_integer
of_integer-StallsDry none = StallsDry-raise bad_value tt
of_integer-StallsDry (some n) = StallsDry-pure n

of_address-StallsDry : (address : Address) → StallsDry (of_address address)
unfolding of_address
of_address-StallsDry (number n) = StallsDry-raise bad_type tt
of_address-StallsDry (text s) = of_integer-StallsDry (auto_int s)

flash_at-StallsDry :
    (w : World) (content : Bytes) (address : ℤ) (prefix swap : Bool)
    → StallsDry (flash_at w content address prefix swap)
unfolding flash_at refused_chunks
flash_at-StallsDry w content (pos n) prefix swap = flash_firmware-StallsDry _ _ _ _ _ _ _ _ _
flash_at-StallsDry w content (negsuc n) prefix swap =
    StallsDry-bind _ _ (flash_image-StallsDry _ _ _ _ _)
      (λ image. go (chunks image (chunk_size_of (length image))))
  where
    go : (cs : List Bytes) → StallsDry (refused_chunks cs)
    go [] = StallsDry-pure tt
    go (c ∷ cs) = StallsDry-bind _ _ check_kill_exit-StallsDry (λ _. StallsDry-raise bad_struct tt)

flash_entries-StallsDry :
    (w : World) (z : Unzipped) (es : List FlashEntry) → StallsDry (flash_entries w z es)
unfolding flash_entries
flash_entries-StallsDry w z [] = StallsDry-pure tt
flash_entries-StallsDry w z (e ∷ es) = StallsDry-bind _ _ tool_check-StallsDry (λ _.
    StallsDry-bind _ _ (of_address-StallsDry e.address) (λ address.
      StallsDry-bind _ _ (of_file-StallsDry no_file (z e.bin) tt) (λ content.
        StallsDry-bind _ _ (of_file-StallsDry no_key e.sha256_prefix tt) (λ prefix.
          StallsDry-bind _ _ (flash_at-StallsDry w content address prefix (or_false e.swap))
            (λ _. flash_entries-StallsDry w z es)))))

flash_archive-StallsDry : (w : World) (z : Option Unzipped) → StallsDry (flash_archive w z)
unfolding flash_archive
flash_archive-StallsDry w none = raise_exception-StallsDry bad_zip tt
flash_archive-StallsDry w (some z) =
    StallsDry-bind _ _ (of_file-StallsDry no_file (z (codes "flash-list.json")) tt) (λ list.
      StallsDry-bind _ _ (of_file-StallsDry bad_value (w.json_files (quote_addresses list)) tt)
        (λ files. flash_entries-StallsDry w z files))

with_key-StallsDry :
    (w : World) (a : Args) (content : Bytes) (key : Option Line)
    → StallsDry (with_key w a content key)
unfolding with_key
with_key-StallsDry w a content none = flash_firmware-StallsDry _ _ _ _ _ _ _ _ _
with_key-StallsDry w a content (some hex) = search (
  stall_rules, of_file-StallsDry, when-StallsDry, raise_exception-StallsDry,
  flash_firmware-StallsDry,
)

pub run_flash-StallsDry :
    (w : World) (a : Args) (file : Option Bytes) (f : Format) → StallsDry (run_flash w a file f)
unfolding run_flash
run_flash-StallsDry w a file fmt_kfpkg = flash_archive-StallsDry w (w.unzip a.firmware)
run_flash-StallsDry w a file fmt_elf = search (stall_rules, of_file-StallsDry, with_key-StallsDry)
run_flash-StallsDry w a file fmt_binary =
    search (stall_rules, of_file-StallsDry, with_key-StallsDry)

close_port-StallsDry : StallsDry close_port
unfolding close_port
close_port-StallsDry = record { at = λ l. tt }

line_actions-StallsDry : (added : List Action) → StallsDry (line_actions added)
unfolding line_actions
line_actions-StallsDry added = record { at = λ l. tt }

try_reset-StallsDry : (reset : List Action) → StallsDry (try_reset reset)
unfolding try_reset
try_reset-StallsDry reset = record { at = λ l. untimed-StallsDry _ (both.at l) }
  where
    both : StallsDry (line_actions reset >> greeting)
    both = search (stall_rules, line_actions-StallsDry, greeting-StallsDry)

try_all-StallsDry : (ts : List (List Action × Board)) → StallsDry (try_all ts)
unfolding try_all
try_all-StallsDry [] = StallsDry-pure none
try_all-StallsDry ((reset, b) ∷ rest) =
    StallsDry-bind _ _ (try_reset-StallsDry reset)
      (λ done. StallsDry-if done _ _ (StallsDry-pure (some b)) (try_all-StallsDry rest))

round-StallsDry : (b : Board) → StallsDry (round b)
unfolding round
round-StallsDry b = record { at = λ l. greeted-StallsDry _ ((try_all-StallsDry (tries b)).at l) }

detect_loop-StallsDry : (n : ℕ) (b : Board) → StallsDry (detect_loop n b)
unfolding detect_loop
detect_loop-StallsDry zero b = search (stall_rules, tool_check-StallsDry)
detect_loop-StallsDry (suc n) b = StallsDry-bind _ _ (tool_check-StallsDry) (λ _.
    StallsDry-bind _ _ (round-StallsDry b)
      (λ found. after_round-StallsDry _ found (detect_loop-StallsDry n b)))

pub detect-StallsDry : (b : Board) → StallsDry (detect b)
unfolding detect
detect-StallsDry b = detect_loop-StallsDry 15 b

pub open_terminal-StallsDry :
    (w : World) (reset : Bool) (a : Args) → StallsDry (open_terminal w reset a)
unfolding open_terminal
open_terminal-StallsDry w reset a = search (stall_rules, line_actions-StallsDry)

run_sram-StallsDry :
    (w : World) (a : Args) (file : Option Bytes) (f : Format) → StallsDry (run_sram w a file f)
unfolding run_sram
run_sram-StallsDry w a file fmt_kfpkg = StallsDry-raise (exit 1) tt
run_sram-StallsDry w a file fmt_elf = search (
  stall_rules, of_file-StallsDry, load_elf_to_sram-StallsDry, when-StallsDry,
  open_terminal-StallsDry,
)
run_sram-StallsDry w a file fmt_binary = search (
  stall_rules, of_file-StallsDry, flash_firmware-StallsDry, when-StallsDry, open_terminal-StallsDry,
)

run_read-StallsDry : (w : World) (a : Args) → StallsDry (run_read w a)
unfolding run_read
run_read-StallsDry w a = search (stall_rules, read_flash-StallsDry, store_dump-StallsDry)

pub run_job-StallsDry :
    (w : World) (a : Args) (b : Board) (file : Option Bytes) (f : Format)
    → StallsDry (run_job w a b file f)
unfolding run_job
run_job-StallsDry w a b file f =
    search
      (
        stall_rules, when-StallsDry, run_sram-StallsDry, init_flash-StallsDry,
        flash_erase-StallsDry, run_read-StallsDry, run_flash-StallsDry, line_actions-StallsDry,
        close_port-StallsDry, open_terminal-StallsDry,
      )
      depth 14
