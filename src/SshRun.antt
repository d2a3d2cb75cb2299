-- ===== src/SshRun.antt =====
-- user/src/oscomp/ssh_run.py: a board is flashed, and its serial output is recorded.
pub mod Flash
pub mod Whole
use user_basic.Base.{
  ℕ, zero, suc, ◌+◌, Bool, true, false, Option, none, some, List, [], ◌∷◌, ◌++◌, Line, codes, split,
  line_eq, replicate, contains, is_nil, if◌then◌else◌, ◌==◌,
}
use user_basic.Ktool.Reset.{Action, set_dtr, set_rts}

-- The loops `for i in range(3)`: `log i` is the text that the flash tool of round i leaves.
pub data Flashed : Type 0 where
  flashed : ℕ → Flashed
  gave_up : Flashed

abbrev pub has_error : Line → Bool
has_error = contains (codes "[ERROR]")

-- A round, with the number of rounds that may follow; `i == 2` is the last.
unfoldable pub flash_loop : (ℕ → Line) → ℕ → ℕ → Flashed
flash_loop log zero i = if has_error (log i) then gave_up else flashed i
flash_loop log (suc n) i =
    let again = flash_loop log n (i + 1) in if has_error (log i) then again else flashed i

unfoldable pub flash : (ℕ → Line) → Flashed
flash log = flash_loop log 2 0

-- A round of a loop that reads the port: whether more than 180 seconds have gone by, and the text of
-- `ss.readline()`, decoded, or its `str` where it is no UTF-8.
pub record Reading : Type 0 where
  pub late : Bool
  pub text : Line

-- How a loop ends, with the text of its file. `unread`: the readings are used up.
pub data Record : Type 0 where
  finished too_long unread : Line → Record

-- The loop of `prepare_sdcard`
unfoldable pub watch_sdcard : Line → List Reading → Record
watch_sdcard out [] = unread out
watch_sdcard out (r ∷ rs) =
    let rest = watch_sdcard (out ++ r.text) rs in
    if r.late
    then too_long (out ++ codes "Flash time too long")
    else if contains (codes "finish") r.text
    then finished (out ++ r.text ++ codes "\nFINISH\n")
    else rest

-- The loop of `ssh_run`
unfoldable pub record_serial : Line → List Reading → Record
record_serial out [] = unread out
record_serial out (r ∷ rs) =
    let rest = record_serial (out ++ r.text) rs in if is_nil r.text then finished out else rest

-- The last part of `arg.split('/')`.
abbrev last_of : Line → List Line → Line
last_of d [] = d
last_of d (part ∷ parts) = last_of part parts

unfoldable pub port_dir : Line → Line
port_dir arg = last_of [] (split b'/' arg)

-- The commands that flash the card and the firmware.
unfoldable pub flash_sdcard_cmd : Line → Line
unfolding port_dir
flash_sdcard_cmd arg =
    codes "python3 /cg/"
    ++ (port_dir arg
        ++ (codes "/ktool.py -b 3000000 -B dan /cg/"
            ++ (port_dir arg
                ++ (codes "/img.kfpkg -p "
                    ++ (arg ++ (codes " > /cg/" ++ (port_dir arg ++ codes "/sdcard_flash.txt")))))))

unfoldable pub flash_cmd : Line → Line
unfolding port_dir
flash_cmd arg =
    codes "kflash -b 3000000 -B dan /cg/"
    ++ (port_dir arg
        ++ (codes "/k210.bin -p "
            ++ (arg ++ (codes " > /cg/" ++ (port_dir arg ++ codes "/k210_flash_out.txt")))))

-- The dictionary `result`, in the order in which its keys are set.
pub data Value : Type 0 where
  text : Line → Value
  number : ℕ → Value

abbrev pub Dict : Type 0
Dict = List (Line × Value)

unfoldable pub set_item : Line → Value → Dict → Dict
set_item key v [] = (key, v) ∷ []
set_item key v ((k, u) ∷ d) =
    let rest = set_item key v d in if line_eq k key then (k, v) ∷ d else (k, u) ∷ rest

-- What the script has done: the dictionary, the commands that were run, the calls on the control
-- lines of the port, and the two files.
pub record Script : Type 0 where
  pub result : Dict
  pub commands : List Line
  pub lines : List Action
  pub sdcard_write : Line
  pub serial_out : Line

-- What it meets in one of its two halves: what each round of the flashing leaves in its file and
-- writes to the two pipes, what comes of `serial.Serial`, which is an exception or a port with what
-- its `isOpen` says, and what the port sends.
pub record Half : Type 0 where
  pub log : ℕ → Line
  pub out : ℕ → Line
  pub err : ℕ → Line
  pub opens : Option Bool
  pub readings : List Reading

-- How the script ends: with the dictionary that it prints, with a `RuntimeError`, with the
-- `SerialException` of one of its two calls of `serial.Serial`, or it still reads.
pub data Outcome : Type 0 where
  printed : Dict → Outcome
  sdcard_retries sdcard_port sdcard_too_long firmware_retries blocked : Outcome
  sdcard_exception firmware_exception : Outcome

-- `setDTR(False)`, `setRTS(True)`, `setRTS(False)`
abbrev pub reset_lines : List Action
reset_lines = set_dtr false ∷ set_rts true ∷ set_rts false ∷ []

-- The reading of the port in `ssh_run`.
of_record : Script → Record → Script × Outcome
of_record s (finished out) = (record s { serial_out = out }, printed s.result)
of_record s (too_long out) = (record s { serial_out = out }, blocked)
of_record s (unread out) = (record s { serial_out = out }, blocked)

open_firmware_port : Half → Script → Option Bool → Script × Outcome
unfolding of_record
open_firmware_port h s none = (s, firmware_exception)
open_firmware_port h s (some true) =
    of_record (record s { lines = s.lines ++ reset_lines }) (record_serial [] h.readings)
open_firmware_port h s (some false) =
    let d = set_item (codes "return_code") (number 1) (
      set_item (codes "stderr") (text (codes "OPEN Serial fail"))
        (set_item (codes "verdict") (text (codes "SerialError")) s.result)) in
    (record s { result = d }, printed d)

-- A command that was run for rounds 0 to i.
abbrev ran : ℕ → Line → Script → Script
ran n cmd s = record s { commands = s.commands ++ replicate n cmd }

run_firmware : Line → Half → Script → Flashed → Script × Outcome
unfolding open_firmware_port
run_firmware arg h s gave_up = (ran 3 (flash_cmd arg) s, firmware_retries)
run_firmware arg h s (flashed i) =
    open_firmware_port h
      (record (ran (suc i) (flash_cmd arg) s) {
        result =
            set_item (codes "ssh_run_stderr") (text (h.err i))
              (set_item (codes "ssh_run_out") (text (h.out i)) s.result);
      })
      h.opens

unfoldable pub ssh_run : Line → Half → Script → Script × Outcome
unfolding run_firmware
ssh_run arg h s = run_firmware arg h s (flash h.log)

-- The reading of the port in `prepare_sdcard`, and `ssh_run` after it.
watched : Line → Half → Script → Record → Script × Outcome
watched arg h s (finished out) = ssh_run arg h (record s { sdcard_write = out })
watched arg h s (too_long out) = (record s { sdcard_write = out }, sdcard_too_long)
watched arg h s (unread out) = (record s { sdcard_write = out }, blocked)

open_sdcard_port : Line → Half → Half → Script → Option Bool → Script × Outcome
unfolding watched
open_sdcard_port arg sd fw s none = (s, sdcard_exception)
open_sdcard_port arg sd fw s (some false) = (s, sdcard_port)
open_sdcard_port arg sd fw s (some true) =
    watched arg fw (record s { lines = s.lines ++ reset_lines }) (watch_sdcard [] sd.readings)

run_sdcard : Line → Half → Half → Script → Flashed → Script × Outcome
unfolding open_sdcard_port
run_sdcard arg sd fw s gave_up = (ran 3 (flash_sdcard_cmd arg) s, sdcard_retries)
run_sdcard arg sd fw s (flashed i) =
    open_sdcard_port arg sd fw
      (record (ran (suc i) (flash_sdcard_cmd arg) s) {
        result =
            set_item (codes "sdcard_run_stderr") (text (sd.err i))
              (set_item (codes "sdcard_run_out") (text (sd.out i)) s.result);
      })
      sd.opens

abbrev pub fresh : Script
fresh = record { result = []; commands = []; lines = []; sdcard_write = []; serial_out = [] }

-- The main program.
unfoldable pub main : Line → Half → Half → Script × Outcome
unfolding run_sdcard
main arg sd fw = run_sdcard arg sd fw fresh (flash sd.log)
