-- ===== src/Process/Command.antt =====
-- ktool.py: the command line of `KTool.process`, with argparse as a parameter.
pub mod Defaults
use mathlib.Core.Option
use user_basic.Base.{ℕ, Bool, true, false, Option, none, some, List, [], ◌∷◌, Line, codes}
use user_basic.Base.Int.{ℤ, pos, negsuc}
use user_basic.Base.Number.{parse_int, auto_int}
use user_basic.Process.Args.{Args, board_of}

-- What an attribute of the namespace holds; `absent` is None.
pub data Value : Type 0 where
  text : Line → Value
  number : ℤ → Value
  flag : Bool → Value
  absent : Value

-- What an option takes: a text, one that `int` or `auto_int` converts, or nothing.
pub data Kind : Type 0 where
  a_text an_int an_auto_int a_flag the_version : Kind

-- One call of `add_argument`: the letter of an option, its long name, which is that of the
-- attribute, its kind and its default; or an argument without dashes, which may be left out.
pub data Argument : Type 0 where
  option : Option ℕ → Line → Kind → Value → Argument
  positional : Line → Value → Argument

unfoldable pub arguments : List Argument
arguments =
    option (some b'p') (codes "port") a_text (text (codes "DEFAULT"))
    ∷ option (some b'b') (codes "baudrate") an_int (number (pos 115200))
    ∷ option (some b'l') (codes "bootloader") a_text absent
    ∷ option (some b'k') (codes "key") a_text absent
    ∷ option (some b'v') (codes "version") the_version absent
    ∷ option none (codes "verbose") a_flag (flag false)
    ∷ option (some b't') (codes "terminal") a_flag (flag false)
    ∷ option (some b'n') (codes "noansi") a_flag (flag false)
    ∷ option (some b's') (codes "sram") a_flag (flag false)
    ∷ option (some b'B') (codes "Board") a_text absent
    ∷ option (some b'S') (codes "Slow") a_text (flag false)
    ∷ option (some b'a') (codes "address") an_auto_int (number (pos 0))
    ∷ option none (codes "swapendian") a_flag (flag false)
    ∷ option (some b'E') (codes "erase") a_flag (flag false)
    ∷ option (some b'R') (codes "read") a_flag (flag false)
    ∷ option (some b'L') (codes "rdlen") an_auto_int (number (pos 0))
    ∷ option none (codes "termbdr") an_int (number (pos 115200))
    ∷ option none (codes "nosha") a_flag (flag false)
    ∷ option none (codes "mpyterm") a_flag (flag false)
    ∷ option (some b'T') (codes "onlyterm") a_flag (flag false)
    ∷ option none (codes "reset") a_flag (flag false)
    ∷ positional (codes "firmware") (text (codes "flash_dump.bin"))
    ∷ []

-- The `type` of an argument on the text behind it; `none` is its `ValueError`, and stands for an
-- option that takes no text.
unfoldable pub converted : Kind → Line → Option Value
converted a_text s = some (text s)
converted an_int s = Option.map number (parse_int s)
converted an_auto_int s = Option.map number (auto_int s)
converted a_flag s = none
converted the_version s = none

-- The attributes that `parse_args` sets, or the status with which it exits.
abbrev pub Namespace : Type 0
Namespace = Line → Value

pub data Parsed : Type 0 where
  exits : ℕ → Parsed
  values : Namespace → Parsed

-- An attribute that must hold a text, a number that is not negative, or a Boolean.
text_of : Value → Option Line
text_of (text s) = some s
text_of v = none

number_of : Value → Option ℕ
number_of (number (pos n)) = some n
number_of v = none

flag_of : Value → Option Bool
flag_of (flag b) = some b
flag_of v = none

-- One that may be None.
given_of : Value → Option (Option Line)
given_of (text s) = some (some s)
given_of absent = some none
given_of v = none

infixl 5 ◌>>=◌
abbrev ◌>>=◌ : {A B : Type 0} → Option A → (A → Option B) → Option B
o >>= f = Option.bind o f

-- The namespace as the tool reads it. It reads neither `verbose` nor `Slow`.
unfoldable pub args_of : Namespace → Option Args
unfolding text_of number_of flag_of given_of Option.bind
args_of v = do
  port ← text_of (v (codes "port"))
  baudrate ← number_of (v (codes "baudrate"))
  bootloader ← given_of (v (codes "bootloader"))
  key ← given_of (v (codes "key"))
  terminal ← flag_of (v (codes "terminal"))
  noansi ← flag_of (v (codes "noansi"))
  sram ← flag_of (v (codes "sram"))
  board ← given_of (v (codes "Board"))
  address ← number_of (v (codes "address"))
  swapendian ← flag_of (v (codes "swapendian"))
  erase ← flag_of (v (codes "erase"))
  read ← flag_of (v (codes "read"))
  rdlen ← number_of (v (codes "rdlen"))
  termbdr ← number_of (v (codes "termbdr"))
  nosha ← flag_of (v (codes "nosha"))
  mpyterm ← flag_of (v (codes "mpyterm"))
  onlyterm ← flag_of (v (codes "onlyterm"))
  reset ← flag_of (v (codes "reset"))
  firmware ← text_of (v (codes "firmware"))
  some (record {
    port = port;
    baudrate = baudrate;
    bootloader = bootloader;
    key = key;
    terminal = terminal;
    noansi = noansi;
    sram = sram;
    board = board_of board;
    address = address;
    swapendian = swapendian;
    erase = erase;
    read = read;
    rdlen = rdlen;
    termbdr = termbdr;
    nosha = nosha;
    mpyterm = mpyterm;
    onlyterm = onlyterm;
    reset = reset;
    firmware = firmware;
  })

-- What follows the command line: a run, the exit of argparse, or a negative number, which the
-- record `Args` does not hold.
pub data Command : Type 0 where
  runs : Args → Command
  stops : ℕ → Command
  negative : Command

command_of : Option Args → Command
command_of none = negative
command_of (some a) = runs a

after_parsing : Parsed → Command
unfolding args_of command_of
after_parsing (exits n) = stops n
after_parsing (values v) = command_of (args_of v)

-- `parser.parse_args()` on the arguments of the process.
unfoldable pub command : (List Argument → List Line → Parsed) → List Line → Command
unfolding arguments after_parsing
command parse argv = after_parsing (parse arguments argv)
