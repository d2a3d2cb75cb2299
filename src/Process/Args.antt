-- ===== src/Process/Args.antt =====
-- ktool.py: the arguments of `KTool.process`.
use user_basic.Base.{ℕ, Bool, false, Option, none, some, Line, codes, line_eq, if◌then◌else◌}

-- `args.Board`: no board, one that the script knows by name, or another text.
pub data Board : Type 0 where
  unset kd233 dan bit bit_mic go_e go_d maixduino trainer : Board
  other : Line → Board

unfoldable pub board_of : Option Line → Board
board_of none = unset
board_of (some name) =
    if line_eq name (codes "kd233")
    then kd233
    else if line_eq name (codes "dan")
    then dan
    else if line_eq name (codes "bit")
    then bit
    else if line_eq name (codes "bit_mic")
    then bit_mic
    else if line_eq name (codes "goE")
    then go_e
    else if line_eq name (codes "goD")
    then go_d
    else if line_eq name (codes "maixduino")
    then maixduino
    else if line_eq name (codes "trainer")
    then trainer
    else other name

-- The namespace `args`. Addresses and lengths are not negative.
pub record Args : Type 0 where
  pub port : Line
  pub baudrate : ℕ
  pub bootloader : Option Line
  pub key : Option Line
  pub terminal : Bool
  pub noansi : Bool
  pub sram : Bool
  pub board : Board
  pub address : ℕ
  pub swapendian : Bool
  pub erase : Bool
  pub read : Bool
  pub rdlen : ℕ
  pub termbdr : ℕ
  pub nosha : Bool
  pub mpyterm : Bool
  pub onlyterm : Bool
  pub reset : Bool
  pub firmware : Line

-- The arguments of a call with `terminal=False`.
pub record Call : Type 0 where
  pub dev : Line
  pub baudrate : ℕ
  pub noansi : Bool
  pub sram : Bool
  pub board : Option Line
  pub file : Line

-- The namespace of such a call: the defaults, and then what the call gives.
unfoldable pub namespace : Call → Args
unfolding board_of
namespace c = record {
  port = c.dev;
  baudrate = c.baudrate;
  bootloader = none;
  key = none;
  terminal = false;
  noansi = c.noansi;
  sram = c.sram;
  board = board_of c.board;
  address = 0;
  swapendian = false;
  erase = false;
  read = false;
  rdlen = 0;
  termbdr = 115200;
  nosha = false;
  mpyterm = false;
  onlyterm = false;
  reset = false;
  firmware = c.file;
}

-- The two boards that are treated as a goE.
unfoldable pub settle_board : Board → Board
settle_board maixduino = go_e
settle_board bit_mic = go_e
settle_board b = b

unfoldable pub settle : Args → Args
unfolding settle_board
settle a = record a { board = settle_board a.board }
