-- ===== src/Process/Command/Defaults.antt =====
-- What the defaults of the command line come to.
use mathlib.Core.Option
use user_basic.Base.{
  ℕ, true, false, Option, none, some, List, [], ◌∷◌, Line, codes, line_eq, ◌≡◌, refl, ◌∙◌, sym,
  ◌==◌, ◌||◌, if◌then◌else◌,
}
use user_basic.Base.Int.{pos}
use user_basic.Base.Number.{digit_value}
use user_basic.Base.Number.Hex.{AreDigits, hex_value, auto_int-AreDigits}
use user_basic.Process.Args.{Call, namespace, board_of}
use user_basic.Process.Command.{
  Value, text, number, flag, absent, Kind, Argument, option, positional, an_auto_int, arguments,
  converted, Namespace, Parsed, values, args_of, text_of, number_of, flag_of, given_of, command_of,
  after_parsing, runs, command,
}

-- What argparse keeps for an argument, when the value `given` came with one of them.
abbrev pub kept : Option (Line × Value) → Line → Value → Value
kept none name default = default
kept (some (given, value)) name default = if line_eq given name then value else default

-- The default of an attribute that one of the arguments has.
unfoldable pub default_of : Line → List Argument → Option Value
default_of name [] = none
default_of name (option letter long kind default ∷ ds) =
    let rest = default_of name ds in if line_eq long name then some default else rest
default_of name (positional long default ∷ ds) =
    let rest = default_of name ds in if line_eq long name then some default else rest

-- A namespace that holds this for all arguments.
abbrev pub Stores : Option (Line × Value) → Namespace → Type 0
Stores given v =
    (name : Line) (default : Value)
    → default_of name arguments ≡ some default
    → v name ≡ kept given name default

-- The documentation of argparse: without any argument each attribute has its default.
abbrev pub IsBare : (List Argument → List Line → Parsed) → Type 0
IsBare parse = (v : Namespace) × (parse arguments [] ≡ values v) × Stores none v

-- The long name and the kind of the option with a letter.
unfoldable pub declared : ℕ → List Argument → Option (Line × Kind)
declared c [] = none
declared c (positional long default ∷ ds) = declared c ds
declared c (option none long kind default ∷ ds) = declared c ds
declared c (option (some letter) long kind default ∷ ds) =
    let rest = declared c ds in if letter == c then some (long, kind) else rest

-- And an option with a text that its type converts sets its own attribute only. The text must
-- not be one that starts with a dash.
abbrev pub Undashed : Line → Type 0
Undashed [] = ⊥
Undashed (c ∷ s) = (c == b'-') ≡ false

abbrev pub ReadsOption : (List Argument → List Line → Parsed) → Type 0
ReadsOption parse =
    (letter : ℕ) (name t : Line) (kind : Kind) (x : Value)
    → declared letter arguments ≡ some (name, kind)
    → Undashed t
    → converted kind t ≡ some x
    → (v : Namespace) × (parse arguments ((b'-' ∷ letter ∷ []) ∷ t ∷ []) ≡ values v)
      × Stores (some (name, x)) v

-- The call of `process` that gives what the command line has as its defaults.
abbrev pub default_call : Call
default_call = record {
  dev = codes "DEFAULT";
  baudrate = 115200;
  noansi = false;
  sram = false;
  board = none;
  file = codes "flash_dump.bin";
}

-- The namespace that has these and nothing else.
or_absent : Option Value → (Value → Value) → Value
or_absent none f = absent
or_absent (some default) f = f default

unfoldable pub stored : Option (Line × Value) → Namespace
unfolding or_absent
stored given name = or_absent (default_of name arguments) (kept given name)

pub stored-Stores : (given : Option (Line × Value)) → Stores given (stored given)
unfolding stored or_absent
stored-Stores given name default e = rw e refl

-- The tool reads no more than the attributes of the arguments.
args_of-stored :
    (given : Option (Line × Value)) (v : Namespace)
    → Stores given v
    → args_of v ≡ args_of (stored given)
unfolding args_of arguments default_of Option.bind line_eq
args_of-stored given v s =
    let at : (name : Line) (default : Value)
        → default_of name arguments ≡ some default
        → v name ≡ stored given name =
      λ name default e. s name default e ∙ sym (stored-Stores given name default e) in
    simp (
      at (codes "port") (text (codes "DEFAULT")) refl,
      at (codes "baudrate") (number (pos 115200)) refl,
      at (codes "bootloader") absent refl,
      at (codes "key") absent refl,
      at (codes "terminal") (flag false) refl,
      at (codes "noansi") (flag false) refl,
      at (codes "sram") (flag false) refl,
      at (codes "Board") absent refl,
      at (codes "address") (number (pos 0)) refl,
      at (codes "swapendian") (flag false) refl,
      at (codes "erase") (flag false) refl,
      at (codes "read") (flag false) refl,
      at (codes "rdlen") (number (pos 0)) refl,
      at (codes "termbdr") (number (pos 115200)) refl,
      at (codes "nosha") (flag false) refl,
      at (codes "mpyterm") (flag false) refl,
      at (codes "onlyterm") (flag false) refl,
      at (codes "reset") (flag false) refl,
      at (codes "firmware") (text (codes "flash_dump.bin")) refl,
    )

args_of-bare : args_of (stored none) ≡ some (namespace default_call)
unfolding args_of arguments default_of namespace board_of Option.bind text_of number_of flag_of
    given_of line_eq stored or_absent
args_of-bare = refl

args_of-address :
    (n : ℕ)
    → args_of (stored (some (codes "address", number (pos n))))
      ≡ some (record (namespace default_call) { address = n })
unfolding args_of arguments default_of namespace board_of Option.bind text_of number_of flag_of
    given_of line_eq stored or_absent
args_of-address n = refl

-- When the parser gives every attribute its default where the command line has no arguments, such a
-- command line asks for the same run as a call with terminal=False, the port "DEFAULT", 115200
-- baud, no board and the file flash_dump.bin.
pub command-namespace :
    (parse : List Argument → List Line → Parsed)
    → IsBare parse
    → command parse [] ≡ runs (namespace default_call)
unfolding command after_parsing command_of
command-namespace parse (v, e, s) = rw e (rw (args_of-stored none v s) (rw args_of-bare refl))

-- When the parser keeps what an option's type makes of the text behind it, and the defaults of the
-- other attributes, an address behind `-a`, written as `0x` or `0X` and at least one hexadecimal
-- digit of either case, reaches the run as the number that the digits make, and nothing else
-- differs from a command line without arguments.
pub command-AreDigits :
    (parse : List Argument → List Line → Parsed) (x c d : ℕ) (cs : Line) (ds : List ℕ)
    → ReadsOption parse
    → (x == b'x' || x == b'X') ≡ true
    → digit_value c ≡ some d
    → AreDigits cs ds
    → command parse (codes "-a" ∷ (b'0' ∷ x ∷ c ∷ cs) ∷ [])
      ≡ runs (record (namespace default_call) { address = hex_value 0 (d ∷ ds) })
unfolding command after_parsing command_of converted declared arguments
command-AreDigits parse x c d cs ds h hx hc hs =
    let n = hex_value 0 (d ∷ ds) in
    let (v, e, s) =
      h b'a' (codes "address") (b'0' ∷ x ∷ c ∷ cs) an_auto_int (number (pos n)) refl refl
        (rw (auto_int-AreDigits x c d cs ds hx hc hs) refl) in
    rw e (
      rw (args_of-stored (some (codes "address", number (pos n))) v s)
        (rw (args_of-address n) refl))
