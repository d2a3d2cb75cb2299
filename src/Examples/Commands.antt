-- ===== src/Examples/Commands.antt =====
-- Command lines of ktool.py.
use user_basic.Base.{Option, none, some, List, [], ◌∷◌, Line, codes, ◌≡◌, refl}
use user_basic.Base.Number.{auto_int, digit_value}
use user_basic.Process.Args.{namespace}
use user_basic.Process.Command.{
  Value, Kind, Argument, converted, arguments, Parsed, exits, values, command, runs, stops,
}
use user_basic.Process.Command.Defaults.{
  IsBare, ReadsOption, default_call, declared, stored, stored-Stores, command-namespace,
  command-AreDigits,
}

-- A parser that reads nothing, or one option with a text.
with_value : Line → Option Value → Parsed
with_value name none = exits 2
with_value name (some x) = values (stored (some (name, x)))

with_option : Line → Option (Line × Kind) → Parsed
unfolding with_value
with_option t none = exits 2
with_option t (some (name, kind)) = with_value name (converted kind t)

one_option : List Argument → List Line → Parsed
unfolding with_option
one_option ds [] = values (stored none)
one_option ds ((dash ∷ letter ∷ []) ∷ t ∷ []) = with_option t (declared letter ds)
one_option ds _ = exits 2

one_option-IsBare : IsBare one_option
unfolding one_option
one_option-IsBare = (stored none, refl, stored-Stores none)

one_option-ReadsOption : ReadsOption one_option
unfolding one_option with_option with_value
one_option-ReadsOption letter name t kind x d dash e =
    (stored (some (name, x)), rw (d, e) refl, stored-Stores (some (name, x)))

command-namespace_example : command one_option [] ≡ runs (namespace default_call)
command-namespace_example = command-namespace one_option one_option-IsBare

command-AreDigits_example :
    command one_option (codes "-a" ∷ codes "0x8aF0" ∷ [])
    ≡ runs (record (namespace default_call) { address = 0x8af0 })
unfolding digit_value
command-AreDigits_example =
    command-AreDigits one_option b'x' b'8' 8 (codes "aF0") (10 ∷ 15 ∷ 0 ∷ []) one_option-ReadsOption
      refl refl (refl, (refl, (refl, tt)))

-- A text that is no number.
bad_address : command one_option (codes "-a" ∷ codes "0x" ∷ []) ≡ stops 2
unfolding command one_option with_option declared arguments converted auto_int
bad_address = refl
