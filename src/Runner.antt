-- ===== src/Runner.antt =====
-- user/src/oscomp/test_runner.py: the serial log is cut into the logs of the tests.
pub mod Blocks
pub mod Grade
pub mod Names
pub mod Last
pub mod Discover
pub mod Suite
use mathlib.Core.Option
use user_basic.Base.{
  ℕ, Bool, true, false, ◌||◌, Option, none, some, List, [], ◌∷◌, ◌++◌, map, Line, codes, line_eq,
  contains, split, replace, is_nil, if◌then◌else◌,
}
use user_basic.TestBase.{TestBase, Report, start, get_result}

-- `get_runner(name).start(data)`, where the dict `runner` refers to the objects of `tests`: of two
-- objects with one name it has the later one. `none` is the `KeyError` of an unknown name.
unfoldable pub start_named : Line → List Line → List TestBase → Option (List TestBase)
start_named name log [] = none
start_named name log (t ∷ ts) = elim (start_named name log ts) [
  | some ts' ↦ some (t ∷ ts')
  | none ↦ if line_eq t.name name then some (start log t ∷ ts) else none
]

-- The variable `state`: 0 while a start line is sought, 1 between a start and an end line.
pub data Mode : Type 0 where
  seeking inside : Mode

-- The variables of the loop, with the objects that it starts. `None` is no name of a test.
pub record Loop : Type 0 where
  pub test_name : Option Line
  pub state : Mode
  pub log : List Line
  pub tests : List TestBase

abbrev pub start_mark : Line
start_mark = codes "========== START "

abbrev pub end_mark : Line
end_mark = codes "========== END "

-- `line.replace("=", '').replace(" ", "").replace("START", "")`
unfoldable pub name_of : Line → Line
name_of line = replace (codes "START") [] (replace (codes " ") [] (replace (codes "=") [] line))

start_current : Option Line → List Line → List TestBase → Option (List TestBase)
start_current none log ts = none
start_current (some name) log ts = start_named name log ts

abbrev opened : Line → List TestBase → Loop
opened name ts = record { test_name = some name; state = inside; log = []; tests = ts }

-- A start line. Data left over from a test without an end line would go to the new test.
unfoldable pub open_block : Loop → Line → Option Loop
open_block l name =
    if is_nil l.log
    then some (opened name l.tests)
    else Option.map (opened name) (start_named name l.log l.tests)

-- The body of the loop for one line.
unfoldable pub step_in : Mode → Loop → Line → Option Loop
unfolding start_current open_block
step_in seeking l line = if contains start_mark line then open_block l (name_of line) else some l
step_in inside l line =
    if contains end_mark line
    then Option.map (λ ts. record l { state = seeking; log = []; tests = ts })
        (start_current l.test_name l.log l.tests)
    else some (record l { log = l.log ++ line ∷ [] })

-- `line in ('', '\n')`
abbrev pub blank : Line → Bool
blank line = line_eq line [] || line_eq line (codes "\n")

unfoldable pub step : Loop → Line → Option Loop
unfolding step_in
step l line = if blank line then some l else step_in l.state l line

unfoldable pub run : Loop → List Line → Option Loop
run l [] = some l
run l (line ∷ rest) = elim (step l line) [ some l' ↦ run l' rest | none ↦ none ]

abbrev pub initial : List TestBase → Loop
initial ts = record { test_name = none; state = seeking; log = []; tests = ts }

-- The whole script on the text of the log: the reports that it prints.
unfoldable pub grade : List TestBase → Line → Option (List Report)
unfolding run step
grade ts serial_out =
    Option.map (λ (l : Loop). map get_result l.tests) (run (initial ts) (split b'\n' serial_out))
