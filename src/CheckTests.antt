-- ===== src/CheckTests.antt =====
-- check_tests.py: a check of the test scripts' names and counts.
pub mod Accepts
use mathlib.Core.List.{reverse}
use user_basic.Base.{
  ℕ, zero, suc, Bool, true, false, not, ◌&&◌, ◌||◌, Option, none, some, List, [], ◌∷◌, ◌++◌, Line,
  codes, line_eq, length, get_elem?, take, is_nil, if◌then◌else◌, ◌==◌,
}
use user_basic.Base.Int.{ℤ, pos}
use user_basic.Regex.{Regex, many, whole, alnum, lit, group_digits, find_all}
use user_basic.Base.Number.{parse_int}
use user_basic.TestBase.{value_eq, int}

-- `([a-zA-Z0-9]+)`
abbrev group_alnum : Regex
group_alnum = many whole alnum ∷ []

abbrev pub name_pattern : Regex
name_pattern = group_alnum ++ lit "_test.py"

abbrev pub class_pattern : Regex
class_pattern = lit "class " ++ (group_alnum ++ lit "_test(TestBase)")

abbrev pub init_pattern : Regex
init_pattern =
    lit "super().__init__(\"" ++ (group_alnum ++ (lit "\", " ++ (group_digits ++ lit ")")))

-- A file is passed over or accepted, or the script ends with an exception.
pub data Verdict : Type 0 where
  skipped accepted : Verdict
  index_error assertion_error : Verdict

-- `file_name[-3:] != ".py"`
unfoldable pub is_python : Line → Bool
is_python file_name = line_eq (reverse (take 3 (reverse file_name))) (codes ".py")

abbrev pub permitted : Line → Bool
permitted file_name = line_eq file_name (codes "yield_test.py")

-- The two assertions.
compare_names : Line → Line → Line → Line → ℕ → Verdict
compare_names file_name class_name test_name test_count asserts =
    if line_eq class_name file_name && line_eq file_name test_name
    then (elim (parse_int test_count) [
      | none ↦ assertion_error
      | some n ↦ if value_eq (int n) (int (pos asserts)) then accepted else assertion_error
    ])
    else assertion_error

-- The matches of the file name, of the class line and of the call of `__init__`; of each the
-- first is taken.
compare_matches : List (List Line) → List (List Line) → List (List Line) → ℕ → Verdict
unfolding compare_names
compare_matches [] classes inits asserts = skipped
compare_matches ((file_name ∷ []) ∷ fs) ((class_name ∷ []) ∷ cs)
      ((test_name ∷ test_count ∷ []) ∷ is) asserts =
    compare_names file_name class_name test_name test_count asserts
compare_matches (f ∷ fs) classes inits asserts = index_error

-- One round of the loop, for a file's name and text.
unfoldable pub check_file : Line → Line → Verdict
unfolding compare_matches is_python
check_file file_name content =
    if not (is_python file_name)
    then skipped
    else if permitted file_name
    then skipped
    else compare_matches (find_all name_pattern file_name) (find_all class_pattern content)
        (find_all init_pattern content) (length (find_all (lit "self.assert_") content))

-- The loop over the directory: whether it gets to `print("OK!")`.
unfoldable pub check_tests : List (Line × Line) → Bool
check_tests [] = true
check_tests ((file_name, content) ∷ files) =
    let rest = check_tests files in
    elim (check_file file_name content) [
      | skipped ↦ rest
      | accepted ↦ rest
      | index_error ↦ false
      | assertion_error ↦ false
    ]
